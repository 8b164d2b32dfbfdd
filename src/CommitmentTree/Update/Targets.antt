-- ===== src/CommitmentTree/Update/Targets.antt =====
-- The leaves that an update of
-- crates/starknet-os/src/starkware_utils/commitment_tree/update_tree.rs is after, and what its
-- nodes have to do with them.
use native.Mathlib.Nat.{pow-suc}
use snos.Base.{
  ℕ, suc, ◌+◌, ◌-◌, ◌*◌, ◌^◌, ◌≤◌, ◌<◌, ◌≡◌, sym, ◌∙◌, ap, arith, ltb, ltb→lt, Bool-cases, Option,
  none, some, ◌⊎◌, inl, inr,
}
use snos.Base.Outcome.{Outcome, ok, err, panicked, Ends}
use snos.Base.Pow.{pow_double}
use snos.CommitmentTree.Bytes.{Hash, Crypto}
use snos.CommitmentTree.Storage.{StorageError, Storage, get_or_fail}
use snos.CommitmentTree.Nodes.{
  PatriciaNodeFact, EdgeNodeFact, empty, edge, node_object, CombineError, TreeError,
}
use snos.CommitmentTree.Context.{Context, LeafFact}
use snos.CommitmentTree.Reading.{Reading, halves}
use snos.CommitmentTree.UpdateTree.Build.{value_at, IsInduced}
use snos.CommitmentTree.VirtualNode.Leaves.{IsValid as IsValidNode, node_leaf as tree_leaf}
use snos.CommitmentTree.Calculation.{VirtualCalculationNode, combine}
use snos.CommitmentTree.Calculation.Leaves.{IsValid, node_leaf}
use snos.CommitmentTree.Calculation.Combine.{IsParent}
use snos.CommitmentTree.Calculation.Outcomes.{CombineOutcome, combine-CombineOutcome}
use snos.CommitmentTree.Update.{NodeType}
use snos.CommitmentTree.Update.Climb.{Keeping, UpdateBlame}

pub parent_target : (i h p : ℕ) → i * 2 * 2 ^ h + p ≡ i * 2 ^ suc h + p
parent_target i h p = rw (pow-suc 2 h) (omega arith)

pub parent_target_right :
    (i h p : ℕ) → 2 ^ h ≤ p → (i * 2 + 1) * 2 ^ h + (p - 2 ^ h) ≡ i * 2 ^ suc h + p
parent_target_right i h p le = rw (pow-suc 2 h) (omega arith)

-- A leaf after the modification of it, if there is one.
abbrev pub overwritten : {LF : Type 0} → LeafFact LF → Option LF → Hash → Hash
overwritten lf none old = old
overwritten lf (some fact) old = lf.hash fact

module _ {S LF : Type 0} (c : Crypto) (st : Storage S) (lf : LeafFact LF) (s : S)
    (rd : Reading c st s) where
  open rd use {Held, resolve}

  abbrev pub fetch : Hash → Outcome StorageError PatriciaNodeFact
  fetch h = get_or_fail (node_object c.biguint) st s h

  -- The store has a fact that cannot be read: the cause of an error.
  abbrev pub CombineBlame : CombineError → Type 0
  CombineBlame (CombineError.storage e) = (h : Hash) × (fetch h ≡ err e)
  CombineBlame (CombineError.tree_heights_differ a b) = ⊥
  CombineBlame CombineError.cannot_combine_to_virtual_edge_node = ⊥

  -- An empty node that is stored as a fact is refused as well.
  abbrev pub TreeBlame : TreeError → Type 0
  TreeBlame (TreeError.storage e) = (h : Hash) × (fetch h ≡ err e)
  TreeBlame (TreeError.update_tree e) = UpdateBlame CombineBlame e
  TreeBlame TreeError.is_empty = (h : Hash) × (fetch h ≡ ok empty)
  TreeBlame (TreeError.tree_heights_mismatch a b) = ⊥
  TreeBlame TreeError.is_leaf = ⊥
  TreeBlame (TreeError.invalid_edge_path a b) = ⊥

  -- The store panics, or it has an edge of length 0: the causes of a panic.
  abbrev pub Broken : Type 0
  Broken =
      (h : Hash) × ((fetch h ≡ panicked)
        ⊎ ((fact : EdgeNodeFact) × (fetch h ≡ ok (edge fact)) × (fact.edge_length ≡ 0)))

  module _ (target : ℕ → Hash) where
    -- An updated node of the index and the height.
    pub record Good (i h : ℕ) (n : VirtualCalculationNode LF) : Type 0 where
      pub valid : IsValid Held n
      pub height : n.height ≡ h
      pub leaves : (p : ℕ) → p < 2 ^ h → node_leaf lf resolve n p ≡ target (i * 2 ^ h + p)

    -- A node that is to be visited, of the index and the height.
    pub record Ready (i h : ℕ) (x : NodeType LF) : Type 0 where
      pub index : x.index ≡ i
      pub valid : IsValidNode c st s rd x.tree
      pub height : x.tree.height ≡ h
      pub induced : IsInduced h x.update
      pub leaves :
          (p : ℕ)
          → p < 2 ^ h
          → overwritten lf (value_at h x.update p) (tree_leaf c st s rd x.tree p)
            ≡ target (i * 2 ^ h + p)

    parent-Good :
        (i h : ℕ) (left right parent : VirtualCalculationNode LF)
        → Good (i * 2) h left
        → Good (i * 2 + 1) h right
        → IsParent c st lf s rd left right parent
        → Good i (suc h) parent
    parent-Good i h left right parent gl gr par = record {
      valid = par.valid;
      height = omega (arith, par.height, gr.height);
      leaves = λ p lt.
          let eh : right.height ≡ h = gr.height in
          let size : 2 ^ (h + 1) ≡ 2 ^ suc h = omega (arith, pow_double h, pow-suc 2 h) in
          let fl = node_leaf lf resolve left in
          let fr = node_leaf lf resolve right in
          let low : p < 2 ^ (right.height + 1) = rw (eh, size) lt in
          par.leaves p low ∙ ap (λ k. halves fl fr k p) eh ∙ elim (Bool-cases (ltb p (2 ^ h))) [
            | inl e ↦ rw e (gl.leaves p (ltb→lt p _ e) ∙ ap target (parent_target i h p))
            | inr e ↦ rw e (
                gr.leaves (p - 2 ^ h) (ground (arith, size, pow_double h))
                ∙ ap target (parent_target_right i h p (ground arith)))
          ];
    }

    ended :
        (i h : ℕ) (left right : VirtualCalculationNode LF)
        (o : Outcome CombineError (VirtualCalculationNode LF × Context S))
        → Good (i * 2) h left
        → Good (i * 2 + 1) h right
        → CombineOutcome c st lf s rd left right o
        → Ends CombineBlame Broken (Keeping (Good i (suc h)) s) o
    ended i h left right (ok (p, ctx)) gl gr v = (parent-Good i h left right p gl gr v.0.0, v.1)
    ended i h left right (err (CombineError.storage e)) gl gr v = v
    ended i h left right (err (CombineError.tree_heights_differ a b)) gl gr v = v
    ended i h left right (err CombineError.cannot_combine_to_virtual_edge_node) gl gr v = v
    ended i h left right panicked gl gr v = (v.0, inl v.1)

    pub combine-Good :
        (i h : ℕ) (left right : VirtualCalculationNode LF) (ctx : Context S)
        → Good (i * 2) h left
        → Good (i * 2 + 1) h right
        → ctx.storage ≡ s
        → Ends CombineBlame Broken (Keeping (Good i (suc h)) s) (combine c st lf left right ctx)
    combine-Good i h left right ctx gl gr es =
        ended i h left right (combine c st lf left right ctx) gl gr (
          combine-CombineOutcome c st lf s rd left right ctx gl.valid gr.valid
            (gl.height ∙ sym gr.height) es)
