-- ===== src/CommitmentTree/VirtualNode/Children.antt =====
-- The children of a node have its leaves, for `get_children` of
-- crates/starknet-os/src/starkware_utils/commitment_tree/patricia_tree/virtual_patricia_node.rs.
use native.Mathlib.Nat.{pow-suc}
use snos.Base.{
  ℕ, zero, suc, ◌-◌, ◌^◌, ◌<◌, ◌≡◌, ◌≢◌, refl, false, arith, ◌==◌, Bool-cases, inl, inr, ◌⊎◌, ◌∙◌,
}
use snos.Base.Outcome.{Outcome, ok, err, panicked}
use snos.CommitmentTree.Bytes.{Hash, empty_hash, Crypto, bytes_eq, bytes_eq→eq, bytes_eq_self}
use snos.CommitmentTree.Storage.{StorageError, Storage, get_or_fail}
use snos.CommitmentTree.Nodes.{
  PatriciaNodeFact, empty, binary, edge, EdgeNodeFact, BinaryNodeFact, node_object, TreeError,
}
use snos.CommitmentTree.Nodes.{
  is_leaf, is_empty, invalid_edge_path, tree_heights_mismatch, update_tree, storage,
}
use snos.CommitmentTree.Reading.{Reading, edge_leaf-empty}
use snos.CommitmentTree.Context.{Context, continue, lift, read_node_fact}
use snos.CommitmentTree.VirtualNode.{
  VirtualPatriciaNode, new_unchecked, empty_node, from_hash, fact_children, get_children,
  storage_error,
}
use snos.CommitmentTree.VirtualNode.Leaves.{
  read, IsValid, node_leaf, AreChildren, empty_node-IsValid, empty_node-leaf, flat-IsValid,
  flat-leaf, ChildrenOrFlat, edge_children-ChildrenOrFlat, zero_path,
}

module _ {S : Type 0} (c : Crypto) (st : Storage S) (s : S) (rd : Reading c st s) where
  open rd use {Held, resolve}

  -- A node whose fact has to be read: it is not empty, and its edge is not known.
  abbrev pub NeedsRead : VirtualPatriciaNode → Type 0
  NeedsRead node = (node.bottom_node ≢ empty_hash) × (node.length ≡ 0)

  -- All outcomes of `get_children`.
  abbrev pub ChildrenOutcome :
      VirtualPatriciaNode
      → Outcome TreeError ((VirtualPatriciaNode × VirtualPatriciaNode) × Context S)
      → Type 0
  ChildrenOutcome node (ok ((left, right), ctx)) =
      AreChildren c st s rd node left right × (ctx.storage ≡ s)
  ChildrenOutcome node (err is_leaf) = node.height ≡ 0
  ChildrenOutcome node (err is_empty) =
      NeedsRead node × (read c st s rd node.bottom_node ≡ ok empty)
  ChildrenOutcome node (err (storage e)) =
      NeedsRead node × (read c st s rd node.bottom_node ≡ err e)
  ChildrenOutcome node (err (update_tree e)) = ⊥
  ChildrenOutcome node (err (tree_heights_mismatch a b)) = ⊥
  ChildrenOutcome node (err (invalid_edge_path a b)) = ⊥
  ChildrenOutcome node panicked =
      NeedsRead node
      × ((read c st s rd node.bottom_node ≡ panicked)
          ⊎ ((fact : EdgeNodeFact) × (read c st s rd node.bottom_node ≡ ok (edge fact))
              × (fact.edge_length ≡ 0)))

  edge-ChildrenOutcome :
      (node edge_node : VirtualPatriciaNode) (ctx : Context S)
      (r : Outcome TreeError (VirtualPatriciaNode × VirtualPatriciaNode))
      → ctx.storage ≡ s
      → ChildrenOrFlat c st s rd edge_node r
      → ((left right : VirtualPatriciaNode)
          → AreChildren c st s rd edge_node left right
          → AreChildren c st s rd node left right)
      → (edge_node.length ≢ 0
          ⊎ (NeedsRead node
              × (fact : EdgeNodeFact) × (read c st s rd node.bottom_node ≡ ok (edge fact))
              × (fact.edge_length ≡ edge_node.length)))
      → ChildrenOutcome node (lift r ctx)
  edge-ChildrenOutcome node edge_node ctx (ok (left, right)) es h f w = (f left right h, es)
  edge-ChildrenOutcome node edge_node ctx (err e) es h f w = absurd h
  edge-ChildrenOutcome node edge_node ctx panicked es h f (inl ne) = absurd (ne h)
  edge-ChildrenOutcome node edge_node ctx panicked es h f (inr (needs, fact, r, e)) =
      (needs, inr (fact, r, e ∙ h))

  -- A binary fact's children.
  binary-AreChildren :
      (h : Hash) (height : ℕ) (fact : BinaryNodeFact)
      → Held h (suc height)
      → read c st s rd h ≡ ok (binary fact)
      → AreChildren c st s rd
          (from_hash h (suc height))
          (from_hash fact.left_node height)
          (from_hash fact.right_node height)
  binary-AreChildren h height fact held r =
      let both = rd.binary_fits h height fact held r in
      record {
        left_valid = flat-IsValid c st s rd fact.left_node height both.0;
        right_valid = flat-IsValid c st s rd fact.right_node height both.1;
        left_height = omega arith;
        right_height = omega arith;
        leaves = λ index hi. ground (
          arith,
          pow-suc 2 height,
          flat-leaf c st s rd h (suc height) index hi,
          rd.resolve_binary h height fact index held r hi,
          flat-leaf c st s rd fact.left_node height index,
          flat-leaf c st s rd fact.right_node height (index - 2 ^ height),
        );
      }

  -- The children of the edge that a fact holds are the node's.
  stored_edge-AreChildren :
      (h : Hash) (height : ℕ) (fact : EdgeNodeFact) (left right : VirtualPatriciaNode)
      → Held h height
      → read c st s rd h ≡ ok (edge fact)
      → AreChildren c st s rd
          (new_unchecked fact.bottom_node fact.edge_path fact.edge_length height)
          left
          right
      → AreChildren c st s rd (from_hash h height) left right
  stored_edge-AreChildren h height fact left right held r ch = record {
    left_valid = ch.left_valid;
    right_valid = ch.right_valid;
    left_height = ch.left_height;
    right_height = ch.right_height;
    leaves = λ index hi.
        flat-leaf c st s rd h height index hi
        ∙ rd.resolve_edge h height fact index held r hi
        ∙ (unfold node_leaf in ch.leaves index hi);
  }

  fact-ChildrenOutcome :
      (h : Hash) (height : ℕ) (ctx : Context S) (r : Outcome StorageError PatriciaNodeFact)
      → h ≢ empty_hash
      → Held h (suc height)
      → ctx.storage ≡ s
      → read c st s rd h ≡ r
      → get_or_fail (node_object c.biguint) st ctx.storage h ≡ r
      → ChildrenOutcome (from_hash h (suc height)) (
          continue
            (storage_error c st (read_node_fact c st h) ctx)
            (λ fact. lift (fact_children c st (from_hash h (suc height)) fact)))
  unfolding read_node_fact fact_children
  fact-ChildrenOutcome h height ctx (ok (binary fact)) ne held es r rs =
      let d : suc height - 1 ≡ height = omega arith in
      rw (rs, d) (binary-AreChildren h height fact held r, es)
  fact-ChildrenOutcome h height ctx (ok (edge fact)) ne held es r rs =
      let fits = rd.edge_fits h (suc height) fact held r in
      rw rs (
        edge-ChildrenOutcome (from_hash h (suc height))
          (new_unchecked fact.bottom_node fact.edge_path fact.edge_length (suc height)) _ _ es
          (edge_children-ChildrenOrFlat c st s rd fact.bottom_node fact.edge_path fact.edge_length
            (suc height) (record { path = fits.0; length = fits.1; bottom = fits.2 }) (omega arith))
          (λ left right ch. stored_edge-AreChildren h (suc height) fact left right held r ch)
          (inr ((ne, refl), fact, r, refl)))
  fact-ChildrenOutcome h height ctx (ok empty) ne held es r rs = rw rs ((ne, refl), r)
  fact-ChildrenOutcome h height ctx (err e) ne held es r rs = rw rs ((ne, refl), r)
  fact-ChildrenOutcome h height ctx panicked ne held es r rs = rw rs ((ne, refl), inl r)

  empty-AreChildren :
      (path n height : ℕ)
      → 0 < height
      → AreChildren c st s rd
          (new_unchecked empty_hash path n height)
          (empty_node (height - 1))
          (empty_node (height - 1))
  empty-AreChildren path n height lt = record {
    left_valid = empty_node-IsValid c st s rd (height - 1);
    right_valid = empty_node-IsValid c st s rd (height - 1);
    left_height = omega arith;
    right_height = omega arith;
    leaves = λ index hi. ground (
      arith,
      empty_leaf index,
      empty_node-leaf c st s rd (height - 1) index,
      empty_node-leaf c st s rd (height - 1) (index - 2 ^ (height - 1)),
    );
  }
    where
      empty_leaf :
          (index : ℕ)
          → node_leaf c st s rd (new_unchecked empty_hash path n height) index ≡ empty_hash
      empty_leaf index =
          unfold node_leaf in
          edge_leaf-empty (resolve empty_hash) path n height index rd.resolve_empty

  parts-ChildrenOutcome :
      (bottom : Hash) (path n height : ℕ) (ctx : Context S)
      → IsValid c st s rd (new_unchecked bottom path n height)
      → ctx.storage ≡ s
      → ChildrenOutcome
          (new_unchecked bottom path n height)
          (get_children c st (new_unchecked bottom path n height) ctx)
  unfolding get_children
  parts-ChildrenOutcome bottom path n zero ctx v es = refl
  parts-ChildrenOutcome bottom path n (suc height) ctx v es =
      let nl : (suc height == 0) ≡ false = ground arith in
      elim (Bool-cases (bytes_eq bottom empty_hash)) [
        | inl e ↦
            let b : bottom ≡ empty_hash = bytes_eq→eq bottom empty_hash e in
            rw (nl, e) (rw b (empty-AreChildren path n (suc height) (omega arith)), es)
        | inr e ↦
            let ne : bottom ≢ empty_hash = λ same. not_empty bottom same e in
            elim (Bool-cases (n == 0)) [
              | inl f ↦
                  let z : n ≡ 0 = ground arith in
                  let p : path ≡ 0 = zero_path n path z v.path in
                  let d : suc height - n ≡ suc height = omega arith in
                  rw (nl, e, f)
                    (rw (z, p)
                      (fact-ChildrenOutcome bottom height ctx (read c st s rd bottom) ne
                        (rw d at v.bottom) es refl (rw es)))
              | inr f ↦
                  rw (nl, e, f)
                    (edge-ChildrenOutcome node node ctx _ es
                      (edge_children-ChildrenOrFlat c st s rd bottom path n (suc height) v
                        (omega arith))
                      (λ l r h. h) (inl (λ z. ground arith)))
            ]
      ]
    where
      not_empty : (h : Hash) → h ≡ empty_hash → bytes_eq h empty_hash ≡ false → ⊥
      not_empty h same e =
          let self : bytes_eq empty_hash empty_hash ≡ false = rw same at e in
          absurd (cc (self, bytes_eq_self empty_hash))

      node : VirtualPatriciaNode
      node = new_unchecked bottom path n (suc height)

  -- The children of a valid node are valid nodes of the height below: the left one has the leaves
  -- of the node's left half, the right one those of the right half, and the store stays as it was.
  -- Otherwise the node is a leaf, or it is not empty, has no known edge, and its fact cannot be read, or is that of an empty node, or is
  -- that of an edge of length 0, which panics.
  pub get_children-ChildrenOutcome :
      (node : VirtualPatriciaNode) (ctx : Context S)
      → IsValid c st s rd node
      → ctx.storage ≡ s
      → ChildrenOutcome node (get_children c st node ctx)
  get_children-ChildrenOutcome node ctx v es =
      parts-ChildrenOutcome node.bottom_node node.path node.length node.height ctx v es
