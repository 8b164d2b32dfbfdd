-- ===== src/CommitmentTree/Update/Visit.antt =====
-- `get_children` of the traverser of
-- crates/starknet-os/src/starkware_utils/commitment_tree/update_tree.rs: each visit of a node keeps
-- the invariant of the traversal.
use native.Mathlib.Nat.{pow-suc}
use mathlib.Core.Path.{subst}
use snos.Base.{ℕ, suc, ◌+◌, ◌-◌, ◌*◌, ◌^◌, ◌<◌, ◌≡◌, refl, sym, ◌∙◌, ap, arith, ltb, lt→ltb, false}
use snos.Base.HashMap.{nat_eq}
use snos.CommitmentTree.Bytes.{Hash, Crypto}
use snos.CommitmentTree.Storage.{Storage}
use snos.CommitmentTree.Context.{LeafFact}
use snos.CommitmentTree.Reading.{Reading, halves}
use snos.CommitmentTree.UpdateTree.{UpdateTree, present, tuple}
use snos.CommitmentTree.UpdateTree.Build.{value_at, IsInduced}
use snos.CommitmentTree.UpdateTree.Values.{decode_node-IsInduced}
use snos.CommitmentTree.VirtualNode.{VirtualPatriciaNode}
use snos.CommitmentTree.VirtualNode.Leaves.{AreChildren, node_leaf as tree_leaf}
use snos.CommitmentTree.Update.{NodeType}
use snos.CommitmentTree.Update.Targets.{overwritten, Ready, parent_target, parent_target_right}

halves_left : (fl fr : ℕ → Hash) (h p : ℕ) → p < 2 ^ h → halves fl fr h p ≡ fl p
halves_left fl fr h p lt = rw (lt→ltb p (2 ^ h) lt) refl

halves_right : (fl fr : ℕ → Hash) (h p : ℕ) → halves fl fr h (p + 2 ^ h) ≡ fr p
halves_right fl fr h p =
    let e : ltb (p + 2 ^ h) (2 ^ h) ≡ false = ground arith in
    let back : p + 2 ^ h - 2 ^ h ≡ p = omega arith in rw (e, back) refl

value_at_left :
    {LF : Type 0} (h p : ℕ) (l r : UpdateTree LF)
    → p < 2 ^ h
    → value_at (suc h) (present (tuple l r)) p ≡ value_at h l p
value_at_left h p l r lt = rw (lt→ltb p (2 ^ h) lt) refl

value_at_right :
    {LF : Type 0} (h p : ℕ) (l r : UpdateTree LF)
    → value_at (suc h) (present (tuple l r)) (p + 2 ^ h) ≡ value_at h r p
value_at_right h p l r =
    let e : ltb (p + 2 ^ h) (2 ^ h) ≡ false = ground arith in
    let back : p + 2 ^ h - 2 ^ h ≡ p = omega arith in rw (e, back) refl

module _ {S LF : Type 0} (c : Crypto) (st : Storage S) (lf : LeafFact LF) (s : S)
    (rd : Reading c st s) (target : ℕ → Hash) where
  -- The children of a node that is to be visited are to be visited.
  pub left-Ready :
      (i h : ℕ) (x : NodeType LF) (l r : UpdateTree LF) (left right : VirtualPatriciaNode)
      → Ready c st lf s rd target i (suc h) x
      → x.update ≡ present (tuple l r)
      → AreChildren c st s rd x.tree left right
      → Ready c st lf s rd target
          (i * 2)
          h
          (record { index = 2 * x.index; tree = left; update = l })
  left-Ready i h x l r left right v e ch = record {
    index = omega (arith, v.index);
    valid = ch.left_valid;
    height = left_height;
    induced = (decode_node-IsInduced h l r (subst (IsInduced (suc h)) e v.induced)).1;
    leaves = λ p lt.
        let wide : p < 2 ^ suc h = omega (arith, pow-suc 2 h) in
        let fl = tree_leaf c st s rd left in
        let fr = tree_leaf c st s rd right in
        let same : tree_leaf c st s rd x.tree p ≡ fl p =
          ch.leaves p (rw v.height wide)
          ∙ ap (λ k. halves fl fr k p) left_height
          ∙ halves_left fl fr h p lt in
        ap (λ o. overwritten lf o (fl p)) (sym (value_at_left h p l r lt))
        ∙ ap (λ u. overwritten lf (value_at (suc h) u p) (fl p)) (sym e)
        ∙ ap (overwritten lf (value_at (suc h) x.update p)) (sym same)
        ∙ v.leaves p wide
        ∙ ap target (sym (parent_target i h p));
  }
    where
      left_height : left.height ≡ h
      left_height = omega (arith, ch.left_height, v.height)

  pub right-Ready :
      (i h : ℕ) (x : NodeType LF) (l r : UpdateTree LF) (left right : VirtualPatriciaNode)
      → Ready c st lf s rd target i (suc h) x
      → x.update ≡ present (tuple l r)
      → AreChildren c st s rd x.tree left right
      → Ready c st lf s rd target
          (i * 2 + 1)
          h
          (record { index = 2 * x.index + 1; tree = right; update = r })
  right-Ready i h x l r left right v e ch = record {
    index = omega (arith, v.index);
    valid = ch.right_valid;
    height = omega (arith, ch.right_height, v.height);
    induced = (decode_node-IsInduced h l r (subst (IsInduced (suc h)) e v.induced)).2;
    leaves = λ p lt.
        let q = p + 2 ^ h in
        let wide : q < 2 ^ suc h = omega (arith, pow-suc 2 h) in
        let fl = tree_leaf c st s rd left in
        let fr = tree_leaf c st s rd right in
        let left_height : left.height ≡ h = omega (arith, ch.left_height, v.height) in
        let back : p + 2 ^ h - 2 ^ h ≡ p = omega arith in
        let same : tree_leaf c st s rd x.tree q ≡ fr p =
          ch.leaves q (rw v.height wide)
          ∙ ap (λ k. halves fl fr k q) left_height
          ∙ halves_right fl fr h p in
        ap (λ o. overwritten lf o (fr p)) (sym (value_at_right h p l r))
        ∙ ap (λ u. overwritten lf (value_at (suc h) u q) (fr p)) (sym e)
        ∙ ap (overwritten lf (value_at (suc h) x.update q)) (sym same)
        ∙ v.leaves q wide
        ∙ ap target (
            sym (parent_target_right i h q (omega arith)) ∙ ap (λ k. (i * 2 + 1) * 2 ^ h + k) back);
  }
