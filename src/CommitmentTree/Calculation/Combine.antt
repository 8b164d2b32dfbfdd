-- ===== src/CommitmentTree/Calculation/Combine.antt =====
-- `combine` of
-- crates/starknet-os/src/starkware_utils/commitment_tree/patricia_tree/virtual_calculation_node.rs:
-- the parent's leaves are those of its children.
use mathlib.Core.Path.{subst}
use snos.Base.{
  ℕ, suc, ◌+◌, ◌-◌, ◌*◌, ◌^◌, ◌<◌, ◌≡◌, refl, Bool, true, false, arith, ltb, if◌then◌else◌,
  Bool-cases, inl, inr, ap, sym, ◌∙◌, ltb→lt,
}
use snos.Base.Pow.{pow_double}
use snos.CommitmentTree.Bytes.{empty_hash, Crypto}
use snos.CommitmentTree.Storage.{Storage}
use snos.CommitmentTree.Context.{LeafFact}
use snos.CommitmentTree.Calculation.{
  binary_calculation, VirtualCalculationNode, is_empty, is_virtual_edge, commit,
  combine_to_binary_node, edge_parent,
}
use snos.CommitmentTree.Reading.{Reading, halves, edge_leaf-zero, edge_leaf-left, edge_leaf-right}
use snos.CommitmentTree.Calculation.Leaves.{
  calculation_leaf, node_leaf, IsValidCalculation, IsValid, node_leaf-empty,
}
use snos.CommitmentTree.Calculation.Same.{SameLeaves, node_leaf-bottom}

module _ {S LF : Type 0} (c : Crypto) (st : Storage S) (lf : LeafFact LF) (s : S)
    (rd : Reading c st s) where
  open rd use {Held, resolve, held_empty, resolve_empty, edge_fits, resolve_edge}

  commit_leaves :
      (n : VirtualCalculationNode LF) (index : ℕ)
      → IsValid Held n
      → index < 2 ^ n.height
      → calculation_leaf lf resolve (commit n) n.height index ≡ node_leaf lf resolve n index
  unfolding commit calculation_leaf
  commit_leaves n index v h = elim (Bool-cases (is_virtual_edge n)) [
    | inl e ↦ rw e (unfold node_leaf in refl)
    | inr e ↦ rw e (sym (node_leaf-bottom c st lf s rd n index v e h))
  ]

  commit-IsValid :
      (n : VirtualCalculationNode LF) → IsValid Held n → IsValidCalculation Held (commit n) n.height
  unfolding commit
  commit-IsValid n v = elim (Bool-cases (is_virtual_edge n)) [
    | inl e ↦ rw e (v.path, v.length, v.bottom)
    | inr e ↦
        let l : n.length ≡ 0 = ground arith in
        let d : n.height - n.length ≡ n.height = omega arith in rw e (rw d at v.bottom)
  ]

  commit_leaves_at :
      (n : VirtualCalculationNode LF) (h index : ℕ)
      → IsValid Held n
      → n.height ≡ h
      → index < 2 ^ h
      → calculation_leaf lf resolve (commit n) h index ≡ node_leaf lf resolve n index
  commit_leaves_at n h index v e =
      subst
        (λ k.
          index < 2 ^ k
          → calculation_leaf lf resolve (commit n) k index ≡ node_leaf lf resolve n index)
        e (commit_leaves n index v)

  -- The parent of two nodes of one height: a valid node of the height above that has the leaves of
  -- both.
  pub record IsParent (left right parent : VirtualCalculationNode LF) : Type 0 where
    pub valid : IsValid Held parent
    pub height : parent.height ≡ right.height + 1
    pub leaves :
        (index : ℕ)
        → index < 2 ^ (right.height + 1)
        → node_leaf lf resolve parent index
          ≡ halves (node_leaf lf resolve left) (node_leaf lf resolve right) right.height index

  binary_leaves :
      (left right : VirtualCalculationNode LF) (index : ℕ)
      → IsValid Held left
      → IsValid Held right
      → left.height ≡ right.height
      → index < 2 ^ (right.height + 1)
      → calculation_leaf lf resolve
          (binary_calculation (commit left) (commit right))
          (right.height + 1)
          index
        ≡ halves (node_leaf lf resolve left) (node_leaf lf resolve right) right.height index
  unfolding calculation_leaf
  binary_leaves left right index vl vr e hi =
      let h = right.height in
      let down : h + 1 - 1 ≡ h = omega arith in
      rw down (elim (Bool-cases (ltb index (2 ^ h))) [
        | inl lt ↦ rw lt (commit_leaves_at left h index vl e (ltb→lt index _ lt))
        | inr ge ↦
            rw ge (commit_leaves_at right h (index - 2 ^ h) vr refl (ground (arith, pow_double h)))
      ])

  pub binary-IsParent :
      (left right : VirtualCalculationNode LF)
      → IsValid Held left
      → IsValid Held right
      → left.height ≡ right.height
      → IsParent left right (combine_to_binary_node left right)
  unfolding combine_to_binary_node
  binary-IsParent left right vl vr e =
      let h = right.height in
      let up : h + 1 - 0 ≡ h + 1 = omega arith in
      let down : h + 1 - 1 ≡ h = omega arith in
      record {
        valid = record {
          path = omega arith;
          length = omega arith;
          bottom =
              rw (up, down)
                (
                  omega arith,
                  subst (λ k. IsValidCalculation Held (commit left) k) e (commit-IsValid left vl),
                  commit-IsValid right vr,
                );
        };
        height = refl;
        leaves = λ index hi.
            unfold node_leaf in
            edge_leaf-zero
              (calculation_leaf lf resolve (binary_calculation (commit left) (commit right)))
              (h + 1) index hi
            ∙ binary_leaves left right index vl vr e hi;
      }

  edge_parent-IsValid :
      (b : Bool) (child : VirtualCalculationNode LF)
      → IsValid Held child
      → IsValid Held (edge_parent c st lf b child)
  edge_parent-IsValid b child v =
      let w : child.height + 1 - (child.length + 1) ≡ child.height - child.length = omega arith in
      let double : 2 ^ (child.length + 1) ≡ 2 * 2 ^ child.length = pow_double child.length in
      let hp = v.path in
      let hl = v.length in
      record { path = ground arith; length = omega arith; bottom = rw w v.bottom }

  next_height : (n h : ℕ) (index : ℕ) → n ≡ h → index < 2 ^ (h + 1) → index < 2 ^ suc n
  next_height n h index e hi = let e' : suc n ≡ h + 1 = omega arith in rw e' hi

  pub edge-IsParent_left :
      (left right child : VirtualCalculationNode LF)
      → left.height ≡ right.height
      → SameLeaves c st lf s rd left child
      → is_empty lf right ≡ true
      → IsParent left right (edge_parent c st lf false child)
  edge-IsParent_left left right child e same gone =
      let eh : child.height ≡ right.height = same.height ∙ e in
      record {
        valid = edge_parent-IsValid false child same.valid;
        height = ap (λ k. k + 1) eh;
        leaves = λ index hi.
            let lower : node_leaf lf resolve (edge_parent c st lf false child) index ≡ (
                if ltb index (2 ^ child.height)
                then node_leaf lf resolve child index
                else empty_hash) =
              unfold node_leaf in
              edge_leaf-left (calculation_leaf lf resolve child.bottom_calculation) child.path
                child.length child.height index same.valid.path same.valid.length
                (next_height child.height right.height index eh hi) in
            let there : index < 2 ^ right.height
                → node_leaf lf resolve child index ≡ node_leaf lf resolve left index =
              λ lt. same.leaves index (rw e lt) in
            lower
            ∙ rw eh (
                ground (
                  arith,
                  there,
                  node_leaf-empty lf resolve right (index - 2 ^ right.height) resolve_empty gone,
                ));
      }

  pub edge-IsParent_right :
      (left right child : VirtualCalculationNode LF)
      → SameLeaves c st lf s rd right child
      → is_empty lf left ≡ true
      → IsParent left right (edge_parent c st lf true child)
  edge-IsParent_right left right child same gone =
      let eh : child.height ≡ right.height = same.height in
      record {
        valid = edge_parent-IsValid true child same.valid;
        height = ap (λ k. k + 1) eh;
        leaves = λ index hi.
            let lower : node_leaf lf resolve (edge_parent c st lf true child) index ≡ (
                if ltb index (2 ^ child.height)
                then empty_hash
                else node_leaf lf resolve child (index - 2 ^ child.height)) =
              unfold node_leaf in
              edge_leaf-right (calculation_leaf lf resolve child.bottom_calculation) child.path
                child.length child.height index same.valid.path same.valid.length
                (next_height child.height right.height index eh hi) in
            let there : index - 2 ^ right.height < 2 ^ right.height
                → node_leaf lf resolve child (index - 2 ^ right.height)
                  ≡ node_leaf lf resolve right (index - 2 ^ right.height) =
              λ lt. same.leaves (index - 2 ^ right.height) lt in
            let pow : 2 ^ child.height ≡ 2 ^ right.height = ap (λ k. 2 ^ k) eh in
            let double : 2 ^ (right.height + 1) ≡ 2 * 2 ^ right.height = pow_double right.height in
            lower
            ∙ rw pow (
                ground
                  (arith, there, double, node_leaf-empty lf resolve left index resolve_empty gone));
      }
