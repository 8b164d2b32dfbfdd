-- ===== src/CommitmentTree/UpdateTree/Values.antt =====
-- `build_update_tree` and `decode_node` of
-- crates/starknet-os/src/starkware_utils/commitment_tree/update_tree.rs as their callers use them.
use snos.Base.{
  ℕ, zero, suc, ◌^◌, ◌<◌, ◌≡◌, ◌≢◌, refl, Option, none, some, List, [], ◌∷◌, Option-cases, inl, inr,
  sym, ◌∙◌,
}
use snos.Base.Outcome.{Outcome, ok, panicked}
use snos.Base.HashMap.{nat_eq, last_value}
use snos.CommitmentTree.Nodes.{TreeError}
use snos.CommitmentTree.UpdateTree.{
  UpdateTree, absent, present, TreeUpdate, tuple, of_option, build_update_tree, DecodeNodeCase,
  left, right, both, decode_node,
}
use snos.CommitmentTree.UpdateTree.Build.{value_at, IsInduced, leaf_of_present, top, Describes-top}

module _ {LF : Type 0} where
  -- A result that is a tree of the height whose leaf under each index is the last modification of
  -- that index, and none where there is no modification.
  pub data BuiltFrom (height : ℕ) (mods : List (ℕ × LF))
      : Outcome TreeError (UpdateTree LF) → Type 0 where
    built :
        (t : UpdateTree LF)
        → IsInduced height t
        → ((i : ℕ) → i < 2 ^ height → value_at height t i ≡ last_value i none mods)
        → BuiltFrom height mods (ok t)

  of_top :
      (height : ℕ) (mods : List (ℕ × LF)) (o : Option (TreeUpdate LF))
      → top height mods ≡ o
      → o ≢ none
      → (t : TreeUpdate LF) × (o ≡ some t) × (top height mods ≡ some t)
  of_top height mods none e ne = absurd (ne refl)
  of_top height mods (some t) e ne = (t, refl, e)

  value_at-none : (height i : ℕ) → value_at {LF = LF} height absent i ≡ none
  value_at-none zero i = refl
  value_at-none (suc height) i = refl

  -- If a modification is to an index below 2 ^ height, the tree is built: it has the height, no
  -- pair in it is of two absent trees, and its leaf under each index is the last modification of
  -- that index.
  pub build_update_tree-BuiltFrom :
      (height : ℕ) (mods : List (ℕ × LF)) (index : ℕ)
      → index < 2 ^ height
      → last_value index none mods ≢ none
      → BuiltFrom height mods (build_update_tree height mods)
  unfolding build_update_tree last_value
  build_update_tree-BuiltFrom height [] index lt ne = absurd (ne refl)
  build_update_tree-BuiltFrom height (m ∷ ms) index lt ne =
      let (induced, values) = Describes-top height (m ∷ ms) in
      elim (Option-cases (top height (m ∷ ms))) [
        | inl e ↦
            let gone : value_at height (of_option (top height (m ∷ ms))) index ≡ none =
              rw e (value_at-none height index) in
            absurd (ne (sym (values index lt) ∙ gone))
        | inr (t, e) ↦
            rw (e, build_update_tree)
              (built (present t) (rw e at induced) (λ i h. rw e at (values i h)))
      ]

  -- With modifications that are all to indices from 2 ^ height on, the final `unwrap()` panics.
  pub build_update_tree-out_of_range :
      (height : ℕ) (m : ℕ × LF) (mods : List (ℕ × LF))
      → ((i : ℕ) → i < 2 ^ height → last_value i none (m ∷ mods) ≡ none)
      → build_update_tree {E = TreeError} height (m ∷ mods) ≡ panicked
  unfolding build_update_tree
  build_update_tree-out_of_range height m mods out =
      let (induced, values) = Describes-top height (m ∷ mods) in
      elim (Option-cases (top height (m ∷ mods))) [
        | inl e ↦ rw e
        | inr (t, e) ↦
            let (i, lt, ne) = leaf_of_present height t (rw e at induced) in
            absurd (ne (rw e at (values i lt) ∙ out i lt))
      ]

  -- The case that a pair of trees calls for.
  abbrev pub case_of : UpdateTree LF → UpdateTree LF → DecodeNodeCase
  case_of absent r = right
  case_of (present l) absent = left
  case_of (present l) (present r) = both

  -- A pair of a built tree is never refused: it is decoded into its children, which are built
  -- trees of the height below, and the case tells which of them are present.
  pub decode_node-IsInduced :
      (height : ℕ) (l r : UpdateTree LF)
      → IsInduced (suc height) (present (tuple l r))
      → (decode_node (tuple l r)
          ≡ ok (record { left_child = l; right_child = r; case = case_of l r }))
        × IsInduced height l
        × IsInduced height r
  unfolding decode_node
  decode_node-IsInduced height absent absent v = absurd v
  decode_node-IsInduced zero absent (present r) v = (refl, tt, v.1)
  decode_node-IsInduced (suc height) absent (present r) v = (refl, tt, v.1)
  decode_node-IsInduced height (present l) absent v = (refl, v.0, v.1)
  decode_node-IsInduced height (present l) (present r) v = (refl, v.0, v.1)
