-- ===== src/CommitmentTree/UpdateTree/Layers.antt =====
-- One round of `build_update_tree` in
-- crates/starknet-os/src/starkware_utils/commitment_tree/update_tree.rs: the entry of the next
-- layer under an index is made of the two entries below it.
use snos.Base.{
  ℕ, ◌+◌, ◌*◌, ◌≡◌, refl, Bool, true, false, ◌||◌, Option, none, some, List, [], ◌∷◌, arith,
  if◌then◌else◌, ==_iff,
}
use snos.Base.HashMap
use snos.Base.HashMap.{HashMap, nat_eq, get-insert}
use snos.Base.HashSet
use snos.Base.HashSet.{contains, contains-collect}
use snos.CommitmentTree.UpdateTree.{
  TreeUpdate, tuple, Layer, of_option, parent_keys, insert_parents, next_layer,
}

module _ {LF : Type 0} where
  -- The parent of two entries, if there is one of them.
  abbrev pub join : Option (TreeUpdate LF) → Option (TreeUpdate LF) → Option (TreeUpdate LF)
  join none none = none
  join l r = some (tuple (of_option l) (of_option r))

  abbrev is_some : Option (TreeUpdate LF) → Bool
  is_some none = false
  is_some (some t) = true

  get-insert_parents :
      (layer : Layer LF) (parents : List ℕ) (new_layer : Layer LF) (j : ℕ)
      → HashMap.get j (insert_parents layer parents new_layer) ≡ (
          if contains j parents
          then some (
              tuple
                (of_option (HashMap.get (j * 2) layer))
                (of_option (HashMap.get (j * 2 + 1) layer)))
          else HashMap.get j new_layer)
  unfolding insert_parents contains
  get-insert_parents layer [] new_layer j = refl
  get-insert_parents layer (i ∷ parents) new_layer j =
      let t : TreeUpdate LF =
        tuple (of_option (HashMap.get (i * 2) layer)) (of_option (HashMap.get (i * 2 + 1) layer)) in
      ground (
        arith,
        get-insert_parents layer parents (HashMap.insert i t new_layer) j,
        get-insert i j t new_layer,
        ==_iff i j,
      )

  contains-parent_keys :
      (layer : Layer LF) (j : ℕ)
      → contains j (parent_keys layer)
        ≡ (is_some (HashMap.get (j * 2) layer) || is_some (HashMap.get (j * 2 + 1) layer))
  unfolding contains HashMap.get
  contains-parent_keys [] j = refl
  contains-parent_keys ((k, t) ∷ layer) j = ground (arith, contains-parent_keys layer j)

  -- The next layer has an entry exactly where the layer has one of the two children, and the entry
  -- holds both.
  pub get-next_layer :
      (layer : Layer LF) (j : ℕ)
      → HashMap.get j (next_layer layer)
        ≡ join (HashMap.get (j * 2) layer) (HashMap.get (j * 2 + 1) layer)
  unfolding next_layer HashMap.get
  get-next_layer layer j = ground (
    arith,
    get-insert_parents layer (HashSet.collect (parent_keys layer)) [] j,
    contains-collect j (parent_keys layer),
    contains-parent_keys layer j,
  )
