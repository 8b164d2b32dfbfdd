-- ===== src/CommitmentTree/UpdateTree.antt =====
-- crates/starknet-os/src/starkware_utils/commitment_tree/update_tree.rs: the tree that a list of
-- modifications induces, and its decoding for the hints.
pub mod Layers
pub mod Build
pub mod Values
use snos.Base.{ℕ, zero, suc, ◌+◌, ◌*◌, ◌/◌, Option, none, some, List, [], ◌∷◌, map}
use snos.Base.Outcome.{Outcome, ok, err, panicked, ◌>>=◌}
use snos.Base.HashMap
use snos.Base.HashMap.{HashMap, nat_eq}
use snos.Base.HashSet
use snos.CommitmentTree.Nodes.{TreeError, is_leaf, is_empty}

-- `UpdateTree<LF>` is `Option<TreeUpdate<LF>>`.
mutual
  pub data UpdateTree (LF : Type 0) : Type 0 where
    absent : UpdateTree LF
    present : TreeUpdate LF → UpdateTree LF

  pub data TreeUpdate (LF : Type 0) : Type 0 where
    tuple : UpdateTree LF → UpdateTree LF → TreeUpdate LF
    leaf : LF → TreeUpdate LF

abbrev pub Layer : Type 0 → Type 0
Layer LF = HashMap ℕ (TreeUpdate LF)

module _ {LF : Type 0} where
  abbrev pub of_option : Option (TreeUpdate LF) → UpdateTree LF
  of_option none = absent
  of_option (some t) = present t

  abbrev pub leaf_entry : ℕ × LF → ℕ × TreeUpdate LF
  leaf_entry (index, fact) = (index, leaf fact)

  -- `modifications.into_iter().map(..).collect()`
  unfoldable pub bottom_layer : List (ℕ × LF) → Layer LF
  bottom_layer modifications = HashMap.collect_into [] (map leaf_entry modifications)

  abbrev pub parent_keys : Layer LF → List ℕ
  parent_keys [] = []
  parent_keys ((key, t) ∷ layer) = (key / 2) ∷ parent_keys layer

  -- `for index in parents`
  unfoldable pub insert_parents : Layer LF → List ℕ → Layer LF → Layer LF
  insert_parents layer [] new_layer = new_layer
  insert_parents layer (index ∷ parents) new_layer =
      let left_update = of_option (HashMap.get (index * 2) layer) in
      let right_update = of_option (HashMap.get (index * 2 + 1) layer) in
      insert_parents layer parents (HashMap.insert index (tuple left_update right_update) new_layer)

  unfoldable pub next_layer : Layer LF → Layer LF
  next_layer layer = insert_parents layer (HashSet.collect (parent_keys layer)) []

  -- `for _ in 0..height.0`
  unfoldable pub raise : ℕ → Layer LF → Layer LF
  raise zero layer = layer
  raise (suc height) layer = raise height (next_layer layer)

  -- `Some(layer.remove(&0).unwrap())`
  root {ℓ} : {E : Type ℓ} → Option (TreeUpdate LF) → Outcome E (UpdateTree LF)
  root none = panicked
  root (some t) = ok (present t)

  unfoldable pub build_update_tree {ℓ} :
      {E : Type ℓ} → ℕ → List (ℕ × LF) → Outcome E (UpdateTree LF)
  unfolding root
  build_update_tree height [] = ok absent
  build_update_tree height (m ∷ modifications) =
      root (HashMap.get 0 (raise height (bottom_layer (m ∷ modifications))))

pub data DecodeNodeCase : Type 0 where
  left right both : DecodeNodeCase

pub record DecodedNode (LF : Type 0) : Type 0 where
  pub left_child : UpdateTree LF
  pub right_child : UpdateTree LF
  pub case : DecodeNodeCase

module _ {LF : Type 0} where
  unfoldable pub decode_node : TreeUpdate LF → Outcome TreeError (DecodedNode LF)
  decode_node (leaf fact) = err is_leaf
  decode_node (tuple absent absent) = err is_empty
  decode_node (tuple absent (present r)) =
      ok (record { left_child = absent; right_child = present r; case = right })
  decode_node (tuple (present l) absent) =
      ok (record { left_child = present l; right_child = absent; case = left })
  decode_node (tuple (present l) (present r)) =
      ok (record { left_child = present l; right_child = present r; case = both })
