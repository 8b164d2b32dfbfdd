-- ===== src/CommitmentTree/GetLeaves.antt =====
-- The leaves of a tree under given indices: `_get_leaves` and its parts in
-- crates/starknet-os/src/starkware_utils/commitment_tree/binary_fact_tree_node.rs and
-- patricia_tree/virtual_patricia_node.rs. The recursion is on fuel, for which the height is taken.
pub mod Partition
pub mod Parts
pub mod Unions
pub mod Ends
pub mod Result
use snos.Base.{
  ℕ, zero, suc, ◌+◌, ◌-◌, ◌*◌, ◌/◌, ◌^◌, ◌==◌, Bool, ltb, if◌then◌else◌, List, [], ◌∷◌, Option,
  none,
}
use snos.Base.Outcome.{Outcome, ok, err, panicked, map_err}
use snos.Base.HashMap
use snos.Base.HashMap.{HashMap, nat_eq}
use snos.CommitmentTree.Bytes.{Crypto, empty_hash}
use snos.CommitmentTree.BaseTypes.{sub}
use snos.CommitmentTree.Storage.{StorageError, Storage, get_or_fail}
use snos.CommitmentTree.Nodes.{TreeError}
use snos.CommitmentTree.Context.{Context, Action, LeafFact, pure, lift, continue, ◌>>=◌}
use snos.CommitmentTree.VirtualNode.{
  VirtualPatriciaNode, from_hash, is_empty_node, is_leaf_node, is_virtual_edge, get_children,
}
use snos.CommitmentTree.PatriciaTree.{PatriciaTree}

-- Indices of the left half, and those of the right half, counted from its start.
unfoldable pub partition_binary : ℕ → List ℕ → List ℕ × List ℕ
partition_binary mid [] = ([], [])
partition_binary mid (index ∷ indices) =
    let (left, right) = partition_binary mid indices in
    if ltb index mid then (index ∷ left, right) else (left, (index - mid) ∷ right)

-- Indices below the bottom of an edge, counted from its first leaf, and those beside it.
unfoldable pub partition_edge : (path width : ℕ) → List ℕ → List ℕ × List ℕ
partition_edge path width [] = ([], [])
partition_edge path width (index ∷ indices) =
    let (bottom, outside) = partition_edge path width indices in
    if index / 2 ^ width == path
    then ((index - path * 2 ^ width) ∷ bottom, outside)
    else (bottom, index ∷ outside)

module _ {LF : Type 0} where
  -- `for (index, leaf) in right_leaves`
  unfoldable pub insert_shifted : ℕ → HashMap ℕ LF → HashMap ℕ LF → HashMap ℕ LF
  insert_shifted offset leaves [] = leaves
  insert_shifted offset leaves ((index, leaf) ∷ more) =
      insert_shifted offset (HashMap.insert (index + offset) leaf leaves) more

  abbrev pub unify_binary_leaves : ℕ → HashMap ℕ LF → HashMap ℕ LF → HashMap ℕ LF
  unify_binary_leaves middle_index left_leaves right_leaves =
      insert_shifted middle_index left_leaves right_leaves

  abbrev pub unify_edge_leaves : ℕ → HashMap ℕ LF → HashMap ℕ LF → HashMap ℕ LF
  unify_edge_leaves path_prefix empty_leaves bottom_subtree_leaves =
      insert_shifted path_prefix empty_leaves bottom_subtree_leaves

  abbrev pub same_leaf : LF → List ℕ → List (ℕ × LF)
  same_leaf leaf [] = []
  same_leaf leaf (index ∷ indices) = (index, leaf) ∷ same_leaf leaf indices

module _ {S LF : Type 0} (c : Crypto) (st : Storage S) (lf : LeafFact LF) where
  abbrev pub read_leaf : S → List ℕ → Outcome TreeError LF
  read_leaf s h = map_err TreeError.storage (get_or_fail lf.object st s h)

  unfoldable pub get_empty_leaves : List ℕ → Action S TreeError (HashMap ℕ LF)
  get_empty_leaves [] ctx = ok ([], ctx)
  get_empty_leaves (index ∷ indices) ctx =
      (lift (read_leaf ctx.storage empty_hash)
          >>= (λ leaf. pure (HashMap.collect_into [] (same_leaf leaf (index ∷ indices)))))
        ctx

  -- `_get_leaf`, which looks at no index.
  unfoldable pub get_leaf : VirtualPatriciaNode → Action S TreeError (HashMap ℕ LF)
  get_leaf node ctx =
      (lift (read_leaf ctx.storage node.bottom_node) >>= (λ leaf. pure ((0, leaf) ∷ []))) ctx

  -- The recursive call, which both parts below take.
  abbrev pub LeavesGetter : Type 0
  LeavesGetter = VirtualPatriciaNode → List ℕ → Action S TreeError (HashMap ℕ LF)

  abbrev pub get_edge_node_leaves :
      LeavesGetter → VirtualPatriciaNode → List ℕ → Action S TreeError (HashMap ℕ LF)
  get_edge_node_leaves go node indices = lift (sub node.height node.length) >>= λ width.
      let (bottom_indices, empty_indices) = partition_edge node.path width indices in
      go (from_hash node.bottom_node width) bottom_indices >>= λ bottom_leaves.
      get_empty_leaves empty_indices >>= λ empty_leaves.
      pure (unify_edge_leaves (node.path * 2 ^ width) empty_leaves bottom_leaves)

  abbrev pub get_binary_node_leaves :
      LeavesGetter → VirtualPatriciaNode → List ℕ → Action S TreeError (HashMap ℕ LF)
  get_binary_node_leaves go node indices =
      let mid = 2 ^ (node.height - 1) in
      let (left_indices, right_indices) = partition_binary mid indices in
      get_children c st node >>= λ children. go children.0 left_indices >>= λ left_leaves.
      go children.1 right_indices >>= λ right_leaves.
      pure (unify_binary_leaves mid left_leaves right_leaves)

  unfoldable pub get_leaves : ℕ → VirtualPatriciaNode → List ℕ → Action S TreeError (HashMap ℕ LF)
  get_leaves fuel node [] = pure []
  get_leaves zero node (index ∷ indices) =
      if is_empty_node node
      then get_empty_leaves (index ∷ indices)
      else if is_leaf_node node
      then get_leaf node
      else lift panicked
  get_leaves (suc fuel) node (index ∷ indices) =
      let edge_leaves = get_edge_node_leaves (get_leaves fuel) node (index ∷ indices) in
      let binary_leaves = get_binary_node_leaves (get_leaves fuel) node (index ∷ indices) in
      if is_empty_node node
      then get_empty_leaves (index ∷ indices)
      else if is_leaf_node node
      then get_leaf node
      else if is_virtual_edge node
      then edge_leaves
      else binary_leaves

  -- `get_leaves` of patricia_tree.rs
  unfoldable pub get_tree_leaves : PatriciaTree → List ℕ → Action S TreeError (HashMap ℕ LF)
  get_tree_leaves tree indices = get_leaves tree.height (from_hash tree.root tree.height) indices

  -- `get_leaf` of binary_fact_tree.rs, which collects no facts.
  unfoldable pub get_tree_leaf : PatriciaTree → ℕ → S → Outcome TreeError (Option LF × Context S)
  get_tree_leaf tree index s =
      continue (get_tree_leaves tree (index ∷ []) (record { storage = s; facts = none }))
        (λ leaves. pure (HashMap.get index leaves))
