-- ===== src/CommitmentTree/VirtualNode.antt =====
-- crates/starknet-os/src/starkware_utils/commitment_tree/patricia_tree/virtual_patricia_node.rs,
-- with what it takes from binary_fact_tree_node.rs. The mask `path & ((1 << n) - 1)` is the
-- remainder by 2 ^ n, and `path >> n` the quotient.
pub mod Leaves
pub mod Children
use snos.Base.{
  ℕ, zero, suc, ◌+◌, ◌-◌, ◌*◌, ◌/◌, ◌%◌, ◌^◌, Bool, true, false, not, ◌&&◌, ◌==◌, ltb,
  if◌then◌else◌, Option, none, some, List, [], ◌∷◌,
}
use snos.Base.Outcome
use snos.Base.Outcome.{Outcome, ok, err, panicked, map_err}
use snos.Base.HashMap
use snos.Base.HashMap.{HashMap, nat_eq}
use snos.CommitmentTree.Bytes.{Hash, bytes_eq, empty_hash, Crypto}
use snos.CommitmentTree.Storage.{StorageError, Storage, get_or_fail}
use snos.CommitmentTree.Nodes.{
  BinaryNodeFact, EdgeNodeFact, PatriciaNodeFact, empty, binary, edge, TreeError, is_leaf, is_empty,
  verify_path_value, new_edge,
}
use snos.CommitmentTree.BaseTypes.{sub}
use snos.CommitmentTree.Context.{
  Context, Action, LeafFact, pure, throw, lift, ◌>>=◌, ◌>>◌, read_node_fact, write_node_fact,
}

pub record VirtualPatriciaNode : Type 0 where
  pub bottom_node : Hash
  pub path : ℕ
  pub length : ℕ
  pub height : ℕ

abbrev pub new_unchecked : Hash → ℕ → ℕ → ℕ → VirtualPatriciaNode
new_unchecked bottom_node path n height = record {
  bottom_node = bottom_node;
  path = path;
  length = n;
  height = height;
}

unfoldable pub new : Hash → ℕ → ℕ → ℕ → Outcome TreeError VirtualPatriciaNode
new bottom_node path n height =
    Outcome.◌>>=◌ (verify_path_value path n) (λ _. ok (new_unchecked bottom_node path n height))

abbrev pub empty_node : ℕ → VirtualPatriciaNode
empty_node height = new_unchecked empty_hash 0 0 height

abbrev pub from_hash : Hash → ℕ → VirtualPatriciaNode
from_hash hash_value height = new_unchecked hash_value 0 0 height

abbrev pub is_empty_node : VirtualPatriciaNode → Bool
is_empty_node node = bytes_eq node.bottom_node empty_hash

abbrev pub is_virtual_edge : VirtualPatriciaNode → Bool
is_virtual_edge node = not (node.length == 0)

abbrev pub is_leaf_node : VirtualPatriciaNode → Bool
is_leaf_node node = node.height == 0

-- `leaf_hash` of binary_fact_tree_node.rs
abbrev pub leaf_hash : VirtualPatriciaNode → Option Hash
leaf_hash node = if is_leaf_node node then some node.bottom_node else none

-- The non-empty child is on the left if the top bit of the path is 0.
unfoldable pub get_virtual_edge_node_children :
    VirtualPatriciaNode → Outcome TreeError (VirtualPatriciaNode × VirtualPatriciaNode)
get_virtual_edge_node_children node = Outcome.◌>>=◌ (sub node.height 1) λ children_height.
    Outcome.◌>>=◌ (sub node.length 1) λ children_length.
      let path = node.path % 2 ^ children_length in
      let non_empty_child = new_unchecked node.bottom_node path children_length children_height in
      let edge_child_direction = node.path / 2 ^ children_length in
      let empty_child = empty_node children_height in
      if edge_child_direction == 0
      then ok (non_empty_child, empty_child)
      else ok (empty_child, non_empty_child)

module _ {S : Type 0} (c : Crypto) (st : Storage S) where
  -- The conversion of a storage error that `?` makes.
  abbrev pub storage_error : {A : Type 0} → Action S StorageError A → Action S TreeError A
  storage_error m ctx = map_err TreeError.storage (m ctx)

  -- The node's hash; the fact of a virtual edge is written to the store.
  unfoldable pub commit : VirtualPatriciaNode → Action S TreeError Hash
  commit node = if not (is_virtual_edge node) then pure node.bottom_node else (do
    fact ← lift (new_edge node.bottom_node node.path node.length)
    storage_error (write_node_fact c st (edge fact)))

  unfoldable pub fact_children :
      VirtualPatriciaNode
      → PatriciaNodeFact
      → Outcome TreeError (VirtualPatriciaNode × VirtualPatriciaNode)
  fact_children node (edge fact) =
      get_virtual_edge_node_children
        (new_unchecked fact.bottom_node fact.edge_path fact.edge_length node.height)
  fact_children node (binary fact) =
      ok (from_hash fact.left_node (node.height - 1), from_hash fact.right_node (node.height - 1))
  fact_children node empty = err is_empty

  -- The height of the children is computed after the test for a leaf, so that it cannot underflow.
  unfoldable pub get_children :
      VirtualPatriciaNode → Action S TreeError (VirtualPatriciaNode × VirtualPatriciaNode)
  get_children node =
      if is_leaf_node node
      then throw is_leaf
      else if is_empty_node node
      then pure (empty_node (node.height - 1), empty_node (node.height - 1))
      else if is_virtual_edge node
      then lift (get_virtual_edge_node_children node)
      else (do
        fact ← storage_error (read_node_fact c st node.bottom_node)
        lift (fact_children node fact))
