-- ===== src/CommitmentTree/Calculation.antt =====
-- crates/starknet-os/src/starkware_utils/commitment_tree/calculation.rs and
-- patricia_tree/virtual_calculation_node.rs: subtrees that are known and not hashed yet.
pub mod Leaves
pub mod Same
pub mod Combine
pub mod Outcomes
pub mod Facts
use snos.Base.{ℕ, ◌+◌, ◌^◌, Bool, true, false, not, ◌&&◌, ◌||◌, ◌==◌, if◌then◌else◌, List, []}
use snos.Base.Outcome.{Outcome, ok, err, map_err}
use snos.Base.HashMap
use snos.Base.HashMap.{HashMap}
use snos.CommitmentTree.Bytes.{Hash, bytes_eq, bytes_Eq, empty_hash, Crypto}
use snos.CommitmentTree.Storage.{StorageError, Storage}
use snos.CommitmentTree.Nodes.{
  BinaryNodeFact, EdgeNodeFact, PatriciaNodeFact, empty, binary, edge, new_edge_unchecked,
  hash_node, CombineError, storage, tree_heights_differ, cannot_combine_to_virtual_edge_node,
}
use snos.CommitmentTree.Context.{Context, Action, LeafFact, pure, throw, ◌>>=◌, read_node_fact}
use snos.CommitmentTree.VirtualNode.{VirtualPatriciaNode}

-- `HashCalculationImpl`
pub data HashCalculation (LF : Type 0) : Type 0 where
  binary_calculation : HashCalculation LF → HashCalculation LF → HashCalculation LF
  edge_calculation : HashCalculation LF → ℕ → ℕ → HashCalculation LF
  leaf_fact_calculation : LF → HashCalculation LF
  constant_calculation : Hash → HashCalculation LF

pub record NodeFactDict (LF : Type 0) : Type 0 where
  pub inner_nodes : HashMap Hash PatriciaNodeFact
  pub leaves : HashMap Hash LF

pub record VirtualCalculationNode (LF : Type 0) : Type 0 where
  pub bottom_calculation : HashCalculation LF
  pub path : ℕ
  pub length : ℕ
  pub height : ℕ

abbrev pub no_facts : {LF : Type 0} → NodeFactDict LF
no_facts = record { inner_nodes = []; leaves = [] }

module _ {LF : Type 0} (c : Crypto) (lf : LeafFact LF) where
  -- `calculate`, given the hashes of the dependencies: the fact goes into the dictionary.
  abbrev pub calculate_inner : PatriciaNodeFact → NodeFactDict LF → Hash × NodeFactDict LF
  calculate_inner fact nodes =
      let fact_hash = hash_node c fact in
      (fact_hash, record nodes { inner_nodes = HashMap.insert fact_hash fact nodes.inner_nodes })

  abbrev pub calculate_binary : Hash → Hash → NodeFactDict LF → Hash × NodeFactDict LF
  calculate_binary left_hash right_hash nodes =
      calculate_inner (binary (record { left_node = left_hash; right_node = right_hash })) nodes

  unfoldable pub calculate_edge : Hash → ℕ → ℕ → NodeFactDict LF → Hash × NodeFactDict LF
  unfolding new_edge_unchecked
  calculate_edge bottom_hash path length nodes =
      calculate_inner (edge (new_edge_unchecked bottom_hash path length)) nodes

  abbrev pub calculate_leaf_fact : LF → NodeFactDict LF → Hash × NodeFactDict LF
  calculate_leaf_fact fact nodes =
      (lf.hash fact, record nodes { leaves = HashMap.insert (lf.hash fact) fact nodes.leaves })

  abbrev pub calculate_constant : Hash → NodeFactDict LF → Hash × NodeFactDict LF
  calculate_constant value nodes = (value, nodes)

  -- `full_calculate`: the dependencies from left to right, then the calculation.
  unfoldable pub full_calculate : HashCalculation LF → NodeFactDict LF → Hash × NodeFactDict LF
  unfolding calculate_edge
  full_calculate (binary_calculation left right) nodes =
      let (left_hash, nodes1) = full_calculate left nodes in
      let (right_hash, nodes2) = full_calculate right nodes1 in
      calculate_binary left_hash right_hash nodes2
  full_calculate (edge_calculation bottom path length) nodes =
      let (bottom_hash, nodes1) = full_calculate bottom nodes in
      calculate_edge bottom_hash path length nodes1
  full_calculate (leaf_fact_calculation fact) nodes = calculate_leaf_fact fact nodes
  full_calculate (constant_calculation value) nodes = calculate_constant value nodes

  unfoldable pub full_calculate_new_fact_nodes : HashCalculation LF → Hash × NodeFactDict LF
  full_calculate_new_fact_nodes calculation = full_calculate calculation no_facts

  -- `full_calculate` of a virtual node: that of its bottom.
  unfoldable pub full_calculate_node :
      VirtualCalculationNode LF → NodeFactDict LF → VirtualPatriciaNode × NodeFactDict LF
  full_calculate_node node nodes =
      let (bottom_hash, nodes1) = full_calculate node.bottom_calculation nodes in
      (
        record {
          bottom_node = bottom_hash;
          path = node.path;
          length = node.length;
          height = node.height;
        },
        nodes1,
      )

module _ {LF : Type 0} (lf : LeafFact LF) where
  unfoldable pub is_empty_calculation : HashCalculation LF → Bool
  is_empty_calculation (constant_calculation value) = bytes_eq value empty_hash
  is_empty_calculation (leaf_fact_calculation fact) = lf.is_empty fact
  is_empty_calculation (binary_calculation left right) = false
  is_empty_calculation (edge_calculation bottom path length) = false

  unfoldable pub is_empty : VirtualCalculationNode LF → Bool
  is_empty node = is_empty_calculation node.bottom_calculation

module _ {LF : Type 0} where
  abbrev pub empty_node : ℕ → VirtualCalculationNode LF
  empty_node height = record {
    bottom_calculation = constant_calculation empty_hash;
    path = 0;
    length = 0;
    height = height;
  }

  abbrev pub is_virtual_edge : VirtualCalculationNode LF → Bool
  is_virtual_edge node = not (node.length == 0)

  abbrev pub is_leaf : VirtualCalculationNode LF → Bool
  is_leaf node = node.height == 0

  unfoldable pub commit : VirtualCalculationNode LF → HashCalculation LF
  commit node =
      if not (is_virtual_edge node)
      then node.bottom_calculation
      else edge_calculation node.bottom_calculation node.path node.length

  unfoldable pub combine_to_binary_node :
      VirtualCalculationNode LF → VirtualCalculationNode LF → VirtualCalculationNode LF
  combine_to_binary_node left right = record {
    bottom_calculation = binary_calculation (commit left) (commit right);
    path = 0;
    length = 0;
    height = right.height + 1;
  }

  abbrev pub create_from_node : VirtualPatriciaNode → VirtualCalculationNode LF
  create_from_node node = record {
    bottom_calculation = constant_calculation node.bottom_node;
    path = node.path;
    length = node.length;
    height = node.height;
  }

  abbrev pub create_from_fact : LF → VirtualCalculationNode LF
  create_from_fact fact = record {
    bottom_calculation = leaf_fact_calculation fact;
    path = 0;
    length = 0;
    height = 0;
  }

  -- A node of the same height whose virtual edge is the edge.
  abbrev pub with_edge :
      VirtualCalculationNode LF → HashCalculation LF → ℕ → ℕ → VirtualCalculationNode LF
  with_edge node bottom path length = record {
    bottom_calculation = bottom;
    path = path;
    length = length;
    height = node.height;
  }

  abbrev pub with_fact : VirtualCalculationNode LF → PatriciaNodeFact → VirtualCalculationNode LF
  with_fact node (edge fact) =
      with_edge node (constant_calculation fact.bottom_node) fact.edge_path fact.edge_length
  with_fact node (binary fact) = node
  with_fact node empty = node

module _ {S LF : Type 0} (c : Crypto) (st : Storage S) (lf : LeafFact LF) where
  -- The bottom of a node that is no leaf, not empty and no virtual edge.
  unfoldable pub decommit_bottom :
      VirtualCalculationNode LF
      → HashCalculation LF
      → Action S StorageError (VirtualCalculationNode LF)
  decommit_bottom node (edge_calculation bottom path length) =
      pure (with_edge node bottom path length)
  decommit_bottom node (constant_calculation value) =
      read_node_fact c st value >>= λ fact. pure (with_fact node fact)
  decommit_bottom node (binary_calculation left right) = pure node
  decommit_bottom node (leaf_fact_calculation fact) = pure node

  unfoldable pub decommit :
      VirtualCalculationNode LF → Action S StorageError (VirtualCalculationNode LF)
  unfolding decommit_bottom
  decommit node =
      if is_leaf node || (is_empty lf node || is_virtual_edge node)
      then pure node
      else decommit_bottom node node.bottom_calculation

  -- The parent of the non-empty child, which is on the right if the left one is empty.
  abbrev pub edge_parent : Bool → VirtualCalculationNode LF → VirtualCalculationNode LF
  edge_parent left_is_empty child = record {
    bottom_calculation = child.bottom_calculation;
    path = if left_is_empty then child.path + 2 ^ child.length else child.path;
    length = child.length + 1;
    height = child.height + 1;
  }

  -- The conversion of a storage error that `?` makes.
  abbrev pub storage_error : {A : Type 0} → Action S StorageError A → Action S CombineError A
  storage_error m ctx = map_err CombineError.storage (m ctx)

  unfoldable pub combine_to_virtual_edge_node :
      VirtualCalculationNode LF
      → VirtualCalculationNode LF
      → Action S CombineError (VirtualCalculationNode LF)
  combine_to_virtual_edge_node left right =
      if is_empty lf left && not (is_empty lf right)
      then storage_error (decommit right) >>= (λ child. pure (edge_parent true child))
      else if not (is_empty lf left) && is_empty lf right
      then storage_error (decommit left) >>= (λ child. pure (edge_parent false child))
      else throw cannot_combine_to_virtual_edge_node

  unfoldable pub combine :
      VirtualCalculationNode LF
      → VirtualCalculationNode LF
      → Action S CombineError (VirtualCalculationNode LF)
  combine left right =
      if not (left.height == right.height)
      then throw (tree_heights_differ left.height right.height)
      else if is_empty lf left && is_empty lf right
      then pure (empty_node (right.height + 1))
      else if not (is_empty lf left) && not (is_empty lf right)
      then pure (combine_to_binary_node left right)
      else combine_to_virtual_edge_node left right
