-- ===== src/Examples/TreeRuns.antt =====
-- Trees whose leaves are felts, over the store that holds one edge.
use snos.Base.{ℕ, ◌+◌, ◌*◌, ◌^◌, ◌<◌, ◌≡◌, ◌≢◌, refl, none, List, [], ◌∷◌, arith}
use snos.Base.Outcome.{panicked}
use snos.Base.HashMap
use snos.Base.HashMap.{HashMap, nat_eq, last_value}
use snos.CommitmentTree.Nodes.{TreeError}
use snos.CommitmentTree.DictStorage.{DictStorage, dict_storage}
use snos.CommitmentTree.Context.{Context, LeafFact}
use snos.CommitmentTree.UpdateTree.{UpdateTree, present, leaf, Layer, next_layer, build_update_tree}
use snos.CommitmentTree.UpdateTree.Layers.{join, get-next_layer}
use snos.CommitmentTree.UpdateTree.Values.{
  BuiltFrom, build_update_tree-BuiltFrom, build_update_tree-out_of_range,
}
use snos.CommitmentTree.VirtualNode.{VirtualPatriciaNode, from_hash, get_children}
use snos.CommitmentTree.VirtualNode.Leaves.{IsValid as IsValidNode}
use snos.CommitmentTree.VirtualNode.Children.{ChildrenOutcome, get_children-ChildrenOutcome}
use snos.CommitmentTree.Calculation.{
  VirtualCalculationNode, create_from_node, empty_node, combine, decommit, HashCalculation,
  binary_calculation, edge_calculation, leaf_fact_calculation, constant_calculation, no_facts,
  full_calculate,
}
use snos.CommitmentTree.Calculation.Leaves
use snos.CommitmentTree.Calculation.Outcomes.{
  DoneOrUnread, IsDecommitted, decommit-DoneOrUnread, CombineOutcome, combine-CombineOutcome,
}
use snos.CommitmentTree.SimpleLeaf.{SimpleLeafFact, simple_leaf, simple_leaf_fact}
use snos.CommitmentTree.Calculation.Facts.{IsKeyed, IsCalculated, full_calculate-IsKeyed}
use snos.Examples.Packages.{crypto}
use snos.Examples.StoredEdge.{node_hash, dict_with_edge, stored_edge_reading}

abbrev felt_leaves : LeafFact SimpleLeafFact
felt_leaves = simple_leaf_fact crypto

abbrev context : Context DictStorage
context = record { storage = dict_with_edge; facts = none }

abbrev edge_root : VirtualCalculationNode SimpleLeafFact
edge_root = create_from_node (from_hash node_hash 3)

abbrev nothing : VirtualCalculationNode SimpleLeafFact
nothing = empty_node 3

edge_root-IsValid : Leaves.IsValid stored_edge_reading.Held edge_root
edge_root-IsValid = record { path = omega arith; length = omega arith; bottom = λ e. refl }

nothing-IsValid : Leaves.IsValid stored_edge_reading.Held nothing
nothing-IsValid = record {
  path = omega arith;
  length = omega arith;
  bottom = stored_edge_reading.held_empty 3;
}

combine-CombineOutcome_example :
    CombineOutcome crypto dict_storage felt_leaves dict_with_edge stored_edge_reading nothing
      edge_root
      (combine crypto dict_storage felt_leaves nothing edge_root context)
combine-CombineOutcome_example =
    combine-CombineOutcome crypto dict_storage felt_leaves dict_with_edge stored_edge_reading
      nothing edge_root context nothing-IsValid edge_root-IsValid refl refl

decommit-DoneOrUnread_example :
    DoneOrUnread crypto dict_storage felt_leaves dict_with_edge stored_edge_reading
      (IsDecommitted crypto dict_storage felt_leaves dict_with_edge stored_edge_reading edge_root)
      (decommit crypto dict_storage felt_leaves edge_root context)
decommit-DoneOrUnread_example =
    decommit-DoneOrUnread crypto dict_storage felt_leaves dict_with_edge stored_edge_reading
      edge_root context edge_root-IsValid refl

abbrev root : VirtualPatriciaNode
root = from_hash node_hash 3

root-IsValid : IsValidNode crypto dict_storage dict_with_edge stored_edge_reading root
root-IsValid = record { path = omega arith; length = omega arith; bottom = λ e. refl }

get_children-ChildrenOutcome_example :
    ChildrenOutcome crypto dict_storage dict_with_edge stored_edge_reading root
      (get_children crypto dict_storage root context)
get_children-ChildrenOutcome_example =
    get_children-ChildrenOutcome crypto dict_storage dict_with_edge stored_edge_reading root context
      root-IsValid refl

-- Two modifications of one leaf and one of another, of four leaves.
abbrev modifications : List (ℕ × ℕ)
modifications = (2, 5) ∷ (1, 6) ∷ (2, 7) ∷ []

some_modification : last_value 2 none modifications ≢ none
unfolding last_value
some_modification e = cc e

build_update_tree-BuiltFrom_example : BuiltFrom 2 modifications (build_update_tree 2 modifications)
build_update_tree-BuiltFrom_example =
    build_update_tree-BuiltFrom 2 modifications 2 (omega arith) some_modification

abbrev too_far : List (ℕ × ℕ)
too_far = (4, 5) ∷ []

no_modification : (i : ℕ) → i < 2 ^ 2 → last_value i none too_far ≡ none
unfolding last_value
no_modification i lt = ground arith

build_update_tree-out_of_range_example : build_update_tree {E = TreeError} 2 too_far ≡ panicked
build_update_tree-out_of_range_example = build_update_tree-out_of_range 2 (4, 5) [] no_modification

abbrev right_tree : UpdateTree ℕ
right_tree = present (leaf 5)

abbrev two_leaves : Layer ℕ
two_leaves = (2, leaf 5) ∷ (5, leaf 6) ∷ []

get-next_layer_example :
    HashMap.get 1 (next_layer two_leaves)
    ≡ join (HashMap.get (1 * 2) two_leaves) (HashMap.get (1 * 2 + 1) two_leaves)
get-next_layer_example = get-next_layer two_leaves 1

no_facts-IsKeyed : IsKeyed crypto felt_leaves no_facts
unfolding HashMap.get
no_facts-IsKeyed = record { inner = λ h fact e. absurd (cc e); leaf = λ h fact e. absurd (cc e) }

-- A leaf under an edge, beside a subtree that is known by its hash.
abbrev calculation : HashCalculation SimpleLeafFact
calculation =
    binary_calculation (edge_calculation (leaf_fact_calculation (simple_leaf 7)) 1 2)
      (constant_calculation node_hash)

full_calculate-IsKeyed_example :
    IsCalculated crypto felt_leaves calculation no_facts
      (full_calculate crypto felt_leaves calculation no_facts)
full_calculate-IsKeyed_example =
    full_calculate-IsKeyed crypto felt_leaves calculation no_facts no_facts-IsKeyed
