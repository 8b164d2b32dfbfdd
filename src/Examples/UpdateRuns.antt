-- ===== src/Examples/UpdateRuns.antt =====
-- Updates and look-ups in a tree over the store that holds one edge.
use snos.Base.{ℕ, ◌^◌, ◌<◌, ◌≤◌, refl, none, List, [], ◌∷◌, All, arith}
use snos.Base.Outcome.{Ends}
use snos.Base.HashMap
use snos.Base.HashMap.{HashMap, nat_eq}
use snos.CommitmentTree.DictStorage.{DictStorage, dict_storage, dict_storage-IsLawful}
use snos.CommitmentTree.Context.{Context, LeafFact}
use snos.CommitmentTree.SimpleLeaf.{SimpleLeafFact, simple_leaf, simple_leaf_fact}
use snos.CommitmentTree.UpdateTree.{UpdateTree, absent, present, tuple, leaf}
use snos.CommitmentTree.VirtualNode.{VirtualPatriciaNode, from_hash}
use snos.CommitmentTree.VirtualNode.Leaves.{IsValid}
use snos.CommitmentTree.Update.{build_updated_calculation}
use snos.CommitmentTree.Update.Climb.{Keeping}
use snos.CommitmentTree.Update.Targets.{TreeBlame, Broken}
use snos.CommitmentTree.Update.Result.{IsUpdated, build_updated_calculation-IsUpdated}
use snos.CommitmentTree.PatriciaTree.{PatriciaTree}
use snos.CommitmentTree.PatriciaTree.Stored.{
  IsRefused, IsPanic, AreStored, write_fact_nodes-AreStored,
}
use snos.CommitmentTree.Descents.{Preimage, patricia_guess_descents}
use snos.CommitmentTree.Descents.Opening.{HasPairs, PreimageBlame}
use snos.CommitmentTree.Descents.Bounds.{IsDescent, patricia_guess_descents-IsDescent}
use snos.CommitmentTree.GetLeaves.{get_tree_leaves}
use snos.CommitmentTree.GetLeaves.Parts.{LeavesBlame, LeavesBroken}
use snos.CommitmentTree.Calculation.{
  create_from_fact, NodeFactDict, no_facts, full_calculate, edge_calculation, leaf_fact_calculation,
}
use snos.CommitmentTree.Update.{UpdatedNodes, update_necessary, write_fact_nodes}
use snos.CommitmentTree.Update.Turns.{Loop, update_necessary-Loop}
use snos.CommitmentTree.GetLeaves.Result.{AreTreeLeaves, get_tree_leaves-AreTreeLeaves}
use snos.Examples.Packages.{crypto}
use snos.Examples.StoredEdge.{node_hash, dict_with_edge, stored_edge_reading}

abbrev leaves : LeafFact SimpleLeafFact
leaves = simple_leaf_fact crypto

abbrev start : Context DictStorage
start = record { storage = dict_with_edge; facts = none }

-- The root of height 3 is the edge.
abbrev tree : PatriciaTree
tree = record { root = node_hash; height = 3 }

abbrev root : VirtualPatriciaNode
root = from_hash node_hash 3

root-IsValid : IsValid crypto dict_storage dict_with_edge stored_edge_reading root
root-IsValid = record { path = omega arith; length = omega arith; bottom = λ e. refl }

-- Leaf 5 is overwritten, and leaf 2 is written twice.
abbrev changes : List (ℕ × SimpleLeafFact)
changes = (2, simple_leaf 7) ∷ (5, simple_leaf 8) ∷ (2, simple_leaf 6) ∷ []

changes_in_range : All (λ m. m.0 < 2 ^ 3) changes
changes_in_range = (omega arith, (omega arith, (omega arith, tt)))

build_updated_calculation-IsUpdated_example :
    Ends
      (TreeBlame crypto dict_storage leaves dict_with_edge stored_edge_reading)
      (Broken crypto dict_storage leaves dict_with_edge stored_edge_reading)
      (Keeping
        (IsUpdated crypto dict_storage leaves dict_with_edge stored_edge_reading root changes)
        dict_with_edge)
      (build_updated_calculation crypto dict_storage leaves root changes start)
build_updated_calculation-IsUpdated_example =
    build_updated_calculation-IsUpdated crypto dict_storage leaves dict_with_edge
      stored_edge_reading root changes start root-IsValid changes_in_range refl

-- A leaf and an edge above it.
abbrev collected : NodeFactDict SimpleLeafFact
collected =
    (full_calculate crypto leaves (edge_calculation (leaf_fact_calculation (simple_leaf 7)) 1 2)
      no_facts).1

write_fact_nodes-AreStored_example :
    Ends
      (IsRefused crypto dict_storage leaves dict_storage-IsLawful collected)
      (IsPanic crypto dict_storage leaves dict_storage-IsLawful collected)
      (AreStored crypto dict_storage leaves dict_storage-IsLawful collected)
      (write_fact_nodes crypto dict_storage leaves collected dict_with_edge)
write_fact_nodes-AreStored_example =
    write_fact_nodes-AreStored crypto dict_storage leaves dict_storage-IsLawful collected
      dict_with_edge

abbrev asked : List ℕ
asked = 5 ∷ 2 ∷ []

abbrev IsAsked : ℕ → Type 0
IsAsked i = i ≤ 5

asked_in_range : All (λ i. IsAsked i × (i < 2 ^ 3)) asked
asked_in_range = ((omega arith, omega arith), ((omega arith, omega arith), tt))

get_tree_leaves-AreTreeLeaves_example :
    Ends
      (LeavesBlame crypto dict_storage leaves dict_with_edge stored_edge_reading)
      (LeavesBroken crypto dict_storage leaves dict_with_edge stored_edge_reading)
      (Keeping
        (AreTreeLeaves crypto dict_storage leaves dict_with_edge stored_edge_reading tree IsAsked
          asked)
        dict_with_edge)
      (get_tree_leaves crypto dict_storage leaves tree asked start)
get_tree_leaves-AreTreeLeaves_example =
    get_tree_leaves-AreTreeLeaves crypto dict_storage leaves dict_with_edge stored_edge_reading tree
      IsAsked asked start (λ e. refl) asked_in_range refl

-- An edge of length 3 and path 5 before the update, and after it a binary root above two edges.
abbrev preimage : Preimage
preimage =
    (10, 3 ∷ 5 ∷ 99 ∷ []) ∷ (20, 11 ∷ 12 ∷ []) ∷ (11, 2 ∷ 2 ∷ 98 ∷ []) ∷ (12, 2 ∷ 1 ∷ 99 ∷ []) ∷ []

preimage-HasPairs : HasPairs preimage
unfolding HashMap.get
preimage-HasPairs node_hash back e = ground (arith, e)

abbrev left_change : UpdateTree ℕ
left_change =
    present (tuple (present (tuple absent (present (tuple (present (leaf 6)) absent)))) absent)

patricia_guess_descents-IsDescent_example :
    Ends
      (PreimageBlame preimage)
      ⊥
      (All (IsDescent 3))
      (patricia_guess_descents 97 3 left_change preimage 10 20)
patricia_guess_descents-IsDescent_example =
    patricia_guess_descents-IsDescent preimage 97 3 left_change 10 20 preimage-HasPairs
      (((tt, (tt, tt)), tt))

-- Both children of the root are updated.
abbrev updated_children : UpdatedNodes SimpleLeafFact
updated_children =
    (2, create_from_fact (simple_leaf 7)) ∷ (3, create_from_fact (simple_leaf 8)) ∷ []

update_necessary-Loop_example :
    Loop crypto dict_storage leaves 3 updated_children start
      (update_necessary crypto dict_storage leaves 3 updated_children start)
update_necessary-Loop_example =
    update_necessary-Loop crypto dict_storage leaves 3 updated_children start (omega arith)
