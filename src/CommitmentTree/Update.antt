-- ===== src/CommitmentTree/Update.antt =====
-- crates/starknet-os/src/starkware_utils/commitment_tree/update_tree.rs, merkle_tree/traverse_tree.rs
-- and patricia_tree/patricia_tree.rs: a list of modifications is applied to a tree. The two loops
-- run on fuel: the climb to the root on the index it starts from, and the queue on the size of the
-- modifications; a run out of fuel would be a panic.
pub mod Positions
pub mod Order
pub mod Work
pub mod Climb
pub mod Turns
pub mod Joins
pub mod Halves
pub mod Targets
pub mod Visit
pub mod Traverse
pub mod Queue
pub mod Result
use snos.Base.{
  ℕ, zero, suc, ◌+◌, ◌-◌, ◌*◌, ◌/◌, ◌%◌, Bool, true, false, ◌==◌, if◌then◌else◌, Option, none, some,
  List, [], ◌∷◌, ◌++◌,
}
use snos.Base.Outcome
use snos.Base.Outcome.{Outcome, ok, err, panicked, map_err}
use snos.Base.HashMap
use snos.Base.HashMap.{HashMap, nat_eq}
use snos.CommitmentTree.Bytes.{Hash, Crypto}
use snos.CommitmentTree.Storage.{StorageError, Storage, set}
use snos.CommitmentTree.Nodes.{
  PatriciaNodeFact, node_object, to_tuple, CombineError, UpdateTreeError, TreeError,
}
use snos.CommitmentTree.Nodes.{combine as combine_error, update_tree as update_tree_error}
use snos.CommitmentTree.Context.{Context, Action, BinaryFactDict, LeafFact, pure, lift, ◌>>=◌, ◌>>◌}
use snos.CommitmentTree.UpdateTree.{
  UpdateTree, absent, present, TreeUpdate, tuple, leaf, build_update_tree,
}
use snos.CommitmentTree.VirtualNode.{VirtualPatriciaNode, from_hash}
use snos.CommitmentTree.VirtualNode as VirtualNode
use snos.CommitmentTree.Calculation.{
  NodeFactDict, VirtualCalculationNode, no_facts, full_calculate_node, create_from_node,
  create_from_fact, combine,
}

-- A node of the traversal, with the modifications below it.
pub record NodeType (LF : Type 0) : Type 0 where
  pub index : ℕ
  pub tree : VirtualPatriciaNode
  pub update : UpdateTree LF

-- `self.updated_nodes` of the traverser.
abbrev pub UpdatedNodes : Type 0 → Type 0
UpdatedNodes LF = HashMap ℕ (VirtualCalculationNode LF)

-- `index ^ 1`
abbrev pub sibling : ℕ → ℕ
sibling index = if index % 2 == 0 then index + 1 else index - 1

abbrev pub contains_key : {A : Type 0} → Option A → Bool
contains_key none = false
contains_key (some a) = true

abbrev pub unwrap : {E A : Type 0} → Option A → Outcome E A
unwrap none = panicked
unwrap (some a) = ok a

-- The conversion of errors that `?` makes.
abbrev pub convert : {S E F A : Type 0} → (E → F) → Action S E A → Action S F A
convert f m ctx = map_err f (m ctx)

module _ {S LF : Type 0} (c : Crypto) (st : Storage S) (lf : LeafFact LF) where
  -- The body of the `while`, for the parent of the two siblings.
  abbrev pub combine_siblings : ℕ → UpdatedNodes LF → Action S UpdateTreeError (UpdatedNodes LF)
  combine_siblings parent updated_nodes =
      lift (unwrap (HashMap.get (parent * 2) updated_nodes)) >>= λ left.
      lift (unwrap (HashMap.get (parent * 2 + 1) updated_nodes)) >>= λ right.
      convert combine_error (combine c st lf left right) >>= λ calculation_node. pure (
        HashMap.remove (parent * 2 + 1)
          (HashMap.remove (parent * 2) (HashMap.insert parent calculation_node updated_nodes)))

  -- `while updated_nodes.contains_key(&(cur_node_index ^ 1))`
  unfoldable pub climb : ℕ → ℕ → UpdatedNodes LF → Action S UpdateTreeError (UpdatedNodes LF)
  climb zero cur updated_nodes ctx = panicked
  climb (suc fuel) cur updated_nodes ctx =
      let combined =
        (combine_siblings (cur / 2) updated_nodes >>= (λ nodes. climb fuel (cur / 2) nodes)) ctx in
      if contains_key (HashMap.get (sibling cur) updated_nodes)
      then combined
      else ok (updated_nodes, ctx)

  unfoldable pub update_necessary : ℕ → UpdatedNodes LF → Action S UpdateTreeError (UpdatedNodes LF)
  update_necessary node_index updated_nodes = climb (suc node_index) node_index updated_nodes

  unfoldable pub update_if_possible :
      ℕ → VirtualPatriciaNode → UpdatedNodes LF → Action S UpdateTreeError (UpdatedNodes LF)
  update_if_possible node_index node updated_nodes =
      update_necessary node_index (HashMap.insert node_index (create_from_node node) updated_nodes)

  unfoldable pub set_fact : LF → ℕ → UpdatedNodes LF → Action S UpdateTreeError (UpdatedNodes LF)
  set_fact new_fact node_index updated_nodes =
      update_necessary node_index
        (HashMap.insert node_index (create_from_fact new_fact) updated_nodes)

  -- `get_children` of the traverser: the children to visit, and the updated nodes.
  abbrev pub children_of :
      ℕ
      → VirtualPatriciaNode
      → UpdateTree LF
      → UpdatedNodes LF
      → Action S TreeError (List (NodeType LF) × UpdatedNodes LF)
  children_of index tree absent updated_nodes =
      convert update_tree_error (update_if_possible index tree updated_nodes) >>= λ nodes.
      pure ([], nodes)
  children_of index tree (present (leaf fact)) updated_nodes =
      convert update_tree_error (set_fact fact index updated_nodes) >>= λ nodes. pure ([], nodes)
  children_of index tree (present (tuple left_update right_update)) updated_nodes =
      VirtualNode.get_children c st tree >>= λ both. pure (
        record { index = 2 * index; tree = both.0; update = left_update }
            ∷ record { index = 2 * index + 1; tree = both.1; update = right_update }
            ∷ [],
        updated_nodes,
      )

  unfoldable pub get_children :
      NodeType LF → UpdatedNodes LF → Action S TreeError (List (NodeType LF) × UpdatedNodes LF)
  get_children node updated_nodes = children_of node.index node.tree node.update updated_nodes

  -- `while let Some(node) = queue.pop_front()`
  unfoldable pub traverse :
      ℕ → List (NodeType LF) → UpdatedNodes LF → Action S TreeError (UpdatedNodes LF)
  traverse fuel [] updated_nodes ctx = ok (updated_nodes, ctx)
  traverse zero (node ∷ queue) updated_nodes ctx = panicked
  traverse (suc fuel) (node ∷ queue) updated_nodes ctx =
      (get_children node updated_nodes >>= (λ found. traverse fuel (queue ++ found.0) found.1)) ctx

-- The number of nodes that a tree of modifications makes the traversal visit.
unfoldable mutual
  pub size : {LF : Type 0} → UpdateTree LF → ℕ
  size absent = 1
  size (present t) = size_present t

  pub size_present : {LF : Type 0} → TreeUpdate LF → ℕ
  size_present (leaf fact) = 1
  size_present (tuple l r) = suc (size l + size r)

module _ {S LF : Type 0} (c : Crypto) (st : Storage S) (lf : LeafFact LF) where
  unfoldable pub traverse_tree : NodeType LF → Action S TreeError (UpdatedNodes LF)
  traverse_tree root = traverse c st lf (size root.update) (root ∷ []) []

  unfoldable pub build_updated_calculation :
      VirtualPatriciaNode → List (ℕ × LF) → Action S TreeError (VirtualCalculationNode LF)
  build_updated_calculation tree modifications =
      lift (build_update_tree tree.height modifications) >>= λ update.
      traverse_tree (record { index = 1; tree = tree; update = update }) >>= λ updated_nodes.
      lift (unwrap (HashMap.get 1 updated_nodes))

  -- The loops over the new inner nodes and the new leaves.
  unfoldable pub write_inner_nodes : HashMap Hash PatriciaNodeFact → S → Outcome StorageError S
  write_inner_nodes [] s = ok s
  write_inner_nodes ((root_hash, root_node) ∷ nodes) s =
      Outcome.◌>>=◌ (set (node_object c.biguint) st root_node s root_hash) (write_inner_nodes nodes)

  unfoldable pub write_leaves : HashMap Hash LF → S → Outcome StorageError S
  write_leaves [] s = ok s
  write_leaves ((root_hash, fact) ∷ leaves) s =
      Outcome.◌>>=◌ (set lf.object st fact s root_hash) (write_leaves leaves)

  unfoldable pub write_fact_nodes : NodeFactDict LF → S → Outcome StorageError S
  write_fact_nodes nodes s =
      Outcome.◌>>=◌ (write_inner_nodes nodes.inner_nodes s) (write_leaves nodes.leaves)

  abbrev pub insert_facts : HashMap Hash PatriciaNodeFact → BinaryFactDict → BinaryFactDict
  insert_facts [] facts = facts
  insert_facts ((fact_hash, fact) ∷ nodes) facts =
      insert_facts nodes
        (HashMap.insert (c.biguint.from_bytes_be fact_hash) (to_tuple c.biguint fact) facts)

  -- `if let Some(facts) = facts`
  abbrev pub add_facts :
      HashMap Hash PatriciaNodeFact → Option BinaryFactDict → Option BinaryFactDict
  add_facts nodes none = none
  add_facts nodes (some facts) = some (insert_facts nodes facts)

  abbrev pub store : NodeFactDict LF → Action S TreeError (Unit {0})
  store new_facts ctx =
      Outcome.◌>>=◌ (map_err TreeError.storage (write_fact_nodes new_facts ctx.storage))
        λ s. ok (tt, record { storage = s; facts = add_facts new_facts.inner_nodes ctx.facts })

  unfoldable pub update_tree :
      VirtualPatriciaNode → List (ℕ × LF) → Action S TreeError VirtualPatriciaNode
  update_tree tree modifications =
      build_updated_calculation tree modifications >>= λ updated_calc_node.
      let (root_node, new_facts) = full_calculate_node c lf updated_calc_node no_facts in
      store new_facts >> pure root_node
