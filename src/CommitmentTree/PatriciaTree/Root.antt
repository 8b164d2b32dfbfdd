-- ===== src/CommitmentTree/PatriciaTree/Root.antt =====
-- The root that `update` of
-- crates/starknet-os/src/starkware_utils/commitment_tree/patricia_tree/patricia_tree.rs returns.
use snos.Base.{ℕ, ◌^◌, ◌<◌, ◌≡◌, refl, arith, All, false, leb, Bool-cases, inl, inr, ◌⊎◌, List}
use snos.Base.Outcome
use snos.Base.Outcome.{Outcome, ok, err, panicked, map_err, Ends, Ends_weaken, Ends_bind}
use snos.Base.HashMap
use snos.Base.HashMap.{HashMap, nat_eq}
use snos.CommitmentTree.Bytes.{Hash, Crypto}
use snos.CommitmentTree.Storage.{StorageError, Storage, IsLawful}
use snos.CommitmentTree.Nodes.{
  PatriciaNodeFact, edge, node_object, hash_node, TreeError, verify_path_value, new_edge,
}
use snos.CommitmentTree.Context.{Context, LeafFact, continue, lift, pure, write_node_fact}
use snos.CommitmentTree.Reading.{Reading}
use snos.CommitmentTree.VirtualNode.{VirtualPatriciaNode, from_hash, is_virtual_edge}
use snos.CommitmentTree.VirtualNode as VirtualNode
use snos.CommitmentTree.VirtualNode.Leaves.{IsValid as IsValidNode, flat-IsValid}
use snos.CommitmentTree.Calculation.{
  HashCalculation, VirtualCalculationNode, NodeFactDict, no_facts, full_calculate,
  full_calculate_node,
}
use snos.CommitmentTree.Calculation as Calculation
use snos.CommitmentTree.Calculation.Facts.{IsKeyed, hash_of, full_calculate-IsKeyed}
use snos.CommitmentTree.Update.{
  write_fact_nodes, build_updated_calculation, update_tree, store, add_facts,
}
use snos.CommitmentTree.Update.Climb.{Keeping, Ends_continue}
use snos.CommitmentTree.Update.Targets.{TreeBlame, Broken}
use snos.CommitmentTree.Update.Result.{IsUpdated, build_updated_calculation-IsUpdated}
use snos.CommitmentTree.PatriciaTree.{PatriciaTree, update}
use snos.CommitmentTree.PatriciaTree.Writes.{
  Unserialized, Panics, set-Ends, WritePanics, write_fact_nodes-Ends,
}

module _ {S LF : Type 0} (c : Crypto) (st : Storage S) (lf : LeafFact LF) (lawful : IsLawful st)
    (s : S) (rd : Reading c st s) where
  -- A fact that cannot be read, or an object that cannot be written.
  abbrev pub RootBlame : TreeError → Type 0
  RootBlame (TreeError.storage e) = TreeBlame c st lf s rd (TreeError.storage e) ⊎ Unserialized e
  RootBlame (TreeError.update_tree e) = TreeBlame c st lf s rd (TreeError.update_tree e)
  RootBlame TreeError.is_empty = TreeBlame c st lf s rd TreeError.is_empty
  RootBlame (TreeError.tree_heights_mismatch a b) = ⊥
  RootBlame TreeError.is_leaf = ⊥
  RootBlame (TreeError.invalid_edge_path a b) = ⊥

  abbrev pub RootBroken : Type 0
  RootBroken = Broken c st lf s rd ⊎ WritePanics c st lf lawful

  blame_of_tree : (e : TreeError) → TreeBlame c st lf s rd e → RootBlame e
  blame_of_tree (TreeError.storage e) v = inl v
  blame_of_tree (TreeError.update_tree e) v = v
  blame_of_tree TreeError.is_empty v = v
  blame_of_tree (TreeError.tree_heights_mismatch a b) v = v
  blame_of_tree TreeError.is_leaf v = v
  blame_of_tree (TreeError.invalid_edge_path a b) v = v

  -- The virtual node with the hash of the bottom of a calculation node.
  abbrev hashed : VirtualCalculationNode LF → VirtualPatriciaNode
  hashed n = record {
    bottom_node = hash_of c lf n.bottom_calculation;
    path = n.path;
    length = n.length;
    height = n.height;
  }

  no_facts-IsKeyed : IsKeyed c lf no_facts
  unfolding HashMap.get
  no_facts-IsKeyed = record { inner = λ h fact e. absurd (cc e); leaf = λ h fact e. absurd (cc e) }

  abbrev Hashed : VirtualPatriciaNode → List (ℕ × LF) → VirtualPatriciaNode × Context S → Type 0
  Hashed tree modifications (v, ctx) =
      (n : VirtualCalculationNode LF) × IsUpdated c st lf s rd tree modifications n × (v ≡ hashed n)

  stored :
      (tree : VirtualPatriciaNode) (modifications : List (ℕ × LF)) (n : VirtualCalculationNode LF)
      (nodes : NodeFactDict LF) (v : VirtualPatriciaNode) (ctx : Context S)
      (o : Outcome StorageError S)
      → Ends Unserialized (WritePanics c st lf lawful) (λ _. Unit {0}) o
      → IsUpdated c st lf s rd tree modifications n
      → v ≡ hashed n
      → Ends RootBlame RootBroken (Hashed tree modifications) (
          continue
            (Outcome.◌>>=◌ (map_err TreeError.storage o) (λ s'.
              ok (
                tt,
                record { storage = s'; facts = add_facts c st lf nodes.inner_nodes ctx.facts },
              )))
            (λ _. pure v))
  stored tree modifications n nodes v ctx (ok s') w u e = (n, u, e)
  stored tree modifications n nodes v ctx (err e) w u _ = inr w
  stored tree modifications n nodes v ctx panicked w u e = inr w

  hashed_node : (n : VirtualCalculationNode LF) → (full_calculate_node c lf n no_facts).0 ≡ hashed n
  unfolding full_calculate_node
  hashed_node n =
      let e = (full_calculate-IsKeyed c lf n.bottom_calculation no_facts no_facts-IsKeyed).0 in
      rw e refl

  update_tree-Hashed :
      (tree : VirtualPatriciaNode) (modifications : List (ℕ × LF)) (ctx : Context S)
      → IsValidNode c st s rd tree
      → All (λ m. m.0 < 2 ^ tree.height) modifications
      → ctx.storage ≡ s
      → Ends RootBlame RootBroken
          (Hashed tree modifications)
          (update_tree c st lf tree modifications ctx)
  unfolding update_tree
  update_tree-Hashed tree modifications ctx v all es =
      Ends_continue RootBlame RootBroken (Keeping (IsUpdated c st lf s rd tree modifications) s)
        (Hashed tree modifications) (build_updated_calculation c st lf tree modifications ctx)
        (λ n ctx'.
          continue (store c st lf (full_calculate_node c lf n no_facts).1 ctx')
            (λ _. pure (full_calculate_node c lf n no_facts).0))
        (Ends_weaken (TreeBlame c st lf s rd) RootBlame (Broken c st lf s rd) RootBroken
          (Keeping (IsUpdated c st lf s rd tree modifications) s)
          (build_updated_calculation c st lf tree modifications ctx) blame_of_tree inl
          (build_updated_calculation-IsUpdated c st lf s rd tree modifications ctx v all es))
        (λ n ctx' kept.
          let nodes = (full_calculate_node c lf n no_facts).1 in
          stored tree modifications n nodes (full_calculate_node c lf n no_facts).0 ctx'
            (write_fact_nodes c st lf nodes ctx'.storage)
            (write_fact_nodes-Ends c st lf lawful nodes ctx'.storage) kept.0 (hashed_node n))

  -- A root that is the hash of an updated node of the tree's height.
  pub record IsUpdatedRoot (tree : PatriciaTree) (modifications : List (ℕ × LF))
      (updated : PatriciaTree) : Type 0 where
    pub node : VirtualCalculationNode LF
    pub is_updated : IsUpdated c st lf s rd (from_hash tree.root tree.height) modifications node
    pub root : updated.root ≡ hash_of c lf (Calculation.commit node)
    pub height : updated.height ≡ tree.height

  committed_edge :
      (tree : PatriciaTree) (modifications : List (ℕ × LF)) (n : VirtualCalculationNode LF) (h : ℕ)
      (ctx : Context S) (o : Outcome StorageError (Hash × Context S))
      → Ends Unserialized
          (WritePanics c st lf lawful)
          (λ r. r.0 ≡ hash_of c lf (Calculation.commit n))
          o
      → IsUpdated c st lf s rd (from_hash tree.root tree.height) modifications n
      → Ends RootBlame RootBroken
          (λ r. IsUpdatedRoot tree modifications r.0)
          (continue
            (map_err TreeError.storage o)
            (λ root_hash. pure (record { root = root_hash; height = n.height })))
  committed_edge tree modifications n h ctx (ok (r, ctx')) e u = record {
    node = n;
    is_updated = u;
    root = e;
    height = u.height;
  }
  committed_edge tree modifications n h ctx (err e) v u = inr v
  committed_edge tree modifications n h ctx panicked v u = inr v

  write_edge :
      (n : VirtualCalculationNode LF) (ctx : Context S) (o : Outcome StorageError S)
      (fact : PatriciaNodeFact) (facts : S → Context S → Context S)
      → Ends Unserialized (Panics (node_object c.biguint)) (λ _. Unit {0}) o
      → hash_node c fact ≡ hash_of c lf (Calculation.commit n)
      → Ends Unserialized
          (WritePanics c st lf lawful)
          (λ r. r.0 ≡ hash_of c lf (Calculation.commit n))
          (continue (lift o ctx) (λ s' ctx'. ok (hash_node c fact, facts s' ctx')))
  write_edge n ctx (ok s') fact facts v e = e
  write_edge n ctx (err w) fact facts v e = v
  write_edge n ctx panicked fact facts v e = inl v

  commit-IsUpdatedRoot :
      (tree : PatriciaTree) (modifications : List (ℕ × LF)) (n : VirtualCalculationNode LF)
      (ctx : Context S)
      → IsUpdated c st lf s rd (from_hash tree.root tree.height) modifications n
      → Ends RootBlame RootBroken
          (λ r. IsUpdatedRoot tree modifications r.0)
          (continue
            (VirtualNode.commit c st (hashed n) ctx)
            (λ root_hash. pure (record { root = root_hash; height = n.height })))
  unfolding VirtualNode.commit Calculation.commit hash_of new_edge verify_path_value write_node_fact
  commit-IsUpdatedRoot tree modifications n ctx u =
      elim (Bool-cases (Calculation.is_virtual_edge n)) [
        | inr e ↦ rw e (record { node = n; is_updated = u; root = rw e refl; height = u.height })
        | inl e ↦
            let fits : leb (2 ^ n.length) n.path ≡ false = ground (arith, u.valid.path) in
            rw (e, fits)
              (committed_edge tree modifications n n.height ctx _
                (write_edge n ctx _ (edge _) _
                  (set-Ends (node_object c.biguint) st lawful _ ctx.storage _) (rw e refl))
                u)
      ]

  -- Over a lawful store, `update` of a tree gives a tree of its height whose root is the hash of a
  -- node with the updated leaves: under each index the last modification of it, and the old leaf
  -- where there is none. The ways to fail are a fact in the store that cannot be read, or is that
  -- of an empty node or of an edge of length 0, and an object that cannot be serialized.
  pub update-IsUpdatedRoot :
      (tree : PatriciaTree) (modifications : List (ℕ × LF)) (ctx : Context S)
      → rd.Held tree.root tree.height
      → All (λ m. m.0 < 2 ^ tree.height) modifications
      → ctx.storage ≡ s
      → Ends RootBlame RootBroken
          (λ r. IsUpdatedRoot tree modifications r.0)
          (update c st lf tree modifications ctx)
  unfolding update
  update-IsUpdatedRoot tree modifications ctx held all es =
      Ends_continue RootBlame RootBroken (Hashed (from_hash tree.root tree.height) modifications)
        (λ r. IsUpdatedRoot tree modifications r.0)
        (update_tree c st lf (from_hash tree.root tree.height) modifications ctx)
        (λ v ctx'.
          continue (VirtualNode.commit c st v ctx')
            (λ root_hash. pure (record { root = root_hash; height = v.height })))
        (update_tree-Hashed (from_hash tree.root tree.height) modifications ctx
          (flat-IsValid c st s rd tree.root tree.height held) all es)
        (λ v ctx' (n, u, e). rw e (commit-IsUpdatedRoot tree modifications n ctx' u))
