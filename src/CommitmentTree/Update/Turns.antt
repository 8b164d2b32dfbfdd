-- ===== src/CommitmentTree/Update/Turns.antt =====
-- The `while` of `update_necessary` in
-- crates/starknet-os/src/starkware_utils/commitment_tree/update_tree.rs as a relation without fuel.
use snos.Base.{
  ℕ, zero, suc, ◌+◌, ◌*◌, ◌/◌, ◌<◌, ◌≡◌, refl, sym, ap, ◌∙◌, arith, Option, none, some,
  Option-cases, inl, inr,
}
use snos.Base.Outcome.{Outcome, ok, err, panicked, map_err, Ends}
use snos.Base.HashMap
use snos.Base.HashMap.{nat_eq, get-remove}
use snos.CommitmentTree.Bytes.{Crypto}
use snos.CommitmentTree.Storage.{Storage}
use snos.CommitmentTree.Nodes.{CombineError, UpdateTreeError}
use snos.CommitmentTree.Nodes.{combine as combine_error}
use snos.CommitmentTree.Context.{Context, LeafFact, continue, pure, lift, ◌>>=◌}
use snos.CommitmentTree.Calculation.{VirtualCalculationNode, combine}
use snos.CommitmentTree.Update.{
  UpdatedNodes, sibling, unwrap, convert, combine_siblings, climb, update_necessary,
}
use snos.CommitmentTree.Update.Work.{get_node}

module _ {S LF : Type 0} (c : Crypto) (st : Storage S) (lf : LeafFact LF) where
  -- A run of the loop from an index, with the map and the context that it starts with, to its end.
  pub data Loop
      : ℕ
        → UpdatedNodes LF
        → Context S
        → Outcome UpdateTreeError (UpdatedNodes LF × Context S)
        → Type 0 where
    stops :
        (cur : ℕ) (nodes : UpdatedNodes LF) (ctx : Context S)
        → get_node (sibling cur) nodes ≡ none
        → Loop cur nodes ctx (ok (nodes, ctx))
    fails :
        (cur : ℕ) (nodes : UpdatedNodes LF) (ctx : Context S) (other : VirtualCalculationNode LF)
        (e : UpdateTreeError)
        → get_node (sibling cur) nodes ≡ some other
        → combine_siblings c st lf (cur / 2) nodes ctx ≡ err e
        → Loop cur nodes ctx (err e)
    panics :
        (cur : ℕ) (nodes : UpdatedNodes LF) (ctx : Context S) (other : VirtualCalculationNode LF)
        → get_node (sibling cur) nodes ≡ some other
        → combine_siblings c st lf (cur / 2) nodes ctx ≡ panicked
        → Loop cur nodes ctx panicked
    turns :
        (cur : ℕ) (nodes nodes' : UpdatedNodes LF) (ctx ctx' : Context S)
        (other : VirtualCalculationNode LF)
        (o : Outcome UpdateTreeError (UpdatedNodes LF × Context S))
        → get_node (sibling cur) nodes ≡ some other
        → combine_siblings c st lf (cur / 2) nodes ctx ≡ ok (nodes', ctx')
        → Loop (cur / 2) nodes' ctx' o
        → Loop cur nodes ctx o

  -- The right child is not in the map that the body of the loop leaves.
  abbrev Removed : ℕ → Outcome UpdateTreeError (UpdatedNodes LF × Context S) → Type 0
  Removed parent o = Ends (λ _. Unit) Unit (λ r. get_node (parent * 2 + 1) r.0 ≡ none) o

  combined-Removed :
      (parent : ℕ) (nodes : UpdatedNodes LF)
      (o : Outcome CombineError (VirtualCalculationNode LF × Context S))
      → Removed parent (
          continue (map_err combine_error o) (λ n. pure (
            HashMap.remove
              (parent * 2 + 1)
              (HashMap.remove (parent * 2) (HashMap.insert parent n nodes)))))
  combined-Removed parent nodes (ok (n, ctx)) = ground (
    arith,
    get-remove (parent * 2 + 1) (parent * 2 + 1)
        (HashMap.remove (parent * 2) (HashMap.insert parent n nodes)),
  )
  combined-Removed parent nodes (err e) = tt
  combined-Removed parent nodes panicked = tt

  siblings-Removed :
      (parent : ℕ) (nodes : UpdatedNodes LF) (ctx : Context S)
      (l r : Option (VirtualCalculationNode LF))
      → Removed parent (
          (lift (unwrap l) >>= λ left. lift (unwrap r) >>= λ right.
          convert combine_error (combine c st lf left right) >>= λ n. pure (
            HashMap.remove
              (parent * 2 + 1)
              (HashMap.remove (parent * 2) (HashMap.insert parent n nodes))))
            ctx)
  siblings-Removed parent nodes ctx none r = tt
  siblings-Removed parent nodes ctx (some left) none = tt
  siblings-Removed parent nodes ctx (some left) (some right) =
      combined-Removed parent nodes (combine c st lf left right ctx)

  combine_siblings-Removed :
      (parent : ℕ) (nodes : UpdatedNodes LF) (ctx : Context S)
      → Removed parent (combine_siblings c st lf parent nodes ctx)
  combine_siblings-Removed parent nodes ctx =
      siblings-Removed parent nodes ctx (HashMap.get (parent * 2) nodes)
        (HashMap.get (parent * 2 + 1) nodes)

  after_turn :
      (fuel cur : ℕ) (nodes : UpdatedNodes LF) (ctx : Context S) (other : VirtualCalculationNode LF)
      (o : Outcome UpdateTreeError (UpdatedNodes LF × Context S))
      → get_node (sibling cur) nodes ≡ some other
      → combine_siblings c st lf (cur / 2) nodes ctx ≡ o
      → ((nodes' : UpdatedNodes LF) (ctx' : Context S)
          → get_node (cur / 2 * 2 + 1) nodes' ≡ none
          → Loop (cur / 2) nodes' ctx' (climb c st lf fuel (cur / 2) nodes' ctx'))
      → Removed (cur / 2) o
      → Loop cur nodes ctx (continue o (λ nodes'. climb c st lf fuel (cur / 2) nodes'))
  after_turn fuel cur nodes ctx other (ok (nodes', ctx')) e b next gone =
      turns cur nodes nodes' ctx ctx' other _ e b (next nodes' ctx' gone)
  after_turn fuel cur nodes ctx other (err x) e b next gone = fails cur nodes ctx other x e b
  after_turn fuel cur nodes ctx other panicked e b next gone = panics cur nodes ctx other e b

  climb-Loop :
      (fuel cur : ℕ) (nodes : UpdatedNodes LF) (ctx : Context S)
      → cur < fuel
      → (cur ≡ 0 → get_node 1 nodes ≡ none)
      → Loop cur nodes ctx (climb c st lf fuel cur nodes ctx)
  unfolding climb
  climb-Loop zero cur nodes ctx lt root = absurd (omega arith)
  climb-Loop (suc fuel) cur nodes ctx lt root = elim (Option-cases (get_node (sibling cur) nodes)) [
    | inl e ↦ rw e (stops cur nodes ctx e)
    | inr (other, e) ↦
        let pos : 0 < cur = positive cur other e root in
        rw e (
          after_turn fuel cur nodes ctx other (combine_siblings c st lf (cur / 2) nodes ctx) e refl
            (λ nodes' ctx' gone. climb-Loop fuel (cur / 2) nodes' ctx' (omega arith) (λ z.
              let one : cur / 2 * 2 + 1 ≡ 1 = omega (arith, z) in
              ap (λ k. get_node k nodes') (sym one) ∙ gone))
            (combine_siblings-Removed (cur / 2) nodes ctx))
  ]
    where
      positive :
          (k : ℕ) (other : VirtualCalculationNode LF)
          → get_node (sibling k) nodes ≡ some other
          → (k ≡ 0 → get_node 1 nodes ≡ none)
          → 0 < k
      positive zero other e root = absurd (cc (e, root refl))
      positive (suc k) other e root = omega arith

  -- The loop ends from every index but 0, for every map of nodes and every store: its run without
  -- fuel ends with the result of `update_necessary`.
  pub update_necessary-Loop :
      (node_index : ℕ) (nodes : UpdatedNodes LF) (ctx : Context S)
      → 0 < node_index
      → Loop node_index nodes ctx (update_necessary c st lf node_index nodes ctx)
  unfolding update_necessary
  update_necessary-Loop node_index nodes ctx pos =
      climb-Loop (suc node_index) node_index nodes ctx (omega arith)
        (λ z. absurd (omega (arith, z)))
