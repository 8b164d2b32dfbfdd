-- ===== src/CommitmentTree/Update/Joins.antt =====
-- One step of the climb of `update_necessary` in
-- crates/starknet-os/src/starkware_utils/commitment_tree/update_tree.rs, at a node one of whose
-- children is updated: it goes on from the node if the other child is updated too.
use native.Mathlib.Nat.{pow-suc}
use snos.Base.{
  ℕ, zero, suc, ◌+◌, ◌*◌, ◌/◌, ◌^◌, ◌<◌, ◌≡◌, refl, ◌∙◌, arith, none, some, List, [], ◌++◌,
}
use snos.Base.Outcome.{Outcome, ok, err, panicked, map_err, Ends}
use snos.Base.HashMap.{nat_eq}
use snos.CommitmentTree.Bytes.{Crypto}
use snos.CommitmentTree.Storage.{Storage}
use snos.CommitmentTree.Nodes.{CombineError, UpdateTreeError}
use snos.CommitmentTree.Nodes.{combine as combine_error}
use snos.CommitmentTree.Context.{Context, LeafFact, continue, pure}
use snos.CommitmentTree.Calculation.{VirtualCalculationNode, combine}
use snos.CommitmentTree.Update.{NodeType, UpdatedNodes, sibling, climb}
use snos.CommitmentTree.Update.Positions.{Below-self, Below-left, Below-right, positive}
use snos.CommitmentTree.Update.Work.{
  Work, pending, done, halved, pendings, IsDone, get_node, Outside, Holds, none_of_not_done,
}
use snos.CommitmentTree.Update.Climb.{
  Keeping, UpdateBlame, replace_children, get-replace_children, get_self-replace_children,
  climb_stop, climb_on,
}

module _ {S LF : Type 0} (c : Crypto) (st : Storage S) (lf : LeafFact LF) (s : S)
    (Ready : ℕ → ℕ → NodeType LF → Type 0) (Good : ℕ → ℕ → VirtualCalculationNode LF → Type 0)
    (Blame : CombineError → Type 0) (Broken : Type 0)
    (combine_law : (i h : ℕ) (left right : VirtualCalculationNode LF) (ctx : Context S)
      → Good (i * 2) h left
      → Good (i * 2 + 1) h right
      → ctx.storage ≡ s
      → Ends Blame Broken (Keeping (Good i (suc h)) s) (combine c st lf left right ctx)) where
  -- A climb from somewhere in the subtree of an index and a height: it fails, or it goes on from
  -- the index, the subtree being updated, or it ends with work left in the subtree, which is R.
  pub data Climb (i h : ℕ) (nodes : UpdatedNodes LF) (R : List (NodeType LF))
      (o : Outcome UpdateTreeError (UpdatedNodes LF × Context S)) : Type 0 where
    fails : Ends (UpdateBlame Blame) Broken (λ _. ⊥) o → Climb i h nodes R o
    goes_on :
        (fuel : ℕ) (nodes' : UpdatedNodes LF) (ctx : Context S) (n : VirtualCalculationNode LF)
        → i < 2 ^ fuel
        → ctx.storage ≡ s
        → get_node i nodes' ≡ some n
        → Good i h n
        → Outside i nodes nodes'
        → R ≡ []
        → o ≡ climb c st lf fuel i nodes' ctx
        → Climb i h nodes R o
    stops :
        (t : Work LF) (nodes' : UpdatedNodes LF) (ctx : Context S)
        → ctx.storage ≡ s
        → Holds Ready Good nodes' t i h
        → (IsDone t → ⊥)
        → Outside i nodes nodes'
        → pendings t ≡ R
        → o ≡ ok (nodes', ctx)
        → Climb i h nodes R o

  -- Both children are updated: the climb goes on from the parent.
  joined :
      (i h fuel : ℕ) (nodes nodes' : UpdatedNodes LF)
      (r : Outcome CombineError (VirtualCalculationNode LF × Context S))
      → 0 < i
      → i < 2 ^ fuel
      → Outside i nodes nodes'
      → Ends Blame Broken (Keeping (Good i (suc h)) s) r
      → Climb i (suc h) nodes [] (
          continue
            (continue (map_err combine_error r) (λ n. pure (replace_children i n nodes')))
            (λ nodes''. climb c st lf fuel i nodes''))
  joined i h fuel nodes nodes' (ok (n, ctx)) pos lt out (g, es) =
      goes_on fuel (replace_children i n nodes') ctx n lt es
        (get_self-replace_children i n nodes' pos) g
        (λ k nb.
          get-replace_children i n nodes' k (λ e. nb (rw e (Below-self i)))
            (λ e. nb (rw e (Below-left i (i * 2) (Below-self (i * 2)))))
            (λ e. nb (rw e (Below-right i (i * 2 + 1) (Below-self (i * 2 + 1)))))
          ∙ out k nb)
        refl refl
  joined i h fuel nodes nodes' (err e) pos lt out b = fails b
  joined i h fuel nodes nodes' panicked pos lt out b = fails b

  enough : (i f : ℕ) → 0 < i → i * 2 < 2 ^ f → (g : ℕ) × (f ≡ suc g) × (i < 2 ^ g)
  enough i zero pos lt = absurd (omega arith)
  enough i (suc g) pos lt = (g, refl, omega (arith, pow-suc 2 g))

  pub wider_left : (i : ℕ) (m m' : UpdatedNodes LF) → Outside (i * 2) m m' → Outside i m m'
  wider_left i m m' out k nb = out k (λ b. nb (Below-left i k b))

  pub wider_right : (i : ℕ) (m m' : UpdatedNodes LF) → Outside (i * 2 + 1) m m' → Outside i m m'
  wider_right i m m' out k nb = out k (λ b. nb (Below-right i k b))

  sibling_left : (i : ℕ) → sibling (i * 2) ≡ i * 2 + 1
  sibling_left i = ground arith

  sibling_right : (i : ℕ) → sibling (i * 2 + 1) ≡ i * 2
  sibling_right i = ground arith

  -- One half is updated and the other one is not.
  left_waits :
      (r : Work LF) (i h fuel : ℕ) (nodes nodes' : UpdatedNodes LF) (ctx : Context S)
      (n : VirtualCalculationNode LF)
      → (IsDone r → ⊥)
      → 0 < i
      → i * 2 < 2 ^ fuel
      → ctx.storage ≡ s
      → (get_node (i * 2) nodes' ≡ some n) × Good (i * 2) h n
      → Outside (i * 2) nodes nodes'
      → get_node i nodes' ≡ none
      → Holds Ready Good nodes' r (i * 2 + 1) h
      → Climb i (suc h) nodes (pendings r) (climb c st lf fuel (i * 2) nodes' ctx)
  unfolding pendings
  left_waits r i h fuel nodes nodes' ctx n nd pos lt es vn out ei v =
      stops (halved (done n) r) nodes' ctx es (ei, vn, v, λ _ d. nd d) (λ e. e)
        (wider_left i nodes nodes' out) refl
        (climb_stop c st lf fuel (i * 2) nodes' ctx (positive (i * 2) fuel (omega arith) lt)
          (rw sibling_left (none_of_not_done Ready Good r (i * 2 + 1) h nodes' v nd)))

  right_waits :
      (l : Work LF) (i h fuel : ℕ) (nodes nodes' : UpdatedNodes LF) (ctx : Context S)
      (n : VirtualCalculationNode LF)
      → (IsDone l → ⊥)
      → 0 < i
      → i * 2 + 1 < 2 ^ fuel
      → ctx.storage ≡ s
      → (get_node (i * 2 + 1) nodes' ≡ some n) × Good (i * 2 + 1) h n
      → Outside (i * 2 + 1) nodes nodes'
      → get_node i nodes' ≡ none
      → Holds Ready Good nodes' l (i * 2) h
      → Climb i (suc h) nodes (pendings l ++ []) (climb c st lf fuel (i * 2 + 1) nodes' ctx)
  unfolding pendings
  right_waits l i h fuel nodes nodes' ctx n nd pos lt es vn out ei v =
      stops (halved l (done n)) nodes' ctx es (ei, v, vn, λ d _. nd d) (λ e. e)
        (wider_right i nodes nodes' out) refl
        (climb_stop c st lf fuel (i * 2 + 1) nodes' ctx (positive (i * 2 + 1) fuel (omega arith) lt)
          (rw sibling_right (none_of_not_done Ready Good l (i * 2) h nodes' v nd)))

  pub left_done :
      (r : Work LF) (i h fuel : ℕ) (nodes nodes' : UpdatedNodes LF) (ctx : Context S)
      (n : VirtualCalculationNode LF)
      → 0 < i
      → i * 2 < 2 ^ fuel
      → ctx.storage ≡ s
      → (get_node (i * 2) nodes' ≡ some n) × Good (i * 2) h n
      → Outside (i * 2) nodes nodes'
      → get_node i nodes' ≡ none
      → Holds Ready Good nodes' r (i * 2 + 1) h
      → Climb i (suc h) nodes (pendings r) (climb c st lf fuel (i * 2) nodes' ctx)
  unfolding pendings
  left_done (done b) i h fuel nodes nodes' ctx n pos lt es vn out ei v =
      let (f, ef, small) = enough i fuel pos (omega arith) in
      let half : i * 2 / 2 ≡ i = omega arith in
      rw (ef, climb_on c st lf f (i * 2) i n b b nodes' ctx (rw sibling_left v.0) half vn.0 v.0)
        (joined i h f nodes nodes' (combine c st lf n b ctx) pos small
          (wider_left i nodes nodes' out) (combine_law i h n b ctx vn.1 v.1 es))
  left_done (pending x) i h fuel nodes nodes' ctx n pos lt es vn out ei v =
      left_waits (pending x) i h fuel nodes nodes' ctx n (λ e. e) pos lt es vn out ei v
  left_done (halved l r) i h fuel nodes nodes' ctx n pos lt es vn out ei v =
      left_waits (halved l r) i h fuel nodes nodes' ctx n (λ e. e) pos lt es vn out ei v

  pub right_done :
      (l : Work LF) (i h fuel : ℕ) (nodes nodes' : UpdatedNodes LF) (ctx : Context S)
      (n : VirtualCalculationNode LF)
      → 0 < i
      → i * 2 + 1 < 2 ^ fuel
      → ctx.storage ≡ s
      → (get_node (i * 2 + 1) nodes' ≡ some n) × Good (i * 2 + 1) h n
      → Outside (i * 2 + 1) nodes nodes'
      → get_node i nodes' ≡ none
      → Holds Ready Good nodes' l (i * 2) h
      → Climb i (suc h) nodes (pendings l ++ []) (climb c st lf fuel (i * 2 + 1) nodes' ctx)
  unfolding pendings
  right_done (done a) i h fuel nodes nodes' ctx n pos lt es vn out ei v =
      let (f, ef, small) = enough i fuel pos (omega arith) in
      let half : (i * 2 + 1) / 2 ≡ i = omega arith in
      rw
        (ef, climb_on c st lf f (i * 2 + 1) i a n a nodes' ctx (rw sibling_right v.0) half v.0 vn.0)
        (joined i h f nodes nodes' (combine c st lf a n ctx) pos small
          (wider_right i nodes nodes' out) (combine_law i h a n ctx v.1 vn.1 es))
  right_done (pending x) i h fuel nodes nodes' ctx n pos lt es vn out ei v =
      right_waits (pending x) i h fuel nodes nodes' ctx n (λ e. e) pos lt es vn out ei v
  right_done (halved l r) i h fuel nodes nodes' ctx n pos lt es vn out ei v =
      right_waits (halved l r) i h fuel nodes nodes' ctx n (λ e. e) pos lt es vn out ei v
