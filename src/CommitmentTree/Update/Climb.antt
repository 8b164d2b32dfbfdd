-- ===== src/CommitmentTree/Update/Climb.antt =====
-- `update_necessary` of
-- crates/starknet-os/src/starkware_utils/commitment_tree/update_tree.rs: from a node that has just
-- been updated, pairs of updated siblings are combined on the way to the root.
use snos.Base.{ℕ, zero, suc, ◌+◌, ◌*◌, ◌/◌, ◌<◌, ◌≡◌, ◌≢◌, refl, arith, none, some}
use snos.Base.Outcome.{Outcome, ok, err, panicked, map_err, Ends}
use snos.Base.HashMap
use snos.Base.HashMap.{nat_eq, get-insert, get-remove}
use snos.CommitmentTree.Bytes.{Crypto}
use snos.CommitmentTree.Storage.{Storage}
use snos.CommitmentTree.Nodes.{CombineError, UpdateTreeError}
use snos.CommitmentTree.Nodes.{combine as combine_error}
use snos.CommitmentTree.Context.{Context, LeafFact, continue, pure}
use snos.CommitmentTree.Calculation.{VirtualCalculationNode, combine}
use snos.CommitmentTree.Update.{UpdatedNodes, sibling, climb}
use snos.CommitmentTree.Update.Work.{get_node}

abbrev pub UpdateBlame : (CombineError → Type 0) → UpdateTreeError → Type 0
UpdateBlame Blame (UpdateTreeError.storage e) = ⊥
UpdateBlame Blame (UpdateTreeError.combine e) = Blame e

-- The map once a node has taken the place of its two children.
abbrev pub replace_children :
    {LF : Type 0} → ℕ → VirtualCalculationNode LF → UpdatedNodes LF → UpdatedNodes LF
replace_children i n nodes =
    HashMap.remove (i * 2 + 1) (HashMap.remove (i * 2) (HashMap.insert i n nodes))

pub Ends_continue :
    {S E A B : Type 0} (Blame : E → Type 0) (Broken : Type 0) (P : A × Context S → Type 0)
    (Q : B × Context S → Type 0) (m : Outcome E (A × Context S))
    (f : A → Context S → Outcome E (B × Context S))
    → Ends Blame Broken P m
    → ((a : A) (ctx : Context S) → P (a, ctx) → Ends Blame Broken Q (f a ctx))
    → Ends Blame Broken Q (continue m f)
Ends_continue Blame Broken P Q (ok (a, ctx)) f v w = w a ctx v
Ends_continue Blame Broken P Q (err e) f v w = v
Ends_continue Blame Broken P Q panicked f v w = v

abbrev pub Keeping : {A S : Type 0} → (A → Type 0) → S → A × Context S → Type 0
Keeping P s (a, ctx) = P a × (ctx.storage ≡ s)

module _ {LF : Type 0} (i : ℕ) (n : VirtualCalculationNode LF) (nodes : UpdatedNodes LF) where
  pub get-replace_children :
      (k : ℕ)
      → k ≢ i
      → k ≢ i * 2
      → k ≢ i * 2 + 1
      → get_node k (replace_children i n nodes) ≡ get_node k nodes
  get-replace_children k a b d = ground (
    arith,
    get-remove (i * 2 + 1) k (HashMap.remove (i * 2) (HashMap.insert i n nodes)),
    get-remove (i * 2) k (HashMap.insert i n nodes),
    get-insert i k n nodes,
  )

  pub get_self-replace_children : 0 < i → get_node i (replace_children i n nodes) ≡ some n
  get_self-replace_children pos = ground (
    arith,
    get-remove (i * 2 + 1) i (HashMap.remove (i * 2) (HashMap.insert i n nodes)),
    get-remove (i * 2) i (HashMap.insert i n nodes),
    get-insert i i n nodes,
  )

module _ {S LF : Type 0} (c : Crypto) (st : Storage S) (lf : LeafFact LF) where
  pub climb_stop :
      (fuel cur : ℕ) (nodes : UpdatedNodes LF) (ctx : Context S)
      → 0 < fuel
      → get_node (sibling cur) nodes ≡ none
      → climb c st lf fuel cur nodes ctx ≡ ok (nodes, ctx)
  unfolding climb
  climb_stop zero cur nodes ctx lt e = absurd (omega arith)
  climb_stop (suc fuel) cur nodes ctx lt e = rw e refl

  pub climb_on :
      (fuel cur i : ℕ) (a b other : VirtualCalculationNode LF) (nodes : UpdatedNodes LF)
      (ctx : Context S)
      → get_node (sibling cur) nodes ≡ some other
      → cur / 2 ≡ i
      → get_node (i * 2) nodes ≡ some a
      → get_node (i * 2 + 1) nodes ≡ some b
      → climb c st lf (suc fuel) cur nodes ctx ≡ (
          continue
            (continue
              (map_err combine_error (combine c st lf a b ctx))
              (λ n. pure (replace_children i n nodes)))
            (λ nodes'. climb c st lf fuel i nodes'))
  unfolding climb
  climb_on fuel cur i a b other nodes ctx es ei ea eb = rw (es, ei, ea, eb) refl
