-- ===== src/CommitmentTree/Update/Halves.antt =====
-- The climb of `update_necessary` in
-- crates/starknet-os/src/starkware_utils/commitment_tree/update_tree.rs, against the work that is
-- left: it ends at a node whose sibling is not updated yet, or at the root.
use snos.Base.{ℕ, zero, suc, ◌+◌, ◌*◌, ◌^◌, ◌<◌, ◌≡◌, ◌≢◌, refl, sym, ◌∙◌, arith, List, ◌++◌}
use snos.Base.Outcome.{Outcome, Ends}
use snos.Base.HashMap
use snos.Base.HashMap.{nat_eq, get-insert, get-remove}
use snos.CommitmentTree.Bytes.{Crypto}
use snos.CommitmentTree.Storage.{Storage}
use snos.CommitmentTree.Nodes.{CombineError, UpdateTreeError}
use snos.CommitmentTree.Context.{Context, LeafFact}
use snos.CommitmentTree.Calculation.{VirtualCalculationNode, combine}
use snos.CommitmentTree.Update.{NodeType, UpdatedNodes, climb}
use snos.CommitmentTree.Update.Order.{Into, here, there, in_left, in_right, split}
use snos.CommitmentTree.Update.Positions.{
  Below-self, root-not-Below_left, root-not-Below_right, left-not_right,
}
use snos.CommitmentTree.Update.Work.{
  Work, pending, done, halved, pendings, Holds, Holds-Inside, none_below,
}
use snos.CommitmentTree.Update.Climb.{Keeping}
use snos.CommitmentTree.Update.Joins.{
  Climb, fails, goes_on, stops, left_done, right_done, wider_left, wider_right,
}

module _ {S LF : Type 0} (c : Crypto) (st : Storage S) (lf : LeafFact LF) (s : S)
    (Ready : ℕ → ℕ → NodeType LF → Type 0) (Good : ℕ → ℕ → VirtualCalculationNode LF → Type 0)
    (Blame : CombineError → Type 0) (Broken : Type 0)
    (combine_law : (i h : ℕ) (left right : VirtualCalculationNode LF) (ctx : Context S)
      → Good (i * 2) h left
      → Good (i * 2 + 1) h right
      → ctx.storage ≡ s
      → Ends Blame Broken (Keeping (Good i (suc h)) s) (combine c st lf left right ctx)) where
  up_left :
      (l r : Work LF) (i h : ℕ) (nodes : UpdatedNodes LF) (R : List (NodeType LF))
      (o : Outcome UpdateTreeError (UpdatedNodes LF × Context S))
      → 0 < i
      → Holds Ready Good nodes (halved l r) i (suc h)
      → Climb c st lf s Ready Good Blame Broken combine_law (i * 2) h nodes R o
      → Climb c st lf s Ready Good Blame Broken combine_law i (suc h) nodes (R ++ pendings r) o
  unfolding pendings
  up_left l r i h nodes R o pos v (fails b) = fails b
  up_left l r i h nodes R o pos v (goes_on fuel nodes' ctx n lt es en g out er eo) =
      rw (er, eo)
        (left_done c st lf s Ready Good Blame Broken combine_law r i h fuel nodes nodes' ctx n pos
          lt es (en, g) out (out i (root-not-Below_left i pos) ∙ v.0)
          (Holds-Inside Ready Good r (i * 2 + 1) h nodes nodes'
            (λ k b. out k (λ b'. left-not_right i k pos b' b)) v.2))
  up_left l r i h nodes R o pos v (stops t nodes' ctx es w nd out er eo) =
      stops (halved t r) nodes' ctx es
        (
          out i (root-not-Below_left i pos) ∙ v.0,
          w,
          Holds-Inside Ready Good r (i * 2 + 1) h nodes nodes'
              (λ k b. out k (λ b'. left-not_right i k pos b' b)) v.2,
          λ d _. nd d,
        )
        (λ e. e) (wider_left c st lf s Ready Good Blame Broken combine_law i nodes nodes' out)
        (rw er refl) eo

  up_right :
      (l r : Work LF) (i h : ℕ) (nodes : UpdatedNodes LF) (R : List (NodeType LF))
      (o : Outcome UpdateTreeError (UpdatedNodes LF × Context S))
      → 0 < i
      → Holds Ready Good nodes (halved l r) i (suc h)
      → Climb c st lf s Ready Good Blame Broken combine_law (i * 2 + 1) h nodes R o
      → Climb c st lf s Ready Good Blame Broken combine_law i (suc h) nodes (pendings l ++ R) o
  unfolding pendings
  up_right l r i h nodes R o pos v (fails b) = fails b
  up_right l r i h nodes R o pos v (goes_on fuel nodes' ctx n lt es en g out er eo) =
      rw (er, eo)
        (right_done c st lf s Ready Good Blame Broken combine_law l i h fuel nodes nodes' ctx n pos
          lt es (en, g) out (out i (root-not-Below_right i pos) ∙ v.0)
          (Holds-Inside Ready Good l (i * 2) h nodes nodes'
            (λ k b. out k (λ b'. left-not_right i k pos b b')) v.1))
  up_right l r i h nodes R o pos v (stops t nodes' ctx es w nd out er eo) =
      stops (halved l t) nodes' ctx es
        (
          out i (root-not-Below_right i pos) ∙ v.0,
          Holds-Inside Ready Good l (i * 2) h nodes nodes'
              (λ k b. out k (λ b'. left-not_right i k pos b b')) v.1,
          w,
          λ _ d. nd d,
        )
        (λ e. e) (wider_right c st lf s Ready Good Blame Broken combine_law i nodes nodes' out)
        (rw er refl) eo

  -- A node that is to be visited is updated instead, and the climb starts from it.
  pub climb-Climb :
      (t : Work LF) (i h fuel : ℕ) (x : NodeType LF) (n : VirtualCalculationNode LF)
      (nodes : UpdatedNodes LF) (ctx : Context S) (R : List (NodeType LF))
      → 0 < i
      → x.index < 2 ^ fuel
      → ctx.storage ≡ s
      → ((k h' : ℕ) → Ready k h' x → (x.index ≡ k) × Good k h' n)
      → Holds Ready Good nodes t i h
      → Into x (pendings t) R
      → Climb c st lf s Ready Good Blame Broken combine_law i h nodes R
          (climb c st lf fuel x.index (HashMap.insert x.index n nodes) ctx)
  unfolding pendings
  climb-Climb (done m) i h fuel x n nodes ctx R pos lt es ready v w =
      absurd (none_below Ready Good w)
  climb-Climb (pending y) i h fuel x n nodes ctx R pos lt es ready v (there w) =
      absurd (none_below Ready Good w)
  climb-Climb (pending y) i h fuel x n nodes ctx R pos lt es ready v here =
      let (e, g) = ready i h v.1 in
      goes_on fuel (HashMap.insert x.index n nodes) ctx n (rw e at lt) es
        (ground (arith, get-insert x.index i n nodes)) g
        (λ k nb.
          let ne : x.index ≢ k = λ f. nb (rw (sym e ∙ f) (Below-self k)) in
          ground (arith, get-insert x.index k n nodes))
        refl (rw e refl)
  climb-Climb (halved l r) i zero fuel x n nodes ctx R pos lt es ready v w = absurd v
  climb-Climb (halved l r) i (suc h) fuel x n nodes ctx R pos lt es ready v w =
      elim (split x (pendings l) (pendings r) w) [
        | in_left k u e ↦ rw e (
            up_left l r i h nodes k _ pos v
              (climb-Climb l (i * 2) h fuel x n nodes ctx k (omega arith) lt es ready v.1 u))
        | in_right k u e ↦ rw e (
            up_right l r i h nodes k _ pos v
              (climb-Climb r (i * 2 + 1) h fuel x n nodes ctx k (omega arith) lt es ready v.2 u))
      ]
