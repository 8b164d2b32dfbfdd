-- ===== src/CommitmentTree/Update/Work.antt =====
-- The work that is left while
-- crates/starknet-os/src/starkware_utils/commitment_tree/update_tree.rs updates a tree: below the
-- root, every subtree is still to be visited, or is updated, or is split into its two halves. The
-- map of updated nodes has exactly the updated ones, and never two siblings.
use snos.Base.{ℕ, zero, suc, ◌+◌, ◌*◌, ◌≡◌, refl, Option, none, some, List, [], ◌∷◌, ◌++◌, ◌∙◌}
use snos.Base.HashMap
use snos.Base.HashMap.{nat_eq}
use snos.CommitmentTree.Calculation.{VirtualCalculationNode}
use snos.CommitmentTree.Update.{NodeType, UpdatedNodes}
use snos.CommitmentTree.Update.Order.{
  Into, here, there, in_left, in_right, split, Into-left, Into-right,
}
use snos.CommitmentTree.Update.Positions.{Below, Below-self, Below-left, Below-right}

pub data Work (LF : Type 0) : Type 0 where
  pending : NodeType LF → Work LF
  done : VirtualCalculationNode LF → Work LF
  halved : Work LF → Work LF → Work LF

module _ {LF : Type 0} where
  unfoldable pub pendings : Work LF → List (NodeType LF)
  pendings (pending x) = x ∷ []
  pendings (done n) = []
  pendings (halved l r) = pendings l ++ pendings r

  abbrev pub IsDone : Work LF → Type 0
  IsDone (pending x) = ⊥
  IsDone (done n) = Unit
  IsDone (halved l r) = ⊥

  abbrev pub get_node : ℕ → UpdatedNodes LF → Option (VirtualCalculationNode LF)
  get_node i nodes = HashMap.get i nodes

  -- The maps agree outside the subtree of an index.
  abbrev pub Outside : ℕ → UpdatedNodes LF → UpdatedNodes LF → Type 0
  Outside i nodes nodes' = (k : ℕ) → (Below i k → ⊥) → get_node k nodes' ≡ get_node k nodes

  -- The maps agree in the subtree of an index.
  abbrev pub Inside : ℕ → UpdatedNodes LF → UpdatedNodes LF → Type 0
  Inside i nodes nodes' = (k : ℕ) → Below i k → get_node k nodes' ≡ get_node k nodes

module _ {LF : Type 0} (Ready : ℕ → ℕ → NodeType LF → Type 0)
    (Good : ℕ → ℕ → VirtualCalculationNode LF → Type 0) where
  abbrev pub Holds : UpdatedNodes LF → Work LF → ℕ → ℕ → Type 0
  Holds nodes (pending x) i h = ((k : ℕ) → Below i k → get_node k nodes ≡ none) × Ready i h x
  Holds nodes (done n) i h = (get_node i nodes ≡ some n) × Good i h n
  Holds nodes (halved l r) i zero = ⊥
  Holds nodes (halved l r) i (suc h) =
      (get_node i nodes ≡ none)
      × Holds nodes l (i * 2) h
      × Holds nodes r (i * 2 + 1) h
      × (IsDone l → IsDone r → ⊥)

  -- Only the subtree's own entries matter.
  pub Holds-Inside :
      (t : Work LF) (i h : ℕ) (nodes nodes' : UpdatedNodes LF)
      → Inside i nodes nodes'
      → Holds nodes t i h
      → Holds nodes' t i h
  Holds-Inside (pending x) i h nodes nodes' f v = (λ k b. f k b ∙ v.0 k b, v.1)
  Holds-Inside (done n) i h nodes nodes' f v = (f i (Below-self i) ∙ v.0, v.1)
  Holds-Inside (halved l r) i zero nodes nodes' f v = absurd v
  Holds-Inside (halved l r) i (suc h) nodes nodes' f v = (
    f i (Below-self i) ∙ v.0,
    Holds-Inside l (i * 2) h nodes nodes' (λ k b. f k (Below-left i k b)) v.1,
    Holds-Inside r (i * 2 + 1) h nodes nodes' (λ k b. f k (Below-right i k b)) v.2,
    v.3,
  )

  -- Work that has nothing to visit is done.
  pub IsDone-of_no_pendings :
      (t : Work LF) (i h : ℕ) (nodes : UpdatedNodes LF)
      → Holds nodes t i h
      → pendings t ≡ []
      → IsDone t
  unfolding pendings
  IsDone-of_no_pendings (pending x) i h nodes v e = absurd (cc e)
  IsDone-of_no_pendings (done n) i h nodes v e = tt
  IsDone-of_no_pendings (halved l r) i zero nodes v e = absurd v
  IsDone-of_no_pendings (halved l r) i (suc h) nodes v e =
      let (el, er) = both_nil (pendings l) (pendings r) e in
      absurd (
        v.3 (IsDone-of_no_pendings l (i * 2) h nodes v.1 el)
          (IsDone-of_no_pendings r (i * 2 + 1) h nodes v.2 er))
    where
      both_nil : (l r : List (NodeType LF)) → l ++ r ≡ [] → (l ≡ []) × (r ≡ [])
      both_nil [] r e = (refl, e)
      both_nil (x ∷ l) r e = absurd (cc e)

  -- Work that is not done has no entry at its own index.
  pub none_of_not_done :
      (t : Work LF) (i h : ℕ) (nodes : UpdatedNodes LF)
      → Holds nodes t i h
      → (IsDone t → ⊥)
      → get_node i nodes ≡ none
  none_of_not_done (pending x) i h nodes v nd = v.0 i (Below-self i)
  none_of_not_done (done n) i h nodes v nd = absurd (nd tt)
  none_of_not_done (halved l r) i zero nodes v nd = absurd v
  none_of_not_done (halved l r) i (suc h) nodes v nd = v.0

  -- The work with two nodes in place of one.
  pub record Plugged (i h : ℕ) (nodes : UpdatedNodes LF) (R : List (NodeType LF))
      (a b : NodeType LF) : Type 0 where
    pub work : Work LF
    pub holds : Holds nodes work i h
    pub not_done : IsDone work → ⊥
    pub between : List (NodeType LF)
    pub outer : Into b (pendings work) between
    pub inner : Into a between R

  -- Where a node that is to be visited is, and what stands there once it is split.
  pub record Place (x : NodeType LF) (i h : ℕ) (nodes : UpdatedNodes LF) (R : List (NodeType LF))
      : Type 0 where
    pub at_index : ℕ
    pub at_height : ℕ
    pub vacant : (k : ℕ) → Below at_index k → get_node k nodes ≡ none
    pub ready : Ready at_index at_height x
    pub plug :
        (w : Work LF) (a b : NodeType LF)
        → Holds nodes w at_index at_height
        → (IsDone w → ⊥)
        → pendings w ≡ a ∷ b ∷ []
        → Plugged i h nodes R a b

  Plugged-left :
      (r : Work LF) (i h : ℕ) (nodes : UpdatedNodes LF) (k R : List (NodeType LF))
      (a b : NodeType LF)
      → (get_node i nodes ≡ none) × Holds nodes r (i * 2 + 1) h
      → R ≡ k ++ pendings r
      → Plugged (i * 2) h nodes k a b
      → Plugged i (suc h) nodes R a b
  unfolding pendings
  Plugged-left r i h nodes k R a b v e p = record {
    work = halved p.work r;
    holds = (v.0, p.holds, v.1, λ d _. p.not_done d);
    not_done = λ d. d;
    between = p.between ++ pendings r;
    outer = Into-left (pendings r) p.outer;
    inner = rw e (Into-left (pendings r) p.inner);
  }

  Plugged-right :
      (l : Work LF) (i h : ℕ) (nodes : UpdatedNodes LF) (k R : List (NodeType LF))
      (a b : NodeType LF)
      → (get_node i nodes ≡ none) × Holds nodes l (i * 2) h
      → R ≡ pendings l ++ k
      → Plugged (i * 2 + 1) h nodes k a b
      → Plugged i (suc h) nodes R a b
  unfolding pendings
  Plugged-right l i h nodes k R a b v e p = record {
    work = halved l p.work;
    holds = (v.0, v.1, p.holds, λ _ d. p.not_done d);
    not_done = λ d. d;
    between = pendings l ++ p.between;
    outer = Into-right (pendings l) p.outer;
    inner = rw e (Into-right (pendings l) p.inner);
  }

  pub none_below : {x : NodeType LF} {R : List (NodeType LF)} → Into x [] R → ⊥
  none_below i = elim i [ ]

  pub place :
      (t : Work LF) (i h : ℕ) (x : NodeType LF) (nodes : UpdatedNodes LF) (R : List (NodeType LF))
      → Holds nodes t i h
      → Into x (pendings t) R
      → Place x i h nodes R
  unfolding pendings
  place (done m) i h x nodes R v w = absurd (none_below w)
  place (pending y) i h x nodes R v (there w) = absurd (none_below w)
  place (pending y) i h x nodes R v here = record {
    at_index = i;
    at_height = h;
    vacant = v.0;
    ready = v.1;
    plug = λ w a b holds nd e. record {
      work = w;
      holds = holds;
      not_done = nd;
      between = a ∷ [];
      outer = rw e (there here);
      inner = here;
    };
  }
  place (halved l r) i zero x nodes R v w = absurd v
  place (halved l r) i (suc h) x nodes R v w = elim (split x (pendings l) (pendings r) w) [
    | in_left k u e ↦
        let q = place l (i * 2) h x nodes k v.1 u in
        record {
          at_index = q.at_index;
          at_height = q.at_height;
          vacant = q.vacant;
          ready = q.ready;
          plug = λ w a b holds nd f.
              Plugged-left r i h nodes k R a b (v.0, v.2) e (q.plug w a b holds nd f);
        }
    | in_right k u e ↦
        let q = place r (i * 2 + 1) h x nodes k v.2 u in
        record {
          at_index = q.at_index;
          at_height = q.at_height;
          vacant = q.vacant;
          ready = q.ready;
          plug = λ w a b holds nd f.
              Plugged-right l i h nodes k R a b (v.0, v.1) e (q.plug w a b holds nd f);
        }
  ]
