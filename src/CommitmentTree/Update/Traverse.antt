-- ===== src/CommitmentTree/Update/Traverse.antt =====
-- The queue of `traverse_tree` in
-- crates/starknet-os/src/starkware_utils/commitment_tree/merkle_tree/traverse_tree.rs, for the
-- traverser of update_tree.rs: each visit keeps the invariant, and the fuel is enough.
use mathlib.Core.List.{append_assoc}
use mathlib.Core.Path.{subst}
use snos.Base.{
  ℕ, zero, suc, ◌+◌, ◌*◌, ◌<◌, ◌≡◌, refl, sym, ◌∙◌, ap, arith, none, List, [], ◌∷◌, ◌++◌,
}
use snos.Base.Outcome.{Outcome, ok, err, panicked, map_err, Ends}
use snos.Base.HashMap
use snos.Base.HashMap.{nat_eq}
use snos.CommitmentTree.Bytes.{Hash, Crypto}
use snos.CommitmentTree.Storage.{Storage}
use snos.CommitmentTree.Nodes.{TreeError, UpdateTreeError}
use snos.CommitmentTree.Nodes.{update_tree as update_tree_error}
use snos.CommitmentTree.Context.{Context, LeafFact, continue, pure}
use snos.CommitmentTree.Reading.{Reading}
use snos.CommitmentTree.UpdateTree.{UpdateTree, absent, present, tuple, leaf}
use snos.CommitmentTree.UpdateTree.Build.{value_at, IsInduced}
use snos.CommitmentTree.VirtualNode.{VirtualPatriciaNode}
use snos.CommitmentTree.VirtualNode.Leaves.{AreChildren, node_leaf as tree_leaf}
use snos.CommitmentTree.Calculation.{VirtualCalculationNode, create_from_node, create_from_fact}
use snos.CommitmentTree.Update.{NodeType, UpdatedNodes, update_necessary}
use snos.CommitmentTree.Update.Order.{Into, Same, Same_push}
use snos.CommitmentTree.Update.Positions.{
  Below-self, Below-left, Below-right, zero-not-Below, positive, index_bound,
}
use snos.CommitmentTree.Update.Work.{Work, pending, done, halved, pendings, get_node, Holds, Place}
use snos.CommitmentTree.Update.Climb.{Keeping, UpdateBlame, climb_stop}
use snos.CommitmentTree.Update.Joins.{Climb, fails, goes_on, stops}
use snos.CommitmentTree.Update.Halves.{climb-Climb}
use snos.CommitmentTree.Update.Targets.{
  CombineBlame, TreeBlame, Broken, overwritten, Good, Ready, combine-Good,
}
use snos.CommitmentTree.Update.{size, size_present}
use snos.CommitmentTree.Update.Visit.{left-Ready, right-Ready}
use snos.CommitmentTree.UpdateTree.Build.{value_at-absent}
use snos.CommitmentTree.Calculation.Leaves.{node_leaf, calculation_leaf}
use snos.CommitmentTree.Reading.{edge_leaf-zero}

module _ {S LF : Type 0} (c : Crypto) (st : Storage S) (lf : LeafFact LF) (s : S)
    (rd : Reading c st s) (target : ℕ → Hash) where
  pub absent-Good :
      (i h : ℕ) (x : NodeType LF)
      → x.update ≡ absent
      → Ready c st lf s rd target i h x
      → Good c st lf s rd target i h (create_from_node x.tree)
  unfolding node_leaf calculation_leaf tree_leaf
  absent-Good i h x e v = record {
    valid = record { path = v.valid.path; length = v.valid.length; bottom = v.valid.bottom };
    height = v.height;
    leaves = λ p lt.
        ap (λ o. overwritten lf o (tree_leaf c st s rd x.tree p))
          (sym (ap (λ u. value_at h u p) e ∙ value_at-absent h p))
        ∙ v.leaves p lt;
  }

  pub leaf-Good :
      (i h : ℕ) (x : NodeType LF) (fact : LF)
      → x.update ≡ present (leaf fact)
      → Ready c st lf s rd target i h x
      → Good c st lf s rd target i h (create_from_fact fact)
  unfolding node_leaf calculation_leaf
  leaf-Good i zero x fact e v = record {
    valid = record { path = omega arith; length = omega arith; bottom = omega arith };
    height = refl;
    leaves = λ p lt.
        edge_leaf-zero (λ k j. lf.hash fact) 0 p lt
        ∙ ap (λ u. overwritten lf (value_at 0 u p) (tree_leaf c st s rd x.tree p)) (sym e)
        ∙ v.leaves p lt;
  }
  leaf-Good i (suc h) x fact e v = absurd (subst (IsInduced (suc h)) e v.induced)

  abbrev pub total : List (NodeType LF) → ℕ
  total [] = 0
  total (x ∷ queue) = size x.update + total queue

  -- The state of the traversal of a tree of the height.
  pub record Visiting (H : ℕ) (nodes : UpdatedNodes LF) (queue : List (NodeType LF)) : Type 0 where
    pub work : Work LF
    pub holds : Holds (Ready c st lf s rd target) (Good c st lf s rd target) nodes work 1 H
    pub no_zero : get_node 0 nodes ≡ none
    pub order : Same queue (pendings work)

  abbrev pub Visited :
      ℕ → NodeType LF → List (NodeType LF) → List (NodeType LF) × UpdatedNodes LF → Type 0
  Visited H x queue (found, nodes) =
      Visiting H nodes (queue ++ found) × (total found < size x.update)

  pub size_pos : (u : UpdateTree LF) → 0 < size u
  unfolding size size_present
  size_pos absent = omega arith
  size_pos (present (leaf fact)) = omega arith
  size_pos (present (tuple l r)) = omega arith

  append_nil : (q : List (NodeType LF)) → q ++ [] ≡ q
  append_nil [] = refl
  append_nil (x ∷ q) = ap (λ z. x ∷ z) (append_nil q)

  failed :
      (H : ℕ) (x : NodeType LF) (queue : List (NodeType LF))
      (o : Outcome UpdateTreeError (UpdatedNodes LF × Context S))
      → Ends (UpdateBlame (CombineBlame c st lf s rd)) (Broken c st lf s rd) (λ _. ⊥) o
      → Ends
          (TreeBlame c st lf s rd)
          (Broken c st lf s rd)
          (Keeping (Visited H x queue) s)
          (continue (map_err update_tree_error o) (λ nodes. pure ([], nodes)))
  failed H x queue (ok a) b = absurd b
  failed H x queue (err e) b = b
  failed H x queue panicked b = b

  ended :
      (H : ℕ) (x : NodeType LF) (queue R : List (NodeType LF)) (nodes : UpdatedNodes LF)
      (o : Outcome UpdateTreeError (UpdatedNodes LF × Context S))
      → get_node 0 nodes ≡ none
      → Same queue R
      → Climb c st lf s
          (Ready c st lf s rd target)
          (Good c st lf s rd target)
          (CombineBlame c st lf s rd)
          (Broken c st lf s rd)
          (combine-Good c st lf s rd target)
          1
          H
          nodes
          R
          o
      → Ends
          (TreeBlame c st lf s rd)
          (Broken c st lf s rd)
          (Keeping (Visited H x queue) s)
          (continue (map_err update_tree_error o) (λ nodes'. pure ([], nodes')))
  unfolding pendings
  ended H x queue R nodes o z same (fails b) = failed H x queue o b
  ended H x queue R nodes o z same (goes_on fuel nodes' ctx n lt es en g out er eo) =
      let z' : get_node 0 nodes' ≡ none = out 0 zero-not-Below ∙ z in
      let stop = climb_stop c st lf fuel 1 nodes' ctx (positive 1 fuel (omega arith) lt) z' in
      rw (eo, stop)
        (
          (
            record {
              work = done n;
              holds = (en, g);
              no_zero = z';
              order = rw append_nil (subst (Same queue) er same);
            },
            size_pos x.update,
          ),
          es,
        )
  ended H x queue R nodes o z same (stops t nodes' ctx es v nd out er eo) = rw eo (
    (
      record {
        work = t;
        holds = v;
        no_zero = out 0 zero-not-Below ∙ z;
        order = rw (append_nil, er) same;
      },
      size_pos x.update,
    ),
    es,
  )

  abbrev pub VisitEnds :
      ℕ
      → NodeType LF
      → List (NodeType LF)
      → Outcome TreeError ((List (NodeType LF) × UpdatedNodes LF) × Context S)
      → Type 0
  VisitEnds H x queue o =
      Ends (TreeBlame c st lf s rd) (Broken c st lf s rd) (Keeping (Visited H x queue) s) o

  -- A node that takes its updated value at once.
  pub update-VisitEnds :
      (H : ℕ) (x : NodeType LF) (n : VirtualCalculationNode LF) (queue R : List (NodeType LF))
      (nodes : UpdatedNodes LF) (ctx : Context S) (t : Work LF)
      → Holds (Ready c st lf s rd target) (Good c st lf s rd target) nodes t 1 H
      → get_node 0 nodes ≡ none
      → Into x (pendings t) R
      → Same queue R
      → ctx.storage ≡ s
      → ((k h : ℕ) → Ready c st lf s rd target k h x → Good c st lf s rd target k h n)
      → VisitEnds H x queue (
          continue
            (map_err update_tree_error
              (update_necessary c st lf x.index (HashMap.insert x.index n nodes) ctx))
            (λ nodes'. pure ([], nodes')))
  unfolding update_necessary
  update-VisitEnds H x n queue R nodes ctx t v z w same es good = ended H x queue R nodes _ z same (
      climb-Climb c st lf s (Ready c st lf s rd target) (Good c st lf s rd target)
        (CombineBlame c st lf s rd) (Broken c st lf s rd) (combine-Good c st lf s rd target) t 1 H
        (suc x.index) x n nodes ctx R (omega arith) (index_bound x.index) es
        (λ k h r. (r.index, good k h r)) v w)

  -- A node whose children are visited later.
  pub split-Visited :
      (H h : ℕ) (x : NodeType LF) (l r : UpdateTree LF) (left right : VirtualPatriciaNode)
      (queue R : List (NodeType LF)) (nodes : UpdatedNodes LF)
      (p : Place (Ready c st lf s rd target) (Good c st lf s rd target) x 1 H nodes R)
      → get_node 0 nodes ≡ none
      → Same queue R
      → x.update ≡ present (tuple l r)
      → p.at_height ≡ suc h
      → AreChildren c st s rd x.tree left right
      → Visited H x queue (
        record { index = 2 * x.index; tree = left; update = l }
            ∷ record { index = 2 * x.index + 1; tree = right; update = r }
            ∷ [],
        nodes,
      )
  unfolding pendings size size_present
  split-Visited H h x l r left right queue R nodes p z same e eh ch =
      let ready : Ready c st lf s rd target p.at_index (suc h) x =
        subst (λ k. Ready c st lf s rd target p.at_index k x) eh p.ready in
      let a : NodeType LF = record { index = 2 * x.index; tree = left; update = l } in
      let b : NodeType LF = record { index = 2 * x.index + 1; tree = right; update = r } in
      let w : Work LF = halved (pending a) (pending b) in
      let held : Holds (Ready c st lf s rd target) (Good c st lf s rd target) nodes w p.at_index
          (suc h) =
        (
          p.vacant p.at_index (Below-self p.at_index),
          (
            λ k below. p.vacant k (Below-left p.at_index k below),
            left-Ready c st lf s rd target p.at_index h x l r left right ready e ch,
          ),
          (
            λ k below. p.vacant k (Below-right p.at_index k below),
            right-Ready c st lf s rd target p.at_index h x l r left right ready e ch,
          ),
          λ d _. d,
        ) in
      let q =
        p.plug w a b
          (subst
            (λ k. Holds (Ready c st lf s rd target) (Good c st lf s rd target) nodes w p.at_index k)
            (sym eh) held)
          (λ d. d) refl in
      (
        record {
          work = q.work;
          holds = q.holds;
          no_zero = z;
          order =
              rw (append_assoc queue (a ∷ []) (b ∷ [])) at
                (Same_push q.outer (Same_push q.inner same));
        },
        rw e (omega arith),
      )
