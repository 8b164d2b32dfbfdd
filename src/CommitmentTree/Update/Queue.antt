-- ===== src/CommitmentTree/Update/Queue.antt =====
-- The whole loop of `traverse_tree` in
-- crates/starknet-os/src/starkware_utils/commitment_tree/merkle_tree/traverse_tree.rs, for the
-- traverser of update_tree.rs.
use mathlib.Core.Path.{subst}
use snos.Base.{ℕ, zero, suc, ◌+◌, ◌*◌, ◌≤◌, ◌≡◌, refl, arith, none, some, List, [], ◌∷◌, ◌++◌}
use snos.Base.Outcome.{Outcome, ok, err, panicked, Ends}
use snos.Base.HashMap.{nat_eq}
use snos.CommitmentTree.Bytes.{Hash, Crypto}
use snos.CommitmentTree.Storage.{Storage}
use snos.CommitmentTree.Nodes.{TreeError}
use snos.CommitmentTree.Context.{Context, LeafFact, continue, pure}
use snos.CommitmentTree.Reading.{Reading}
use snos.CommitmentTree.UpdateTree.{UpdateTree, absent, present, tuple, leaf}
use snos.CommitmentTree.UpdateTree.Build.{IsInduced}
use snos.CommitmentTree.VirtualNode.{VirtualPatriciaNode}
use snos.CommitmentTree.VirtualNode as VirtualNode
use snos.CommitmentTree.VirtualNode.Children.{ChildrenOutcome, get_children-ChildrenOutcome}
use snos.CommitmentTree.Calculation.{VirtualCalculationNode, create_from_node, create_from_fact}
use snos.CommitmentTree.Update.{
  NodeType, UpdatedNodes, update_if_possible, set_fact, get_children, children_of,
}
use snos.CommitmentTree.Update.Order.{Into, Same, first, nothing}
use snos.CommitmentTree.Update.Work.{
  Work, pending, done, halved, pendings, IsDone, get_node, Holds, Place, place,
}
use snos.CommitmentTree.Update.Climb.{Keeping, Ends_continue}
use snos.CommitmentTree.Update.Targets.{TreeBlame, Broken, Good, Ready}
use snos.CommitmentTree.Update.{traverse}
use snos.CommitmentTree.Update.Work.{IsDone-of_no_pendings}
use snos.CommitmentTree.Update.Traverse.{
  VisitEnds, Visited, total, update-VisitEnds, split-Visited, absent-Good, leaf-Good, size_pos,
  Visiting,
}

module _ {S LF : Type 0} (c : Crypto) (st : Storage S) (lf : LeafFact LF) (s : S)
    (rd : Reading c st s) (target : ℕ → Hash) where
  inner_height :
      (h : ℕ) (l r : UpdateTree LF) → IsInduced h (present (tuple l r)) → (k : ℕ) × (h ≡ suc k)
  inner_height zero l r v = absurd v
  inner_height (suc h) l r v = (h, refl)

  children-VisitEnds :
      (H h : ℕ) (x : NodeType LF) (l r : UpdateTree LF) (queue R : List (NodeType LF))
      (nodes : UpdatedNodes LF)
      (o : Outcome TreeError ((VirtualPatriciaNode × VirtualPatriciaNode) × Context S))
      (p : Place (Ready c st lf s rd target) (Good c st lf s rd target) x 1 H nodes R)
      → get_node 0 nodes ≡ none
      → Same queue R
      → x.update ≡ present (tuple l r)
      → p.at_height ≡ suc h
      → ChildrenOutcome c st s rd x.tree o
      → VisitEnds c st lf s rd target H x queue (
          continue o (λ both. pure (
            record { index = 2 * x.index; tree = both.0; update = l }
                ∷ record { index = 2 * x.index + 1; tree = both.1; update = r }
                ∷ [],
            nodes,
          )))
  children-VisitEnds H h x l r queue R nodes (ok ((left, right), ctx)) p z same e eh v =
      (split-Visited c st lf s rd target H h x l r left right queue R nodes p z same e eh v.0, v.1)
  children-VisitEnds H h x l r queue R nodes (err TreeError.is_leaf) p z same e eh v =
      absurd (omega (arith, p.ready.height))
  children-VisitEnds H h x l r queue R nodes (err TreeError.is_empty) p z same e eh v =
      (x.tree.bottom_node, v.1)
  children-VisitEnds H h x l r queue R nodes (err (TreeError.storage f)) p z same e eh v =
      (x.tree.bottom_node, v.1)
  children-VisitEnds H h x l r queue R nodes (err (TreeError.update_tree f)) p z same e eh v =
      absurd v
  children-VisitEnds H h x l r queue R nodes (err (TreeError.tree_heights_mismatch a b)) p z same e
        eh v =
      absurd v
  children-VisitEnds H h x l r queue R nodes (err (TreeError.invalid_edge_path a b)) p z same e eh
        v =
      absurd v
  children-VisitEnds H h x l r queue R nodes panicked p z same e eh v = (x.tree.bottom_node, v.1)

  visit_update :
      (H : ℕ) (x : NodeType LF) (u : UpdateTree LF) (queue R : List (NodeType LF))
      (nodes : UpdatedNodes LF) (ctx : Context S) (t : Work LF)
      → x.update ≡ u
      → Holds (Ready c st lf s rd target) (Good c st lf s rd target) nodes t 1 H
      → get_node 0 nodes ≡ none
      → Into x (pendings t) R
      → Same queue R
      → ctx.storage ≡ s
      → VisitEnds c st lf s rd target H x queue (children_of c st lf x.index x.tree u nodes ctx)
  unfolding update_if_possible set_fact
  visit_update H x absent queue R nodes ctx t e v z w same es =
      update-VisitEnds c st lf s rd target H x (create_from_node x.tree) queue R nodes ctx t v z w
        same es (λ k h r. absent-Good c st lf s rd target k h x e r)
  visit_update H x (present (leaf fact)) queue R nodes ctx t e v z w same es =
      update-VisitEnds c st lf s rd target H x (create_from_fact fact) queue R nodes ctx t v z w
        same es (λ k h r. leaf-Good c st lf s rd target k h x fact e r)
  visit_update H x (present (tuple l r)) queue R nodes ctx t e v z w same es =
      let p = place (Ready c st lf s rd target) (Good c st lf s rd target) t 1 H x nodes R v w in
      let (h, eh) =
        inner_height p.at_height l r (subst (IsInduced p.at_height) e p.ready.induced) in
      children-VisitEnds H h x l r queue R nodes (VirtualNode.get_children c st x.tree ctx) p z same
        e eh (get_children-ChildrenOutcome c st s rd x.tree ctx p.ready.valid es)

  visit :
      (H : ℕ) (x : NodeType LF) (queue : List (NodeType LF)) (nodes : UpdatedNodes LF)
      (ctx : Context S) (t : Work LF)
      → Holds (Ready c st lf s rd target) (Good c st lf s rd target) nodes t 1 H
      → get_node 0 nodes ≡ none
      → Same (x ∷ queue) (pendings t)
      → ctx.storage ≡ s
      → VisitEnds c st lf s rd target H x queue (get_children c st lf x nodes ctx)
  unfolding get_children
  visit H x queue nodes ctx t v z (first w same) es =
      visit_update H x x.update queue _ nodes ctx t refl v z w same es

  total-append :
      (q r : List (NodeType LF))
      → total c st lf s rd target (q ++ r)
        ≡ total c st lf s rd target q + total c st lf s rd target r
  total-append [] r = omega arith
  total-append (x ∷ q) r = omega (arith, total-append q r)

  -- The root of the tree is updated, and nothing else is left in the map that matters.
  abbrev pub RootUpdated : ℕ → UpdatedNodes LF → Type 0
  RootUpdated H nodes =
      (n : VirtualCalculationNode LF) × (get_node 1 nodes ≡ some n) × Good c st lf s rd target 1 H n

  finished :
      (H : ℕ) (t : Work LF) (nodes : UpdatedNodes LF)
      → Holds (Ready c st lf s rd target) (Good c st lf s rd target) nodes t 1 H
      → IsDone t
      → RootUpdated H nodes
  finished H (done n) nodes v d = (n, v.0, v.1)
  finished H (pending x) nodes v d = absurd d
  finished H (halved l r) nodes v d = absurd d

  same_nil : (l : List (NodeType LF)) → Same [] l → l ≡ []
  same_nil [] nothing = refl
  same_nil (x ∷ l) v = elim v [ ]

  -- With fuel for the sizes of the queue the loop ends.
  pub traverse-Ends :
      (H fuel : ℕ) (queue : List (NodeType LF)) (nodes : UpdatedNodes LF) (ctx : Context S)
      → Visiting c st lf s rd target H nodes queue
      → total c st lf s rd target queue ≤ fuel
      → ctx.storage ≡ s
      → Ends
          (TreeBlame c st lf s rd)
          (Broken c st lf s rd)
          (Keeping (RootUpdated H) s)
          (traverse c st lf fuel queue nodes ctx)
  unfolding traverse
  traverse-Ends H fuel [] nodes ctx v le es = (
    finished H v.work nodes v.holds (
        IsDone-of_no_pendings (Ready c st lf s rd target) (Good c st lf s rd target) v.work 1 H
          nodes v.holds (same_nil (pendings v.work) v.order)),
    es,
  )
  traverse-Ends H zero (x ∷ queue) nodes ctx v le es =
      absurd (omega (arith, size_pos c st lf s rd target x.update))
  traverse-Ends H (suc fuel) (x ∷ queue) nodes ctx v le es =
      Ends_continue (TreeBlame c st lf s rd) (Broken c st lf s rd)
        (Keeping (Visited c st lf s rd target H x queue) s) (Keeping (RootUpdated H) s)
        (get_children c st lf x nodes ctx)
        (λ found. traverse c st lf fuel (queue ++ found.0) found.1)
        (visit H x queue nodes ctx v.work v.holds v.no_zero v.order es)
        (λ found ctx' kept.
          traverse-Ends H fuel (queue ++ found.0) found.1 ctx' kept.0.0
            (omega (arith, total-append queue found.0, kept.0.1)) kept.1)
