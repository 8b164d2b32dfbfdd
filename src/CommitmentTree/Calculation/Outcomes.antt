-- ===== src/CommitmentTree/Calculation/Outcomes.antt =====
-- All outcomes of `decommit` and `combine` of
-- crates/starknet-os/src/starkware_utils/commitment_tree/patricia_tree/virtual_calculation_node.rs.
use mathlib.Core.Path.{subst}
use snos.Base.{
  ℕ, ◌⊎◌, sym, ◌+◌, ◌^◌, ◌≡◌, refl, Bool, true, false, ◌||◌, arith, ◌==◌, Bool-cases, ==_iff, ◌-◌,
  inl, inr,
}
use snos.Base.Outcome.{Outcome, ok, err, panicked, map_err}
use snos.CommitmentTree.Bytes.{Hash, empty_hash, Crypto, bytes_eq_self}
use snos.CommitmentTree.Storage.{StorageError, Storage, get_or_fail}
use snos.CommitmentTree.Nodes.{
  PatriciaNodeFact, EdgeNodeFact, empty, binary, edge, node_object, CombineError,
  tree_heights_differ, cannot_combine_to_virtual_edge_node,
}
use snos.CommitmentTree.Nodes.{storage}
use snos.CommitmentTree.Context.{Context, LeafFact, continue, read_node_fact, pure}
use snos.CommitmentTree.Calculation.{
  HashCalculation, binary_calculation, edge_calculation, leaf_fact_calculation,
  constant_calculation, VirtualCalculationNode, is_empty, is_empty_calculation, is_leaf,
  is_virtual_edge, with_fact, with_edge, commit, combine_to_binary_node, decommit_bottom, decommit,
  combine_to_virtual_edge_node, combine, empty_node, edge_parent,
}
use snos.CommitmentTree.Reading.{Reading}
use snos.CommitmentTree.Calculation.Leaves.{IsValid, node_leaf-empty}
use snos.CommitmentTree.Calculation.Same.{
  SameLeaves, SameLeaves-refl, with_edge-SameLeaves_calculation, with_edge-SameLeaves_fact,
}
use snos.CommitmentTree.Calculation.Combine.{
  IsParent, binary-IsParent, edge-IsParent_left, edge-IsParent_right,
}

module _ {S LF : Type 0} (c : Crypto) (st : Storage S) (lf : LeafFact LF) (s : S)
    (rd : Reading c st s) where
  open rd use {Held}

  abbrev read : Hash → Outcome StorageError PatriciaNodeFact
  read h = get_or_fail (node_object c.biguint) st s h

  -- A call succeeds with a value that satisfies P and leaves the store as it was, or it fails
  -- because a fact could not be read.
  abbrev pub DoneOrUnread :
      (VirtualCalculationNode LF → Type 0)
      → Outcome StorageError (VirtualCalculationNode LF × Context S)
      → Type 0
  DoneOrUnread P (ok (m, ctx)) = P m × (ctx.storage ≡ s)
  DoneOrUnread P (err e) = (h : Hash) × (read h ≡ err e)
  DoneOrUnread P panicked = (h : Hash) × (read h ≡ panicked)

  -- A stored fact that is no edge.
  abbrev NoEdge : PatriciaNodeFact → Type 0
  NoEdge (edge fact) = ⊥
  NoEdge (binary fact) = Unit
  NoEdge empty = Unit

  -- A calculation that gives no edge: of a constant, by the fact that is stored under it.
  abbrev pub IsNoEdge : HashCalculation LF → Type 0
  IsNoEdge (edge_calculation b path l) = ⊥
  IsNoEdge (constant_calculation value) =
      (fact : PatriciaNodeFact) × (read value ≡ ok fact) × NoEdge fact
  IsNoEdge (binary_calculation l r) = Unit
  IsNoEdge (leaf_fact_calculation fact) = Unit

  -- A calculation that gives an edge of length 0.
  abbrev pub IsNullEdge : HashCalculation LF → Type 0
  IsNullEdge (edge_calculation b path l) = l ≡ 0
  IsNullEdge (constant_calculation value) =
      (fact : EdgeNodeFact) × (read value ≡ ok (edge fact)) × (fact.edge_length ≡ 0)
  IsNullEdge (binary_calculation l r) = ⊥
  IsNullEdge (leaf_fact_calculation fact) = ⊥

  -- The edge at the top of the first node is known in the second: it is a virtual edge, or there is
  -- no edge, or the node is a leaf or empty, or its edge has length 0.
  pub data Exposes (n m : VirtualCalculationNode LF) : Type 0 where
    known_edge : is_virtual_edge m ≡ true → Exposes n m
    no_edge : IsNoEdge n.bottom_calculation → m ≡ n → Exposes n m
    at_leaf : is_leaf n ≡ true → m ≡ n → Exposes n m
    at_empty : is_empty lf n ≡ true → m ≡ n → Exposes n m
    null_edge : IsNullEdge n.bottom_calculation → Exposes n m

  -- A valid node of the same height and leaves whose edge is known.
  abbrev pub IsDecommitted : VirtualCalculationNode LF → VirtualCalculationNode LF → Type 0
  IsDecommitted n m = SameLeaves c st lf s rd n m × Exposes n m

  edge_or_null :
      (n m : VirtualCalculationNode LF)
      → (m.length ≡ 0 → IsNullEdge n.bottom_calculation)
      → Exposes n m
  edge_or_null n m null = elim (Bool-cases (is_virtual_edge m)) [
    | inl e ↦ known_edge e
    | inr e ↦ null_edge (null (ground arith))
  ]

  with_fact-Exposes :
      (n : VirtualCalculationNode LF) (value : Hash) (fact : PatriciaNodeFact)
      → n.bottom_calculation ≡ constant_calculation value
      → read value ≡ ok fact
      → Exposes n (with_fact n fact)
  with_fact-Exposes n value (edge fact) e r =
      edge_or_null n (with_fact n (edge fact)) (λ z. subst IsNullEdge (sym e) (fact, r, z))
  with_fact-Exposes n value (binary fact) e r =
      no_edge (subst IsNoEdge (sym e) (binary fact, r, tt)) refl
  with_fact-Exposes n value empty e r = no_edge (subst IsNoEdge (sym e) (empty, r, tt)) refl

  with_fact-SameLeaves :
      (n : VirtualCalculationNode LF) (value : Hash) (fact : PatriciaNodeFact)
      → IsValid Held n
      → is_virtual_edge n ≡ false
      → n.bottom_calculation ≡ constant_calculation value
      → read value ≡ ok fact
      → SameLeaves c st lf s rd n (with_fact n fact)
  with_fact-SameLeaves n value (edge fact) v flat e r =
      with_edge-SameLeaves_fact c st lf s rd n value fact v flat e r
  with_fact-SameLeaves n value (binary fact) v flat e r = SameLeaves-refl c st lf s rd n v
  with_fact-SameLeaves n value empty v flat e r = SameLeaves-refl c st lf s rd n v

  read-DoneOrUnread :
      (n : VirtualCalculationNode LF) (value : Hash) (ctx : Context S)
      (r : Outcome StorageError PatriciaNodeFact)
      → read value ≡ r
      → IsValid Held n
      → is_virtual_edge n ≡ false
      → n.bottom_calculation ≡ constant_calculation value
      → ctx.storage ≡ s
      → get_or_fail (node_object c.biguint) st ctx.storage value ≡ r
      → DoneOrUnread (IsDecommitted n) (decommit_bottom c st lf n (constant_calculation value) ctx)
  unfolding decommit_bottom read_node_fact
  read-DoneOrUnread n value ctx (ok fact) r v flat e es rs =
      rw rs ((with_fact-SameLeaves n value fact v flat e r, with_fact-Exposes n value fact e r), es)
  read-DoneOrUnread n value ctx (err x) r v flat e es rs = rw rs (value, r)
  read-DoneOrUnread n value ctx panicked r v flat e es rs = rw rs (value, r)

  bottom-DoneOrUnread :
      (n : VirtualCalculationNode LF) (ctx : Context S) (b : HashCalculation LF)
      → IsValid Held n
      → is_virtual_edge n ≡ false
      → n.bottom_calculation ≡ b
      → ctx.storage ≡ s
      → DoneOrUnread (IsDecommitted n) (decommit_bottom c st lf n b ctx)
  unfolding decommit_bottom
  bottom-DoneOrUnread n ctx (edge_calculation b path l) v flat e es = (
    (
      with_edge-SameLeaves_calculation c st lf s rd n b path l v flat e,
      edge_or_null n (with_edge n b path l) (λ z. subst IsNullEdge (sym e) z),
    ),
    es,
  )
  bottom-DoneOrUnread n ctx (constant_calculation value) v flat e es =
      read-DoneOrUnread n value ctx (read value) refl v flat e es (rw es)
  bottom-DoneOrUnread n ctx (binary_calculation l r) v flat e es =
      ((SameLeaves-refl c st lf s rd n v, no_edge (subst IsNoEdge (sym e) tt) refl), es)
  bottom-DoneOrUnread n ctx (leaf_fact_calculation fact) v flat e es =
      ((SameLeaves-refl c st lf s rd n v, no_edge (subst IsNoEdge (sym e) tt) refl), es)

  unchanged :
      (n : VirtualCalculationNode LF)
      → (is_leaf n || (is_empty lf n || is_virtual_edge n)) ≡ true
      → Exposes n n
  unchanged n e = elim (Bool-cases (is_leaf n)) [
    | inl l ↦ at_leaf l refl
    | inr l ↦ elim (Bool-cases (is_empty lf n)) [
      | inl m ↦ at_empty m refl
      | inr m ↦ known_edge (rw (l, m) at e)
    ]
  ]

  -- `decommit` of a valid node gives a valid node with the same height and leaves and keeps the store,
  -- or it fails because a fact cannot be read. If the node is neither a leaf nor empty, the edge at
  -- its top is a virtual edge of the result, unless there is none or it has length 0.
  pub decommit-DoneOrUnread :
      (n : VirtualCalculationNode LF) (ctx : Context S)
      → IsValid Held n
      → ctx.storage ≡ s
      → DoneOrUnread (IsDecommitted n) (decommit c st lf n ctx)
  unfolding decommit
  decommit-DoneOrUnread n ctx v es =
      elim (Bool-cases (is_leaf n || (is_empty lf n || is_virtual_edge n))) [
        | inl e ↦ rw e ((SameLeaves-refl c st lf s rd n v, unchanged n e), es)
        | inr e ↦ rw e (bottom-DoneOrUnread n ctx n.bottom_calculation v (ground arith) refl es)
      ]

  -- How the parent is built: it is empty above two empty nodes, one level longer than the edge of the
  -- other child above one empty node, and binary above two other nodes.
  pub data IsBuilt (left right p : VirtualCalculationNode LF) : Type 0 where
    both_empty :
        is_empty lf left ≡ true
        → is_empty lf right ≡ true
        → is_empty lf p ≡ true
        → p.length ≡ 0
        → IsBuilt left right p
    one_empty :
        (n child : VirtualCalculationNode LF)
        → ((is_empty lf left ≡ true) × (n ≡ right)) ⊎ ((is_empty lf right ≡ true) × (n ≡ left))
        → is_empty lf n ≡ false
        → IsDecommitted n child
        → p.bottom_calculation ≡ child.bottom_calculation
        → p.length ≡ child.length + 1
        → IsBuilt left right p
    binary_node :
        is_empty lf left ≡ false
        → is_empty lf right ≡ false
        → p.bottom_calculation ≡ binary_calculation (commit left) (commit right)
        → p.length ≡ 0
        → IsBuilt left right p

  -- What `combine` of two nodes of one height may give: their parent, with the store as it was, or
  -- the error of a fact that could not be read.
  abbrev pub CombineOutcome :
      VirtualCalculationNode LF
      → VirtualCalculationNode LF
      → Outcome CombineError (VirtualCalculationNode LF × Context S)
      → Type 0
  CombineOutcome left right (ok (p, ctx)) =
      (IsParent c st lf s rd left right p × IsBuilt left right p) × (ctx.storage ≡ s)
  CombineOutcome left right (err (storage e)) = (h : Hash) × (read h ≡ err e)
  CombineOutcome left right (err (tree_heights_differ a b)) = ⊥
  CombineOutcome left right (err cannot_combine_to_virtual_edge_node) = ⊥
  CombineOutcome left right panicked = (h : Hash) × (read h ≡ panicked)

  edge-CombineOutcome :
      (left right n : VirtualCalculationNode LF) (b : Bool)
      (r : Outcome StorageError (VirtualCalculationNode LF × Context S))
      → ((is_empty lf left ≡ true) × (n ≡ right)) ⊎ ((is_empty lf right ≡ true) × (n ≡ left))
      → is_empty lf n ≡ false
      → DoneOrUnread (IsDecommitted n) r
      → ((child : VirtualCalculationNode LF)
          → SameLeaves c st lf s rd n child
          → IsParent c st lf s rd left right (edge_parent c st lf b child))
      → CombineOutcome left right
          (continue (map_err CombineError.storage r) (λ child. pure (edge_parent c st lf b child)))
  edge-CombineOutcome left right n b (ok (m, ctx)) side full d f =
      ((f m d.0.0, one_empty n m side full d.0 refl refl), d.1)
  edge-CombineOutcome left right n b (err e) side full d f = d
  edge-CombineOutcome left right n b panicked side full d f = d

  empty_node-is_empty : (h : ℕ) → is_empty lf (empty_node h) ≡ true
  unfolding is_empty is_empty_calculation
  empty_node-is_empty h = bytes_eq_self empty_hash

  empty-IsParent :
      (left right : VirtualCalculationNode LF)
      → is_empty lf left ≡ true
      → is_empty lf right ≡ true
      → IsParent c st lf s rd left right (empty_node (right.height + 1))
  empty-IsParent left right el er = record {
    valid = record {
      path = omega arith;
      length = omega arith;
      bottom = rd.held_empty (right.height + 1 - 0);
    };
    height = refl;
    leaves = λ index hi. ground (
      arith,
      node_leaf-empty lf rd.resolve (empty_node (right.height + 1)) index rd.resolve_empty
          (empty_node-is_empty (right.height + 1)),
      node_leaf-empty lf rd.resolve left index rd.resolve_empty el,
      node_leaf-empty lf rd.resolve right (index - 2 ^ right.height) rd.resolve_empty er,
    );
  }

  -- Two valid nodes of one height are combined into their parent: a valid node of the height above,
  -- whose leaf under an index is the left node's in the left half and the right node's in the right
  -- half. It is empty above two empty nodes, a virtual edge one longer than the exposed edge of the
  -- other child above one empty node, and binary above two others. The store stays as it was. The one way to fail is a fact of the store that cannot be
  -- read.
  pub combine-CombineOutcome :
      (left right : VirtualCalculationNode LF) (ctx : Context S)
      → IsValid Held left
      → IsValid Held right
      → left.height ≡ right.height
      → ctx.storage ≡ s
      → CombineOutcome left right (combine c st lf left right ctx)
  unfolding combine combine_to_virtual_edge_node
  combine-CombineOutcome left right ctx vl vr e es =
      let same : (left.height == right.height) ≡ true = (==_iff left.height right.height).1 e in
      rw same (elim (Bool-cases (is_empty lf left)) [
        | inl l ↦ elim (Bool-cases (is_empty lf right)) [
          | inl r ↦
              rw (l, r)
                (
                  (
                    empty-IsParent left right l r,
                    both_empty l r (empty_node-is_empty (right.height + 1)) refl,
                  ),
                  es,
                )
          | inr r ↦
              rw (l, r)
                (edge-CombineOutcome left right right true (decommit c st lf right ctx)
                  (inl (l, refl)) r (decommit-DoneOrUnread right ctx vr es)
                  (λ child h. edge-IsParent_right c st lf s rd left right child h l))
        ]
        | inr l ↦ elim (Bool-cases (is_empty lf right)) [
          | inl r ↦
              rw (l, r)
                (edge-CombineOutcome left right left false (decommit c st lf left ctx)
                  (inr (r, refl)) l (decommit-DoneOrUnread left ctx vl es)
                  (λ child h. edge-IsParent_left c st lf s rd left right child e h r))
          | inr r ↦
              rw (l, r)
                (
                  (
                    binary-IsParent c st lf s rd left right vl vr e,
                    (unfold combine_to_binary_node in binary_node l r refl refl),
                  ),
                  es,
                )
        ]
      ])
