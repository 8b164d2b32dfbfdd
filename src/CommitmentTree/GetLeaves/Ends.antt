-- ===== src/CommitmentTree/GetLeaves/Ends.antt =====
-- The recursion of `_get_leaves` in
-- crates/starknet-os/src/starkware_utils/commitment_tree/patricia_tree/virtual_patricia_node.rs and
-- binary_fact_tree_node.rs: its branches, each of them for a node whose leaves are known.
use native.Mathlib.Nat.{pow-suc}
use snos.Base.{
  ℕ, zero, suc, ◌+◌, ◌-◌, ◌*◌, ◌/◌, ◌^◌, ◌≤◌, ◌<◌, ◌≡◌, ◌≢◌, refl, Bool-cases, inl, inr, ltb, true,
  false, ◌==◌, List, [], ◌∷◌, All, All-imp, arith, ap, ◌∙◌,
}
use snos.Base.Outcome.{Outcome, ok, err, panicked, Ends}
use snos.Base.HashMap.{HashMap, nat_eq}
use snos.CommitmentTree.Bytes.{Crypto, empty_hash, bytes_eq→eq}
use snos.CommitmentTree.BaseTypes.{sub}
use snos.CommitmentTree.Storage.{Storage}
use snos.CommitmentTree.Nodes.{TreeError}
use snos.CommitmentTree.Context.{Context, Action, LeafFact, pure, lift, continue}
use snos.CommitmentTree.Reading.{Reading, edge_leaf, edge_leaf-empty}
use snos.CommitmentTree.VirtualNode.{
  VirtualPatriciaNode, from_hash, is_empty_node, is_leaf_node, is_virtual_edge, get_children,
}
use snos.CommitmentTree.VirtualNode.Leaves.{IsValid, node_leaf, AreChildren, flat-IsValid}
use snos.CommitmentTree.VirtualNode.Children.{ChildrenOutcome, get_children-ChildrenOutcome}
use snos.CommitmentTree.Update.Climb.{Keeping, Ends_continue}
use snos.CommitmentTree.GetLeaves.{
  partition_binary, partition_edge, insert_shifted, get_empty_leaves, get_leaves,
}
use snos.CommitmentTree.GetLeaves.Partition.{All-partition_binary, All-partition_edge}
use snos.CommitmentTree.GetLeaves.Parts.{
  LeavesBlame, LeavesBroken, AreLeaves, LeavesEnd, IsEmptyAt, get_empty_leaves-End, get_leaf-End,
  Asked,
}
use snos.CommitmentTree.GetLeaves.Unions.{within, outside_leaf, edge-AreLeaves, binary-AreLeaves}

module _ {S LF : Type 0} (c : Crypto) (st : Storage S) (lf : LeafFact LF) (s : S)
    (rd : Reading c st s) where
  open rd use {Held, resolve}

  children-Ends :
      (node : VirtualPatriciaNode)
      (o : Outcome TreeError ((VirtualPatriciaNode × VirtualPatriciaNode) × Context S))
      → node.height ≢ 0
      → ChildrenOutcome c st s rd node o
      → Ends
          (LeavesBlame c st lf s rd)
          (LeavesBroken c st lf s rd)
          (Keeping (λ ch. AreChildren c st s rd node ch.0 ch.1) s)
          o
  children-Ends node (ok ((l, r), ctx)) nz v = v
  children-Ends node (err TreeError.is_leaf) nz v = absurd (nz v)
  children-Ends node (err TreeError.is_empty) nz v = (node.bottom_node, v.1)
  children-Ends node (err (TreeError.storage e)) nz v = inl (node.bottom_node, v.1)
  children-Ends node (err (TreeError.update_tree e)) nz v = absurd v
  children-Ends node (err (TreeError.tree_heights_mismatch a b)) nz v = absurd v
  children-Ends node (err (TreeError.invalid_edge_path a b)) nz v = absurd v
  children-Ends node panicked nz (needs, inl e) = (node.bottom_node, inl (inl e))
  children-Ends node panicked nz (needs, inr e) = (node.bottom_node, inr e)

  empty-End :
      (node : VirtualPatriciaNode) (Q : ℕ → Type 0) (indices : List ℕ) (ctx : Context S)
      → node.bottom_node ≡ empty_hash
      → ctx.storage ≡ s
      → All (Asked c st lf s rd node Q) indices
      → LeavesEnd c st lf s rd node Q indices (get_empty_leaves c st lf indices ctx)
  unfolding node_leaf
  empty-End node Q indices ctx e es a = get_empty_leaves-End c st lf s rd node Q indices ctx es (
      All-imp _ _ indices
        (λ i q. (
          q.0,
          ap (λ h. edge_leaf (resolve h) node.path node.length node.height i) e
              ∙ edge_leaf-empty (resolve empty_hash) node.path node.length node.height i
                  rd.resolve_empty,
        ))
        a)

  abbrev Recursion : Type 0
  Recursion = VirtualPatriciaNode → List ℕ → Action S TreeError (HashMap ℕ LF)

  -- A recursive call does its work for a node.
  abbrev WorksFor : Recursion → VirtualPatriciaNode → Type 1
  WorksFor go node =
      (Q : ℕ → Type 0) (indices : List ℕ) (ctx : Context S)
      → ctx.storage ≡ s
      → All (Asked c st lf s rd node Q) indices
      → LeavesEnd c st lf s rd node Q indices (go node indices ctx)

  edge-End :
      (go : Recursion) (node : VirtualPatriciaNode) (Q : ℕ → Type 0) (indices : List ℕ)
      (ctx : Context S)
      → IsValid c st s rd node
      → WorksFor go (from_hash node.bottom_node (node.height - node.length))
      → ctx.storage ≡ s
      → All (Asked c st lf s rd node Q) indices
      → LeavesEnd c st lf s rd node Q indices (
          continue (lift (sub node.height node.length) ctx) (λ width ctx1.
            continue
              (go
                (from_hash node.bottom_node width)
                (partition_edge node.path width indices).0
                ctx1)
              (λ bottom_leaves ctx2.
                continue
                  (get_empty_leaves c st lf (partition_edge node.path width indices).1 ctx2)
                  (λ empty_leaves.
                    pure (insert_shifted (node.path * 2 ^ width) empty_leaves bottom_leaves)))))
  unfolding sub node_leaf
  edge-End go node Q indices ctx v works es a =
      let w = node.height - node.length in
      let bottom = from_hash node.bottom_node w in
      let fits : ltb node.height node.length ≡ false = ground (arith, v.length) in
      let Under : ℕ → Type 0 =
        λ j. Q (j + node.path * 2 ^ w) × ((j + node.path * 2 ^ w) / 2 ^ w ≡ node.path) in
      let (inside, outside) =
        All-partition_edge Q node.path w indices
          (All-imp (Asked c st lf s rd node Q) Q indices (λ i q. q.0) a) in
      rw fits (
        Ends_continue (LeavesBlame c st lf s rd) (LeavesBroken c st lf s rd)
          (Keeping (AreLeaves c st lf s rd bottom Under (partition_edge node.path w indices).0) s)
          (Keeping (AreLeaves c st lf s rd node Q indices) s)
          (go bottom (partition_edge node.path w indices).0 ctx) _
          (works Under (partition_edge node.path w indices).0 ctx es (
            All-imp Under (Asked c st lf s rd bottom Under) (partition_edge node.path w indices).0
              (λ j q. (q, within j node.path w q.1)) inside))
          (λ bottom_leaves ctx2 kept.
            Ends_continue (LeavesBlame c st lf s rd) (LeavesBroken c st lf s rd)
              (Keeping (AreLeaves c st lf s rd node Q (partition_edge node.path w indices).1) s)
              (Keeping (AreLeaves c st lf s rd node Q indices) s)
              (get_empty_leaves c st lf (partition_edge node.path w indices).1 ctx2) _
              (get_empty_leaves-End c st lf s rd node Q (partition_edge node.path w indices).1 ctx2
                kept.1
                (All-imp _ (IsEmptyAt c st lf s rd node Q) (partition_edge node.path w indices).1
                  (λ i q. (
                    q.0,
                    outside_leaf c st lf s rd node.bottom_node node.path node.length node.height i
                        q.1,
                  ))
                  outside))
              (λ empty_leaves ctx3 kept'. (
                edge-AreLeaves c st lf s rd node Q indices bottom_leaves empty_leaves kept.0
                    kept'.0,
                kept'.1,
              ))))

  binary-End :
      (go : Recursion) (node : VirtualPatriciaNode) (Q : ℕ → Type 0) (indices : List ℕ)
      (ctx : Context S)
      → IsValid c st s rd node
      → node.height ≢ 0
      → ((left right : VirtualPatriciaNode)
          → AreChildren c st s rd node left right
          → WorksFor go left × WorksFor go right)
      → ctx.storage ≡ s
      → All (Asked c st lf s rd node Q) indices
      → LeavesEnd c st lf s rd node Q indices (
          continue (get_children c st node ctx) (λ children ctx1.
            continue
              (go children.0 (partition_binary (2 ^ (node.height - 1)) indices).0 ctx1)
              (λ left_leaves ctx2.
                continue
                  (go children.1 (partition_binary (2 ^ (node.height - 1)) indices).1 ctx2)
                  (λ right_leaves.
                    pure (insert_shifted (2 ^ (node.height - 1)) left_leaves right_leaves)))))
  binary-End go node Q indices ctx v nz works es a =
      let mid = 2 ^ (node.height - 1) in
      let (lows, highs) = All-partition_binary (Asked c st lf s rd node Q) mid indices a in
      Ends_continue (LeavesBlame c st lf s rd) (LeavesBroken c st lf s rd)
        (Keeping (λ ch. AreChildren c st s rd node ch.0 ch.1) s)
        (Keeping (AreLeaves c st lf s rd node Q indices) s) (get_children c st node ctx) _
        (children-Ends node (get_children c st node ctx) nz
          (get_children-ChildrenOutcome c st s rd node ctx v es))
        (λ (left, right) ctx1 kept.
          let ch = kept.0 in
          let el : node.height - 1 ≡ left.height = omega (arith, ch.left_height) in
          let er : node.height - 1 ≡ right.height = omega (arith, ch.right_height) in
          let em : mid ≡ 2 ^ left.height = ap (λ k. 2 ^ k) el in
          let em' : mid ≡ 2 ^ right.height = ap (λ k. 2 ^ k) er in
          let size : 2 ^ node.height ≡ mid + mid = doubled node.height nz in
          let InLeft : ℕ → Type 0 = λ i. (Q i × (i < 2 ^ node.height)) × (i < mid) in
          let InRight : ℕ → Type 0 = λ j. Q (j + mid) × (j + mid < 2 ^ node.height) in
          Ends_continue (LeavesBlame c st lf s rd) (LeavesBroken c st lf s rd)
            (Keeping (AreLeaves c st lf s rd left InLeft (partition_binary mid indices).0) s)
            (Keeping (AreLeaves c st lf s rd node Q indices) s)
            (go left (partition_binary mid indices).0 ctx1) _
            ((works left right ch).0 InLeft (partition_binary mid indices).0 ctx1 kept.1 (
              All-imp _ (Asked c st lf s rd left InLeft) (partition_binary mid indices).0
                (λ i q. (q, (let lt : i < 2 ^ left.height = omega (arith, q.1, em) in lt))) lows))
            (λ left_leaves ctx2 kept'.
              Ends_continue (LeavesBlame c st lf s rd) (LeavesBroken c st lf s rd)
                (Keeping (AreLeaves c st lf s rd right InRight (partition_binary mid indices).1) s)
                (Keeping (AreLeaves c st lf s rd node Q indices) s)
                (go right (partition_binary mid indices).1 ctx2) _
                ((works left right ch).1 InRight (partition_binary mid indices).1 ctx2 kept'.1 (
                  All-imp _ (Asked c st lf s rd right InRight) (partition_binary mid indices).1
                    (λ j q.
                      (q, (let lt : j < 2 ^ right.height = omega (arith, q.1, size, em') in lt)))
                    highs))
                (λ right_leaves ctx3 kept''. (
                  binary-AreLeaves c st lf s rd node left right Q indices mid left_leaves
                      right_leaves ch em kept'.0 kept''.0,
                  kept''.1,
                ))))
    where
      doubled : (h : ℕ) → h ≢ 0 → 2 ^ h ≡ 2 ^ (h - 1) + 2 ^ (h - 1)
      doubled zero nz = absurd (nz refl)
      doubled (suc h) nz = let e : suc h - 1 ≡ h = omega arith in rw e (omega (arith, pow-suc 2 h))

  pub get_leaves-End :
      (fuel : ℕ) (node : VirtualPatriciaNode) (Q : ℕ → Type 0) (indices : List ℕ) (ctx : Context S)
      → IsValid c st s rd node
      → node.height ≤ fuel
      → ctx.storage ≡ s
      → All (Asked c st lf s rd node Q) indices
      → LeavesEnd c st lf s rd node Q indices (get_leaves c st lf fuel node indices ctx)
  unfolding get_leaves sub
  get_leaves-End fuel node Q [] ctx v le es a = (record { entries = tt; complete = tt }, es)
  get_leaves-End zero node Q (i ∷ indices) ctx v le es a =
      let z : (node.height == 0) ≡ true = ground arith in
      elim (Bool-cases (is_empty_node node)) [
        | inl e ↦ rw e (empty-End node Q (i ∷ indices) ctx (bytes_eq→eq _ _ e) es a)
        | inr e ↦ rw (e, z) (get_leaf-End c st lf s rd node Q i indices ctx v (omega arith) es a)
      ]
  get_leaves-End (suc fuel) node Q (i ∷ indices) ctx v le es a =
      elim (Bool-cases (is_empty_node node)) [
        | inl e ↦ rw e (empty-End node Q (i ∷ indices) ctx (bytes_eq→eq _ _ e) es a)
        | inr e ↦ elim (Bool-cases (is_leaf_node node)) [
          | inl f ↦ rw (e, f) (get_leaf-End c st lf s rd node Q i indices ctx v (ground arith) es a)
          | inr f ↦ elim (Bool-cases (is_virtual_edge node)) [
            | inl g ↦
                rw (e, f, g)
                  (edge-End (get_leaves c st lf fuel) node Q (i ∷ indices) ctx v
                    (λ Q' is ctx' es' a'.
                      get_leaves-End fuel (from_hash node.bottom_node (node.height - node.length))
                        Q' is ctx' (flat-IsValid c st s rd node.bottom_node _ v.bottom)
                        (ground arith) es' a')
                    es a)
            | inr g ↦
                rw (e, f, g)
                  (binary-End (get_leaves c st lf fuel) node Q (i ∷ indices) ctx v
                    (λ z. ground arith)
                    (λ left right ch. (
                      λ Q' is ctx' es' a'.
                          get_leaves-End fuel left Q' is ctx' ch.left_valid
                            (omega (arith, ch.left_height)) es' a',
                      λ Q' is ctx' es' a'.
                          get_leaves-End fuel right Q' is ctx' ch.right_valid
                            (omega (arith, ch.right_height)) es' a',
                    ))
                    es a)
          ]
        ]
      ]
