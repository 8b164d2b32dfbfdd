-- ===== src/CommitmentTree/GetLeaves/Parts.antt =====
-- What `get_leaves` of
-- crates/starknet-os/src/starkware_utils/commitment_tree/patricia_tree/patricia_tree.rs takes from the store at
-- the end of each path.
use snos.Base.{ℕ, ◌^◌, ◌<◌, ◌≡◌, refl, inl, inr, List, [], ◌∷◌, All, All-imp, arith, ap, ◌∙◌, ◌⊎◌}
use snos.Base.Outcome.{Outcome, ok, err, panicked, map_err, Ends}
use snos.Base.HashMap
use snos.Base.HashMap.{HashMap, nat_eq, get-insert, All-collect_into}
use snos.CommitmentTree.Bytes.{Hash, Crypto, empty_hash}
use snos.CommitmentTree.Storage.{StorageError, Storage, get_or_fail}
use snos.CommitmentTree.Nodes.{TreeError, empty, edge, EdgeNodeFact}
use snos.CommitmentTree.Context.{Context, LeafFact, pure, lift, continue}
use snos.CommitmentTree.Reading.{Reading, edge_leaf, edge_leaf-zero}
use snos.CommitmentTree.VirtualNode.{VirtualPatriciaNode}
use snos.CommitmentTree.VirtualNode.Leaves.{IsValid, node_leaf, read}
use snos.CommitmentTree.Update.Climb.{Keeping}
use snos.CommitmentTree.GetLeaves.{same_leaf, read_leaf, get_empty_leaves, get_leaf}
use snos.CommitmentTree.GetLeaves.Partition.{Present, Present-insert}

module _ {S LF : Type 0} (c : Crypto) (st : Storage S) (lf : LeafFact LF) (s : S)
    (rd : Reading c st s) where
  open rd use {Held, resolve}

  -- The leaf that is stored under a hash.
  abbrev pub stored_leaf : Hash → Outcome StorageError LF
  stored_leaf h = get_or_fail lf.object st s h

  -- A fact of the store cannot be read: that of a node or that of a leaf.
  abbrev pub LeavesBlame : TreeError → Type 0
  LeavesBlame (TreeError.storage e) =
      ((h : Hash) × (read c st s rd h ≡ err e)) ⊎ ((h : Hash) × (stored_leaf h ≡ err e))
  LeavesBlame TreeError.is_empty = (h : Hash) × (read c st s rd h ≡ ok empty)
  LeavesBlame (TreeError.update_tree e) = ⊥
  LeavesBlame TreeError.is_leaf = ⊥
  LeavesBlame (TreeError.tree_heights_mismatch a b) = ⊥
  LeavesBlame (TreeError.invalid_edge_path a b) = ⊥

  abbrev pub LeavesBroken : Type 0
  LeavesBroken =
      (h : Hash) × (((read c st s rd h ≡ panicked) ⊎ (stored_leaf h ≡ panicked))
        ⊎ ((fact : EdgeNodeFact) × (read c st s rd h ≡ ok (edge fact)) × (fact.edge_length ≡ 0)))

  -- The leaves of the node under the indices: each index has its leaf, and each entry is of an
  -- index that is asked for, as far as Q tells, and is the stored leaf under it.
  abbrev pub IsLeafOf : VirtualPatriciaNode → (ℕ → Type 0) → ℕ × LF → Type 0
  IsLeafOf node Q (i, leaf) = Q i × (stored_leaf (node_leaf c st s rd node i) ≡ ok leaf)

  pub record AreLeaves (node : VirtualPatriciaNode) (Q : ℕ → Type 0) (indices : List ℕ)
      (leaves : HashMap ℕ LF) : Type 0 where
    pub entries : All (IsLeafOf node Q) leaves
    pub complete : All (Present leaves) indices

  abbrev pub LeavesEnd :
      VirtualPatriciaNode
      → (ℕ → Type 0)
      → List ℕ
      → Outcome TreeError (HashMap ℕ LF × Context S)
      → Type 0
  LeavesEnd node Q indices o =
      Ends LeavesBlame LeavesBroken (Keeping (AreLeaves node Q indices) s) o

  read_leaf-Ends :
      (h : Hash) (o : Outcome StorageError LF)
      → stored_leaf h ≡ o
      → Ends LeavesBlame LeavesBroken
          (λ leaf. stored_leaf h ≡ ok leaf)
          (map_err TreeError.storage o)
  read_leaf-Ends h (ok leaf) e = e
  read_leaf-Ends h (err w) e = inr (h, e)
  read_leaf-Ends h panicked e = (h, inl (inr e))

  with_read :
      (node : VirtualPatriciaNode) (Q : ℕ → Type 0) (indices : List ℕ) (ctx : Context S)
      (leaves : LF → HashMap ℕ LF) (h : Hash) (o : Outcome StorageError LF)
      → stored_leaf h ≡ o
      → ctx.storage ≡ s
      → ((leaf : LF) → stored_leaf h ≡ ok leaf → AreLeaves node Q indices (leaves leaf))
      → LeavesEnd node Q indices
          (continue (lift (map_err TreeError.storage o) ctx) (λ leaf. pure (leaves leaf)))
  with_read node Q indices ctx leaves h (ok leaf) e es f = (f leaf e, es)
  with_read node Q indices ctx leaves h (err w) e es f = inr (h, e)
  with_read node Q indices ctx leaves h panicked e es f = (h, inl (inr e))

  with_leaf :
      (node : VirtualPatriciaNode) (Q : ℕ → Type 0) (indices : List ℕ) (ctx : Context S)
      (leaves : LF → HashMap ℕ LF) (h : Hash)
      → ctx.storage ≡ s
      → ((leaf : LF) → stored_leaf h ≡ ok leaf → AreLeaves node Q indices (leaves leaf))
      → LeavesEnd node Q indices
          (continue (lift (read_leaf c st lf ctx.storage h) ctx) (λ leaf. pure (leaves leaf)))
  with_leaf node Q indices ctx leaves h es f =
      with_read node Q indices ctx leaves h (get_or_fail lf.object st ctx.storage h) (rw es refl) es
        f

  Present-collect_into :
      (m ps : HashMap ℕ LF) (i : ℕ) → Present m i → Present (HashMap.collect_into m ps) i
  unfolding HashMap.collect_into
  Present-collect_into m [] i p = p
  Present-collect_into m ((k, leaf) ∷ ps) i p =
      Present-collect_into (HashMap.insert k leaf m) ps i (Present-insert i k leaf m p)

  Present-same_leaf :
      (leaf : LF) (m : HashMap ℕ LF) (indices : List ℕ)
      → All (Present (HashMap.collect_into m (same_leaf leaf indices))) indices
  unfolding HashMap.collect_into
  Present-same_leaf leaf m [] = tt
  Present-same_leaf leaf m (i ∷ indices) = (
    Present-collect_into (HashMap.insert i leaf m) (same_leaf leaf indices) i
        (λ e. ground (arith, get-insert i i leaf m, e)),
    Present-same_leaf leaf (HashMap.insert i leaf m) indices,
  )

  abbrev pub IsEmptyAt : VirtualPatriciaNode → (ℕ → Type 0) → ℕ → Type 0
  IsEmptyAt node Q i = Q i × (node_leaf c st s rd node i ≡ empty_hash)

  entries_of_empty :
      (node : VirtualPatriciaNode) (Q : ℕ → Type 0) (leaf : LF) (indices : List ℕ)
      → stored_leaf empty_hash ≡ ok leaf
      → All (IsEmptyAt node Q) indices
      → All (IsLeafOf node Q) (same_leaf leaf indices)
  entries_of_empty node Q leaf [] e a = tt
  entries_of_empty node Q leaf (i ∷ indices) e a =
      let here : stored_leaf (node_leaf c st s rd node i) ≡ ok leaf = rw a.0.1 e in
      ((a.0.0, here), entries_of_empty node Q leaf indices e a.1)

  -- All leaves asked for are empty.
  pub get_empty_leaves-End :
      (node : VirtualPatriciaNode) (Q : ℕ → Type 0) (indices : List ℕ) (ctx : Context S)
      → ctx.storage ≡ s
      → All (IsEmptyAt node Q) indices
      → LeavesEnd node Q indices (get_empty_leaves c st lf indices ctx)
  unfolding get_empty_leaves
  get_empty_leaves-End node Q [] ctx es a = (record { entries = tt; complete = tt }, es)
  get_empty_leaves-End node Q (i ∷ indices) ctx es a =
      with_leaf node Q (i ∷ indices) ctx
        (λ leaf. HashMap.collect_into [] (same_leaf leaf (i ∷ indices))) empty_hash es
        (λ leaf e. record {
          entries =
              All-collect_into (IsLeafOf node Q) [] (same_leaf leaf (i ∷ indices)) tt
                (entries_of_empty node Q leaf (i ∷ indices) e a);
          complete = Present-same_leaf leaf [] (i ∷ indices);
        })

  zero_of : (i h : ℕ) → h ≡ 0 → i < 2 ^ h → i ≡ 0
  zero_of i h e lt = let one : i < 2 ^ 0 = rw e at lt in omega arith

  leaf_at_zero :
      (bottom : Hash) (path n h : ℕ)
      → h ≡ 0
      → n ≡ 0
      → path ≡ 0
      → edge_leaf (resolve bottom) path n h 0 ≡ bottom
  leaf_at_zero bottom path n h eh en ep =
      rw (eh, en, ep) (edge_leaf-zero (resolve bottom) 0 0 (omega arith) ∙ rd.resolve_leaf bottom)

  all_zero :
      (leaf : LF) (h : ℕ) (indices : List ℕ)
      → h ≡ 0
      → All (λ i. i < 2 ^ h) indices
      → All (Present ((0, leaf) ∷ [])) indices
  unfolding HashMap.get
  all_zero leaf h [] e a = tt
  all_zero leaf h (i ∷ indices) e a =
      let z : i ≡ 0 = zero_of i h e a.0 in
      (λ f. ground (arith, f, z), all_zero leaf h indices e a.1)

  abbrev pub Asked : VirtualPatriciaNode → (ℕ → Type 0) → ℕ → Type 0
  Asked node Q i = Q i × (i < 2 ^ node.height)

  pub get_leaf-End :
      (node : VirtualPatriciaNode) (Q : ℕ → Type 0) (i : ℕ) (indices : List ℕ) (ctx : Context S)
      → IsValid c st s rd node
      → node.height ≡ 0
      → ctx.storage ≡ s
      → All (Asked node Q) (i ∷ indices)
      → LeavesEnd node Q (i ∷ indices) (get_leaf c st lf node ctx)
  unfolding get_leaf node_leaf
  get_leaf-End node Q i indices ctx v z es a =
      with_leaf node Q (i ∷ indices) ctx (λ leaf. (0, leaf) ∷ []) node.bottom_node es
        (λ leaf e.
          let n0 : node.length ≡ 0 = omega (arith, v.length) in
          let p0 : node.path ≡ 0 = zero_of node.path node.length n0 v.path in
          let i0 : i ≡ 0 = zero_of i node.height z a.0.1 in
          let here : Q 0 = rw i0 at a.0.0 in
          record {
            entries = (
              (
                here,
                ap stored_leaf
                      (leaf_at_zero node.bottom_node node.path node.length node.height z n0 p0)
                    ∙ e,
              ),
              tt,
            );
            complete =
                all_zero leaf node.height (i ∷ indices) z
                  (All-imp (Asked node Q) (λ j. j < 2 ^ node.height) (i ∷ indices) (λ j q. q.1) a);
          })
