-- ===== src/CommitmentTree/GetLeaves/Unions.antt =====
-- The leaves of the parts of a tree are put together, for `_get_leaves` of
-- crates/starknet-os/src/starkware_utils/commitment_tree/binary_fact_tree_node.rs and
-- patricia_tree/virtual_patricia_node.rs.
use native.Mathlib.Nat.{add-mul-div_right, add-mul-mod_self_right, mod-eq_of_lt}
use snos.Base.{
  ℕ, ◌+◌, ◌-◌, ◌*◌, ◌/◌, ◌%◌, ◌^◌, ◌<◌, ◌≡◌, ◌≢◌, refl, ltb, lt→ltb, true, false, ◌==◌, ==_iff,
  List, All-imp, arith, ap, sym, ◌∙◌,
}
use snos.Base.Pow.{pow_pos}
use snos.Base.HashMap.{HashMap, nat_eq}
use snos.CommitmentTree.Bytes.{Hash, Crypto, empty_hash}
use snos.CommitmentTree.Storage.{Storage}
use snos.CommitmentTree.Context.{LeafFact}
use snos.CommitmentTree.Reading.{Reading, edge_leaf}
use snos.CommitmentTree.VirtualNode.{VirtualPatriciaNode, from_hash}
use snos.CommitmentTree.VirtualNode.Leaves.{node_leaf, AreChildren, flat-leaf}
use snos.CommitmentTree.GetLeaves.{partition_binary, partition_edge, insert_shifted}
use snos.CommitmentTree.GetLeaves.Partition.{
  All-of_partition_binary, All-of_partition_edge, Present, All-insert_shifted,
  Present-insert_shifted, Present-insert_shifted_more,
}
use snos.CommitmentTree.GetLeaves.Parts.{IsLeafOf, AreLeaves, stored_leaf}
use native.Mathlib.Nat.{div-add-mod, mod-lt}

-- An index below an edge, counted from its first leaf, is less than the width of its bottom.
pub within : (j path w : ℕ) → (j + path * 2 ^ w) / 2 ^ w ≡ path → j < 2 ^ w
within j path w e =
    let sum : (j + path * 2 ^ w) / 2 ^ w ≡ j / 2 ^ w + path =
      add-mul-div_right j path (pow_pos w) in
    let z : j / 2 ^ w ≡ 0 = omega (arith, sum, e) in
    let dm : 2 ^ w * 0 + j % 2 ^ w ≡ j = rw z at (div-add-mod j (2 ^ w)) in
    omega (arith, dm, mod-lt j (pow_pos w))

module _ {S LF : Type 0} (c : Crypto) (st : Storage S) (lf : LeafFact LF) (s : S)
    (rd : Reading c st s) where
  open rd use {Held, resolve}

  -- Below the bottom of an edge the leaves are those of the bottom, and elsewhere they are empty.
  bottom_leaf :
      (bottom : Hash) (path n h j : ℕ)
      → (j + path * 2 ^ (h - n)) / 2 ^ (h - n) ≡ path
      → edge_leaf (resolve bottom) path n h (j + path * 2 ^ (h - n))
        ≡ node_leaf c st s rd (from_hash bottom (h - n)) j
  unfolding edge_leaf
  bottom_leaf bottom path n h j e =
      let w = h - n in
      let lt : j < 2 ^ w = within j path w e in
      let hit : ((j + path * 2 ^ w) / 2 ^ w == path) ≡ true = (==_iff _ _).1 e in
      let low : (j + path * 2 ^ w) % 2 ^ w ≡ j =
        add-mul-mod_self_right j path (2 ^ w) ∙ mod-eq_of_lt lt in
      rw (hit, low) (sym (flat-leaf c st s rd bottom w j lt))

  pub outside_leaf :
      (bottom : Hash) (path n h i : ℕ)
      → i / 2 ^ (h - n) ≢ path
      → edge_leaf (resolve bottom) path n h i ≡ empty_hash
  unfolding edge_leaf
  outside_leaf bottom path n h i ne =
      let miss : (i / 2 ^ (h - n) == path) ≡ false = ground arith in rw miss refl

  -- The leaves below an edge and those beside it.
  pub edge-AreLeaves :
      (node : VirtualPatriciaNode) (Q : ℕ → Type 0) (indices : List ℕ)
      (bottom_leaves empty_leaves : HashMap ℕ LF)
      → AreLeaves c st lf s rd
          (from_hash node.bottom_node (node.height - node.length))
          (λ j.
            Q (j + node.path * 2 ^ (node.height - node.length))
            × ((j + node.path * 2 ^ (node.height - node.length)) / 2 ^ (node.height - node.length)
                ≡ node.path))
          (partition_edge node.path (node.height - node.length) indices).0
          bottom_leaves
      → AreLeaves c st lf s rd node Q
          (partition_edge node.path (node.height - node.length) indices).1
          empty_leaves
      → AreLeaves c st lf s rd node Q indices
          (insert_shifted (node.path * 2 ^ (node.height - node.length)) empty_leaves bottom_leaves)
  unfolding node_leaf
  edge-AreLeaves node Q indices bottom_leaves empty_leaves vb ve =
      let w = node.height - node.length in
      record {
        entries =
            All-insert_shifted (IsLeafOf c st lf s rd node Q) (node.path * 2 ^ w) empty_leaves
              bottom_leaves ve.entries
              (All-imp _ (λ e. IsLeafOf c st lf s rd node Q (e.0 + node.path * 2 ^ w, e.1))
                bottom_leaves
                (λ (j, leaf) v. (
                  v.0.0,
                  ap (stored_leaf c st lf s rd)
                        (bottom_leaf node.bottom_node node.path node.length node.height j v.0.1)
                      ∙ v.1,
                ))
                vb.entries);
        complete =
            All-of_partition_edge
              (Present (insert_shifted (node.path * 2 ^ w) empty_leaves bottom_leaves)) node.path w
              indices
              (All-imp _ _ (partition_edge node.path w indices).0
                (λ j p.
                  Present-insert_shifted_more (node.path * 2 ^ w) empty_leaves bottom_leaves j p)
                vb.complete)
              (All-imp _ _ (partition_edge node.path w indices).1
                (λ i p. Present-insert_shifted (node.path * 2 ^ w) empty_leaves bottom_leaves i p)
                ve.complete);
      }

  -- The leaves of the two halves.
  pub binary-AreLeaves :
      (node left right : VirtualPatriciaNode) (Q : ℕ → Type 0) (indices : List ℕ) (mid : ℕ)
      (left_leaves right_leaves : HashMap ℕ LF)
      → AreChildren c st s rd node left right
      → mid ≡ 2 ^ left.height
      → AreLeaves c st lf s rd left
          (λ i. (Q i × (i < 2 ^ node.height)) × (i < mid))
          (partition_binary mid indices).0
          left_leaves
      → AreLeaves c st lf s rd right
          (λ j. Q (j + mid) × (j + mid < 2 ^ node.height))
          (partition_binary mid indices).1
          right_leaves
      → AreLeaves c st lf s rd node Q indices (insert_shifted mid left_leaves right_leaves)
  binary-AreLeaves node left right Q indices mid left_leaves right_leaves ch em vl vr = record {
    entries =
        All-insert_shifted (IsLeafOf c st lf s rd node Q) mid left_leaves right_leaves
          (All-imp _ _ left_leaves
            (λ (i, leaf) v.
              (v.0.0.0, ap (stored_leaf c st lf s rd) (in_left i v.0.0.1 v.0.1) ∙ v.1))
            vl.entries)
          (All-imp _ _ right_leaves
            (λ (j, leaf) v. (v.0.0, ap (stored_leaf c st lf s rd) (in_right j v.0.1) ∙ v.1))
            vr.entries);
    complete =
        All-of_partition_binary (Present (insert_shifted mid left_leaves right_leaves)) mid indices
          (All-imp _ _ (partition_binary mid indices).0
            (λ i p. Present-insert_shifted mid left_leaves right_leaves i p) vl.complete)
          (All-imp _ _ (partition_binary mid indices).1
            (λ j p. Present-insert_shifted_more mid left_leaves right_leaves j p) vr.complete);
  }
    where
      in_left :
          (i : ℕ)
          → i < 2 ^ node.height
          → i < mid
          → node_leaf c st s rd node i ≡ node_leaf c st s rd left i
      in_left i lt low =
          let low' : i < 2 ^ left.height = rw em at low in
          ch.leaves i lt ∙ rw (lt→ltb i _ low') refl

      in_right :
          (j : ℕ)
          → j + mid < 2 ^ node.height
          → node_leaf c st s rd node (j + mid) ≡ node_leaf c st s rd right j
      in_right j lt =
          let high : ltb (j + mid) (2 ^ left.height) ≡ false = ground (arith, em) in
          let back : j + mid - 2 ^ left.height ≡ j = omega (arith, em) in
          ch.leaves (j + mid) lt ∙ rw (high, back) refl
