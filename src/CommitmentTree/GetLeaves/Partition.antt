-- ===== src/CommitmentTree/GetLeaves/Partition.antt =====
-- The partitions of indices and the unions of leaves of
-- crates/starknet-os/src/starkware_utils/commitment_tree/binary_fact_tree_node.rs and
-- patricia_tree/virtual_patricia_node.rs.
use native.Mathlib.Nat.{div-add-mod}
use snos.Base.{
  ℕ, ◌+◌, ◌-◌, ◌*◌, ◌/◌, ◌%◌, ◌^◌, ◌<◌, ◌≡◌, ◌≢◌, refl, Bool-cases, inl, inr, ltb, ltb→lt, ◌==◌,
  ==_iff, none, some, List, [], ◌∷◌, All, arith,
}
use snos.Base.HashMap
use snos.Base.HashMap.{HashMap, nat_eq, get-insert, All-insert}
use snos.CommitmentTree.GetLeaves.{partition_binary, partition_edge, insert_shifted}

-- What holds of all indices holds of both halves.
pub All-partition_binary :
    (Q : ℕ → Type 0) (mid : ℕ) (indices : List ℕ)
    → All Q indices
    → All (λ i. Q i × (i < mid)) (partition_binary mid indices).0
      × All (λ j. Q (j + mid)) (partition_binary mid indices).1
unfolding partition_binary
All-partition_binary Q mid [] a = (tt, tt)
All-partition_binary Q mid (i ∷ indices) a =
    let (l, r) = All-partition_binary Q mid indices a.1 in
    elim (Bool-cases (ltb i mid)) [
      | inl e ↦ rw e (((a.0, ltb→lt i mid e), l), r)
      | inr e ↦
          let back : i - mid + mid ≡ i = ground arith in
          let here : Q (i - mid + mid) = rw back a.0 in rw e (l, (here, r))
    ]

-- What holds of both halves holds of all indices.
pub All-of_partition_binary :
    (R : ℕ → Type 0) (mid : ℕ) (indices : List ℕ)
    → All R (partition_binary mid indices).0
    → All (λ j. R (j + mid)) (partition_binary mid indices).1
    → All R indices
unfolding partition_binary
All-of_partition_binary R mid [] a b = tt
All-of_partition_binary R mid (i ∷ indices) a b = elim (Bool-cases (ltb i mid)) [
  | inl e ↦
      let a' = rw e at a in
      let b' = rw e at b in (a'.0, All-of_partition_binary R mid indices a'.1 b')
  | inr e ↦
      let a' = rw e at a in
      let b' = rw e at b in
      let back : i - mid + mid ≡ i = ground arith in
      (rw back at b'.0, All-of_partition_binary R mid indices a' b'.1)
]

-- An index below an edge is that of its first leaf, and what is left.
below_edge : (i path width : ℕ) → i / 2 ^ width ≡ path → i - path * 2 ^ width + path * 2 ^ width ≡ i
below_edge i path width e =
    let dm : 2 ^ width * (i / 2 ^ width) + i % 2 ^ width ≡ i = div-add-mod i (2 ^ width) in
    let low : 2 ^ width * path + i % 2 ^ width ≡ i = rw e at dm in omega arith

pub All-partition_edge :
    (Q : ℕ → Type 0) (path width : ℕ) (indices : List ℕ)
    → All Q indices
    → All
        (λ j. Q (j + path * 2 ^ width) × ((j + path * 2 ^ width) / 2 ^ width ≡ path))
        (partition_edge path width indices).0
      × All (λ i. Q i × (i / 2 ^ width ≢ path)) (partition_edge path width indices).1
unfolding partition_edge
All-partition_edge Q path width [] a = (tt, tt)
All-partition_edge Q path width (i ∷ indices) a =
    let (l, r) = All-partition_edge Q path width indices a.1 in
    elim (Bool-cases (i / 2 ^ width == path)) [
      | inl e ↦
          let under : i / 2 ^ width ≡ path = (==_iff _ _).0 e in
          let back : i - path * 2 ^ width + path * 2 ^ width ≡ i = below_edge i path width under in
          let here : Q (i - path * 2 ^ width + path * 2 ^ width)
              × ((i - path * 2 ^ width + path * 2 ^ width) / 2 ^ width ≡ path) =
            rw back (a.0, under) in
          rw e ((here, l), r)
      | inr e ↦ rw e (l, ((a.0, λ f. ground (arith, f)), r))
    ]

pub All-of_partition_edge :
    (R : ℕ → Type 0) (path width : ℕ) (indices : List ℕ)
    → All (λ j. R (j + path * 2 ^ width)) (partition_edge path width indices).0
    → All R (partition_edge path width indices).1
    → All R indices
unfolding partition_edge
All-of_partition_edge R path width [] a b = tt
All-of_partition_edge R path width (i ∷ indices) a b = elim (Bool-cases (i / 2 ^ width == path)) [
  | inl e ↦
      let a' = rw e at a in
      let b' = rw e at b in
      let back = below_edge i path width ((==_iff _ _).0 e) in
      (rw back at a'.0, All-of_partition_edge R path width indices a'.1 b')
  | inr e ↦
      let a' = rw e at a in
      let b' = rw e at b in (b'.0, All-of_partition_edge R path width indices a' b'.1)
]

module _ {LF : Type 0} where
  abbrev pub Present : HashMap ℕ LF → ℕ → Type 0
  Present leaves i = HashMap.get i leaves ≢ none

  -- The entries of both maps are in the union, those of the second one shifted.
  pub All-insert_shifted :
      (P : ℕ × LF → Type 0) (offset : ℕ) (leaves more : HashMap ℕ LF)
      → All P leaves
      → All (λ e. P (e.0 + offset, e.1)) more
      → All P (insert_shifted offset leaves more)
  unfolding insert_shifted
  All-insert_shifted P offset leaves [] a b = a
  All-insert_shifted P offset leaves ((j, leaf) ∷ more) a b =
      All-insert_shifted P offset (HashMap.insert (j + offset) leaf leaves) more
        (All-insert P (j + offset) leaf leaves b.0 a) b.1

  pub Present-insert :
      (i k : ℕ) (leaf : LF) (leaves : HashMap ℕ LF)
      → Present leaves i
      → Present (HashMap.insert k leaf leaves) i
  Present-insert i k leaf leaves p e = p (ground (arith, get-insert k i leaf leaves, e))

  pub Present-insert_shifted :
      (offset : ℕ) (leaves more : HashMap ℕ LF) (i : ℕ)
      → Present leaves i
      → Present (insert_shifted offset leaves more) i
  unfolding insert_shifted
  Present-insert_shifted offset leaves [] i p = p
  Present-insert_shifted offset leaves ((j, leaf) ∷ more) i p =
      Present-insert_shifted offset (HashMap.insert (j + offset) leaf leaves) more i
        (Present-insert i (j + offset) leaf leaves p)

  pub Present-insert_shifted_more :
      (offset : ℕ) (leaves more : HashMap ℕ LF) (j : ℕ)
      → Present more j
      → Present (insert_shifted offset leaves more) (j + offset)
  unfolding insert_shifted HashMap.get
  Present-insert_shifted_more offset leaves [] j p = absurd (p refl)
  Present-insert_shifted_more offset leaves ((k, leaf) ∷ more) j p = elim (Bool-cases (k == j)) [
    | inl e ↦
        let same : k ≡ j = (==_iff k j).0 e in
        Present-insert_shifted offset (HashMap.insert (k + offset) leaf leaves) more (j + offset)
          (λ f. ground (arith, same, get-insert (k + offset) (j + offset) leaf leaves, f))
    | inr e ↦
        Present-insert_shifted_more offset (HashMap.insert (k + offset) leaf leaves) more j
          (rw e at p)
  ]

  -- An entry that is got has what all entries have.
  pub of_get :
      (P : ℕ × LF → Type 0) (leaves : HashMap ℕ LF) (i : ℕ)
      → All P leaves
      → Present leaves i
      → (leaf : LF) × (HashMap.get i leaves ≡ some leaf) × P (i, leaf)
  unfolding HashMap.get
  of_get P [] i a p = absurd (p refl)
  of_get P ((k, leaf) ∷ leaves) i a p = elim (Bool-cases (k == i)) [
    | inl e ↦ let same : k ≡ i = (==_iff k i).0 e in (leaf, rw e refl, rw same at a.0)
    | inr e ↦ let (l, f, g) = of_get P leaves i a.1 (rw e at p) in (l, rw e f, g)
  ]
