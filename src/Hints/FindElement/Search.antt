-- ===== src/Hints/FindElement/Search.antt =====
-- What the search of crates/starknet-os/src/hints/find_element.rs finds.
use native.Mathlib.Nat.{mod-eq_of_lt, mul-le-mul_left}
use snos.Base.{
  ℕ, zero, suc, ◌+◌, ◌*◌, ◌%◌, ◌≤◌, ◌<◌, ◌≡◌, refl, Bool, true, false, Option, ◌==◌, ltb, leb, inl,
  inr, arith, ◌↔◌, Bool-cases, leb→le, ==_iff,
}
use snos.Base.Outcome.{Outcome, ok}
use snos.CommitmentTree.Bytes.{u64_bound}
use snos.Hints.FindElement.{HintError, check_size, search_from, search_sorted_optimistic}

-- All elements before the index are less than the key, and the one at the index, if there is one, is
-- not; the flag tells whether it is the key.
pub record IsFirst (v : ℕ → ℕ) (n key index : ℕ) (exists : Bool) : Type 0 where
  pub in_range : index ≤ n
  pub before : (j : ℕ) → j < index → v j < key
  pub at_index : index < n → key ≤ v index
  pub found : (exists ≡ true) ↔ ((index < n) × (v index ≡ key))

up_to :
    (v : ℕ → ℕ) (key i : ℕ)
    → ((j : ℕ) → j < i → v j < key)
    → v i < key
    → (j : ℕ) → j < i + 1
    → v j < key
up_to v key i before here j h = elim (Bool-cases (j == i)) [
  | inl e ↦ let same : j ≡ i = (==_iff j i).0 e in rw same here
  | inr e ↦ before j (ground arith)
]

module _ (get_integer : ℕ → Outcome HintError ℕ) (v : ℕ → ℕ) (array_ptr elm_size n key : ℕ)
    (reads : (i : ℕ) → i < n → get_integer (array_ptr + elm_size * i) ≡ ok (v i))
    (fits : array_ptr + elm_size * n < u64_bound) where
  search_from-IsFirst :
      (left i : ℕ)
      → i + left ≡ n
      → ((j : ℕ) → j < i → v j < key)
      → (index : ℕ) × (exists : Bool) × (search_from get_integer array_ptr elm_size n key left i
          ≡ ok (index, exists))
        × IsFirst v n key index exists
  unfolding search_from
  search_from-IsFirst zero i e before = (
    n,
    false,
    refl,
    record {
      in_range = omega arith;
      before = λ j h. before j (omega arith);
      at_index = λ h. absurd (omega arith);
      found = ground arith;
    },
  )
  search_from-IsFirst (suc left) i e before =
      let lt : i < n = omega arith in
      let le : elm_size * i ≤ elm_size * n = mul-le-mul_left elm_size (omega arith) in
      let whole : elm_size * i % u64_bound ≡ elm_size * i = mod-eq_of_lt (omega arith) in
      let in_segment : ltb (array_ptr + elm_size * i) u64_bound ≡ true = ground arith in
      elim (Bool-cases (leb key (v i))) [
        | inl here ↦ (
          i,
          v i == key,
          rw (whole, in_segment, reads i lt, here) refl,
          record {
            in_range = omega arith;
            before = before;
            at_index = λ h. leb→le key (v i) here;
            found = ((λ f. (lt, ground arith)), (λ f. ground arith));
          },
        )
        | inr later ↦
            let next =
              search_from-IsFirst left (i + 1) (omega arith)
                (up_to v key i before (ground arith)) in
            (next.0, next.1, rw (whole, in_segment, reads i lt, later) next.2, next.3)
      ]

  -- Where the memory holds n elements that stay in their segment, for an element size other than 0
  -- and at most as many elements as allowed, the hint succeeds: the elements before the index are
  -- less than the key, the one at the index is not, and the flag tells whether it is the key.
  pub search_sorted_optimistic-IsFirst :
      (max_size : Option ℕ)
      → 0 < elm_size
      → elm_size < u64_bound
      → n < u64_bound
      → check_size max_size n ≡ ok n
      → (index : ℕ) × (exists : Bool) × (search_sorted_optimistic get_integer array_ptr elm_size n
            key max_size
          ≡ ok (index, exists))
        × IsFirst v n key index exists
  unfolding search_sorted_optimistic
  search_sorted_optimistic-IsFirst max_size pos small few size =
      let found = search_from-IsFirst n 0 (omega arith) (λ j h. absurd (omega arith)) in
      let a : ltb elm_size u64_bound ≡ true = ground arith in
      let b : (elm_size == 0) ≡ false = ground arith in
      let c : ltb n u64_bound ≡ true = ground arith in
      (found.0, found.1, rw (a, b, c, size) found.2, found.3)

  -- Where, moreover, the elements are sorted, the flag of the hint that succeeds tells whether the key
  -- is among the elements.
  pub search_sorted_optimistic-found :
      (max_size : Option ℕ)
      → 0 < elm_size
      → elm_size < u64_bound
      → n < u64_bound
      → check_size max_size n ≡ ok n
      → ((i j : ℕ) → i ≤ j → j < n → v i ≤ v j)
      → (index : ℕ) × (exists : Bool) × (search_sorted_optimistic get_integer array_ptr elm_size n
            key max_size
          ≡ ok (index, exists))
        × ((exists ≡ true) ↔ ((i : ℕ) × (i < n) × (v i ≡ key)))
  search_sorted_optimistic-found max_size pos small few size sorted =
      let r = search_sorted_optimistic-IsFirst max_size pos small few size in
      let first = r.3 in
      let index = r.0 in
      (
        r.0,
        r.1,
        r.2,
        (
          λ f. let there = first.found.0 f in (index, there.0, there.1),
          λ there.
              let (i, lt, e) = there in
              let in_range : i < n = lt in
              let value : v i ≡ key = e in
              let not_after : i < index → v i < key = first.before i in
              let near : index ≤ i = ground (arith, not_after) in
              let order : v index ≤ v i = sorted index i near in_range in
              let least : key ≤ v index = first.at_index (omega arith) in
              first.found.1 (omega arith, omega arith),
        ),
      )
