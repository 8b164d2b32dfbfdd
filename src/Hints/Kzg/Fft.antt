-- ===== src/Hints/Kzg/Fft.antt =====
-- The fast transform of crates/starknet-os/src/hints/kzg.rs, against the evaluation of a polynomial.
use native.Mathlib.Nat.{pow-suc, pow-zero}
use snos.Base.{
  ℕ, zero, suc, ◌+◌, ◌-◌, ◌*◌, ◌/◌, ◌%◌, ◌^◌, ◌≤◌, ◌<◌, ◌≡◌, refl, sym, ◌∙◌, ap, arith, true, false,
  ◌==◌, ==_self, List, [], ◌∷◌, ◌++◌, length, length-append,
}
use snos.Base.Pow.{pow_pos}
use snos.Base.Outcome.{ok, ◌>>=◌}
use snos.Hints.Kzg.{
  evens, odds, multiply, sums, differences, inner_fft, push_powers, trailing_zeros, fft,
}
use snos.Hints.Kzg.Sizes.{length-halves, length-push_powers, below_pow}
use snos.Hints.Kzg.Halves.{
  evaluate, Congruent, Evaluates, Powers, Gives, Gives-bind, sums-Evaluates, differences-Evaluates,
  Powers-halves, Powers-push_powers, c_refl, c_eq,
}

pub trailing_zeros-pow : (k fuel : ℕ) → k ≤ fuel → trailing_zeros fuel (2 ^ k) ≡ k
unfolding trailing_zeros
trailing_zeros-pow zero zero le = refl
trailing_zeros-pow zero (suc fuel) le = refl
trailing_zeros-pow (suc k) zero le = absurd (omega arith)
trailing_zeros-pow (suc k) (suc fuel) le =
    let double : 2 ^ suc k ≡ 2 ^ k * 2 = pow-suc 2 k in
    let even : ((2 ^ k * 2) % 2 == 0) ≡ true = ground arith in
    let half : 2 ^ k * 2 / 2 ≡ 2 ^ k = omega arith in
    rw (double, even, half) (ap suc (trailing_zeros-pow k fuel (omega arith)))

module _ (p : ℕ) (pos : 0 < p) where
  Evaluates-append :
      (coeffs : List ℕ) (a y : ℕ) (low high : List ℕ)
      → Evaluates p coeffs a y low
      → Evaluates p coeffs (a * y ^ length low) y high
      → Evaluates p coeffs a y (low ++ high)
  Evaluates-append coeffs a y [] high vl vh =
      let e : a * y ^ 0 ≡ a = omega (arith, ap (λ m. a * m) (pow-zero y)) in rw e at vh
  Evaluates-append coeffs a y (v ∷ low) high vl vh =
      let e : a * y ^ suc (length low) ≡ a * y * y ^ length low =
        omega (arith, ap (λ m. a * m) (pow-suc y (length low))) in
      (vl.0, Evaluates-append coeffs (a * y) y low high vl.1 (rw e at vh))

  square_pow : (y n : ℕ) → (y * y) ^ n ≡ y ^ (n + n)
  square_pow y zero = pow-zero (y * y) ∙ sym (pow-zero y)
  square_pow y (suc n) =
      let twice : y ^ (suc n + suc n) ≡ y ^ suc (suc (n + n)) = ap (λ m. y ^ m) (omega arith) in
      pow-suc (y * y) n
      ∙ ap (λ m. m * (y * y)) (square_pow y n)
      ∙ sym (twice ∙ pow-suc y (suc (n + n)) ∙ ap (λ m. m * y) (pow-suc y (n + n)) ∙ omega arith)

  -- The powers of the point y go through all the roots of 1 of the order 2 ^ k.
  abbrev pub IsRoot : ℕ → ℕ → Type 0
  IsRoot zero y = Unit
  IsRoot (suc k) y = Congruent p (y ^ (2 ^ k) + 1) 0

  IsRoot-square : (k y : ℕ) → IsRoot (suc k) y → IsRoot k (y * y)
  IsRoot-square zero y r = tt
  IsRoot-square (suc k) y r =
      let e : (y * y) ^ (2 ^ k) ≡ y ^ (2 ^ suc k) =
        square_pow y (2 ^ k) ∙ ap (λ m. y ^ m) (omega (arith, pow-suc 2 k)) in
      rw e r

  abbrev pub Transform : List ℕ → ℕ → ℕ → List ℕ → Type 0
  Transform coeffs k y values = Evaluates p coeffs 1 y values × (length values ≡ 2 ^ k)

  double_size : (k : ℕ) → 2 ^ suc k ≡ 2 ^ k + 2 ^ k
  double_size k = omega (arith, pow-suc 2 k)

  Transform-joined :
      (k y : ℕ) (coeffs group f_even f_odd : List ℕ)
      → length group ≡ 2 ^ suc k
      → IsRoot (suc k) y
      → Powers p 1 y group
      → Transform (evens coeffs) k (y * y) f_even
      → Transform (odds coeffs) k (y * y) f_odd
      → Gives p (Transform coeffs (suc k) y) (
          sums p f_even (multiply p group f_odd) >>= λ low.
          differences p f_even (multiply p group f_odd) >>= λ high. ok (low ++ high))
  Transform-joined k y coeffs group f_even f_odd eg r vg ve vo =
      let same : length f_odd ≡ length f_even = omega (arith, ve.1, vo.1) in
      let fits : length f_even ≤ length group = omega (arith, ve.1, double_size k) in
      Gives-bind p (λ low. Evaluates p coeffs 1 y low × (length low ≡ length f_even))
        (Transform coeffs (suc k) y) _ _
        (sums-Evaluates p coeffs 1 y f_even f_odd group ve.0 vo.0 vg same fits)
        (λ low vl.
          let from : y ^ (2 ^ k) ≡ y ^ length low = ap (λ m. y ^ m) (omega (arith, vl.1, ve.1)) in
          Gives-bind p
            (λ high. Evaluates p coeffs (1 * y ^ (2 ^ k)) y high × (length high ≡ length f_even))
            (Transform coeffs (suc k) y) _ _
            (differences-Evaluates p pos coeffs 1 y (y ^ (2 ^ k)) f_even f_odd group r ve.0 vo.0 vg
              same fits)
            (λ high vh. (
              Evaluates-append coeffs 1 y low high vl.0 (rw from at vh.0),
              omega (arith, length-append low high, vl.1, vh.1, ve.1, double_size k),
            )))

  single : (y : ℕ) (coeffs : List ℕ) → length coeffs ≡ 1 → Transform coeffs 0 y coeffs
  unfolding evaluate
  single y [] e = absurd (omega arith)
  single y (c ∷ []) e = ((c_eq p c (c + 1 * 0) (omega arith), tt), refl)
  single y (c ∷ d ∷ coeffs) e = absurd (omega arith)

  pub inner_fft-Transform :
      (k fuel y : ℕ) (coeffs group : List ℕ)
      → length coeffs ≡ 2 ^ k
      → length group ≡ 2 ^ k
      → k ≤ fuel
      → IsRoot k y
      → Powers p 1 y group
      → Gives p (Transform coeffs k y) (inner_fft fuel coeffs group p)
  unfolding inner_fft
  inner_fft-Transform zero zero y coeffs group ec eg le r vg =
      let one : (length coeffs == 1) ≡ true = ground arith in rw one (single y coeffs ec)
  inner_fft-Transform zero (suc fuel) y coeffs group ec eg le r vg =
      let one : (length coeffs == 1) ≡ true = ground arith in rw one (single y coeffs ec)
  inner_fft-Transform (suc k) zero y coeffs group ec eg le r vg = absurd (omega arith)
  inner_fft-Transform (suc k) (suc fuel) y coeffs group ec eg le r vg =
      let more : (length coeffs == 1) ≡ false = ground (arith, double_size k, pow_pos k) in
      let (ee, eo) = length-halves (2 ^ k) coeffs (omega (arith, double_size k)) in
      let (ge, go) = length-halves (2 ^ k) group (omega (arith, double_size k)) in
      let r' = IsRoot-square k y r in
      let vg' = (Powers-halves p 1 y group vg).0 in
      rw more (
        Gives-bind p (Transform (evens coeffs) k (y * y)) (Transform coeffs (suc k) y) _ _
          (inner_fft-Transform k fuel (y * y) (evens coeffs) (evens group) ee ge (omega arith) r'
            vg')
          (λ f_even ve.
            Gives-bind p (Transform (odds coeffs) k (y * y)) (Transform coeffs (suc k) y) _ _
              (inner_fft-Transform k fuel (y * y) (odds coeffs) (evens group) eo ge (omega arith) r'
                vg')
              (λ f_odd vo. Transform-joined k y coeffs group f_even f_odd eg r vg ve vo)))

  -- The transform of 2 ^ k coefficients without the permutation succeeds, for a generator whose
  -- power to the half of the order is -1 modulo the prime: it gives 2 ^ k values, and the i-th is
  -- congruent to the value of the polynomial at the i-th power of the generator.
  pub fft-Transform :
      (k generator : ℕ) (coeffs : List ℕ)
      → length coeffs ≡ 2 ^ k
      → IsRoot k generator
      → Gives p (Transform coeffs k generator) (fft coeffs generator p false)
  unfolding fft
  fft-Transform k generator [] e r = absurd (omega (arith, pow_pos k))
  fft-Transform k generator (x ∷ xs) e r =
      let n : suc (length xs) ≡ 2 ^ k = e in
      let size : length (push_powers (2 ^ k - 1) generator p 1) ≡ 2 ^ k =
        length-push_powers (2 ^ k - 1) generator p 1 ∙ omega (arith, pow_pos k) in
      let two : (2 ^ k == 2 ^ k) ≡ true = ==_self (2 ^ k) in
      let tz = trailing_zeros-pow k (2 ^ k) (below_pow k) in
      rw (n, tz, two)
        (Gives-bind p (Transform (x ∷ xs) k generator) (Transform (x ∷ xs) k generator) _ _
          (inner_fft-Transform k (2 ^ k) generator (x ∷ xs) _ e size (below_pow k) r
            (Powers-push_powers p (2 ^ k - 1) generator 1 1 (c_refl p 1)))
          (λ values v. v))
