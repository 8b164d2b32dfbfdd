-- ===== src/Hints/Kzg/Reversed.antt =====
-- The permutation that `fft` of crates/starknet-os/src/hints/kzg.rs ends with.
use native.Mathlib.Nat.{mod-lt, pow-suc, pow-zero}
use mathlib.Core.Path.{subst}
use snos.Base.{
  ℕ, zero, suc, ◌+◌, ◌-◌, ◌*◌, ◌/◌, ◌%◌, ◌^◌, ◌≤◌, ◌<◌, ◌≡◌, refl, ◌∙◌, ap, arith, true, ◌==◌,
  ==_self, List, [], ◌∷◌, length,
}
use snos.Base.Pow.{pow_pos, div-lt_of_lt-mul}
use snos.Base.Outcome.{index}
use snos.Hints.Kzg.{reverse_bits, range_from, permute, push_powers, fft}
use snos.Hints.Kzg.Sizes.{length-push_powers, below_pow, reverse_bits-lt}
use snos.Hints.Kzg.Halves.{
  evaluate, Congruent, Evaluates, Powers-push_powers, Gives, Gives-bind, c_refl,
}
use snos.Hints.Kzg.Fft.{IsRoot, Transform, trailing_zeros-pow, inner_fft-Transform}

-- The k-th bit of a number, from the lowest.
abbrev pub bit : ℕ → ℕ → ℕ
bit n zero = n % 2
bit n (suc k) = bit (n / 2) k

-- The number of the width whose k-th bit from below is the k-th bit of i from above.
abbrev pub IsReversed : ℕ → ℕ → ℕ → Type 0
IsReversed width i j = (j < 2 ^ width) × ((k l : ℕ) → k + l + 1 ≡ width → bit j k ≡ bit i l)

module _ (b : ℕ) (lb : b < 2) where
  half : (width r : ℕ) → (b * 2 ^ suc width + r) / 2 ≡ b * 2 ^ width + r / 2
  half width r =
      let twice : b * 2 ^ suc width ≡ 2 * (b * 2 ^ width) =
        ap (λ m. b * m) (pow-suc 2 width) ∙ omega arith in
      omega (arith, twice)

  below : (width r : ℕ) → r < 2 ^ suc width → r / 2 < 2 ^ width
  below width r lr = div-lt_of_lt-mul r (2 ^ width) 2 (omega arith) (omega (arith, pow-suc 2 width))

  -- A bit in front of a number of the width is its highest one, and the others stay.
  bit-front : (width r : ℕ) → r < 2 ^ width → bit (b * 2 ^ width + r) width ≡ b
  bit-front zero r lr = omega arith
  bit-front (suc width) r lr = rw (half width r) (bit-front width (r / 2) (below width r lr))

  bit-behind :
      (width r k l : ℕ) → r < 2 ^ width → k + l + 1 ≡ width → bit (b * 2 ^ width + r) k ≡ bit r k
  bit-behind zero r k l lr e = absurd (omega arith)
  bit-behind (suc width) r zero l lr e =
      let twice : b * 2 ^ suc width ≡ 2 * (b * 2 ^ width) =
        ap (λ m. b * m) (pow-suc 2 width) ∙ omega arith in
      omega (arith, twice)
  bit-behind (suc width) r (suc k) l lr e =
      rw (half width r) (bit-behind width (r / 2) k l (below width r lr) (omega arith))

bit-reverse_bits :
    (width i : ℕ)
    → i < 2 ^ width
    → (k l : ℕ) → k + l + 1 ≡ width
    → bit (reverse_bits width i) k ≡ bit i l
unfolding reverse_bits
bit-reverse_bits zero i lt k l e = absurd (omega arith)
bit-reverse_bits (suc width) i lt k zero e =
    let top : k ≡ width = omega arith in
    rw top (
      bit-front (i % 2) (mod-lt i (omega arith)) width (reverse_bits width (i / 2))
        (reverse_bits-lt width (i / 2) (below 0 (omega arith) width i lt)))
bit-reverse_bits (suc width) i lt k (suc l) e =
    bit-behind (i % 2) (mod-lt i (omega arith)) width (reverse_bits width (i / 2)) k l
      (reverse_bits-lt width (i / 2) (below 0 (omega arith) width i lt)) (omega arith)
    ∙ bit-reverse_bits width (i / 2) (below 0 (omega arith) width i lt) k l (omega arith)

-- `reverse_bits` gives the number of the width that has the bits of the index in the other order.
pub reverse_bits-IsReversed :
    (width i : ℕ) → i < 2 ^ width → IsReversed width i (reverse_bits width i)
reverse_bits-IsReversed width i lt = (reverse_bits-lt width i lt, bit-reverse_bits width i lt)

module _ (p : ℕ) where
  index-Evaluates :
      (coeffs : List ℕ) (a y j : ℕ) (values : List ℕ)
      → Evaluates p coeffs a y values
      → j < length values
      → Gives p (λ v. Congruent p v (evaluate coeffs (a * y ^ j))) (index values j)
  index-Evaluates coeffs a y j [] v lt = absurd (omega arith)
  index-Evaluates coeffs a y zero (x ∷ values) v lt =
      let one : a * y ^ 0 ≡ a = ap (λ m. a * m) (pow-zero y) ∙ omega arith in rw one v.0
  index-Evaluates coeffs a y (suc j) (x ∷ values) v lt =
      let next : a * y ^ suc j ≡ a * y * y ^ j = ap (λ m. a * m) (pow-suc y j) ∙ omega arith in
      rw next (index-Evaluates coeffs (a * y) y j values v.1 (omega arith))

  -- From the index i on, the value at an index is that of the polynomial at the power of y whose
  -- exponent has the k bits of the index in the other order.
  abbrev pub Reversed : List ℕ → ℕ → ℕ → ℕ → List ℕ → Type 0
  Reversed coeffs k y i [] = Unit
  Reversed coeffs k y i (v ∷ values) =
      ((j : ℕ) × IsReversed k i j × Congruent p v (evaluate coeffs (y ^ j)))
      × Reversed coeffs k y (suc i) values

  -- So many values, in the other order.
  abbrev pub Permuted : List ℕ → ℕ → ℕ → ℕ → ℕ → List ℕ → Type 0
  Permuted coeffs k y i n values = Reversed coeffs k y i values × (length values ≡ n)

  permute-Permuted :
      (coeffs : List ℕ) (k y : ℕ) (values : List ℕ) (i n : ℕ)
      → Evaluates p coeffs 1 y values × (length values ≡ 2 ^ k)
      → i + n ≤ 2 ^ k
      → Gives p (Permuted coeffs k y i n) (permute k values (range_from i n))
  unfolding permute
  permute-Permuted coeffs k y values i zero v le = (tt, refl)
  permute-Permuted coeffs k y values i (suc n) v le =
      let j = reverse_bits k i in
      let small : j < length values = rw v.1 (reverse_bits-lt k i (omega arith)) in
      let power : 1 * y ^ j ≡ y ^ j = omega arith in
      Gives-bind p (λ x. Congruent p x (evaluate coeffs (y ^ j))) (Permuted coeffs k y i (suc n)) _
        _ (rw power at (index-Evaluates coeffs 1 y j values v.0 small))
        (λ x c.
          Gives-bind p (Permuted coeffs k y (suc i) n) (Permuted coeffs k y i (suc n)) _ _
            (permute-Permuted coeffs k y values (suc i) n v (omega arith))
            (λ rest r. (((j, reverse_bits-IsReversed k i (omega arith), c), r.0), ap suc r.1)))

module _ (p : ℕ) (pos : 0 < p) where
  -- The transform of 2 ^ k coefficients with the permutation succeeds, for a generator whose power
  -- to the half of the order is -1 modulo the prime: it gives 2 ^ k values, and the i-th is
  -- congruent to the value of the polynomial at the power of the generator whose exponent has the
  -- k bits of i in the other order.
  pub fft-Permuted :
      (k generator : ℕ) (coeffs : List ℕ)
      → length coeffs ≡ 2 ^ k
      → IsRoot p pos k generator
      → Gives p (Permuted p coeffs k generator 0 (2 ^ k)) (fft coeffs generator p true)
  unfolding fft
  fft-Permuted k generator [] e r = absurd (omega (arith, pow_pos k))
  fft-Permuted k generator (x ∷ xs) e r =
      let n : suc (length xs) ≡ 2 ^ k = e in
      let size : length (push_powers (2 ^ k - 1) generator p 1) ≡ 2 ^ k =
        length-push_powers (2 ^ k - 1) generator p 1 ∙ omega (arith, pow_pos k) in
      let two : (2 ^ k == 2 ^ k) ≡ true = ==_self (2 ^ k) in
      let tz = trailing_zeros-pow k (2 ^ k) (below_pow k) in
      rw (n, tz, two)
        (Gives-bind p (Transform p pos (x ∷ xs) k generator)
          (Permuted p (x ∷ xs) k generator 0 (2 ^ k)) _ _
          (inner_fft-Transform p pos k (2 ^ k) generator (x ∷ xs) _ e size (below_pow k) r
            (Powers-push_powers p (2 ^ k - 1) generator 1 1 (c_refl p 1)))
          (λ values v.
            subst
              (λ m.
                Gives p (Permuted p (x ∷ xs) k generator 0 m)
                  (permute k values (range_from 0 (suc (length xs)))))
              n
              (permute-Permuted p (x ∷ xs) k generator values 0 (suc (length xs)) v
                (omega (arith, n)))))
