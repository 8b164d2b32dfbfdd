-- ===== src/Hints/Kzg/Sizes.antt =====
-- How many values `fft` of crates/starknet-os/src/hints/kzg.rs gives, and how large they are.
use native.Mathlib.Nat.{mod-lt, pow-suc}
use snos.Base.{
  ℕ, zero, suc, ◌+◌, ◌-◌, ◌*◌, ◌/◌, ◌%◌, ◌^◌, ◌≤◌, ◌<◌, ◌≡◌, refl, sym, ◌∙◌, ap, arith, true, false,
  ◌==◌, List, [], ◌∷◌, length, All, All-append, length-append, ==_self,
}
use snos.Base.Pow.{pow_pos, div-lt_of_lt-mul}
use snos.Base.Outcome.{Outcome, ◌>>=◌, index, Ends, Ends_bind}
use snos.Hints.Kzg.{
  FftError, evens, odds, multiply, sums, differences, inner_fft, push_powers, trailing_zeros,
  reverse_bits, range_from, permute, fft,
}

-- A call that succeeds with a value that satisfies P.
abbrev pub Gives : {A : Type 0} → (A → Type 0) → Outcome FftError A → Type 0
Gives P o = Ends (λ _. ⊥) ⊥ P o

pub Gives-bind :
    {A B : Type 0} (P : A → Type 0) (Q : B → Type 0) (o : Outcome FftError A)
    (f : A → Outcome FftError B)
    → Gives P o
    → ((a : A) → P a → Gives Q (f a))
    → Gives Q (o >>= f)
Gives-bind P Q o f v w = Ends_bind (λ _. ⊥) ⊥ P Q o f v w

pub length-halves :
    (n : ℕ) (xs : List ℕ) → length xs ≡ n + n → (length (evens xs) ≡ n) × (length (odds xs) ≡ n)
unfolding evens odds
length-halves zero [] e = (refl, refl)
length-halves zero (x ∷ xs) e = absurd (omega arith)
length-halves (suc n) [] e = absurd (omega arith)
length-halves (suc n) (x ∷ []) e = absurd (omega arith)
length-halves (suc n) (x ∷ y ∷ xs) e =
    let (a, b) = length-halves n xs (omega arith) in (omega (arith, a), omega (arith, b))

length-multiply :
    (prime : ℕ) (group f_odd : List ℕ)
    → length f_odd ≤ length group
    → length (multiply prime group f_odd) ≡ length f_odd
unfolding multiply
length-multiply prime [] [] le = refl
length-multiply prime [] (f ∷ f_odd) le = absurd (omega arith)
length-multiply prime (g ∷ group) [] le = refl
length-multiply prime (g ∷ group) (f ∷ f_odd) le =
    omega (arith, length-multiply prime group f_odd (omega arith))

bit_times : (b n : ℕ) → b < 2 → b * n ≤ n
bit_times zero n lt = omega arith
bit_times (suc zero) n lt = omega arith
bit_times (suc (suc b)) n lt = absurd (omega arith)

-- The bits of a number of the width, in the other order, make a number of the width.
pub reverse_bits-lt : (width i : ℕ) → i < 2 ^ width → reverse_bits width i < 2 ^ width
unfolding reverse_bits
reverse_bits-lt zero i lt = omega arith
reverse_bits-lt (suc width) i lt =
    let half : i / 2 < 2 ^ width =
      div-lt_of_lt-mul i (2 ^ width) 2 (omega arith) (omega (arith, pow-suc 2 width)) in
    let rest = reverse_bits-lt width (i / 2) half in
    let bit : i % 2 < 2 = mod-lt i (omega arith) in
    let high : (i % 2) * 2 ^ width ≤ 2 ^ width = bit_times (i % 2) (2 ^ width) bit in
    omega (arith, rest, high, pow-suc 2 width)

pub length-push_powers :
    (n generator prime last : ℕ) → length (push_powers n generator prime last) ≡ suc n
unfolding push_powers
length-push_powers zero generator prime last = refl
length-push_powers (suc n) generator prime last =
    ap suc (length-push_powers n generator prime ((last * generator) % prime))

pub length-range_from : (i n : ℕ) → length (range_from i n) ≡ n
length-range_from i zero = refl
length-range_from i (suc n) = ap suc (length-range_from (suc i) n)

pub range_from-lt : (i n m : ℕ) → i + n ≤ m → All (λ j. j < m) (range_from i n)
range_from-lt i zero m le = tt
range_from-lt i (suc n) m le = (omega arith, range_from-lt (suc i) n m (omega arith))

pub below_pow : (k : ℕ) → k ≤ 2 ^ k
below_pow zero = omega arith
below_pow (suc k) = omega (arith, below_pow k, pow-suc 2 k, pow_pos k)

-- So many values below the prime.
abbrev pub Reduced : ℕ → ℕ → List ℕ → Type 0
Reduced prime n values = (length values ≡ n) × All (λ v. v < prime) values

module _ (prime : ℕ) (pos : 0 < prime) where
  sums-Gives :
      (f_even products : List ℕ)
      → length products ≡ length f_even
      → Gives (Reduced prime (length f_even)) (sums prime f_even products)
  unfolding sums
  sums-Gives [] products e = (refl, tt)
  sums-Gives (f ∷ f_even) [] e = absurd (omega arith)
  sums-Gives (f ∷ f_even) (g ∷ products) e =
      Gives-bind (Reduced prime (length f_even)) (Reduced prime (suc (length f_even)))
        (sums prime f_even products) _ (sums-Gives f_even products (omega arith))
        (λ rest v. (omega (arith, v.0), (mod-lt (f + g) pos, v.1)))

  differences-Gives :
      (f_even products : List ℕ)
      → length products ≡ length f_even
      → Gives (Reduced prime (length f_even)) (differences prime f_even products)
  unfolding differences
  differences-Gives [] products e = (refl, tt)
  differences-Gives (f ∷ f_even) [] e = absurd (omega arith)
  differences-Gives (f ∷ f_even) (g ∷ products) e =
      Gives-bind (Reduced prime (length f_even)) (Reduced prime (suc (length f_even)))
        (differences prime f_even products) _ (differences-Gives f_even products (omega arith))
        (λ rest v. (omega (arith, v.0), (mod-lt (f + prime - g) pos, v.1)))

  -- As many values as coefficients, and reduced if there is more than one.
  abbrev Transformed : ℕ → List ℕ → Type 0
  Transformed k values = (length values ≡ 2 ^ k) × (0 < k → All (λ v. v < prime) values)

  double_size : (k : ℕ) → 2 ^ suc k ≡ 2 ^ k + 2 ^ k
  double_size k = omega (arith, pow-suc 2 k)

  inner_fft-Transformed :
      (k fuel : ℕ) (coeffs group : List ℕ)
      → length coeffs ≡ 2 ^ k
      → length group ≡ 2 ^ k
      → k ≤ fuel
      → Gives (Transformed k) (inner_fft fuel coeffs group prime)
  unfolding inner_fft
  inner_fft-Transformed zero zero coeffs group ec eg le =
      let one : (length coeffs == 1) ≡ true = ground arith in
      rw one (ec, λ lt. absurd (omega arith))
  inner_fft-Transformed zero (suc fuel) coeffs group ec eg le =
      let one : (length coeffs == 1) ≡ true = ground arith in
      rw one (ec, λ lt. absurd (omega arith))
  inner_fft-Transformed (suc k) zero coeffs group ec eg le = absurd (omega arith)
  inner_fft-Transformed (suc k) (suc fuel) coeffs group ec eg le =
      let more : (length coeffs == 1) ≡ false = ground (arith, double_size k, pow_pos k) in
      let (ee, eo) = length-halves (2 ^ k) coeffs (omega (arith, double_size k)) in
      let (ge, go) = length-halves (2 ^ k) group (omega (arith, double_size k)) in
      rw more (
        Gives-bind (Transformed k) (Transformed (suc k)) _ _
          (inner_fft-Transformed k fuel (evens coeffs) (evens group) ee ge (omega arith))
          (λ f_even ve.
            Gives-bind (Transformed k) (Transformed (suc k)) _ _
              (inner_fft-Transformed k fuel (odds coeffs) (evens group) eo ge (omega arith))
              (λ f_odd vo.
                let products = multiply prime group f_odd in
                let same : length products ≡ length f_even =
                  length-multiply prime group f_odd (omega (arith, vo.0, double_size k))
                  ∙ vo.0
                  ∙ sym ve.0 in
                Gives-bind (Reduced prime (length f_even)) (Transformed (suc k)) _ _
                  (sums-Gives f_even products same)
                  (λ low vl.
                    Gives-bind (Reduced prime (length f_even)) (Transformed (suc k)) _ _
                      (differences-Gives f_even products same)
                      (λ high vh. (
                        omega (arith, length-append low high, vl.0, vh.0, ve.0, double_size k),
                        λ lt. All-append (λ v. v < prime) low high vl.1 vh.1,
                      ))))))

  index-Gives :
      (values : List ℕ) (i : ℕ)
      → All (λ v. v < prime) values
      → i < length values
      → Gives (λ v. v < prime) (index values i)
  index-Gives [] i a lt = absurd (omega arith)
  index-Gives (v ∷ values) zero a lt = a.0
  index-Gives (v ∷ values) (suc i) a lt = index-Gives values i a.1 (omega arith)

  permute-Gives :
      (width : ℕ) (values indices : List ℕ)
      → All (λ v. v < prime) values
      → length values ≡ 2 ^ width
      → All (λ i. i < 2 ^ width) indices
      → Gives (Reduced prime (length indices)) (permute width values indices)
  unfolding permute
  permute-Gives width values [] a e b = (refl, tt)
  permute-Gives width values (i ∷ indices) a e b =
      Gives-bind (λ v. v < prime) (Reduced prime (suc (length indices))) _ _
        (index-Gives values (reverse_bits width i) a (rw e (reverse_bits-lt width i b.0)))
        (λ v lt.
          Gives-bind (Reduced prime (length indices)) (Reduced prime (suc (length indices))) _ _
            (permute-Gives width values indices a e b.1)
            (λ rest r. (omega (arith, r.0), (lt, r.1))))

  pub fft-Reduced :
      (k : ℕ) (coeffs : List ℕ) (generator : ℕ)
      → length coeffs ≡ 2 ^ k
      → 0 < k
      → trailing_zeros (2 ^ k) (2 ^ k) ≡ k
      → Gives (Reduced prime (2 ^ k)) (fft coeffs generator prime true)
  unfolding fft
  fft-Reduced k [] generator e lt tz = absurd (omega (arith, pow_pos k))
  fft-Reduced k (x ∷ xs) generator e lt tz =
      let n : suc (length xs) ≡ 2 ^ k = e in
      let size : length (push_powers (2 ^ k - 1) generator prime 1) ≡ 2 ^ k =
        length-push_powers (2 ^ k - 1) generator prime 1 ∙ omega (arith, pow_pos k) in
      let two : (2 ^ k == 2 ^ k) ≡ true = ==_self (2 ^ k) in
      rw (n, tz, two)
        (Gives-bind (Transformed k) (Reduced prime (2 ^ k)) _ _
          (inner_fft-Transformed k (2 ^ k) (x ∷ xs) (push_powers (2 ^ k - 1) generator prime 1) e
            size (below_pow k))
          (λ values v.
            let indices = range_from 0 (suc (length xs)) in
            let count : length indices ≡ 2 ^ k = length-range_from 0 (suc (length xs)) ∙ n in
            rw count at (
              permute-Gives k values indices (v.1 lt) v.0
                (range_from-lt 0 (suc (length xs)) (2 ^ k) (omega (arith, n))))))

pub trailing_zeros-blob : trailing_zeros (2 ^ 12) (2 ^ 12) ≡ 12
unfolding trailing_zeros
trailing_zeros-blob = refl
