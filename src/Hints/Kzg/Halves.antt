-- ===== src/Hints/Kzg/Halves.antt =====
-- The halves of the transform of crates/starknet-os/src/hints/kzg.rs, as values of a polynomial at
-- opposite points.
use native.Mathlib.Nat.{div-add-mod, mod-lt}
use snos.Base.{
  ℕ, zero, suc, ◌+◌, ◌-◌, ◌*◌, ◌/◌, ◌%◌, ◌≤◌, ◌<◌, ◌≡◌, refl, sym, ap, arith, List, [], ◌∷◌, length,
}
use snos.Base.Outcome.{Outcome, ◌>>=◌, Ends, Ends_bind}
use snos.Hints.Kzg.{FftError, evens, odds, multiply, sums, differences, push_powers}

-- The value of the polynomial with the coefficients at a point.
unfoldable pub evaluate : List ℕ → ℕ → ℕ
evaluate [] x = 0
evaluate (c ∷ coeffs) x = c + x * evaluate coeffs x

-- The even and the odd coefficients are polynomials in the square of the point.
evaluate-halves :
    (coeffs : List ℕ) (x : ℕ)
    → evaluate coeffs x ≡ evaluate (evens coeffs) (x * x) + x * evaluate (odds coeffs) (x * x)
unfolding evaluate evens odds
evaluate-halves [] x = omega arith
evaluate-halves (c ∷ coeffs) x = rw (evaluate-halves coeffs x) (omega arith)

module _ (p : ℕ) where
  -- Equal up to multiples of p.
  pub data Congruent (a b : ℕ) : Type 0 where
    by_multiples : (m n : ℕ) → a + m * p ≡ b + n * p → Congruent a b

  pub c_refl : (a : ℕ) → Congruent a a
  c_refl a = by_multiples 0 0 refl

  pub c_eq : (a b : ℕ) → a ≡ b → Congruent a b
  c_eq a b e = by_multiples 0 0 (omega arith)

  c_sym : (a b : ℕ) → Congruent a b → Congruent b a
  c_sym a b (by_multiples m n e) = by_multiples n m (sym e)

  c_trans : (a b d : ℕ) → Congruent a b → Congruent b d → Congruent a d
  c_trans a b d (by_multiples m n e) (by_multiples m' n' e') =
      by_multiples (m + m') (n + n') (omega arith)

  c_add : (a b d e : ℕ) → Congruent a b → Congruent d e → Congruent (a + d) (b + e)
  c_add a b d e (by_multiples m n h) (by_multiples m' n' h') =
      by_multiples (m + m') (n + n') (omega arith)

  c_cancel : (a b d : ℕ) → Congruent (a + d) (b + d) → Congruent a b
  c_cancel a b d (by_multiples m n h) = by_multiples m n (omega arith)

  c_mul : (a b d e : ℕ) → Congruent a b → Congruent d e → Congruent (a * d) (b * e)
  c_mul a b d e (by_multiples m n h) (by_multiples m' n' h') =
      let product : (a + m * p) * (d + m' * p) ≡ (b + n * p) * (e + n' * p) = rw (h, h') refl in
      by_multiples (a * m' + m * d + m * m' * p) (b * n' + n * e + n * n' * p) (omega arith)

  c_mod : (a : ℕ) → Congruent (a % p) a
  c_mod a = by_multiples (a / p) 0 (omega (arith, div-add-mod a p))

  evaluate-Congruent :
      (coeffs : List ℕ) (x y : ℕ)
      → Congruent x y
      → Congruent (evaluate coeffs x) (evaluate coeffs y)
  unfolding evaluate
  evaluate-Congruent [] x y h = c_refl 0
  evaluate-Congruent (c ∷ coeffs) x y h =
      c_add c c _ _ (c_refl c) (c_mul x y _ _ h (evaluate-Congruent coeffs x y h))

  -- a, a y, a y y and so on.
  abbrev pub Powers : ℕ → ℕ → List ℕ → Type 0
  Powers a y [] = Unit
  Powers a y (g ∷ group) = Congruent g a × Powers (a * y) y group

  -- The values of the polynomial at a, a y, a y y and so on.
  abbrev pub Evaluates : List ℕ → ℕ → ℕ → List ℕ → Type 0
  Evaluates coeffs a y [] = Unit
  Evaluates coeffs a y (v ∷ values) =
      Congruent v (evaluate coeffs a) × Evaluates coeffs (a * y) y values

  pub Powers-halves :
      (a y : ℕ) (group : List ℕ)
      → Powers a y group
      → Powers a (y * y) (evens group) × Powers (a * y) (y * y) (odds group)
  unfolding evens odds
  Powers-halves a y [] v = (tt, tt)
  Powers-halves a y (g ∷ group) v =
      let (even, odd) = Powers-halves (a * y) y group v.1 in
      let e : a * y * y ≡ a * (y * y) = omega arith in
      let odd' : Powers (a * (y * y)) (y * y) (odds group) = rw e at odd in ((v.0, odd'), even)

  pub Powers-push_powers :
      (n generator last a : ℕ)
      → Congruent last a
      → Powers a generator (push_powers n generator p last)
  unfolding push_powers
  Powers-push_powers zero generator last a h = (h, tt)
  Powers-push_powers (suc n) generator last a h = (
    h,
    Powers-push_powers n generator ((last * generator) % p) (a * generator)
        (c_trans _ _ _ (c_mod (last * generator)) (c_mul _ _ _ _ h (c_refl generator))),
  )

  abbrev pub Gives : {A : Type 0} → (A → Type 0) → Outcome FftError A → Type 0
  Gives P o = Ends (λ _. ⊥) ⊥ P o

  pub Gives-bind :
      {A B : Type 0} (P : A → Type 0) (Q : B → Type 0) (o : Outcome FftError A)
      (f : A → Outcome FftError B)
      → Gives P o
      → ((a : A) → P a → Gives Q (f a))
      → Gives Q (o >>= f)
  Gives-bind P Q o f v w = Ends_bind (λ _. ⊥) ⊥ P Q o f v w

  step_eq : (a y : ℕ) → a * a * (y * y) ≡ a * y * (a * y)
  step_eq a y = omega arith

  pub sums-Evaluates :
      (coeffs : List ℕ) (a y : ℕ) (f_even f_odd group : List ℕ)
      → Evaluates (evens coeffs) (a * a) (y * y) f_even
      → Evaluates (odds coeffs) (a * a) (y * y) f_odd
      → Powers a y group
      → length f_odd ≡ length f_even
      → length f_even ≤ length group
      → Gives
          (λ low. Evaluates coeffs a y low × (length low ≡ length f_even))
          (sums p f_even (multiply p group f_odd))
  unfolding sums multiply
  sums-Evaluates coeffs a y [] f_odd group ve vo vg eo le = (tt, refl)
  sums-Evaluates coeffs a y (f ∷ f_even) [] group ve vo vg eo le = absurd (omega arith)
  sums-Evaluates coeffs a y (f ∷ f_even) (o ∷ f_odd) [] ve vo vg eo le = absurd (omega arith)
  sums-Evaluates coeffs a y (f ∷ f_even) (o ∷ f_odd) (g ∷ group) ve vo vg eo le =
      let e = step_eq a y in
      let here : Congruent ((f + (g * o) % p) % p) (evaluate coeffs a) =
        c_trans _ _ _ (c_mod (f + (g * o) % p)) (
          c_trans _ _ _
            (c_add _ _ _ _ ve.0 (c_trans _ _ _ (c_mod (g * o)) (c_mul _ _ _ _ vg.0 vo.0)))
            (c_eq _ _ (sym (evaluate-halves coeffs a)))) in
      Gives-bind (λ low. Evaluates coeffs (a * y) y low × (length low ≡ length f_even))
        (λ low. Evaluates coeffs a y low × (length low ≡ suc (length f_even))) _ _
        (sums-Evaluates coeffs (a * y) y f_even f_odd group (rw e at ve.1) (rw e at vo.1) vg.1
          (omega arith) (omega arith))
        (λ rest v. ((here, v.0), ap suc v.1))

  -- A root of -1 is a root of 1 twice.
  minus_one-square : (h : ℕ) → Congruent (h + 1) 0 → Congruent (h * h) 1
  minus_one-square h r = c_cancel (h * h) 1 h (
      c_trans _ _ _ (c_eq (h * h + h) (h * (h + 1)) (omega arith)) (
        c_trans _ _ _ (c_mul h h _ _ (c_refl h) r) (
          c_trans _ _ _ (c_eq (h * 0) 0 (omega arith))
            (c_trans _ _ _ (c_sym _ _ r) (c_eq (h + 1) (1 + h) (omega arith))))))

  -- The value at the opposite point: the odd part is subtracted.
  opposite_value :
      (coeffs : List ℕ) (a h f o : ℕ)
      → Congruent (h + 1) 0
      → Congruent f (evaluate (evens coeffs) (a * a))
      → Congruent o (evaluate (odds coeffs) (a * a))
      → Congruent (evaluate coeffs (a * h) + a * o) f
  opposite_value coeffs a h f o r vf vo =
      let points : Congruent (a * h * (a * h)) (a * a) =
        c_trans _ _ _ (c_eq (a * h * (a * h)) (a * a * (h * h)) (omega arith)) (
          c_trans _ _ _ (c_mul _ _ _ _ (c_refl (a * a)) (minus_one-square h r))
            (c_eq (a * a * 1) (a * a) (omega arith))) in
      let even = c_trans _ _ _ (evaluate-Congruent (evens coeffs) _ _ points) (c_sym _ _ vf) in
      let odd = c_trans _ _ _ (evaluate-Congruent (odds coeffs) _ _ points) (c_sym _ _ vo) in
      let value : Congruent (evaluate coeffs (a * h)) (f + a * h * o) =
        c_trans _ _ _ (c_eq _ _ (evaluate-halves coeffs (a * h)))
          (c_add _ _ _ _ even (c_mul _ _ _ _ (c_refl (a * h)) odd)) in
      c_trans _ _ _ (c_add _ _ _ _ value (c_refl (a * o))) (
        c_trans _ _ _ (c_eq (f + a * h * o + a * o) (f + a * o * (h + 1)) (omega arith)) (
          c_trans _ _ _ (c_add _ _ _ _ (c_refl f) (c_mul _ _ _ _ (c_refl (a * o)) r))
            (c_eq (f + a * o * 0) f (omega arith))))

  module _ (pos : 0 < p) where
    difference_value :
        (f w d t : ℕ) → w < p → Congruent w d → Congruent (t + d) f → Congruent ((f + p - w) % p) t
    difference_value f w d t lt cw ct =
        let back : Congruent (f + p - w + w) f = by_multiples 0 1 (omega arith) in
        c_cancel _ _ d (
          c_trans _ _ _ (c_add _ _ _ _ (c_mod (f + p - w)) (c_sym _ _ cw))
            (c_trans _ _ _ back (c_sym _ _ ct)))

    pub differences-Evaluates :
        (coeffs : List ℕ) (a y h : ℕ) (f_even f_odd group : List ℕ)
        → Congruent (h + 1) 0
        → Evaluates (evens coeffs) (a * a) (y * y) f_even
        → Evaluates (odds coeffs) (a * a) (y * y) f_odd
        → Powers a y group
        → length f_odd ≡ length f_even
        → length f_even ≤ length group
        → Gives
            (λ high. Evaluates coeffs (a * h) y high × (length high ≡ length f_even))
            (differences p f_even (multiply p group f_odd))
    unfolding differences multiply
    differences-Evaluates coeffs a y h [] f_odd group r ve vo vg eo le = (tt, refl)
    differences-Evaluates coeffs a y h (f ∷ f_even) [] group r ve vo vg eo le = absurd (omega arith)
    differences-Evaluates coeffs a y h (f ∷ f_even) (o ∷ f_odd) [] r ve vo vg eo le =
        absurd (omega arith)
    differences-Evaluates coeffs a y h (f ∷ f_even) (o ∷ f_odd) (g ∷ group) r ve vo vg eo le =
        let e = step_eq a y in
        let swap : a * y * h ≡ a * h * y = omega arith in
        let here : Congruent ((f + p - (g * o) % p) % p) (evaluate coeffs (a * h)) =
          difference_value f ((g * o) % p) (a * o) _ (mod-lt (g * o) pos)
            (c_trans _ _ _ (c_mod (g * o)) (c_mul _ _ _ _ vg.0 (c_refl o)))
            (opposite_value coeffs a h f o r ve.0 vo.0) in
        Gives-bind (λ high. Evaluates coeffs (a * y * h) y high × (length high ≡ length f_even))
          (λ high. Evaluates coeffs (a * h) y high × (length high ≡ suc (length f_even))) _ _
          (differences-Evaluates coeffs (a * y) y h f_even f_odd group r (rw e at ve.1)
            (rw e at vo.1) vg.1 (omega arith) (omega arith))
          (λ rest v. ((here, rw swap at v.0), ap suc v.1))
