-- ===== src/Hints/Kzg/Evaluations.antt =====
-- The blob that `polynomial_coefficients_to_blob` of crates/starknet-os/src/hints/kzg.rs gives, as
-- the values of the polynomial at the roots of 1 of the order 4096.
use native.Mathlib.Nat.{add-mul-mod_self_right, mod-eq_of_lt}
use snos.Base.{
  ℕ, zero, suc, ◌+◌, ◌-◌, ◌*◌, ◌/◌, ◌%◌, ◌^◌, ◌≤◌, ◌<◌, ◌≡◌, refl, sym, ◌∙◌, ap, arith, true,
  Bool-cases, inl, inr, ◌==◌, ltb, ltb→lt, List, [], ◌∷◌, ◌++◌, length, replicate, All,
}
use snos.Base.Outcome.{Outcome, ok, err, panicked}
use snos.CommitmentTree.Bytes.{Bytes, BigUintBytes}
use snos.Hints.Kzg.{
  FftError, too_many_coefficients, all_bytes, serialize_blob, pad, polynomial_coefficients_to_blob,
  blob_subgroup_generator, bls_prime,
}
use snos.Hints.Kzg.Sizes.{Gives, Gives-bind, Reduced, fft-Reduced, trailing_zeros-blob}
use snos.Hints.Kzg.Halves.{evaluate, Congruent, by_multiples}
use snos.Hints.Kzg.Fft.{IsRoot}
use snos.Hints.Kzg.Reversed.{IsReversed, Reversed, Permuted, fft-Permuted}
use snos.Hints.Kzg.Blob.{length-pad}

generator-IsRoot : IsRoot bls_prime (omega arith) 12 blob_subgroup_generator
generator-IsRoot = by_multiples 0 ((blob_subgroup_generator ^ (2 ^ 11) + 1) / bls_prime) refl

-- Zeros at the end leave the polynomial as it is.
evaluate-zeros : (n x : ℕ) → evaluate (replicate n 0) x ≡ 0
unfolding evaluate
evaluate-zeros zero x = refl
evaluate-zeros (suc n) x = rw (evaluate-zeros n x) (omega arith)

evaluate-pad :
    (coefficients : List ℕ) (n x : ℕ)
    → evaluate (coefficients ++ replicate n 0) x ≡ evaluate coefficients x
unfolding evaluate
evaluate-pad [] n x = evaluate-zeros n x
evaluate-pad (c ∷ coefficients) n x = ap (λ v. c + x * v) (evaluate-pad coefficients n x)

Congruent-mod : (p v w : ℕ) → v < p → Congruent p v w → v ≡ w % p
Congruent-mod p v w lt (by_multiples m n e) =
    sym (mod-eq_of_lt lt)
    ∙ sym (add-mul-mod_self_right v m p)
    ∙ ap (λ x. x % p) e
    ∙ add-mul-mod_self_right w n p

both :
    {A : Type 0} (P Q : A → Type 0) (o : Outcome FftError A)
    → Gives P o
    → Gives Q o
    → Gives (λ a. P a × Q a) o
both P Q (ok a) v w = (v, w)
both P Q (err e) v w = absurd v
both P Q panicked v w = absurd v

-- The i-th value is that of the polynomial at the power of the generator whose exponent has the 12
-- bits of i in the other order.
abbrev pub AreEvaluations : List ℕ → ℕ → List ℕ → Type 0
AreEvaluations coefficients i [] = Unit
AreEvaluations coefficients i (v ∷ values) =
    ((j : ℕ) × IsReversed 12 i j
      × (v ≡ evaluate coefficients (blob_subgroup_generator ^ j) % bls_prime))
    × AreEvaluations coefficients (suc i) values

Reversed-AreEvaluations :
    (coefficients : List ℕ) (n i : ℕ) (values : List ℕ)
    → All (λ v. v < bls_prime) values
    → Reversed bls_prime (coefficients ++ replicate n 0) 12 blob_subgroup_generator i values
    → AreEvaluations coefficients i values
Reversed-AreEvaluations coefficients n i [] a r = tt
Reversed-AreEvaluations coefficients n i (v ∷ values) a r =
    let (j, reversed, congruent) = r.0 in
    let x = blob_subgroup_generator ^ j in
    (
      (
        j,
        reversed,
        Congruent-mod bls_prime v (evaluate (coefficients ++ replicate n 0) x) a.0 congruent
            ∙ ap (λ w. w % bls_prime) (evaluate-pad coefficients n x),
      ),
      Reversed-AreEvaluations coefficients n (suc i) values a.1 r.1,
    )

module _ (b : BigUintBytes) where
  -- The bytes of 4096 values of the polynomial, 32 bytes for each.
  abbrev pub IsBlobOf : List ℕ → Bytes → Type 0
  IsBlobOf coefficients bytes =
      (values : List ℕ) × (length values ≡ 4096)
      × AreEvaluations coefficients 0 values
      × (bytes ≡ all_bytes b values)

  abbrev pub EvaluatedBlob : List ℕ → Outcome FftError Bytes → Type 0
  EvaluatedBlob coefficients (ok bytes) = (length coefficients ≤ 4096) × IsBlobOf coefficients bytes
  EvaluatedBlob coefficients (err too_many_coefficients) = 4096 < length coefficients
  EvaluatedBlob coefficients panicked = ⊥

  given :
      (coefficients : List ℕ) (o : Outcome FftError Bytes)
      → length coefficients ≤ 4096
      → Gives (IsBlobOf coefficients) o
      → EvaluatedBlob coefficients o
  given coefficients (ok bytes) le v = (le, v)
  given coefficients (err e) le v = absurd v
  given coefficients panicked le v = absurd v

  serialize_blob-IsBlobOf :
      (coefficients : List ℕ) (n : ℕ) (values : List ℕ)
      → Reduced bls_prime (2 ^ 12) values
        × Permuted bls_prime
            (coefficients ++ replicate n 0)
            12
            blob_subgroup_generator
            0
            (2 ^ 12)
            values
      → Gives (IsBlobOf coefficients) (serialize_blob b values)
  unfolding serialize_blob
  serialize_blob-IsBlobOf coefficients n values v =
      let full : (length values == 4096) ≡ true = ground (arith, v.0.0) in
      rw full (values, v.0.0, Reversed-AreEvaluations coefficients n 0 values v.0.1 v.1.0, refl)

  -- Up to 4096 coefficients give a blob: the bytes of 4096 values, of which the i-th is that of the
  -- polynomial, modulo the prime, at the power of the generator whose exponent has the 12 bits of i
  -- in the other order. More coefficients are refused, and nothing panics.
  pub polynomial_coefficients_to_blob-EvaluatedBlob :
      (coefficients : List ℕ)
      → EvaluatedBlob coefficients (polynomial_coefficients_to_blob b coefficients)
  unfolding polynomial_coefficients_to_blob
  polynomial_coefficients_to_blob-EvaluatedBlob coefficients =
      elim (Bool-cases (ltb 4096 (length coefficients))) [
        | inl e ↦ rw e (ltb→lt 4096 (length coefficients) e)
        | inr e ↦
            let le : length coefficients ≤ 4096 = ground arith in
            let n = 4096 - length coefficients in
            let size = length-pad b coefficients le in
            let P = Reduced bls_prime (2 ^ 12) in
            let Q = Permuted bls_prime (pad b coefficients) 12 blob_subgroup_generator 0 (2 ^ 12) in
            rw e (
              given coefficients _ le (
                Gives-bind (λ values. P values × Q values) (IsBlobOf coefficients) _
                  (serialize_blob b)
                  (both P Q _
                    (fft-Reduced bls_prime (omega arith) 12 (pad b coefficients)
                      blob_subgroup_generator size (omega arith) trailing_zeros-blob)
                    (fft-Permuted bls_prime (omega arith) 12 blob_subgroup_generator
                      (pad b coefficients) size generator-IsRoot))
                  (serialize_blob-IsBlobOf coefficients n)))
      ]
