-- ===== src/Hints/Kzg/Blob.antt =====
-- The size of the blob that `polynomial_coefficients_to_blob` of
-- crates/starknet-os/src/hints/kzg.rs gives, and the halves of a commitment.
use native.Mathlib.Nat.{mod-lt, div-add-mod}
use snos.Base.{
  ℕ, ◌+◌, ◌-◌, ◌*◌, ◌/◌, ◌%◌, ◌^◌, ◌≤◌, ◌<◌, ◌≡◌, refl, ◌∙◌, arith, true, ◌==◌, ltb, Bool-cases,
  inl, inr, List, [], ◌∷◌, length, replicate, All, length-append, length-replicate, ltb→lt,
}
use snos.Base.Pow.{pow_pos, div-lt_of_lt-mul}
use snos.Base.Outcome.{Outcome, ok, err, panicked}
use snos.CommitmentTree.Bytes.{Bytes, BigUintBytes}
use snos.Hints.Kzg.{
  FftError, too_many_coefficients, split_commitment, to_bytes, all_bytes, serialize_blob, pad,
  polynomial_coefficients_to_blob, blob_subgroup_generator, bls_prime,
}
use snos.Hints.Kzg.Sizes.{Gives, Gives-bind, Reduced, fft-Reduced, trailing_zeros-blob}

module _ (b : BigUintBytes) where
  length-to_bytes : (x : ℕ) → x < 2 ^ 256 → length (to_bytes b x 32) ≡ 32
  unfolding to_bytes
  length-to_bytes x lt =
      let bytes = b.to_bytes_be x in
      omega (
        arith,
        length-append (replicate (32 - length bytes) 0) bytes,
        length-replicate {A = ℕ} (32 - length bytes) 0,
        b.length-to x lt,
      )

  length-all_bytes :
      (blob : List ℕ) → All (λ v. v < bls_prime) blob → length (all_bytes b blob) ≡ length blob * 32
  length-all_bytes [] a = refl
  length-all_bytes (x ∷ blob) a = omega (
    arith,
    length-append (to_bytes b x 32) (all_bytes b blob),
    length-to_bytes x (omega (arith, a.0)),
    length-all_bytes blob a.1,
  )

  pub length-pad :
      (coefficients : List ℕ) → length coefficients ≤ 4096 → length (pad b coefficients) ≡ 2 ^ 12
  length-pad coefficients le = omega (
    arith,
    length-append coefficients (replicate (4096 - length coefficients) 0),
    length-replicate {A = ℕ} (4096 - length coefficients) 0,
  )

  serialize_blob-Gives :
      (values : List ℕ)
      → Reduced bls_prime (2 ^ 12) values
      → Gives (λ bytes. length bytes ≡ 4096 * 32) (serialize_blob b values)
  unfolding serialize_blob
  serialize_blob-Gives values v =
      let full : (length values == 4096) ≡ true = ground (arith, v.0) in
      rw full (length-all_bytes values v.1 ∙ omega (arith, v.0))

  -- What `polynomial_coefficients_to_blob` may give.
  abbrev pub BlobOutcome : List ℕ → Outcome FftError Bytes → Type 0
  BlobOutcome coefficients (ok bytes) = (length coefficients ≤ 4096) × (length bytes ≡ 4096 * 32)
  BlobOutcome coefficients (err too_many_coefficients) = 4096 < length coefficients
  BlobOutcome coefficients panicked = ⊥

  outcome_of :
      (coefficients : List ℕ) (o : Outcome FftError Bytes)
      → length coefficients ≤ 4096
      → Gives (λ bytes. length bytes ≡ 4096 * 32) o
      → BlobOutcome coefficients o
  outcome_of coefficients (ok bytes) le v = (le, v)
  outcome_of coefficients (err e) le v = absurd v
  outcome_of coefficients panicked le v = absurd v

  -- Up to 4096 coefficients give a blob of 4096 field elements of 32 bytes each, and more of them are
  -- refused; nothing panics.
  pub polynomial_coefficients_to_blob-BlobOutcome :
      (coefficients : List ℕ)
      → BlobOutcome coefficients (polynomial_coefficients_to_blob b coefficients)
  unfolding polynomial_coefficients_to_blob
  polynomial_coefficients_to_blob-BlobOutcome coefficients =
      elim (Bool-cases (ltb 4096 (length coefficients))) [
        | inl e ↦ rw e (ltb→lt 4096 (length coefficients) e)
        | inr e ↦
            let le : length coefficients ≤ 4096 = ground arith in
            rw e (
              outcome_of coefficients _ le (
                Gives-bind (Reduced bls_prime (2 ^ 12)) (λ bytes. length bytes ≡ 4096 * 32) _
                  (serialize_blob b)
                  (fft-Reduced bls_prime (omega arith) 12 (pad b coefficients)
                    blob_subgroup_generator (length-pad coefficients le) (omega arith)
                    trailing_zeros-blob)
                  (λ values v. serialize_blob-Gives values v)))
      ]

-- The low and the high half of a commitment have 192 bits each and make up its low 384 bits.
pub split_commitment_lem :
    (num : ℕ)
    → ((split_commitment num).0 < 2 ^ 192)
      × ((split_commitment num).1 < 2 ^ 192)
      × ((split_commitment num).0 + (split_commitment num).1 * 2 ^ 192 ≡ num % 2 ^ 384)
unfolding split_commitment
split_commitment_lem num =
    let n = num % 2 ^ 384 in
    let small : n < 2 ^ 384 = mod-lt num (pow_pos 384) in
    let dm : 2 ^ 192 * (n / 2 ^ 192) + n % 2 ^ 192 ≡ n = div-add-mod n (2 ^ 192) in
    (
      mod-lt n (pow_pos 192),
      div-lt_of_lt-mul n (2 ^ 192) (2 ^ 192) (pow_pos 192) (omega (arith, small)),
      omega (arith, dm),
    )
