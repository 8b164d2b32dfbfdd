-- ===== src/CommitmentTree/BaseTypes.antt =====
-- crates/starknet-os/src/starkware_utils/commitment_tree/base_types.rs: paths, lengths and heights
-- are numbers here (a `BigUint`, and two `u64`s); a subtraction below zero panics.
use snos.Base.{
  ℕ, ◌-◌, ◌^◌, ◌≤◌, ◌<◌, ◌≡◌, [], ◌∷◌, ◌++◌, arith, ltb, length, replicate, if◌then◌else◌, ◌∙◌,
  length-append, length-replicate, ap,
}
use snos.Base.Outcome.{Outcome, ok, err, panicked, index}
use snos.CommitmentTree.Bytes.{
  Bytes, hash_bytes, u64_bound, BigUintBytes, from_bytes_be-replicate_zero,
}
use snos.CommitmentTree.Storage.{SerializeError, value_too_long, DeserializeError}

-- `Sub<u64>` of `Length` and `Height`.
unfoldable pub sub {ℓ} : {E : Type ℓ} → ℕ → ℕ → Outcome E ℕ
sub a b = if ltb a b then panicked else ok (a - b)

-- `TryFrom<Felt252>` of `Height`; the error carries the felt.
unfoldable pub height_try_from : ℕ → Outcome ℕ ℕ
height_try_from value = if ltb value u64_bound then ok value else err value

module _ (b : BigUintBytes) where
  -- `vec![0; HASH_BYTES - bytes.len()]` panics if there are too many bytes.
  unfoldable pub serialize_path : ℕ → Outcome SerializeError Bytes
  serialize_path path =
      let bytes = b.to_bytes_be path in
      if ltb hash_bytes (length bytes)
      then panicked
      else ok (replicate (hash_bytes - length bytes) 0 ++ bytes)

  unfoldable pub deserialize_path : Bytes → Outcome DeserializeError ℕ
  deserialize_path bytes = ok (b.from_bytes_be bytes)

  -- A path of at most 256 bits takes 32 bytes, which are read as the path.
  pub deserialize-serialize_path :
      (path : ℕ)
      → path < 2 ^ 256
      → (bytes : Bytes) × (serialize_path path ≡ ok bytes)
        × (length bytes ≡ hash_bytes)
        × (deserialize_path bytes ≡ ok path)
  unfolding serialize_path deserialize_path
  deserialize-serialize_path path h =
      let bytes = b.to_bytes_be path in
      let pad = replicate (hash_bytes - length bytes) 0 in
      let short : length bytes ≤ hash_bytes = b.length-to path h in
      (
        pad ++ bytes,
        ground arith,
        omega (
          arith,
          length-append pad bytes,
          length-replicate {A = ℕ} (hash_bytes - length bytes) 0,
        ),
        ap ok (from_bytes_be-replicate_zero b (hash_bytes - length bytes) bytes ∙ b.from-to path),
      )

-- A length is one byte.
unfoldable pub serialize_length : ℕ → Outcome SerializeError Bytes
serialize_length n = if ltb 255 n then err (value_too_long 1) else ok (n ∷ [])

unfoldable pub deserialize_length : Bytes → Outcome DeserializeError ℕ
deserialize_length bytes = index bytes 0
