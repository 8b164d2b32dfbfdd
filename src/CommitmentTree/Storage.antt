-- ===== src/CommitmentTree/Storage.antt =====
-- crates/starknet-os/src/storage: the `Storage` trait, its implementation by a dictionary, and
-- objects that are kept in a store. Each async function is read as the calls that it makes, in
-- order; the mutex of a `FactFetchingContext` is taken for one call at a time.

use snos.Base.{ℕ, ◌≡◌, Option, none, some, ◌∷◌, ◌++◌, if◌then◌else◌}
use snos.Base.Outcome.{Outcome, ok, err, map_err, ◌>>=◌}
use snos.CommitmentTree.Bytes.{Bytes, bytes_eq}

-- The errors of serde_json, which no object of the tree is serialized by, are left out.
pub data SerializeError : Type 0 where
  value_too_long : ℕ → SerializeError

pub data DeserializeError : Type 0 where
  no_variant_with_length : ℕ → DeserializeError
  length_mismatch : ℕ → ℕ → DeserializeError

pub data StorageError : Type 0 where
  content_not_found : StorageError
  deserialize : DeserializeError → StorageError
  serialize : SerializeError → StorageError

-- The trait `Storage`, for the type `S` of stores.
pub record Storage (S : Type 0) : Type 0 where
  pub set_value : S → Bytes → Bytes → Outcome StorageError S
  pub get_value : S → Bytes → Outcome StorageError (Option Bytes)

-- What the clients of a store rely on: a write succeeds, is read back, and leaves other keys alone.
pub record IsLawful {S : Type 0} (st : Storage S) : Type 0 where
  pub written : (s : S) (key value : Bytes) → (s' : S) × (st.set_value s key value ≡ ok s')
  pub get-set :
      (s s' : S) (key value j : Bytes)
      → st.set_value s key value ≡ ok s'
      → st.get_value s' j ≡ (if bytes_eq key j then ok (some value) else st.get_value s j)

-- `Serializable` and `SerializationPrefix`, for the type `A` of objects.
pub record Serializable (A : Type 0) : Type 0 where
  pub prefix : Bytes
  pub to_bytes : A → Outcome SerializeError Bytes
  pub of_bytes : Bytes → Outcome DeserializeError A

module _ {A S : Type 0} (o : Serializable A) (st : Storage S) where
  -- the prefix, a colon, the suffix
  unfoldable pub db_key : Bytes → Bytes
  db_key suffix = o.prefix ++ (b':' ∷ suffix)

  of_data : Option Bytes → Outcome StorageError (Option A)
  of_data none = ok none
  of_data (some bytes) = do
    value ← map_err StorageError.deserialize (o.of_bytes bytes)
    ok (some value)

  -- `DbObject::get`
  unfoldable pub get : S → Bytes → Outcome StorageError (Option A)
  unfolding of_data
  get s suffix = do bytes ← st.get_value s (db_key suffix); of_data bytes

  or_fail : Option A → Outcome StorageError A
  or_fail none = err content_not_found
  or_fail (some content) = ok content

  -- `DbObject::get_or_fail`
  unfoldable pub get_or_fail : S → Bytes → Outcome StorageError A
  unfolding or_fail
  get_or_fail s suffix = do content ← get s suffix; or_fail content

  -- `DbObject::set`
  unfoldable pub set : A → S → Bytes → Outcome StorageError S
  set a s suffix = do
    value ← map_err StorageError.serialize (o.to_bytes a)
    st.set_value s (db_key suffix) value
