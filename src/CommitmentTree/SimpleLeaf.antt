-- ===== src/CommitmentTree/SimpleLeaf.antt =====
-- `SimpleLeafFact` of crates/starknet-os/src/storage/storage_utils.rs: a leaf that is a felt.
use snos.Base.{ℕ, ◌≡◌, Bool, true, [], ◌∷◌, ◌==◌, ==_iff, ap, ◌∙◌}
use snos.Base.Outcome.{Outcome, ok}
use snos.CommitmentTree.Bytes.{
  Bytes, Hash, empty_hash, from_bytes_be_slice, from_bytes_be_slice_full, Crypto,
}
use snos.CommitmentTree.Storage.{SerializeError, DeserializeError, Serializable}
use snos.CommitmentTree.Context.{LeafFact}

pub record SimpleLeafFact : Type 0 where
  pub value : ℕ

abbrev pub simple_leaf : ℕ → SimpleLeafFact
simple_leaf value = record { value = value }

abbrev pub empty_leaf : SimpleLeafFact
empty_leaf = simple_leaf 0

module _ (c : Crypto) where
  unfoldable pub serialize_leaf : SimpleLeafFact → Outcome SerializeError Bytes
  serialize_leaf fact = ok (c.felt_to_bytes fact.value)

  unfoldable pub deserialize_leaf : Bytes → Outcome DeserializeError SimpleLeafFact
  deserialize_leaf bytes = ok (simple_leaf (c.felt_from_bytes bytes))

  abbrev pub is_empty_leaf : SimpleLeafFact → Bool
  is_empty_leaf fact = fact.value == 0

  -- `Fact::hash` is `from_bytes_be_slice` of the 32 bytes of the felt, which does not panic.
  unfoldable pub hash_leaf : SimpleLeafFact → Hash
  hash_leaf fact = c.felt_to_bytes fact.value

  pub hash_leaf-from_bytes_be_slice :
      (fact : SimpleLeafFact)
      → from_bytes_be_slice {E = SerializeError} (c.felt_to_bytes fact.value) ≡ ok (hash_leaf fact)
  unfolding hash_leaf
  hash_leaf-from_bytes_be_slice fact =
      from_bytes_be_slice_full (c.felt_to_bytes fact.value) (c.length-felt_to_bytes fact.value)

  pub hash_leaf-is_empty :
      (fact : SimpleLeafFact) → is_empty_leaf fact ≡ true → hash_leaf fact ≡ empty_hash
  unfolding hash_leaf
  hash_leaf-is_empty fact e = ap c.felt_to_bytes ((==_iff fact.value 0).0 e) ∙ c.felt_to_bytes-zero

  -- "simple_leaf_fact", the name of the struct in snake case.
  abbrev pub simple_leaf_prefix : Bytes
  simple_leaf_prefix =
      b's' ∷ b'i' ∷ b'm' ∷ b'p' ∷ b'l' ∷ b'e' ∷ b'_' ∷ b'l' ∷ b'e' ∷ b'a' ∷ b'f' ∷ b'_' ∷ b'f'
      ∷ b'a' ∷ b'c' ∷ b't' ∷ []

  abbrev pub simple_leaf_object : Serializable SimpleLeafFact
  simple_leaf_object = record {
    prefix = simple_leaf_prefix;
    to_bytes = serialize_leaf;
    of_bytes = deserialize_leaf;
  }

  abbrev pub simple_leaf_fact : LeafFact SimpleLeafFact
  simple_leaf_fact = record {
    object = simple_leaf_object;
    hash = hash_leaf;
    is_empty = is_empty_leaf;
    hash_empty = hash_leaf-is_empty;
  }
