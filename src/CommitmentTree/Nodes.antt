-- ===== src/CommitmentTree/Nodes.antt =====
-- crates/starknet-os/src/starkware_utils/commitment_tree/patricia_tree/nodes.rs: the facts of the
-- inner nodes. The `debug_assert!` of `new_unchecked` is no part of a release build: that it would
-- hold is stated as an invariant of the operations that call it.
pub mod RoundTrip
use snos.Base.{
  ℕ, ◌+◌, ◌%◌, ◌^◌, Bool, List, [], ◌∷◌, ◌++◌, ◌==◌, leb, if◌then◌else◌, length, take, drop, String,
}
use snos.Base.Outcome.{Outcome, ok, err, ◌>>=◌, ◌>>◌}
use snos.CommitmentTree.Bytes.{
  Bytes, bytes_eq, Hash, hash_bytes, empty_hash, from_bytes_be_slice, BigUintBytes, Crypto,
}
use snos.CommitmentTree.Storage.{
  SerializeError, DeserializeError, no_variant_with_length, length_mismatch, StorageError,
  Serializable,
}
use snos.CommitmentTree.BaseTypes.{
  serialize_path, deserialize_path, serialize_length, deserialize_length,
}

-- errors.rs; `UpdateTree` and `Storage` wrap the errors of the calls below.
pub data CombineError : Type 0 where
  storage : StorageError → CombineError
  tree_heights_differ : ℕ → ℕ → CombineError
  cannot_combine_to_virtual_edge_node : CombineError

pub data UpdateTreeError : Type 0 where
  storage : StorageError → UpdateTreeError
  combine : CombineError → UpdateTreeError

pub data TreeError : Type 0 where
  storage : StorageError → TreeError
  update_tree : UpdateTreeError → TreeError
  tree_heights_mismatch : ℕ → ℕ → TreeError
  is_leaf : TreeError
  is_empty : TreeError
  invalid_edge_path : ℕ → ℕ → TreeError

pub record BinaryNodeFact : Type 0 where
  pub left_node : Hash
  pub right_node : Hash

pub record EdgeNodeFact : Type 0 where
  pub bottom_node : Hash
  pub edge_path : ℕ
  pub edge_length : ℕ

pub data PatriciaNodeFact : Type 0 where
  empty : PatriciaNodeFact
  binary : BinaryNodeFact → PatriciaNodeFact
  edge : EdgeNodeFact → PatriciaNodeFact

pub data BinaryNodeError : Type 0 where
  left_node_is_empty right_node_is_empty : BinaryNodeError

unfoldable pub new_binary : Hash → Hash → Outcome BinaryNodeError BinaryNodeFact
new_binary left_node right_node =
    if bytes_eq left_node empty_hash
    then err left_node_is_empty
    else if bytes_eq right_node empty_hash
    then err right_node_is_empty
    else ok (record { left_node = left_node; right_node = right_node })

unfoldable pub verify_path_value : ℕ → ℕ → Outcome TreeError (Unit {0})
verify_path_value path n = if leb (2 ^ n) path then err (invalid_edge_path path n) else ok tt

unfoldable pub new_edge : Hash → ℕ → ℕ → Outcome TreeError EdgeNodeFact
new_edge bottom_node path n = do
  verify_path_value path n
  ok (record { bottom_node = bottom_node; edge_path = path; edge_length = n })

unfoldable pub new_edge_unchecked : Hash → ℕ → ℕ → EdgeNodeFact
new_edge_unchecked bottom_node path n = record {
  bottom_node = bottom_node;
  edge_path = path;
  edge_length = n;
}

-- `PREIMAGE_LENGTH` of the three facts.
abbrev pub empty_preimage_length : ℕ
empty_preimage_length = 0

abbrev pub binary_preimage_length : ℕ
binary_preimage_length = 64

abbrev pub edge_preimage_length : ℕ
edge_preimage_length = 65

-- The first, second and third chunk of `data.chunks(HASH_BYTES)`.
abbrev pub chunk : ℕ → Bytes → Bytes
chunk skipped bytes = take hash_bytes (drop skipped bytes)

unfoldable pub serialize_binary : BinaryNodeFact → Outcome SerializeError Bytes
serialize_binary fact = ok (fact.left_node ++ fact.right_node)

unfoldable pub deserialize_binary : Bytes → Outcome DeserializeError BinaryNodeFact
deserialize_binary bytes =
    if length bytes == binary_preimage_length
    then (do
      left_node ← from_bytes_be_slice (chunk 0 bytes)
      right_node ← from_bytes_be_slice (chunk 32 bytes)
      ok (record { left_node = left_node; right_node = right_node }))
    else err (length_mismatch binary_preimage_length (length bytes))

module _ (b : BigUintBytes) where
  unfoldable pub serialize_edge : EdgeNodeFact → Outcome SerializeError Bytes
  serialize_edge fact = do
    path_bytes ← serialize_path b fact.edge_path
    length_bytes ← serialize_length fact.edge_length
    ok (fact.bottom_node ++ (path_bytes ++ length_bytes))

  unfoldable pub deserialize_edge : Bytes → Outcome DeserializeError EdgeNodeFact
  unfolding new_edge_unchecked
  deserialize_edge bytes =
      if length bytes == edge_preimage_length
      then (do
        bottom ← from_bytes_be_slice (chunk 0 bytes)
        path ← deserialize_path b (chunk 32 bytes)
        n ← deserialize_length (chunk 64 bytes)
        ok (new_edge_unchecked bottom path n))
      else err (length_mismatch edge_preimage_length (length bytes))

  unfoldable pub serialize_node : PatriciaNodeFact → Outcome SerializeError Bytes
  serialize_node empty = ok []
  serialize_node (binary fact) = serialize_binary fact
  serialize_node (edge fact) = serialize_edge fact

  -- The number of bytes tells the kind of the node.
  unfoldable pub deserialize_node : Bytes → Outcome DeserializeError PatriciaNodeFact
  deserialize_node bytes =
      if length bytes == empty_preimage_length
      then ok empty
      else if length bytes == binary_preimage_length
      then (do fact ← deserialize_binary bytes; ok (binary fact))
      else if length bytes == edge_preimage_length
      then (do fact ← deserialize_edge bytes; ok (edge fact))
      else err (no_variant_with_length (length bytes))

  -- "patricia_node", the prefix of all three facts.
  abbrev pub patricia_node_prefix : Bytes
  patricia_node_prefix =
      b'p' ∷ b'a' ∷ b't' ∷ b'r' ∷ b'i' ∷ b'c' ∷ b'i' ∷ b'a' ∷ b'_' ∷ b'n' ∷ b'o' ∷ b'd' ∷ b'e' ∷ []

  abbrev pub node_object : Serializable PatriciaNodeFact
  node_object = record {
    prefix = patricia_node_prefix;
    to_bytes = serialize_node;
    of_bytes = deserialize_node;
  }

  -- `InnerNodeFact::to_tuple`
  unfoldable pub to_tuple : PatriciaNodeFact → List ℕ
  to_tuple empty = []
  to_tuple (binary fact) = b.from_bytes_be fact.left_node ∷ b.from_bytes_be fact.right_node ∷ []
  to_tuple (edge fact) = fact.edge_length ∷ fact.edge_path ∷ b.from_bytes_be fact.bottom_node ∷ []

module _ (c : Crypto) where
  -- The length is added to the hash in the field.
  unfoldable pub hash_edge : Hash → ℕ → ℕ → Hash
  hash_edge bottom path n =
      let bottom_path_hash = c.hash bottom (c.biguint.to_bytes_be path) in
      c.felt_to_bytes ((c.felt_from_bytes bottom_path_hash + n) % c.prime)

  -- `Fact::hash`
  unfoldable pub hash_node : PatriciaNodeFact → Hash
  hash_node empty = empty_hash
  hash_node (binary fact) = c.hash fact.left_node fact.right_node
  hash_node (edge fact) = hash_edge fact.bottom_node fact.edge_path fact.edge_length
