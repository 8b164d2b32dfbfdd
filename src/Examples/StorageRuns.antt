-- ===== src/Examples/StorageRuns.antt =====
-- Objects in a dictionary, alone and in front of another store, and facts as bytes.
use snos.Base.{◌≡◌, ◌≢◌, refl, [], ◌∷◌, ◌++◌, arith}
use snos.Base.Outcome.{ok}
use snos.Base.HashMap
use snos.CommitmentTree.Bytes.{Bytes, Hash, from_bytes_be_slice}
use snos.CommitmentTree.Storage.{get_or_fail, set, db_key}
use snos.CommitmentTree.DictStorage.{DictStorage, dict_storage, dict_storage-IsLawful, set_value}
use snos.CommitmentTree.DbObject.{get_or_fail-set, get_or_fail-set_ne}
use snos.CommitmentTree.Nodes.{
  PatriciaNodeFact, verify_path_value, edge, node_object, serialize_node, deserialize_node,
  serialize_edge, deserialize_edge, new_edge_unchecked,
}
use snos.CommitmentTree.BaseTypes.{
  serialize_path, deserialize_path, serialize_length, deserialize_length,
}
use snos.CommitmentTree.Nodes.RoundTrip.{IsValid, deserialize-serialize_node}
use snos.Examples.Packages.{base_256, felt_bytes, digits, number}

abbrev empty_dict : DictStorage
empty_dict = record { db = [] }

abbrev node_hash : Hash
node_hash = felt_bytes 42

abbrev edge_fact : PatriciaNodeFact
edge_fact = edge (record { bottom_node = felt_bytes 9; edge_path = 5; edge_length = 3 })

abbrev edge_bytes : Bytes
edge_bytes = felt_bytes 9 ++ (felt_bytes 5 ++ 3 ∷ [])

edge_fact-IsValid : IsValid edge_fact
unfolding verify_path_value
edge_fact-IsValid = (refl, refl, omega arith)

deserialize-serialize_node_example :
    (bytes : Bytes) × (serialize_node base_256 edge_fact ≡ ok bytes)
    × (deserialize_node base_256 bytes ≡ ok edge_fact)
deserialize-serialize_node_example = deserialize-serialize_node base_256 edge_fact edge_fact-IsValid

-- The dictionary that holds the fact alone.
abbrev dict_with_edge : DictStorage
dict_with_edge = record {
  db = ((node_object base_256).prefix ++ (b':' ∷ node_hash), edge_bytes) ∷ [];
}

set_edge :
    set (node_object base_256) dict_storage edge_fact empty_dict node_hash ≡ ok dict_with_edge
unfolding base_256 set db_key set_value HashMap.insert serialize_node serialize_edge serialize_path
    serialize_length digits
set_edge = refl

edge_to_bytes : serialize_node base_256 edge_fact ≡ ok edge_bytes
unfolding base_256 serialize_node serialize_edge serialize_path serialize_length digits
edge_to_bytes = refl

edge_of_bytes : deserialize_node base_256 edge_bytes ≡ ok edge_fact
unfolding base_256 deserialize_node deserialize_edge deserialize_path deserialize_length
    from_bytes_be_slice number new_edge_unchecked
edge_of_bytes = refl

get_or_fail-set_example :
    get_or_fail (node_object base_256) dict_storage dict_with_edge node_hash ≡ ok edge_fact
get_or_fail-set_example =
    get_or_fail-set (node_object base_256) dict_storage dict_storage-IsLawful edge_fact edge_bytes
      empty_dict dict_with_edge node_hash edge_to_bytes edge_of_bytes set_edge

node_hash-ne : node_hash ≢ felt_bytes 43
node_hash-ne e = ground (arith, e)

get_or_fail-set_ne_example :
    get_or_fail (node_object base_256) dict_storage dict_with_edge (felt_bytes 43)
    ≡ get_or_fail (node_object base_256) dict_storage empty_dict (felt_bytes 43)
get_or_fail-set_ne_example =
    get_or_fail-set_ne (node_object base_256) dict_storage dict_storage-IsLawful edge_fact
      empty_dict dict_with_edge node_hash (felt_bytes 43) node_hash-ne set_edge
