-- ===== src/Examples/StoredEdge.antt =====
-- A store that holds one edge, and what its hashes stand for.
use snos.Base.{
  ℕ, ◌-◌, ◌^◌, ◌≤◌, ◌<◌, ◌≡◌, ◌≢◌, refl, sym, ◌&&◌, ◌==◌, if◌then◌else◌, [], ◌∷◌, ◌++◌, arith,
  Bool-cases, inl, inr, ◌⊎◌,
}
use snos.Base.Outcome.{ok, err}
use snos.Base.HashMap
use snos.CommitmentTree.Bytes.{Hash, empty_hash, bytes_eq, bytes_eq→eq, from_bytes_be_slice}
use snos.CommitmentTree.Storage.{content_not_found, db_key, get, get_or_fail}
use snos.CommitmentTree.DictStorage.{DictStorage, dict_storage, get_value}
use snos.CommitmentTree.DbObject.{db_key-injective}
use snos.CommitmentTree.BaseTypes.{deserialize_path, deserialize_length}
use snos.CommitmentTree.Nodes.{
  PatriciaNodeFact, EdgeNodeFact, BinaryNodeFact, binary, edge, node_object, deserialize_node,
  deserialize_edge, new_edge_unchecked,
}
use snos.CommitmentTree.Reading.{Reading, edge_leaf}
use snos.Examples.Packages.{base_256, crypto, felt_bytes, number}

abbrev pub node_hash : Hash
node_hash = felt_bytes 42

abbrev pub stored_edge : EdgeNodeFact
stored_edge = record { bottom_node = felt_bytes 9; edge_path = 5; edge_length = 3 }

-- The dictionary that holds the edge alone.
abbrev pub dict_with_edge : DictStorage
dict_with_edge = record {
  db =
      (
        (node_object base_256).prefix ++ (b':' ∷ node_hash),
        felt_bytes 9 ++ (felt_bytes 5 ++ 3 ∷ []),
      )
      ∷ [];
}

pub read_edge :
    get_or_fail (node_object base_256) dict_storage dict_with_edge node_hash ≡ ok (edge stored_edge)
unfolding base_256 get_or_fail get get_value db_key HashMap.get bytes_eq deserialize_node
    deserialize_edge deserialize_path deserialize_length from_bytes_be_slice number
    new_edge_unchecked
read_edge = refl

-- No other hash has a fact.
read_other :
    (h : Hash)
    → (h ≡ node_hash)
      ⊎ (get_or_fail (node_object base_256) dict_storage dict_with_edge h ≡ err content_not_found)
unfolding get_or_fail get get_value HashMap.get db_key
read_other h =
    let o = node_object base_256 in
    elim (Bool-cases (bytes_eq (db_key o dict_storage node_hash) (db_key o dict_storage h))) [
      | inl e ↦ inl (sym (db_key-injective o dict_storage node_hash h (bytes_eq→eq _ _ e)))
      | inr e ↦ inr (rw e refl)
    ]

abbrev pub resolve_plain : Hash → ℕ → Hash
resolve_plain h height = if height == 0 then h else empty_hash

unfoldable pub resolve_stored : Hash → ℕ → ℕ → Hash
resolve_stored h height index =
    let below = edge_leaf (λ k j. resolve_plain (felt_bytes 9) k) 5 3 3 index in
    if bytes_eq h node_hash && height == 3 then below else resolve_plain h height

pub resolve_stored_empty : (height index : ℕ) → resolve_stored empty_hash height index ≡ empty_hash
unfolding resolve_stored bytes_eq
resolve_stored_empty height index = ground arith

pub resolve_stored_leaf : (h : Hash) → resolve_stored h 0 0 ≡ h
unfolding resolve_stored
resolve_stored_leaf h = elim (Bool-cases (bytes_eq h node_hash)) [
  | inl e ↦ rw e refl
  | inr e ↦ rw e refl
]

-- A fact that is read is the edge.
pub only_edge :
    (h : Hash) (fact : PatriciaNodeFact)
    → get_or_fail (node_object base_256) dict_storage dict_with_edge h ≡ ok fact
    → (h ≡ node_hash) × (fact ≡ edge stored_edge)
only_edge h fact r = elim (read_other h) [
  | inl e ↦ (
    e,
    let r' : get_or_fail (node_object base_256) dict_storage dict_with_edge node_hash ≡ ok fact =
          rw e at r in
        cc (r', read_edge),
  )
  | inr e ↦ absurd (cc (r, e))
]

pub edge_of : (fact : EdgeNodeFact) → edge fact ≡ edge stored_edge → fact ≡ stored_edge
edge_of fact e = cc e

pub no_binary : (fact : BinaryNodeFact) → binary fact ≢ edge stored_edge
no_binary fact e = cc e

pub empty_ne : empty_hash ≢ node_hash
empty_ne e = ground (arith, e)

pub bottom_ne : felt_bytes 9 ≢ node_hash
bottom_ne e = ground (arith, e)

pub resolve_stored_edge :
    (index : ℕ)
    → resolve_stored node_hash 3 index ≡ edge_leaf (resolve_stored (felt_bytes 9)) 5 3 3 index
unfolding resolve_stored bytes_eq
resolve_stored_edge index = refl

pub stored_edge_fits :
    (h : Hash) (height : ℕ) (fact : EdgeNodeFact)
    → (h ≡ node_hash → height ≡ 3)
    → get_or_fail (node_object base_256) dict_storage dict_with_edge h ≡ ok (edge fact)
    → (fact.edge_path < 2 ^ fact.edge_length)
      × (fact.edge_length ≤ height)
      × (fact.bottom_node ≡ node_hash → height - fact.edge_length ≡ 3)
stored_edge_fits h height fact held r =
    let (at_node, e) = only_edge h (edge fact) r in
    let same : fact ≡ stored_edge = edge_of fact e in
    let three : height ≡ 3 = held at_node in
    rw (same, three) (omega arith, omega arith, λ b. absurd (bottom_ne b))

pub stored_edge_resolves :
    (h : Hash) (height : ℕ) (fact : EdgeNodeFact) (index : ℕ)
    → (h ≡ node_hash → height ≡ 3)
    → get_or_fail (node_object base_256) dict_storage dict_with_edge h ≡ ok (edge fact)
    → index < 2 ^ height
    → resolve_stored h height index
      ≡ edge_leaf (resolve_stored fact.bottom_node) fact.edge_path fact.edge_length height index
stored_edge_resolves h height fact index held r lt =
    let (at_node, e) = only_edge h (edge fact) r in
    let same : fact ≡ stored_edge = edge_of fact e in
    let three : height ≡ 3 = held at_node in rw (same, three, at_node) (resolve_stored_edge index)

-- The reading that takes the edge for the root of a subtree of height 3.
abbrev pub stored_edge_reading : Reading crypto dict_storage dict_with_edge
stored_edge_reading = record {
  Held = λ h height. h ≡ node_hash → height ≡ 3;
  resolve = resolve_stored;
  held_empty = λ height e. absurd (empty_ne e);
  resolve_empty = resolve_stored_empty;
  edge_fits = stored_edge_fits;
  resolve_leaf = resolve_stored_leaf;
  binary_fits = λ h height fact held r. absurd (no_binary fact (only_edge h (binary fact) r).1);
  resolve_binary =
      λ h height fact index held r lt. absurd (no_binary fact (only_edge h (binary fact) r).1);
  resolve_edge = stored_edge_resolves;
}
