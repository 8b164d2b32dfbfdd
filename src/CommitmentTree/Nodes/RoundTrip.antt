-- ===== src/CommitmentTree/Nodes/RoundTrip.antt =====
-- The bytes of the facts, for
-- crates/starknet-os/src/starkware_utils/commitment_tree/patricia_tree/nodes.rs.
use mathlib.Core.List.{append_assoc}
use native.Mathlib.Nat.{pow-le-pow_right}
use snos.Base.{
  ℕ, ◌^◌, ◌≤◌, ◌<◌, ◌≡◌, refl, false, [], ◌∷◌, ◌++◌, arith, leb, length, length-append, take-append,
  take_all, drop-append, Bool-cases, inl, inr, ltb,
}
use snos.Base.Outcome.{ok}
use snos.CommitmentTree.Bytes.{Bytes, Hash, IsHash, from_bytes_be_slice_full, BigUintBytes}
use snos.CommitmentTree.BaseTypes.{
  serialize_path, deserialize_path, serialize_length, deserialize_length,
  deserialize-serialize_path,
}
use snos.CommitmentTree.Nodes.{
  EdgeNodeFact, PatriciaNodeFact, empty, binary, edge, verify_path_value, serialize_binary,
  deserialize_binary, serialize_edge, deserialize_edge, serialize_node, deserialize_node, chunk,
}

-- The hashes have 32 bytes, the path passes `verify_path_value`, and the length fits its byte.
abbrev pub IsValid : PatriciaNodeFact → Type 0
IsValid empty = Unit
IsValid (binary fact) = IsHash fact.left_node × IsHash fact.right_node
IsValid (edge fact) =
    IsHash fact.bottom_node
    × (verify_path_value fact.edge_path fact.edge_length ≡ ok tt)
    × (fact.edge_length ≤ 255)

chunk-second : (xs ys zs : Bytes) → IsHash xs → IsHash ys → chunk 32 (xs ++ (ys ++ zs)) ≡ ys
chunk-second xs ys zs h k = rw (drop-append xs (ys ++ zs) 32 h) (take-append ys zs 32 k)

deserialize_binary-serialize :
    (l r : Hash)
    → IsHash l
    → IsHash r
    → deserialize_binary (l ++ r) ≡ ok (record { left_node = l; right_node = r })
unfolding deserialize_binary
deserialize_binary-serialize l r hl hr =
    let len : length (l ++ r) ≡ 64 = omega (arith, length-append l r) in
    let second : chunk 32 (l ++ r) ≡ r = rw (drop-append l r 32 hl) (take_all r 32 hr) in
    rw (
      len,
      take-append l r 32 hl,
      second,
      from_bytes_be_slice_full l hl,
      from_bytes_be_slice_full r hr,
    )

-- A path below 2 ^ n, for a length of a byte, takes at most 256 bits.
path-lt : (path n : ℕ) → verify_path_value path n ≡ ok tt → n ≤ 255 → path < 2 ^ 256
unfolding verify_path_value
path-lt path n h k = elim (Bool-cases (leb (2 ^ n) path)) [
  | inl e ↦ absurd (cc (e, h))
  | inr e ↦
      let two : 2 ^ n ≤ 2 ^ 256 = pow-le-pow_right (omega arith) {j = 256} (omega arith) in
      let lt : path < 2 ^ n = ground arith in omega arith
]

deserialize_edge-bytes :
    (b : BigUintBytes) (bottom path_bytes : Bytes) (path n : ℕ)
    → IsHash bottom
    → IsHash path_bytes
    → deserialize_path b path_bytes ≡ ok path
    → deserialize_edge b (bottom ++ (path_bytes ++ n ∷ []))
      ≡ ok (record { bottom_node = bottom; edge_path = path; edge_length = n })
unfolding deserialize_edge deserialize_length
deserialize_edge-bytes b bottom path_bytes path n hb hp of =
    let tail = path_bytes ++ n ∷ [] in
    let len : length (bottom ++ tail) ≡ 65 =
      omega (arith, length-append bottom tail, length-append path_bytes (n ∷ [])) in
    let second : chunk 32 (bottom ++ tail) ≡ path_bytes =
      chunk-second bottom path_bytes (n ∷ []) hb hp in
    let third : chunk 64 (bottom ++ tail) ≡ n ∷ [] = rw (
      ← append_assoc bottom path_bytes (n ∷ []),
      drop-append (bottom ++ path_bytes) (n ∷ []) 64
          (omega (arith, length-append bottom path_bytes)),
    ) in
    rw (len, take-append bottom tail 32 hb, second, third, from_bytes_be_slice_full bottom hb, of)

-- The bytes of a fact, and that they are read as the fact.
ReadsBack : BigUintBytes → PatriciaNodeFact → Bytes → Type 0
ReadsBack b fact bytes = (serialize_node b fact ≡ ok bytes) × (deserialize_node b bytes ≡ ok fact)

edge-ReadsBack :
    (b : BigUintBytes) (fact : EdgeNodeFact) (path_bytes : Bytes)
    → IsHash fact.bottom_node
    → fact.edge_length ≤ 255
    → serialize_path b fact.edge_path ≡ ok path_bytes
    → IsHash path_bytes
    → deserialize_path b path_bytes ≡ ok fact.edge_path
    → ReadsBack b (edge fact) (fact.bottom_node ++ (path_bytes ++ fact.edge_length ∷ []))
unfolding ReadsBack serialize_node serialize_edge serialize_length deserialize_node
edge-ReadsBack b fact path_bytes hb hn to hp of =
    let bytes = fact.bottom_node ++ (path_bytes ++ fact.edge_length ∷ []) in
    let n : length bytes ≡ 65 = omega (
      arith,
      length-append fact.bottom_node (path_bytes ++ fact.edge_length ∷ []),
      length-append path_bytes (fact.edge_length ∷ []),
    ) in
    let small : ltb 255 fact.edge_length ≡ false = ground arith in
    (
      rw (to, small),
      rw (
        n,
        deserialize_edge-bytes b fact.bottom_node path_bytes fact.edge_path fact.edge_length hb hp
            of,
      ),
    )

-- A valid fact is serialized, and its bytes are read as the fact: its kind is told by their number,
-- and every field comes back.
pub deserialize-serialize_node :
    (b : BigUintBytes) (fact : PatriciaNodeFact)
    → IsValid fact
    → (bytes : Bytes) × (serialize_node b fact ≡ ok bytes) × (deserialize_node b bytes ≡ ok fact)
unfolding ReadsBack serialize_node serialize_binary deserialize_node
deserialize-serialize_node b empty v = ([], refl, refl)
deserialize-serialize_node b (binary fact) v =
    let n : length (fact.left_node ++ fact.right_node) ≡ 64 =
      let (l, r) = v in omega (arith, length-append fact.left_node fact.right_node) in
    (
      fact.left_node ++ fact.right_node,
      refl,
      rw (n, deserialize_binary-serialize fact.left_node fact.right_node v.0 v.1),
    )
deserialize-serialize_node b (edge fact) (hb, hp, hn) =
    let (path_bytes, to, length, of) =
      deserialize-serialize_path b fact.edge_path (path-lt fact.edge_path fact.edge_length hp hn) in
    let (s, d) = edge-ReadsBack b fact path_bytes hb hn to length of in
    (fact.bottom_node ++ (path_bytes ++ fact.edge_length ∷ []), s, d)
