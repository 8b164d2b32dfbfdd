-- ===== src/Io/Output/RoundTrip.antt =====
-- Reading what was printed, section by section, for crates/starknet-os/src/io/output.rs.
use mathlib.Core.List.{append_assoc, append-nil}
use snos.Base.{
  ℕ, ◌+◌, ◌*◌, ◌/◌, ◌%◌, ◌^◌, ◌<◌, ◌≡◌, refl, String, List, [], ◌∷◌, ◌++◌, arith, lt→ltb,
  Bool-cases, inl, inr, length, All, map, take-append, drop-append, ==_self, ◌∙◌,
}
use snos.Base.Outcome.{ok}
use snos.Base.HashMap
use snos.Base.HashMap.{HashMap, nat_eq}
use snos.Io.Reader.{next_or_fail, next_as_usize, read_segment, usize_bound}
use snos.Io.Output.{
  ContractChanges, is_zero, skip_if_full, deserialize_map, deserialize_da_changes,
  deserialize_class_hash, deserialize_contract_state_inner, deserialize_contracts,
  deserialize_contract_state, deserialize_contract_class_da_changes, read_variable_length_segment,
  deserialize_messages, skip_blobs, skip_kzg_segment, deserialize_state_diff, deserialize_os_output,
}
use snos.Io.Output.Wire.{
  Update, Contract, Wire, Fits, IsValid, encode_update, encode_updates, flag, pack,
  encode_class_hash, encode_contract, encode_contracts, encode_header, encode_kzg, encode_segment,
  encode_state_diff, encode, pairs, class_hash, changes, output_of, contracts_of, classes_of,
}

-- A list of updates is read into the map that they make, key by key.
pub deserialize_map-encode_updates :
    (k p v : String) (full_output : ℕ) (us : List Update) (i : ℕ) (m : HashMap ℕ ℕ) (rest : List ℕ)
    → deserialize_map k p v full_output (length us) i m (encode_updates full_output us ++ rest)
      ≡ ok (HashMap.collect_into m (pairs us), rest)
unfolding deserialize_map encode_updates encode_update skip_if_full next_or_fail
    HashMap.collect_into
deserialize_map-encode_updates k p v full_output [] i m rest = refl
deserialize_map-encode_updates k p v full_output (u ∷ us) i m rest =
    elim (Bool-cases (is_zero full_output)) [
      | inl e ↦
          rw (e, skip_if_full)
            (deserialize_map-encode_updates k p v full_output us (i + 1)
              (HashMap.insert u.key u.new_value m) rest)
      | inr e ↦
          rw (e, skip_if_full)
            (deserialize_map-encode_updates k p v full_output us (i + 1)
              (HashMap.insert u.key u.new_value m) rest)
    ]

next_as_usize_lem :
    (item : String) (n : ℕ) (rest : List ℕ)
    → n < 2 ^ 64
    → next_as_usize item (n ∷ rest) ≡ ok (n, rest)
unfolding next_as_usize
next_as_usize_lem item n rest h = rw (lt→ltb n usize_bound h)

pack_parts :
    (c : Contract)
    → Fits c
    → (pack c % 2 ^ 64 ≡ length c.updates)
      × (pack c / 2 ^ 64 % 2 ^ 64 ≡ c.nonce)
      × (pack c / 2 ^ 64 / 2 ^ 64 ≡ flag c.class_updated)
unfolding pack
pack_parts c h = let hn = h.nonce in let hu = h.updates in (omega arith, omega arith, omega arith)

deserialize_class_hash-encode :
    (full_output : ℕ) (c : Contract) (rest : List ℕ)
    → deserialize_class_hash full_output
        (flag c.class_updated)
        (encode_class_hash full_output c ++ rest)
      ≡ ok (class_hash full_output c, rest)
unfolding deserialize_class_hash encode_class_hash next_or_fail
deserialize_class_hash-encode full_output c rest = elim (Bool-cases c.class_updated) [
  | inl e ↦ elim (Bool-cases (is_zero full_output)) [ inl z ↦ rw (e, z) | inr z ↦ rw (e, z) ]
  | inr e ↦ elim (Bool-cases (is_zero full_output)) [ inl z ↦ rw (e, z) | inr z ↦ rw (e, z) ]
]

-- The entry of a contract whose nonce and number of updates have 64 bits is read back: its address, its nonce, its class hash if there is one to
-- be read, and its storage changes.
pub deserialize_contract_state_inner-encode_contract :
    (full_output : ℕ) (c : Contract) (rest : List ℕ)
    → Fits c
    → deserialize_contract_state_inner full_output (encode_contract full_output c ++ rest)
      ≡ ok (changes full_output c, rest)
unfolding deserialize_contract_state_inner encode_contract deserialize_da_changes next_or_fail
deserialize_contract_state_inner-encode_contract full_output c rest h =
    let parts = pack_parts c h in
    rw
      (
        append_assoc (encode_class_hash full_output c) (encode_updates full_output c.updates) rest,
        parts.0,
        parts.1,
        parts.2,
        deserialize_class_hash-encode full_output c (encode_updates full_output c.updates ++ rest),
      )
      (rw (deserialize_map-encode_updates _ _ _ full_output c.updates 0 [] rest))

deserialize_contracts-encode_contracts :
    (full_output : ℕ) (cs : List Contract) (before : List ContractChanges) (rest : List ℕ)
    → All Fits cs
    → deserialize_contracts full_output (length cs) before (encode_contracts full_output cs ++ rest)
      ≡ ok (before ++ map (changes full_output) cs, rest)
unfolding deserialize_contracts encode_contracts
deserialize_contracts-encode_contracts full_output [] before rest h = rw append-nil
deserialize_contracts-encode_contracts full_output (c ∷ cs) before rest h =
    rw
      (
        append_assoc (encode_contract full_output c) (encode_contracts full_output cs) rest,
        deserialize_contract_state_inner-encode_contract full_output c
            (encode_contracts full_output cs ++ rest) h.0,
      )
      (deserialize_contracts-encode_contracts full_output cs (before ++ changes full_output c ∷ [])
          rest h.1
        ∙ rw append_assoc)

read_segment_lem :
    (n : ℕ) (item : String) (xs rest : List ℕ)
    → length xs ≡ n
    → read_segment n item (xs ++ rest) ≡ ok (xs, rest)
unfolding read_segment
read_segment_lem n item xs rest h =
    rw (take-append xs rest n h, drop-append xs rest n h, h, ==_self n)

read_variable_length_segment_lem :
    (item : String) (xs rest : List ℕ)
    → length xs < 2 ^ 64
    → read_variable_length_segment item (encode_segment xs ++ rest) ≡ ok (xs, rest)
unfolding read_variable_length_segment
read_variable_length_segment_lem item xs rest h =
    rw (next_as_usize_lem item (length xs) (xs ++ rest) h)
      (read_segment_lem (length xs) item xs rest refl)

-- The messages in both directions, fewer than 2 ^ 64 felts each, are read back.
pub deserialize_messages-encode_segment :
    (to_l1 to_l2 rest : List ℕ)
    → length to_l1 < 2 ^ 64
    → length to_l2 < 2 ^ 64
    → deserialize_messages (encode_segment to_l1 ++ (encode_segment to_l2 ++ rest))
      ≡ ok ((to_l1, to_l2), rest)
unfolding deserialize_messages
deserialize_messages-encode_segment to_l1 to_l2 rest h k = rw (
  read_variable_length_segment_lem "L1 messages" to_l1 (encode_segment to_l2 ++ rest) h,
  read_variable_length_segment_lem "L2 messages" to_l2 rest k,
)

skip_kzg_segment-encode_kzg :
    (w : Wire) (rest : List ℕ)
    → IsValid w
    → skip_kzg_segment w.use_kzg_da (encode_kzg w ++ rest) ≡ ok (tt, rest)
unfolding skip_kzg_segment skip_blobs encode_kzg
skip_kzg_segment-encode_kzg w rest v = elim (Bool-cases (is_zero w.use_kzg_da)) [
  | inl e ↦ rw e
  | inr e ↦ rw e (
      let small : w.n_blobs < usize_bound = omega arith in
      let n : 2 * 2 * w.n_blobs % usize_bound ≡ 4 * w.n_blobs = omega arith in
      rw (lt→ltb w.n_blobs usize_bound small, n, drop-append w.kzg_data rest (4 * w.n_blobs) v.kzg))
]

deserialize_state_diff-encode_state_diff :
    (w : Wire) (rest : List ℕ)
    → IsValid w
    → deserialize_state_diff w.use_kzg_da w.full_output (encode_state_diff w ++ rest)
      ≡ ok ((contracts_of w, classes_of w), rest)
unfolding deserialize_state_diff encode_state_diff deserialize_contract_state
    deserialize_contract_class_da_changes
deserialize_state_diff-encode_state_diff w rest v = elim (Bool-cases (is_zero w.use_kzg_da)) [
  | inr e ↦ rw e
  | inl e ↦ rw e (
      rw (
        append_assoc (encode_contracts w.full_output w.contracts)
            (length w.classes ∷ encode_updates w.full_output w.classes) rest,
        next_as_usize_lem "output_n_updates" (length w.contracts) _ v.n_contracts,
        deserialize_contracts-encode_contracts w.full_output w.contracts []
            (length w.classes ∷ encode_updates w.full_output w.classes ++ rest) v.fits,
        next_as_usize_lem "n_actual_updates" (length w.classes) _ v.n_classes,
        deserialize_map-encode_updates _ _ _ w.full_output w.classes 0 [] rest,
      ))
]

-- Any output that is written in the format, its counts being those of its sections and fitting
-- their words, is read back: every field of the header, both message lists, and, unless the
-- output uses KZG data availability, the contracts' changes and the classes. What follows the
-- output is left to be read.
pub deserialize_os_output-encode :
    (w : Wire) (rest : List ℕ)
    → IsValid w
    → deserialize_os_output (encode w ++ rest) ≡ ok (output_of w, rest)
unfolding deserialize_os_output encode encode_header
deserialize_os_output-encode w rest v =
    rw
      (
        append_assoc (encode_kzg w)
            (encode_segment w.messages_to_l1
              ++ (encode_segment w.messages_to_l2 ++ encode_state_diff w))
            rest,
        append_assoc w.messages_to_l1 (encode_segment w.messages_to_l2 ++ encode_state_diff w) rest,
        append_assoc w.messages_to_l2 (encode_state_diff w) rest,
        read_segment_lem 10 "header elements" (encode_header w) _ refl,
      )
      (rw (
        skip_kzg_segment-encode_kzg w _ v,
        deserialize_messages-encode_segment w.messages_to_l1 w.messages_to_l2 _ v.to_l1 v.to_l2,
        deserialize_state_diff-encode_state_diff w rest v,
      ))
