-- ===== src/Io/Output/Wire.antt =====
-- The format that crates/starknet-os/src/io/output.rs reads, as a printer: the felts that the
-- Cairo functions named in its comments (state/output.cairo, os/output.cairo) write.
use snos.Base.{
  ℕ, ◌+◌, ◌*◌, ◌^◌, ◌<◌, ◌≡◌, Bool, true, false, Option, none, some, List, [], ◌∷◌, ◌++◌,
  if◌then◌else◌, length, All, map,
}
use snos.Base.HashMap
use snos.Base.HashMap.{HashMap, nat_eq}
use snos.Io.Output.{ContractChanges, StarknetOsOutput, is_zero}

-- An entry of a state diff: a storage cell, or a class.
pub record Update : Type 0 where
  pub key : ℕ
  pub prev_value : ℕ
  pub new_value : ℕ

pub record Contract : Type 0 where
  pub addr : ℕ
  pub nonce : ℕ
  pub class_updated : Bool
  pub prev_class_hash : ℕ
  pub new_class_hash : ℕ
  pub updates : List Update

-- The previous values are written only in full output.
unfoldable pub encode_update : ℕ → Update → List ℕ
encode_update full_output u =
    if is_zero full_output
    then u.key ∷ u.new_value ∷ []
    else u.key ∷ u.prev_value ∷ u.new_value ∷ []

unfoldable pub encode_updates : ℕ → List Update → List ℕ
encode_updates full_output [] = []
encode_updates full_output (u ∷ us) = encode_update full_output u ++ encode_updates full_output us

abbrev pub flag : Bool → ℕ
flag true = 1
flag false = 0

-- The flag, the nonce and the number of updates share a felt, 64 bits for each of the last two.
unfoldable pub pack : Contract → ℕ
pack c = (flag c.class_updated * 2 ^ 64 + c.nonce) * 2 ^ 64 + length c.updates

unfoldable pub encode_class_hash : ℕ → Contract → List ℕ
encode_class_hash full_output c =
    if is_zero full_output
    then (if c.class_updated then c.new_class_hash ∷ [] else [])
    else c.prev_class_hash ∷ c.new_class_hash ∷ []

unfoldable pub encode_contract : ℕ → Contract → List ℕ
encode_contract full_output c =
    c.addr ∷ pack c ∷ (encode_class_hash full_output c ++ encode_updates full_output c.updates)

unfoldable pub encode_contracts : ℕ → List Contract → List ℕ
encode_contracts full_output [] = []
encode_contracts full_output (c ∷ cs) =
    encode_contract full_output c ++ encode_contracts full_output cs

-- The nonce and the number of updates fit their 64 bits.
pub record Fits (c : Contract) : Type 0 where
  pub nonce : c.nonce < 2 ^ 64
  pub updates : length c.updates < 2 ^ 64

abbrev pub pairs : List Update → List (ℕ × ℕ)
pairs [] = []
pairs (u ∷ us) = (u.key, u.new_value) ∷ pairs us

-- What a reader is to make of a contract's entry.
abbrev pub class_hash : ℕ → Contract → Option ℕ
class_hash full_output c =
    if is_zero full_output
    then (if c.class_updated then some c.new_class_hash else none)
    else some c.new_class_hash

abbrev pub changes : ℕ → Contract → ContractChanges
changes full_output c = record {
  addr = c.addr;
  nonce = c.nonce;
  class_hash = class_hash full_output c;
  storage_changes = HashMap.collect_into [] (pairs c.updates);
}

pub record Wire : Type 0 where
  pub initial_root : ℕ
  pub final_root : ℕ
  pub prev_block_number : ℕ
  pub new_block_number : ℕ
  pub prev_block_hash : ℕ
  pub new_block_hash : ℕ
  pub os_program_hash : ℕ
  pub starknet_os_config_hash : ℕ
  pub use_kzg_da : ℕ
  pub full_output : ℕ
  -- a felt, and the commitments and evaluations
  pub kzg_z : ℕ
  pub n_blobs : ℕ
  pub kzg_data : List ℕ
  pub messages_to_l1 : List ℕ
  pub messages_to_l2 : List ℕ
  pub contracts : List Contract
  pub classes : List Update

unfoldable pub encode_header : Wire → List ℕ
encode_header w =
    w.initial_root ∷ w.final_root ∷ w.prev_block_number ∷ w.new_block_number ∷ w.prev_block_hash
    ∷ w.new_block_hash ∷ w.os_program_hash ∷ w.starknet_os_config_hash ∷ w.use_kzg_da
    ∷ w.full_output ∷ []

unfoldable pub encode_kzg : Wire → List ℕ
encode_kzg w = if is_zero w.use_kzg_da then [] else w.kzg_z ∷ w.n_blobs ∷ w.kzg_data

abbrev pub encode_segment : List ℕ → List ℕ
encode_segment xs = length xs ∷ xs

-- With KZG data availability the state diff is not in the output.
unfoldable pub encode_state_diff : Wire → List ℕ
encode_state_diff w =
    if is_zero w.use_kzg_da
    then (length w.contracts
        ∷ (encode_contracts w.full_output w.contracts
            ++ length w.classes ∷ encode_updates w.full_output w.classes))
    else []

unfoldable pub encode : Wire → List ℕ
encode w =
    encode_header w
    ++ (encode_kzg w
        ++ (encode_segment w.messages_to_l1
            ++ (encode_segment w.messages_to_l2 ++ encode_state_diff w)))

-- The counts are those of their sections, and each fits a `usize`.
pub record IsValid (w : Wire) : Type 0 where
  pub blobs : 4 * w.n_blobs < 2 ^ 64
  pub kzg : length w.kzg_data ≡ 4 * w.n_blobs
  pub to_l1 : length w.messages_to_l1 < 2 ^ 64
  pub to_l2 : length w.messages_to_l2 < 2 ^ 64
  pub n_contracts : length w.contracts < 2 ^ 64
  pub n_classes : length w.classes < 2 ^ 64
  pub fits : All Fits w.contracts

abbrev pub contracts_of : Wire → List ContractChanges
contracts_of w = if is_zero w.use_kzg_da then map (changes w.full_output) w.contracts else []

abbrev pub classes_of : Wire → HashMap ℕ ℕ
classes_of w = if is_zero w.use_kzg_da then HashMap.collect_into [] (pairs w.classes) else []

abbrev pub output_of : Wire → StarknetOsOutput
output_of w = record {
  initial_root = w.initial_root;
  final_root = w.final_root;
  prev_block_number = w.prev_block_number;
  new_block_number = w.new_block_number;
  prev_block_hash = w.prev_block_hash;
  new_block_hash = w.new_block_hash;
  os_program_hash = w.os_program_hash;
  starknet_os_config_hash = w.starknet_os_config_hash;
  use_kzg_da = w.use_kzg_da;
  full_output = w.full_output;
  messages_to_l1 = w.messages_to_l1;
  messages_to_l2 = w.messages_to_l2;
  contracts = contracts_of w;
  classes = classes_of w;
}
