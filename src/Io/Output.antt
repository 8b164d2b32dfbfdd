-- ===== src/Io/Output.antt =====
-- crates/starknet-os/src/io/output.rs: the OS output, from the felts that the run wrote.
-- `Vec::with_capacity` and `HashMap::with_capacity` reserve memory and are not modelled; the
-- product `2 * 2 * n_blobs` wraps as in a release build.
pub mod Wire
pub mod RoundTrip
use snos.Base.{
  ℕ, zero, suc, ◌+◌, ◌*◌, ◌/◌, ◌%◌, ◌^◌, String, Bool, Option, none, some, List, [], ◌∷◌, ◌++◌,
  ◌==◌, ltb, if◌then◌else◌,
}
use snos.Base.Outcome.{Outcome, panicked, index}
use snos.Base.HashMap
use snos.Base.HashMap.{HashMap, nat_eq}
use snos.Io.Reader.{
  Name, name, name_at, Reader, pure, lift, ◌>>=◌, ◌>>◌, usize_bound, next_or_fail, next_as_usize,
  take_up_to, read_segment,
}

abbrev pub header_size : ℕ
header_size = 10

pub record ContractChanges : Type 0 where
  pub addr : ℕ
  pub nonce : ℕ
  pub class_hash : Option ℕ
  pub storage_changes : HashMap ℕ ℕ

pub record StarknetOsOutput : Type 0 where
  pub initial_root : ℕ
  pub final_root : ℕ
  pub prev_block_number : ℕ
  pub new_block_number : ℕ
  pub prev_block_hash : ℕ
  pub new_block_hash : ℕ
  pub os_program_hash : ℕ
  pub starknet_os_config_hash : ℕ
  pub use_kzg_da : ℕ
  pub full_output : ℕ
  pub messages_to_l1 : List ℕ
  pub messages_to_l2 : List ℕ
  pub contracts : List ContractChanges
  pub classes : HashMap ℕ ℕ

abbrev pub is_zero : ℕ → Bool
is_zero felt = felt == 0

-- A felt that is read only if `full_output` is set, and dropped.
unfoldable pub skip_if_full : ℕ → Name → Reader (Unit {0})
skip_if_full full_output item =
    if is_zero full_output then pure tt else (do next_or_fail item; pure tt)

-- The two loops `for i in 0..n` that fill a map: `left` rounds are left, `i` is the index.
unfoldable pub deserialize_map :
    String → String → String → ℕ → (left i : ℕ) → HashMap ℕ ℕ → Reader (HashMap ℕ ℕ)
deserialize_map key_name prev_name value_name full_output zero i changes = pure changes
deserialize_map key_name prev_name value_name full_output (suc left) i changes = do
  key ← next_or_fail (name_at key_name i)
  skip_if_full full_output (name_at prev_name i)
  new_value ← next_or_fail (name_at value_name i)
  deserialize_map key_name prev_name value_name full_output left (i + 1)
      (HashMap.insert key new_value changes)

unfoldable pub deserialize_da_changes : ℕ → ℕ → Reader (HashMap ℕ ℕ)
deserialize_da_changes n_updates full_output =
    deserialize_map "contract change key" "contract change prev_value" "contract change new_value"
      full_output n_updates 0 []

unfoldable pub deserialize_class_hash : ℕ → ℕ → Reader (Option ℕ)
deserialize_class_hash full_output was_class_updated =
    if is_zero full_output
    then (if is_zero was_class_updated then pure none else (do
      class_hash ← next_or_fail (name "contract change new_state.class_hash")
      pure (some class_hash)))
    else (do
      next_or_fail (name "contract change prev_state.class_hash")
      class_hash ← next_or_fail (name "contract change new_state.class_hash")
      pure (some class_hash))

-- `n_actual_updates` is a remainder modulo 2 ^ 64, so that its `expect` cannot panic.
unfoldable pub deserialize_contract_state_inner : ℕ → Reader ContractChanges
deserialize_contract_state_inner full_output = do
  addr ← next_or_fail (name "contract change addr")
  value ← next_or_fail (name "contract change value")
  let n_actual_updates = value % 2 ^ 64
  let was_class_updated = value / 2 ^ 64 / 2 ^ 64
  let new_state_nonce = value / 2 ^ 64 % 2 ^ 64
  class_hash ← deserialize_class_hash full_output was_class_updated
  storage_changes ← deserialize_da_changes n_actual_updates full_output
  pure (record {
    addr = addr;
    nonce = new_state_nonce;
    class_hash = class_hash;
    storage_changes = storage_changes;
  })

-- `for _ in 0..output_n_updates`
unfoldable pub deserialize_contracts : ℕ → ℕ → List ContractChanges → Reader (List ContractChanges)
deserialize_contracts full_output zero contract_changes = pure contract_changes
deserialize_contracts full_output (suc left) contract_changes = do
  change ← deserialize_contract_state_inner full_output
  deserialize_contracts full_output left (contract_changes ++ change ∷ [])

unfoldable pub deserialize_contract_state : ℕ → Reader (List ContractChanges)
deserialize_contract_state full_output = do
  output_n_updates ← next_as_usize "output_n_updates"
  deserialize_contracts full_output output_n_updates []

unfoldable pub deserialize_contract_class_da_changes : ℕ → Reader (HashMap ℕ ℕ)
deserialize_contract_class_da_changes full_output = do
  n_actual_updates ← next_as_usize "n_actual_updates"
  deserialize_map "class hash" "previous compiled class hash" "compiled class hash" full_output
      n_actual_updates 0 []

unfoldable pub read_variable_length_segment : String → Reader (List ℕ)
read_variable_length_segment item = do n_items ← next_as_usize item; read_segment n_items item

unfoldable pub deserialize_messages : Reader (List ℕ × List ℕ)
deserialize_messages = do
  messages_to_l1 ← read_variable_length_segment "L1 messages"
  messages_to_l2 ← read_variable_length_segment "L2 messages"
  pure (messages_to_l1, messages_to_l2)

unfoldable pub skip_blobs : ℕ → Reader (Unit {0})
skip_blobs n_blobs =
    if ltb n_blobs usize_bound
    then (do take_up_to (2 * 2 * n_blobs % usize_bound); pure tt)
    else lift panicked

-- The KZG commitments and evaluations are skipped. A missing number of blobs, and one that is no
-- `usize`, panic.
unfoldable pub skip_kzg_segment : ℕ → Reader (Unit {0})
skip_kzg_segment use_kzg_da =
    if is_zero use_kzg_da
    then pure tt
    else (do kzg_segment ← take_up_to 2; n_blobs ← lift (index kzg_segment 1); skip_blobs n_blobs)

unfoldable pub deserialize_state_diff : ℕ → ℕ → Reader (List ContractChanges × HashMap ℕ ℕ)
deserialize_state_diff use_kzg_da full_output =
    if is_zero use_kzg_da
    then (do
      contracts ← deserialize_contract_state full_output
      classes ← deserialize_contract_class_da_changes full_output
      pure (contracts, classes))
    else pure ([], [])

unfoldable pub deserialize_os_output : Reader StarknetOsOutput
deserialize_os_output = do
  header ← read_segment header_size "header elements"
  use_kzg_da ← lift (index header 8)
  full_output ← lift (index header 9)
  skip_kzg_segment use_kzg_da
  messages ← deserialize_messages
  diff ← deserialize_state_diff use_kzg_da full_output
  initial_root ← lift (index header 0)
  final_root ← lift (index header 1)
  prev_block_number ← lift (index header 2)
  new_block_number ← lift (index header 3)
  prev_block_hash ← lift (index header 4)
  new_block_hash ← lift (index header 5)
  os_program_hash ← lift (index header 6)
  config_hash ← lift (index header 7)
  pure (record {
    initial_root = initial_root;
    final_root = final_root;
    prev_block_number = prev_block_number;
    new_block_number = new_block_number;
    prev_block_hash = prev_block_hash;
    new_block_hash = new_block_hash;
    os_program_hash = os_program_hash;
    starknet_os_config_hash = config_hash;
    use_kzg_da = use_kzg_da;
    full_output = full_output;
    messages_to_l1 = messages.0;
    messages_to_l2 = messages.1;
    contracts = diff.0;
    classes = diff.1;
  })
