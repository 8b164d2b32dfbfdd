-- ===== src/Execution/Selector.antt =====
-- `SyscallSelector` of crates/starknet-os/src/execution/syscall_handler_utils.rs. The arms of the
-- match are a table of the names in their order.
pub mod Names
pub mod Felts
use snos.Base.{ℕ, Bool, true, false, List, [], ◌∷◌, ◌==◌, if◌then◌else◌}
use snos.Base.Outcome.{Outcome, ok, err}
use snos.CommitmentTree.Bytes.{Bytes, bytes_eq}

pub data SyscallSelector : Type 0 where
  call_contract delegate_call delegate_l1_handler deploy emit_event get_block_hash get_block_number
        get_block_timestamp get_caller_address get_contract_address get_execution_info
        get_sequencer_address get_tx_info get_tx_signature keccak library_call
        library_call_l1_handler replace_class sha256_process_block secp256k1_add
        secp256k1_get_point_from_x secp256k1_get_xy secp256k1_mul secp256k1_new secp256r1_add
        secp256r1_get_point_from_x secp256r1_get_xy secp256r1_mul secp256r1_new send_message_to_l1
        storage_read storage_write :
      SyscallSelector

-- The byte string that stands for a selector.
abbrev pub selector_name : SyscallSelector → Bytes
selector_name call_contract =
    b'C' ∷ b'a' ∷ b'l' ∷ b'l' ∷ b'C' ∷ b'o' ∷ b'n' ∷ b't' ∷ b'r' ∷ b'a' ∷ b'c' ∷ b't' ∷ []
selector_name delegate_call =
    b'D' ∷ b'e' ∷ b'l' ∷ b'e' ∷ b'g' ∷ b'a' ∷ b't' ∷ b'e' ∷ b'C' ∷ b'a' ∷ b'l' ∷ b'l' ∷ []
selector_name delegate_l1_handler =
    b'D' ∷ b'e' ∷ b'l' ∷ b'e' ∷ b'g' ∷ b'a' ∷ b't' ∷ b'e' ∷ b'L' ∷ b'1' ∷ b'H' ∷ b'a' ∷ b'n' ∷ b'd'
    ∷ b'l' ∷ b'e' ∷ b'r' ∷ []
selector_name deploy = b'D' ∷ b'e' ∷ b'p' ∷ b'l' ∷ b'o' ∷ b'y' ∷ []
selector_name emit_event = b'E' ∷ b'm' ∷ b'i' ∷ b't' ∷ b'E' ∷ b'v' ∷ b'e' ∷ b'n' ∷ b't' ∷ []
selector_name get_block_hash =
    b'G' ∷ b'e' ∷ b't' ∷ b'B' ∷ b'l' ∷ b'o' ∷ b'c' ∷ b'k' ∷ b'H' ∷ b'a' ∷ b's' ∷ b'h' ∷ []
selector_name get_block_number =
    b'G' ∷ b'e' ∷ b't' ∷ b'B' ∷ b'l' ∷ b'o' ∷ b'c' ∷ b'k' ∷ b'N' ∷ b'u' ∷ b'm' ∷ b'b' ∷ b'e' ∷ b'r'
    ∷ []
selector_name get_block_timestamp =
    b'G' ∷ b'e' ∷ b't' ∷ b'B' ∷ b'l' ∷ b'o' ∷ b'c' ∷ b'k' ∷ b'T' ∷ b'i' ∷ b'm' ∷ b'e' ∷ b's' ∷ b't'
    ∷ b'a' ∷ b'm' ∷ b'p' ∷ []
selector_name get_caller_address =
    b'G' ∷ b'e' ∷ b't' ∷ b'C' ∷ b'a' ∷ b'l' ∷ b'l' ∷ b'e' ∷ b'r' ∷ b'A' ∷ b'd' ∷ b'd' ∷ b'r' ∷ b'e'
    ∷ b's' ∷ b's' ∷ []
selector_name get_contract_address =
    b'G' ∷ b'e' ∷ b't' ∷ b'C' ∷ b'o' ∷ b'n' ∷ b't' ∷ b'r' ∷ b'a' ∷ b'c' ∷ b't' ∷ b'A' ∷ b'd' ∷ b'd'
    ∷ b'r' ∷ b'e' ∷ b's' ∷ b's' ∷ []
selector_name get_execution_info =
    b'G' ∷ b'e' ∷ b't' ∷ b'E' ∷ b'x' ∷ b'e' ∷ b'c' ∷ b'u' ∷ b't' ∷ b'i' ∷ b'o' ∷ b'n' ∷ b'I' ∷ b'n'
    ∷ b'f' ∷ b'o' ∷ []
selector_name get_sequencer_address =
    b'G' ∷ b'e' ∷ b't' ∷ b'S' ∷ b'e' ∷ b'q' ∷ b'u' ∷ b'e' ∷ b'n' ∷ b'c' ∷ b'e' ∷ b'r' ∷ b'A' ∷ b'd'
    ∷ b'd' ∷ b'r' ∷ b'e' ∷ b's' ∷ b's' ∷ []
selector_name get_tx_info = b'G' ∷ b'e' ∷ b't' ∷ b'T' ∷ b'x' ∷ b'I' ∷ b'n' ∷ b'f' ∷ b'o' ∷ []
selector_name get_tx_signature =
    b'G' ∷ b'e' ∷ b't' ∷ b'T' ∷ b'x' ∷ b'S' ∷ b'i' ∷ b'g' ∷ b'n' ∷ b'a' ∷ b't' ∷ b'u' ∷ b'r' ∷ b'e'
    ∷ []
selector_name keccak = b'K' ∷ b'e' ∷ b'c' ∷ b'c' ∷ b'a' ∷ b'k' ∷ []
selector_name library_call =
    b'L' ∷ b'i' ∷ b'b' ∷ b'r' ∷ b'a' ∷ b'r' ∷ b'y' ∷ b'C' ∷ b'a' ∷ b'l' ∷ b'l' ∷ []
selector_name library_call_l1_handler =
    b'L' ∷ b'i' ∷ b'b' ∷ b'r' ∷ b'a' ∷ b'r' ∷ b'y' ∷ b'C' ∷ b'a' ∷ b'l' ∷ b'l' ∷ b'L' ∷ b'1' ∷ b'H'
    ∷ b'a' ∷ b'n' ∷ b'd' ∷ b'l' ∷ b'e' ∷ b'r' ∷ []
selector_name replace_class =
    b'R' ∷ b'e' ∷ b'p' ∷ b'l' ∷ b'a' ∷ b'c' ∷ b'e' ∷ b'C' ∷ b'l' ∷ b'a' ∷ b's' ∷ b's' ∷ []
selector_name sha256_process_block =
    b'S' ∷ b'h' ∷ b'a' ∷ b'2' ∷ b'5' ∷ b'6' ∷ b'P' ∷ b'r' ∷ b'o' ∷ b'c' ∷ b'e' ∷ b's' ∷ b's' ∷ b'B'
    ∷ b'l' ∷ b'o' ∷ b'c' ∷ b'k' ∷ []
selector_name secp256k1_add =
    b'S' ∷ b'e' ∷ b'c' ∷ b'p' ∷ b'2' ∷ b'5' ∷ b'6' ∷ b'k' ∷ b'1' ∷ b'A' ∷ b'd' ∷ b'd' ∷ []
selector_name secp256k1_get_point_from_x =
    b'S' ∷ b'e' ∷ b'c' ∷ b'p' ∷ b'2' ∷ b'5' ∷ b'6' ∷ b'k' ∷ b'1' ∷ b'G' ∷ b'e' ∷ b't' ∷ b'P' ∷ b'o'
    ∷ b'i' ∷ b'n' ∷ b't' ∷ b'F' ∷ b'r' ∷ b'o' ∷ b'm' ∷ b'X' ∷ []
selector_name secp256k1_get_xy =
    b'S' ∷ b'e' ∷ b'c' ∷ b'p' ∷ b'2' ∷ b'5' ∷ b'6' ∷ b'k' ∷ b'1' ∷ b'G' ∷ b'e' ∷ b't' ∷ b'X' ∷ b'y'
    ∷ []
selector_name secp256k1_mul =
    b'S' ∷ b'e' ∷ b'c' ∷ b'p' ∷ b'2' ∷ b'5' ∷ b'6' ∷ b'k' ∷ b'1' ∷ b'M' ∷ b'u' ∷ b'l' ∷ []
selector_name secp256k1_new =
    b'S' ∷ b'e' ∷ b'c' ∷ b'p' ∷ b'2' ∷ b'5' ∷ b'6' ∷ b'k' ∷ b'1' ∷ b'N' ∷ b'e' ∷ b'w' ∷ []
selector_name secp256r1_add =
    b'S' ∷ b'e' ∷ b'c' ∷ b'p' ∷ b'2' ∷ b'5' ∷ b'6' ∷ b'r' ∷ b'1' ∷ b'A' ∷ b'd' ∷ b'd' ∷ []
selector_name secp256r1_get_point_from_x =
    b'S' ∷ b'e' ∷ b'c' ∷ b'p' ∷ b'2' ∷ b'5' ∷ b'6' ∷ b'r' ∷ b'1' ∷ b'G' ∷ b'e' ∷ b't' ∷ b'P' ∷ b'o'
    ∷ b'i' ∷ b'n' ∷ b't' ∷ b'F' ∷ b'r' ∷ b'o' ∷ b'm' ∷ b'X' ∷ []
selector_name secp256r1_get_xy =
    b'S' ∷ b'e' ∷ b'c' ∷ b'p' ∷ b'2' ∷ b'5' ∷ b'6' ∷ b'r' ∷ b'1' ∷ b'G' ∷ b'e' ∷ b't' ∷ b'X' ∷ b'y'
    ∷ []
selector_name secp256r1_mul =
    b'S' ∷ b'e' ∷ b'c' ∷ b'p' ∷ b'2' ∷ b'5' ∷ b'6' ∷ b'r' ∷ b'1' ∷ b'M' ∷ b'u' ∷ b'l' ∷ []
selector_name secp256r1_new =
    b'S' ∷ b'e' ∷ b'c' ∷ b'p' ∷ b'2' ∷ b'5' ∷ b'6' ∷ b'r' ∷ b'1' ∷ b'N' ∷ b'e' ∷ b'w' ∷ []
selector_name send_message_to_l1 =
    b'S' ∷ b'e' ∷ b'n' ∷ b'd' ∷ b'M' ∷ b'e' ∷ b's' ∷ b's' ∷ b'a' ∷ b'g' ∷ b'e' ∷ b'T' ∷ b'o' ∷ b'L'
    ∷ b'1' ∷ []
selector_name storage_read =
    b'S' ∷ b't' ∷ b'o' ∷ b'r' ∷ b'a' ∷ b'g' ∷ b'e' ∷ b'R' ∷ b'e' ∷ b'a' ∷ b'd' ∷ []
selector_name storage_write =
    b'S' ∷ b't' ∷ b'o' ∷ b'r' ∷ b'a' ∷ b'g' ∷ b'e' ∷ b'W' ∷ b'r' ∷ b'i' ∷ b't' ∷ b'e' ∷ []

abbrev pub selectors : List SyscallSelector
selectors =
    call_contract ∷ delegate_call ∷ delegate_l1_handler ∷ deploy ∷ emit_event ∷ get_block_hash
    ∷ get_block_number ∷ get_block_timestamp ∷ get_caller_address ∷ get_contract_address
    ∷ get_execution_info ∷ get_sequencer_address ∷ get_tx_info ∷ get_tx_signature ∷ keccak
    ∷ library_call ∷ library_call_l1_handler ∷ replace_class ∷ sha256_process_block ∷ secp256k1_add
    ∷ secp256k1_get_point_from_x ∷ secp256k1_get_xy ∷ secp256k1_mul ∷ secp256k1_new ∷ secp256r1_add
    ∷ secp256r1_get_point_from_x ∷ secp256r1_get_xy ∷ secp256r1_mul ∷ secp256r1_new
    ∷ send_message_to_l1 ∷ storage_read ∷ storage_write ∷ []

-- The bytes from the first that is not 0.
unfoldable pub remove_leading_zeros : Bytes → Bytes
remove_leading_zeros [] = []
remove_leading_zeros (x ∷ xs) =
    let rest = remove_leading_zeros xs in if x == 0 then rest else x ∷ xs

unfoldable pub match_selector : Bytes → Bytes → List SyscallSelector → Outcome Bytes SyscallSelector
match_selector raw bytes [] = err raw
match_selector raw bytes (s ∷ ss) =
    let rest = match_selector raw bytes ss in
    if bytes_eq bytes (selector_name s) then ok s else rest

-- `TryFrom<Felt252>`, from the 32 bytes of the felt; the error carries them.
unfoldable pub try_from : Bytes → Outcome Bytes SyscallSelector
try_from selector_bytes =
    match_selector selector_bytes (remove_leading_zeros selector_bytes) selectors
