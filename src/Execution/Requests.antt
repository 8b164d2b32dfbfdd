-- ===== src/Execution/Requests.antt =====
-- The requests and responses of crates/starknet-os/src/execution/syscall_handler.rs, as they are read
-- and written. A request of no value gives the unit.
pub mod Sizes
use snos.Base.{
  ℕ, ◌+◌, ◌*◌, ◌/◌, ◌%◌, ◌^◌, Bool, true, false, ◌==◌, if◌then◌else◌, Option, none, some,
}
use snos.Base.Outcome.{Outcome, ok, err, panicked, ◌>>=◌}
use snos.Execution.Vm.{VirtualMachine, relocatable_value}
use snos.Execution.Exec.{invalid_address_domain, invalid_syscall_input, SyscallResult, vm_ok}
use snos.Execution.Syscall.{
  ReadOnlySegment, advance, felt_from_ptr, relocatable_from_ptr, write_felt,
  write_maybe_relocatable, write_segment,
}

-- `cairo_size()` of the requests: the number of their fields.
abbrev pub call_contract_request_size : ℕ
call_contract_request_size = 4

abbrev pub deploy_request_size : ℕ
deploy_request_size = 5

abbrev pub emit_event_request_size : ℕ
emit_event_request_size = 4

abbrev pub get_block_hash_request_size : ℕ
get_block_hash_request_size = 1

abbrev pub library_call_request_size : ℕ
library_call_request_size = 4

abbrev pub send_message_to_l1_request_size : ℕ
send_message_to_l1_request_size = 3

abbrev pub storage_read_request_size : ℕ
storage_read_request_size = 2

abbrev pub storage_write_request_size : ℕ
storage_write_request_size = 3

abbrev pub replace_class_request_size : ℕ
replace_class_request_size = 1

pub record DeployResponse (Ptr : Type 0) : Type 0 where
  pub contract_address : ℕ
  pub constructor_retdata : ReadOnlySegment Ptr
  pub need_retdata_hack : Bool

module _ {Vm Ptr : Type 0} (v : VirtualMachine Vm Ptr) where
  -- `*ptr = (*ptr + size)?`
  unfoldable pub skip_request : ℕ → Vm → Ptr → SyscallResult (Unit {0} × Ptr)
  skip_request size m ptr = advance v ptr size >>= λ next. ok (tt, next)

  unfoldable pub read_block_number : Vm → Ptr → SyscallResult (ℕ × Ptr)
  read_block_number m ptr = vm_ok (v.get_integer m ptr) >>= λ block_number.
      advance v ptr get_block_hash_request_size >>= λ next. ok (block_number, next)

  unfoldable pub read_address_domain : ℕ → Vm → Ptr → SyscallResult (Unit {0} × Ptr)
  read_address_domain size m ptr = vm_ok (v.get_integer m ptr) >>= λ address_domain.
      if address_domain == 0
      then skip_request size m ptr
      else err (invalid_address_domain address_domain)

  -- Two pointers, in the requests of `Keccak`, `Sha256ProcessBlock` and of a sum of points.
  unfoldable pub read_two_pointers : Vm → Ptr → SyscallResult ((Ptr × Ptr) × Ptr)
  read_two_pointers m ptr = do
    (first, ptr) ← relocatable_from_ptr v m ptr
    (second, ptr) ← relocatable_from_ptr v m ptr
    ok ((first, second), ptr)

  abbrev pub write_nothing : Unit {0} → Vm → Ptr → SyscallResult (Vm × Ptr)
  write_nothing response m ptr = ok (m, ptr)

  -- The low and the high part of a hash.
  unfoldable pub write_two_felts : ℕ × ℕ → Vm → Ptr → SyscallResult (Vm × Ptr)
  write_two_felts (low, high) m ptr = do (m, ptr) ← write_felt v low m ptr; write_felt v high m ptr

  abbrev pub write_pointer : Ptr → Vm → Ptr → SyscallResult (Vm × Ptr)
  write_pointer p m ptr = write_maybe_relocatable v (relocatable_value p) m ptr

  -- No pointer to no data, as the Cairo code of the OS has 0 there.
  unfoldable pub write_deploy_response : DeployResponse Ptr → Vm → Ptr → SyscallResult (Vm × Ptr)
  write_deploy_response response m ptr = do
    (m, ptr) ← write_felt v response.contract_address m ptr
    (if response.need_retdata_hack
        then write_two_felts (0, 0) m ptr
        else write_segment v response.constructor_retdata m ptr)

-- crates/starknet-os/src/execution/secp_handler.rs
unfoldable pub pack : ℕ → ℕ → ℕ
pack low high = high * 2 ^ 128 + low

unfoldable pub felt_to_bool : ℕ → SyscallResult Bool
felt_to_bool felt =
    if felt == 0
    then ok false
    else (if felt == 1 then ok true else err (invalid_syscall_input felt))

module _ {Vm Ptr : Type 0} (v : VirtualMachine Vm Ptr) where
  unfoldable pub read_u256 : Vm → Ptr → SyscallResult (ℕ × Ptr)
  read_u256 m ptr = do
    (low, ptr) ← felt_from_ptr v m ptr
    (high, ptr) ← felt_from_ptr v m ptr
    ok (pack low high, ptr)

  unfoldable pub read_new : Vm → Ptr → SyscallResult ((ℕ × ℕ) × Ptr)
  read_new m ptr = do (x, ptr) ← read_u256 m ptr; (y, ptr) ← read_u256 m ptr; ok ((x, y), ptr)

  unfoldable pub read_get_point_from_x : Vm → Ptr → SyscallResult ((ℕ × Bool) × Ptr)
  read_get_point_from_x m ptr = do
    (x, ptr) ← read_u256 m ptr
    (felt, ptr) ← felt_from_ptr v m ptr
    y_parity ← felt_to_bool felt
    ok ((x, y_parity), ptr)

  unfoldable pub read_mul : Vm → Ptr → SyscallResult ((Ptr × ℕ) × Ptr)
  read_mul m ptr = do
    (ec_point_id, ptr) ← relocatable_from_ptr v m ptr
    (scalar, ptr) ← read_u256 m ptr
    ok ((ec_point_id, scalar), ptr)

  unfoldable pub write_optional_point : Option Ptr → Vm → Ptr → SyscallResult (Vm × Ptr)
  write_optional_point (some id) m ptr = do
    (m, ptr) ← write_felt v 0 m ptr
    write_pointer v id m ptr
  write_optional_point none m ptr = do (m, ptr) ← write_felt v 1 m ptr; write_felt v 0 m ptr

  unfoldable pub write_u256 : ℕ → Vm → Ptr → SyscallResult (Vm × Ptr)
  write_u256 value m ptr = do
    (m, ptr) ← write_felt v (value % 2 ^ 128) m ptr
    write_felt v (value / 2 ^ 128) m ptr

  unfoldable pub write_coordinates : ℕ × ℕ → Vm → Ptr → SyscallResult (Vm × Ptr)
  write_coordinates (x, y) m ptr = do (m, ptr) ← write_u256 x m ptr; write_u256 y m ptr
