-- ===== src/Execution/OsSyscallHandler.antt =====
-- `OsSyscallHandlerWrapper` of crates/starknet-os/src/execution/syscall_handler.rs, which runs a
-- system call by its selector. The segments of the handler are never read. The lock is held by one
-- call at a time.
pub mod Sized
pub mod Points
pub mod Hashed
pub mod Executed
pub mod Replays
pub mod StorageReads
use snos.Base.{ℕ, Bool, true, false, if◌then◌else◌, Option, none, some, List}
use snos.Base.Outcome.{Outcome, ok, err, panicked, ◌>>=◌, map_err}
use snos.CommitmentTree.Bytes.{Bytes}
use snos.Execution.Vm.{VirtualMachine}
use snos.Execution.Helper.{PerContractStorage}
use snos.Execution.Selector.{
  SyscallSelector, call_contract, deploy, emit_event, get_block_hash, get_execution_info, keccak,
  library_call, library_call_l1_handler, replace_class, sha256_process_block, secp256k1_add,
  secp256k1_get_point_from_x, secp256k1_get_xy, secp256k1_mul, secp256k1_new, secp256r1_add,
  secp256r1_get_point_from_x, secp256r1_get_xy, secp256r1_mul, secp256r1_new, send_message_to_l1,
  storage_read, storage_write, try_from,
}
use snos.Execution.Exec.{SyscallExecutionError, internal_error, SyscallResult}
use snos.Execution.Syscall.{SyscallHandler, felt_from_ptr, run_handler}
use snos.Execution.State.{Packages, SecpSyscallProcessor, SyscallHelper}
use snos.Execution.Handlers.{
  ClassFormats, call_contract_handler, deploy_handler, emit_event_handler, replace_class_handler,
  send_message_to_l1_handler, get_block_hash_handler, get_execution_info_handler,
  library_call_handler, storage_read_handler, storage_write_handler,
}
use snos.Execution.Hashing.{Hashes, keccak_handler, sha256_process_block_handler}
use snos.Execution.Secp.{
  SecpHintProcessor, GetSecpSyscallHandler, secp_new_handler, secp_get_point_from_x_handler,
  secp_mul_handler, secp_add_handler, secp_get_xy_handler,
}
use snos.Execution.GasCosts.{
  call_contract_gas_cost, deploy_gas_cost, emit_event_gas_cost, get_block_hash_gas_cost,
  get_execution_info_gas_cost, keccak_gas_cost, library_call_gas_cost, replace_class_gas_cost,
  sha256_process_block_gas_cost, secp256k1_add_gas_cost, secp256k1_get_point_from_x_gas_cost,
  secp256k1_get_xy_gas_cost, secp256k1_mul_gas_cost, secp256k1_new_gas_cost, secp256r1_add_gas_cost,
  secp256r1_get_point_from_x_gas_cost, secp256r1_get_xy_gas_cost, secp256r1_mul_gas_cost,
  secp256r1_new_gas_cost, send_message_to_l1_gas_cost, storage_read_gas_cost,
  storage_write_gas_cost,
}

pub data HintError : Type 0 where
  no_syscall_ptr vm_error unknown_syscall_selector : HintError
  syscall_execution_error : SyscallExecutionError → HintError

pub record OsSyscallHandler (Ptr : Type 0) (P : Packages) : Type 0 where
  pub exec_wrapper : SyscallHelper Ptr P
  pub syscall_ptr : Option Ptr

-- The code of other packages that system calls run.
pub record Runtime (Vm Ptr : Type 0) (P : Packages) : Type 0 where
  pub vm : VirtualMachine Vm Ptr
  -- `==` of pointers
  pub same : Ptr → Ptr → Bool
  -- `Felt252::to_bytes_be`
  pub to_bytes_be : ℕ → Bytes
  pub storages : PerContractStorage P.PCS
  pub formats : ClassFormats P.Casm P.Deprecated
  pub hashes : Hashes
  pub secp256k1 : SecpHintProcessor P.Secp256k1
  pub secp256r1 : SecpHintProcessor P.Secp256r1

module _ {Ptr : Type 0} where
  -- `ok_or` and `assert_eq!`
  abbrev pub expected_ptr : (Ptr → Ptr → Bool) → Ptr → Option Ptr → Outcome HintError Ptr
  expected_ptr same expected none = err no_syscall_ptr
  expected_ptr same expected (some ptr) = if same ptr expected then ok ptr else panicked

module _ {Ptr : Type 0} {P : Packages} where
  -- `OsSyscallHandlerWrapper::new`
  abbrev pub new_handler : SyscallHelper Ptr P → OsSyscallHandler Ptr P
  new_handler exec_wrapper = record { exec_wrapper = exec_wrapper; syscall_ptr = none }

  abbrev pub set_syscall_ptr : Ptr → OsSyscallHandler Ptr P → OsSyscallHandler Ptr P
  set_syscall_ptr ptr h = record h { syscall_ptr = some ptr }

  abbrev pub set_sha256_segment : Ptr → OsSyscallHandler Ptr P → OsSyscallHandler Ptr P
  set_sha256_segment segment h = record h {
    exec_wrapper = record (h.exec_wrapper) { sha256_segment = some segment };
  }

  unfoldable pub validate_and_discard_syscall_ptr :
      (Ptr → Ptr → Bool) → Ptr → OsSyscallHandler Ptr P → Outcome HintError (OsSyscallHandler Ptr P)
  validate_and_discard_syscall_ptr same syscall_ptr_end h =
      expected_ptr same syscall_ptr_end h.syscall_ptr >>= λ ptr. ok record h { syscall_ptr = none }

  -- `get_secp_handler` for the two curves
  abbrev pub k1_handler : GetSecpSyscallHandler (SyscallHelper Ptr P) P.Secp256k1 Ptr
  k1_handler = record {
    get_secp_handler = λ h. h.secp256k1_syscall_processor;
    set_secp_handler = λ p h. record h { secp256k1_syscall_processor = p };
  }

  abbrev pub r1_handler : GetSecpSyscallHandler (SyscallHelper Ptr P) P.Secp256r1 Ptr
  r1_handler = record {
    get_secp_handler = λ h. h.secp256r1_syscall_processor;
    set_secp_handler = λ p h. record h { secp256r1_syscall_processor = p };
  }

module _ {Vm Ptr : Type 0} {P : Packages} (r : Runtime Vm Ptr P) where
  abbrev pub run :
      {Request Response : Type 0}
      → SyscallHandler Vm Ptr (SyscallHelper Ptr P) Request Response
      → ℕ
      → Vm
      → Ptr
      → SyscallHelper Ptr P
      → Outcome HintError (Ptr × Vm × SyscallHelper Ptr P)
  run handler cost m ptr ehw =
      map_err syscall_execution_error (run_handler r.vm handler cost m ptr ehw)

  -- The match on the selector.
  unfoldable pub dispatch :
      SyscallSelector
      → Vm
      → Ptr
      → SyscallHelper Ptr P
      → Outcome HintError (Ptr × Vm × SyscallHelper Ptr P)
  dispatch call_contract = run (call_contract_handler r.vm) call_contract_gas_cost
  dispatch deploy = run (deploy_handler r.vm r.formats) deploy_gas_cost
  dispatch emit_event = run (emit_event_handler r.vm) emit_event_gas_cost
  dispatch get_block_hash = run (get_block_hash_handler r.vm r.storages) get_block_hash_gas_cost
  dispatch library_call = run (library_call_handler r.vm) library_call_gas_cost
  dispatch get_execution_info = run (get_execution_info_handler r.vm) get_execution_info_gas_cost
  dispatch storage_read = run (storage_read_handler r.vm) storage_read_gas_cost
  dispatch storage_write = run (storage_write_handler r.vm) storage_write_gas_cost
  dispatch send_message_to_l1 = run (send_message_to_l1_handler r.vm) send_message_to_l1_gas_cost
  dispatch replace_class = run (replace_class_handler r.vm) replace_class_gas_cost
  dispatch library_call_l1_handler = run (library_call_handler r.vm) library_call_gas_cost
  dispatch keccak = run (keccak_handler r.vm r.hashes) keccak_gas_cost
  dispatch secp256k1_new = run (secp_new_handler k1_handler r.vm r.secp256k1) secp256k1_new_gas_cost
  dispatch secp256k1_get_xy =
      run (secp_get_xy_handler k1_handler r.vm r.secp256k1) secp256k1_get_xy_gas_cost
  dispatch secp256k1_get_point_from_x =
      run (secp_get_point_from_x_handler k1_handler r.vm r.secp256k1)
        secp256k1_get_point_from_x_gas_cost
  dispatch secp256k1_mul = run (secp_mul_handler k1_handler r.vm r.secp256k1) secp256k1_mul_gas_cost
  dispatch secp256k1_add = run (secp_add_handler k1_handler r.vm r.secp256k1) secp256k1_add_gas_cost
  dispatch secp256r1_new = run (secp_new_handler r1_handler r.vm r.secp256r1) secp256r1_new_gas_cost
  dispatch secp256r1_get_xy =
      run (secp_get_xy_handler r1_handler r.vm r.secp256r1) secp256r1_get_xy_gas_cost
  dispatch secp256r1_get_point_from_x =
      run (secp_get_point_from_x_handler r1_handler r.vm r.secp256r1)
        secp256r1_get_point_from_x_gas_cost
  dispatch secp256r1_mul = run (secp_mul_handler r1_handler r.vm r.secp256r1) secp256r1_mul_gas_cost
  dispatch secp256r1_add = run (secp_add_handler r1_handler r.vm r.secp256r1) secp256r1_add_gas_cost
  dispatch sha256_process_block =
      run (sha256_process_block_handler r.vm r.hashes) sha256_process_block_gas_cost
  dispatch other = λ m ptr ehw. err unknown_syscall_selector

  unfoldable pub execute_syscall :
      Vm → Ptr → OsSyscallHandler Ptr P → Outcome HintError (Vm × OsSyscallHandler Ptr P)
  execute_syscall m syscall_ptr h = do
    ptr ← expected_ptr r.same syscall_ptr h.syscall_ptr
    (felt, ptr) ← map_err (λ _. vm_error) (felt_from_ptr r.vm m ptr)
    selector ← map_err (λ _. unknown_syscall_selector) (try_from (r.to_bytes_be felt))
    (ptr, m, ehw) ← dispatch selector m ptr h.exec_wrapper
    ok (m, record h { exec_wrapper = ehw; syscall_ptr = some ptr })
