-- ===== src/Execution/Syscall.antt =====
-- crates/starknet-os/src/execution/syscall_handler_utils.rs: what reads a request of a system call
-- from the memory of the VM and writes its response, and `run_handler`, which pays its gas. A
-- mutable VM or pointer is an argument and a result; what an error leaves behind is not kept, as it
-- ends the run.
pub mod Response
pub mod Handled
pub mod Frugal
pub mod OutOfGas
pub mod Called
pub mod Settles
use snos.Base.{
  ℕ, ◌+◌, ◌-◌, ◌*◌, ◌^◌, Bool, true, false, ltb, if◌then◌else◌, Option, none, some, List, [], ◌∷◌,
  map, length,
}
use snos.Base.Outcome.{Outcome, ok, err, panicked, ◌>>=◌}
use snos.Execution.Vm.{VirtualMachine, MaybeRelocatable, int, relocatable_value}
use snos.Execution.Exec.{
  SyscallExecutionError, invalid_syscall_input, syscall_error, internal_error,
  blockifier_syscall_error, invalid_address_domain, out_of_gas, SyscallResult, vm_ok, Exec, Call,
}

abbrev pub step_gas_cost : ℕ
step_gas_cost = 100

abbrev pub syscall_base_gas_cost : ℕ
syscall_base_gas_cost = 100 * step_gas_cost

-- The text "Out of gas" as a felt.
abbrev pub out_of_gas_error : ℕ
out_of_gas_error = 0x4f7574206f6620676173

-- `to_u64` of a felt
abbrev pub to_u64 : ℕ → Option ℕ
to_u64 n = if ltb n (2 ^ 64) then some n else none

-- `ReadOnlySegment`
pub record ReadOnlySegment (Ptr : Type 0) : Type 0 where
  pub start_ptr : Ptr
  pub length : ℕ

-- The trait, for a type of states of the execution helper.
pub record SyscallHandler (Vm Ptr S Request Response : Type 0) : Type 0 where
  pub read_request : Vm → Ptr → SyscallResult (Request × Ptr)
  pub execute : Request → Call Vm S Response
  pub write_response : Response → Vm → Ptr → SyscallResult (Vm × Ptr)

module _ {Vm Ptr : Type 0} (v : VirtualMachine Vm Ptr) where
  abbrev pub advance : Ptr → ℕ → SyscallResult Ptr
  advance p n = vm_ok (v.add p n)

  unfoldable pub felt_from_ptr : Vm → Ptr → SyscallResult (ℕ × Ptr)
  felt_from_ptr m ptr = do felt ← vm_ok (v.get_integer m ptr); next ← advance ptr 1; ok (felt, next)

  -- `vm.get_relocatable(*ptr)?` and `*ptr = (*ptr + 1)?`, in the requests that hold pointers.
  unfoldable pub relocatable_from_ptr : Vm → Ptr → SyscallResult (Ptr × Ptr)
  relocatable_from_ptr m ptr = do
    value ← vm_ok (v.get_relocatable m ptr)
    next ← advance ptr 1
    ok (value, next)

  unfoldable pub write_maybe_relocatable :
      MaybeRelocatable Ptr → Vm → Ptr → SyscallResult (Vm × Ptr)
  write_maybe_relocatable value m ptr = do
    m ← vm_ok (v.insert_value m ptr value)
    next ← advance ptr 1
    ok (m, next)

  abbrev pub write_felt : ℕ → Vm → Ptr → SyscallResult (Vm × Ptr)
  write_felt felt m ptr = write_maybe_relocatable (int felt) m ptr

  unfoldable pub write_segment : ReadOnlySegment Ptr → Vm → Ptr → SyscallResult (Vm × Ptr)
  write_segment segment m ptr = do
    (m, ptr) ← write_maybe_relocatable (relocatable_value segment.start_ptr) m ptr
    segment_end_ptr ← advance segment.start_ptr segment.length
    write_maybe_relocatable (relocatable_value segment_end_ptr) m ptr

  unfoldable pub write_failure : ℕ → List ℕ → Vm → Ptr → SyscallResult (Vm × Ptr)
  write_failure gas_counter error_data m ptr = do
    (m, ptr) ← write_felt gas_counter m ptr
    (m, ptr) ← write_felt 1 m ptr
    let (revert_reason_start, m) = v.add_memory_segment m
    (revert_reason_end, m) ← vm_ok (v.load_data m revert_reason_start (map int error_data))
    (m, ptr) ← write_maybe_relocatable (relocatable_value revert_reason_start) m ptr
    write_maybe_relocatable (relocatable_value revert_reason_end) m ptr

  module _ {S Request Response : Type 0} (handler : SyscallHandler Vm Ptr S Request Response) where
    unfoldable pub write_success : ℕ → Response → Vm → Ptr → SyscallResult (Vm × Ptr)
    write_success gas response m ptr = do
      (m, ptr) ← write_felt gas m ptr
      (m, ptr) ← write_felt 0 m ptr
      handler.write_response response m ptr

    -- The match on the result of `SH::execute`.
    unfoldable pub respond : Ptr → SyscallResult Response × Exec Vm S → SyscallResult (Ptr × Vm × S)
    respond ptr (ok response, s) = do
      (m, ptr) ← write_success s.remaining_gas response s.vm ptr
      ok (ptr, m, s.helper)
    respond ptr (err (syscall_error error_data), s) = do
      (m, ptr) ← write_failure s.remaining_gas error_data s.vm ptr
      ok (ptr, m, s.helper)
    respond ptr (err internal_error, s) = err internal_error
    respond ptr (err blockifier_syscall_error, s) = err blockifier_syscall_error
    respond ptr (err (invalid_address_domain d), s) = err (invalid_address_domain d)
    respond ptr (err (invalid_syscall_input i), s) = err (invalid_syscall_input i)
    respond ptr (err (out_of_gas g), s) = err (out_of_gas g)
    respond ptr (panicked, s) = panicked

    unfoldable pub charged : ℕ → ℕ → Vm → Ptr → S → SyscallResult (Ptr × Vm × S)
    charged gas_counter required_gas m ptr helper = do
      (request, ptr) ← handler.read_request m ptr
      respond ptr (
          handler.execute request
            record { vm = m; helper = helper; remaining_gas = gas_counter - required_gas })

    unfoldable pub refused : ℕ → Vm → Ptr → S → SyscallResult (Ptr × Vm × S)
    refused gas_counter m ptr helper = do
      (m, ptr) ← write_failure gas_counter (out_of_gas_error ∷ []) m ptr
      ok (ptr, m, helper)

    -- `SYSCALL_BASE_GAS_COST` is refunded, as it was charged before.
    unfoldable pub run_handler : ℕ → Vm → Ptr → S → SyscallResult (Ptr × Vm × S)
    run_handler syscall_gas_cost m syscall_ptr helper = do
      required_gas ←
          (if ltb syscall_gas_cost syscall_base_gas_cost
            then panicked
            else ok (syscall_gas_cost - syscall_base_gas_cost))
      (felt, ptr) ← felt_from_ptr m syscall_ptr
      gas_counter ← (elim (to_u64 felt) [ none ↦ err (invalid_syscall_input felt) | some g ↦ ok g ])
      (if ltb gas_counter required_gas
          then refused gas_counter m ptr helper
          else charged gas_counter required_gas m ptr helper)
