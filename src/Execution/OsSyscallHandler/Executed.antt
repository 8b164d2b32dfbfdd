-- ===== src/Execution/OsSyscallHandler/Executed.antt =====
-- What `execute_syscall` of crates/starknet-os/src/execution/syscall_handler.rs makes of the memory
-- and of its pointer, for every selector.
use snos.Base.{ℕ, ◌≡◌, Bool, true, false, if◌then◌else◌, Option, none, some}
use snos.Base.Outcome.{Outcome, ok, Ends}
use snos.Execution.Selector.{
  SyscallSelector, call_contract, deploy, emit_event, get_block_hash, get_execution_info, keccak,
  library_call, library_call_l1_handler, replace_class, sha256_process_block, secp256k1_add,
  secp256k1_get_point_from_x, secp256k1_get_xy, secp256k1_mul, secp256k1_new, secp256r1_add,
  secp256r1_get_point_from_x, secp256r1_get_xy, secp256r1_mul, secp256r1_new, send_message_to_l1,
  storage_read, storage_write, try_from,
}
use snos.Execution.Syscall.Handled.{IsHandled, Never}
use snos.Execution.State.{Packages, SyscallHelper}
use snos.Execution.OsSyscallHandler.{OsSyscallHandler, Runtime}
use snos.Execution.OsSyscallHandler.Sized.{Overdraws}

-- The cells of a request and of a response, and the gas of a system call.
pub record Layout : Type 0 where
  pub request_size : ℕ
  pub response_size : ℕ
  pub gas : ℕ

abbrev sized : ℕ → ℕ → ℕ → Layout
sized request_size response_size gas = record {
  request_size = request_size;
  response_size = response_size;
  gas = gas;
}

-- The layouts of the system calls that the OS serves.
unfoldable pub layout : SyscallSelector → Option Layout
layout call_contract = some (sized 4 2 71000)
layout deploy = some (sized 5 3 90000)
layout emit_event = some (sized 4 0 11000)
layout get_block_hash = some (sized 1 1 15000)
layout library_call = some (sized 4 2 71000)
layout get_execution_info = some (sized 0 1 11000)
layout storage_read = some (sized 2 1 15000)
layout storage_write = some (sized 3 0 15000)
layout send_message_to_l1 = some (sized 3 0 15000)
layout replace_class = some (sized 1 0 15000)
layout library_call_l1_handler = some (sized 4 2 71000)
layout keccak = some (sized 2 2 10000)
layout secp256k1_new = some (sized 4 2 50350)
layout secp256k1_get_xy = some (sized 1 4 25070)
layout secp256k1_get_point_from_x = some (sized 3 2 41400)
layout secp256k1_mul = some (sized 3 1 8143270)
layout secp256k1_add = some (sized 2 1 42630)
layout secp256r1_new = some (sized 4 2 63230)
layout secp256r1_get_xy = some (sized 1 4 25270)
layout secp256r1_get_point_from_x = some (sized 3 2 54280)
layout secp256r1_mul = some (sized 3 1 13511290)
layout secp256r1_add = some (sized 2 1 62890)
layout sha256_process_block = some (sized 2 1 862060)
layout other = none

-- The system calls that make an inner call.
abbrev pub makes_call : SyscallSelector → Bool
makes_call call_contract = true
makes_call deploy = true
makes_call library_call = true
makes_call library_call_l1_handler = true
makes_call other = false

abbrev pub Succeeds : {E A : Type 0} → (A → Type 0) → Outcome E A → Type 0
Succeeds P o = Ends (λ _. Unit) Unit P o

module _ {Vm Ptr : Type 0} {P : Packages} (r : Runtime Vm Ptr P) where
  -- What may let the gas of a system call wrap below zero.
  abbrev pub Overdrawn : SyscallSelector → SyscallHelper Ptr P → ℕ → Type 0
  Overdrawn selector = if makes_call selector then Overdraws else Never

  -- The call at the pointer was handled by the layout of its selector.
  abbrev pub Dispatched :
      SyscallSelector → Vm → Ptr → SyscallHelper Ptr P → Ptr × Vm × SyscallHelper Ptr P → Type 0
  Dispatched selector m p ehw result =
      (l : Layout) × (layout selector ≡ some l)
      × IsHandled r.vm (Overdrawn selector) l.request_size l.response_size l.gas m p ehw result

  pub record IsExecuted (m : Vm) (syscall_ptr : Ptr) (h : OsSyscallHandler Ptr P)
      (result : Vm × OsSyscallHandler Ptr P) : Type 0 where
    pub ptr : Ptr
    pub held : h.syscall_ptr ≡ some ptr
    pub agrees : r.same ptr syscall_ptr ≡ true
    pub felt : ℕ
    pub selector_written : r.vm.get_integer m ptr ≡ some felt
    pub selector : SyscallSelector
    pub selected : try_from (r.to_bytes_be felt) ≡ ok selector
    pub next : Ptr
    pub behind_selector : r.vm.add ptr 1 ≡ some next
    pub end : Ptr
    pub moved : result.1.syscall_ptr ≡ some end
    pub dispatched :
        Dispatched selector m next h.exec_wrapper (end, result.0, result.1.exec_wrapper)
