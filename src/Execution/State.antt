-- ===== src/Execution/State.antt =====
-- The state that the system calls of crates/starknet-os/src/execution/syscall_handler.rs work on:
-- the execution helper of crates/starknet-os/src/execution/helper.rs with the fields that only they
-- use, and the operations on it and on the VM that their handlers share.
use snos.Base.{ℕ, Option, none, some, List, map}
use snos.Base.Outcome.{Outcome, ok, err, panicked}
use snos.Base.HashMap.{HashMap, nat_eq}
use snos.Execution.Vm.{VirtualMachine, int}
use snos.Execution.Helper.{ExecutionHelper, HelperError}
use snos.Execution.Exec.{internal_error, SyscallResult, vm_ok, Exec, Call}

-- The types of other packages: contract storages, compiled and deprecated classes, and blockifier's
-- processors (`SecpHintProcessor`) for the two curves.
pub record Packages : Type 1 where
  pub PCS : Type 0
  pub Casm : Type 0
  pub Deprecated : Type 0
  pub Secp256k1 : Type 0
  pub Secp256r1 : Type 0

-- What `Deploy` reads of `StarknetOsInput`.
pub record OsInput (Casm Deprecated : Type 0) : Type 0 where
  pub contract_address_to_class_hash : HashMap ℕ ℕ
  pub class_hash_to_compiled_class_hash : HashMap ℕ ℕ
  pub compiled_classes : HashMap ℕ Casm
  pub deprecated_compiled_classes : HashMap ℕ Deprecated

-- `SecpSyscallProcessor`, for a type of processors.
pub record SecpSyscallProcessor (Processor Ptr : Type 0) : Type 0 where
  pub processor : Processor
  pub segment : Option Ptr

-- The rest of `ExecutionHelper`.
pub record SyscallHelper (Ptr : Type 0) (P : Packages) : Type 0 where
  pub execution_helper : ExecutionHelper P.PCS Ptr
  pub os_input : Option (OsInput P.Casm P.Deprecated)
  pub secp256k1_syscall_processor : SecpSyscallProcessor P.Secp256k1 Ptr
  pub secp256r1_syscall_processor : SecpSyscallProcessor P.Secp256r1 Ptr
  pub sha256_segment : Option Ptr

module _ {Vm S : Type 0} where
  -- A call that depends on the helper.
  abbrev pub reads_helper : {A : Type 0} → (S → SyscallResult A) → Call Vm S A
  reads_helper f s = (f s.helper, s)

  abbrev pub set_helper : (S → S) → Call Vm S (Unit {0})
  set_helper f s = (ok tt, record s { helper = f s.helper })

  abbrev pub changed : {A : Type 0} → Exec Vm S → SyscallResult A × S → SyscallResult A × Exec Vm S
  changed s (o, helper) = (o, record s { helper = helper })

  -- One that changes the helper.
  abbrev pub on_helper : {A : Type 0} → (S → SyscallResult A × S) → Call Vm S A
  on_helper f s = changed s (f s.helper)

  module _ {Ptr : Type 0} (v : VirtualMachine Vm Ptr) where
    abbrev pub reads_vm : {A : Type 0} → (Vm → Option A) → Call Vm S A
    reads_vm f s = (vm_ok (f s.vm), s)

    unfoldable pub temporary_segment : Call Vm S Ptr
    temporary_segment s =
        let (start, m) = v.add_temporary_segment s.vm in (ok start, record s { vm = m })

    unfoldable pub memory_segment : Call Vm S Ptr
    memory_segment s = let (start, m) = v.add_memory_segment s.vm in (ok start, record s { vm = m })

    abbrev pub loaded : Exec Vm S → Option (Ptr × Vm) → SyscallResult Ptr × Exec Vm S
    loaded s none = (err internal_error, s)
    loaded s (some (end, m)) = (ok end, record s { vm = m })

    unfoldable pub load : Ptr → List ℕ → Call Vm S Ptr
    load start felts s = loaded s (v.load_data s.vm start (map int felts))

module _ {Ptr : Type 0} {P : Packages} where
  -- A step of the execution helper, whose errors become `InternalError`.
  abbrev pub replayed :
      {A : Type 0}
      → SyscallHelper Ptr P
      → Outcome HelperError (A × ExecutionHelper P.PCS Ptr)
      → SyscallResult A × SyscallHelper Ptr P
  replayed h (ok (a, eh)) = (ok a, record h { execution_helper = eh })
  replayed h (err e) = (err internal_error, h)
  replayed h panicked = (panicked, h)

  abbrev pub replay :
      {A Vm : Type 0}
      → (ExecutionHelper P.PCS Ptr → Outcome HelperError (A × ExecutionHelper P.PCS Ptr))
      → Call Vm (SyscallHelper Ptr P) A
  replay step = on_helper (λ h. replayed h (step h.execution_helper))
