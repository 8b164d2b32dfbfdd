-- ===== src/Execution/OsSyscallHandler/Sized.antt =====
-- Each handler of crates/starknet-os/src/execution/syscall_handler.rs and secp_handler.rs only adds
-- to the memory and only spends gas, unless an inner call consumed more than it had, and its requests and responses have their size in the layout of
-- crates/starknet-os/src/cairo_types/new_syscalls.rs.
use snos.Base.{
  ℕ, ◌≤◌, ◌<◌, ◌≡◌, refl, ◌⊎◌, ltb, ltb→lt, arith, Bool, if◌then◌else◌, Bool-cases, inl, inr, List,
  [], ◌∷◌, length,
}
use snos.Base.Outcome.{Outcome, ok, err}
use snos.Execution.Vm.{VirtualMachine, int, relocatable_value, IsWriteOnce, Kept-refl}
use snos.Execution.Helper.{
  CallResult, ExecutionHelper, HelperError, PerContractStorage, next_result, next_deployed_contract,
  next_storage_read,
}
use snos.Execution.Exec.{SyscallResult, Exec, Leaves, Leaves-bind, spend, fail, syscall_error}
use snos.Execution.Syscall.{ReadOnlySegment}
use snos.Execution.Syscall.Response.{
  OkThat, Wrote, write_maybe_relocatable-OkThat, write_segment-OkThat,
}
use snos.Execution.Syscall.Handled.{IsSized, Never, Spends}
use snos.Execution.Syscall.Frugal.{
  Frugal, Frugal-bind, Frugal-lift, Frugal-reads_helper, Frugal-on_helper, spend-Spends, bound,
  after, Frugal-temporary_segment, Frugal-load,
}
use snos.Execution.State.{
  Packages, SyscallHelper, replay, replayed, reads_helper, temporary_segment, load,
}
use snos.Execution.Requests.{
  DeployResponse, write_nothing, call_contract_request_size, deploy_request_size,
  library_call_request_size, storage_read_request_size, storage_write_request_size,
}
use snos.Execution.Requests.Sizes.{
  skip_request-Reads, read_block_number-Reads, read_address_domain-Reads,
  write_deploy_response-Writes,
}
use snos.Execution.Handlers.{
  ClassFormats, need_retdata_hack, read_block_hash, execution_info_ptr, load_retdata, execute_call,
  execute_deploy, execute_get_block_hash, execute_get_execution_info, execute_storage_read,
  call_contract_handler, deploy_handler, no_op_handler, get_block_hash_handler,
  get_execution_info_handler, library_call_handler, storage_read_handler, storage_write_handler,
}

nothing-Writes :
    {Vm Ptr : Type 0} (v : VirtualMachine Vm Ptr) (w : IsWriteOnce v) (m : Vm) (p : Ptr)
    → OkThat (Wrote v m p 0) (write_nothing v tt m p)
nothing-Writes v w m p = (Kept-refl v m, w.add_zero p)

-- The result that is replayed next consumed more than the gas.
abbrev pub Overdraws : {Ptr : Type 0} {P : Packages} → SyscallHelper Ptr P → ℕ → Type 0
Overdraws h gas =
    (result : CallResult) × (rest : List CallResult) × (h.execution_helper.result_iter
      ≡ result ∷ rest)
    × (gas < result.gas_consumed)

module _ {Vm Ptr : Type 0} {P : Packages} (v : VirtualMachine Vm Ptr) where
  Frugal-replay :
      (Over : Type 0) {A : Type 0}
      (step : ExecutionHelper P.PCS Ptr → Outcome HelperError (A × ExecutionHelper P.PCS Ptr))
      → Frugal v Over (replay {Ptr = Ptr} {P = P} step)
  Frugal-replay Over step = Frugal-on_helper v Over (λ h. replayed h (step h.execution_helper))

  pub get_block_hash_handler-IsSized :
      (w : IsWriteOnce v) (pcs : PerContractStorage P.PCS)
      → IsSized v Never (get_block_hash_handler {P = P} v pcs) 1 1
  unfolding execute_get_block_hash
  get_block_hash_handler-IsSized w pcs = record {
    reads = read_block_number-Reads v;
    spends = λ block_number. Frugal-on_helper v ⊥ (read_block_hash pcs block_number);
    writes = λ block_hash. write_maybe_relocatable-OkThat v w (int block_hash);
  }

  pub storage_read_handler-IsSized :
      (w : IsWriteOnce v)
      → IsSized v Never (storage_read_handler {P = P} v) storage_read_request_size 1
  unfolding execute_storage_read
  storage_read_handler-IsSized w = record {
    reads = read_address_domain-Reads v storage_read_request_size;
    spends = λ _. Frugal-replay ⊥ next_storage_read;
    writes = λ value. write_maybe_relocatable-OkThat v w (int value);
  }

  module _ (w : IsWriteOnce v) where
    Frugal-load_retdata :
        (Over : Type 0) (retdata : List ℕ)
        → Frugal v Over (load_retdata {S = SyscallHelper Ptr P} v retdata)
    unfolding load_retdata
    Frugal-load_retdata Over retdata =
        Frugal-bind v Over (temporary_segment v) _ (Frugal-temporary_segment v Over w) (λ start.
          Frugal-bind v Over (load v start retdata) _ (Frugal-load v Over w start retdata) (λ end.
            Frugal-lift v Over {A = ReadOnlySegment Ptr}
              (ok record { start_ptr = start; length = length retdata })))

    fits_or_Overdraws :
        (s : Exec Vm (SyscallHelper Ptr P)) (result : CallResult) (rest : List CallResult)
        → s.helper.execution_helper.result_iter ≡ result ∷ rest
        → (result.gas_consumed ≤ s.remaining_gas) ⊎ Overdraws s.helper s.remaining_gas
    fits_or_Overdraws s result rest e =
        elim (Bool-cases (ltb s.remaining_gas result.gas_consumed)) [
          | inl less ↦ inr (result, rest, e, ltb→lt s.remaining_gas result.gas_consumed less)
          | inr enough ↦ inl (ground arith)
        ]

    -- The rest of an inner call, behind the result that it replays.
    answered-Frugal :
        (Over : Type 0) (result : CallResult)
        → Frugal v Over (
            if result.failed
            then fail (syscall_error result.retdata)
            else load_retdata {S = SyscallHelper Ptr P} v result.retdata)
    answered-Frugal Over result = elim (Bool-cases result.failed) [
      | inl failed ↦
          rw failed
            (Frugal-lift v Over {A = ReadOnlySegment Ptr} (err (syscall_error result.retdata)))
      | inr done ↦ rw done (Frugal-load_retdata Over result.retdata)
    ]

    next_result-Spends :
        (Over : Type 0) (s : Exec Vm (SyscallHelper Ptr P)) (iter : List CallResult)
        → ((result : CallResult) (rest : List CallResult)
            → iter ≡ result ∷ rest
            → (result.gas_consumed ≤ s.remaining_gas) ⊎ Over)
        → s.helper.execution_helper.result_iter ≡ iter
        → Leaves
            (Spends v Over s)
            (λ result s1. (result.gas_consumed ≤ s1.remaining_gas) ⊎ Over)
            (replay {P = P} next_result s)
    unfolding next_result
    next_result-Spends Over s [] fits e = rw e (Kept-refl v s.vm, inl (omega arith))
    next_result-Spends Over s (result ∷ rest) fits e =
        rw e ((Kept-refl v s.vm, inl (omega arith)), fits result rest refl)

    execute_call-Spends :
        (s : Exec Vm (SyscallHelper Ptr P))
        → Leaves
            (Spends v (Overdraws s.helper s.remaining_gas) s)
            (λ _ _. Unit)
            (execute_call {P = P} v s)
    unfolding execute_call
    execute_call-Spends s =
        let Over = Overdraws s.helper s.remaining_gas in
        Leaves-bind (Spends v Over s) (λ result s1. (result.gas_consumed ≤ s1.remaining_gas) ⊎ Over)
          (λ _ _. Unit) (replay {P = P} next_result s) _
          (next_result-Spends Over s s.helper.execution_helper.result_iter (fits_or_Overdraws s)
            refl)
          (λ result s1 spent fits. after v Over s s1 _ spent (
            bound v Over _ s1 (spend result.gas_consumed s1)
              (spend-Spends v Over result.gas_consumed s1 fits) (λ u. answered-Frugal Over result)))

    pub call_contract_handler-IsSized :
        IsSized v Overdraws (call_contract_handler {P = P} v) call_contract_request_size 2
    call_contract_handler-IsSized = record {
      reads = skip_request-Reads v call_contract_request_size;
      spends = λ _. execute_call-Spends;
      writes = write_segment-OkThat v w;
    }

    pub library_call_handler-IsSized :
        IsSized v Overdraws (library_call_handler {P = P} v) library_call_request_size 2
    library_call_handler-IsSized = record {
      reads = skip_request-Reads v library_call_request_size;
      spends = λ _. execute_call-Spends;
      writes = write_segment-OkThat v w;
    }

    execute_deploy-Spends :
        (formats : ClassFormats P.Casm P.Deprecated) (s : Exec Vm (SyscallHelper Ptr P))
        → Leaves
            (Spends v (Overdraws s.helper s.remaining_gas) s)
            (λ _ _. Unit)
            (execute_deploy {P = P} v formats s)
    unfolding execute_deploy
    execute_deploy-Spends formats s =
        let Over = Overdraws s.helper s.remaining_gas in
        bound v Over _ s (execute_call v s) (execute_call-Spends s) (λ retdata.
          Frugal-bind v Over (replay next_deployed_contract) _
            (Frugal-replay Over next_deployed_contract)
            (λ address.
              let looked_up : SyscallHelper Ptr P → SyscallResult Bool =
                λ h. need_retdata_hack formats address h.os_input in
              Frugal-bind v Over (reads_helper looked_up) _ (Frugal-reads_helper v Over looked_up)
                (λ hack. Frugal-lift v Over {A = DeployResponse Ptr} (
                  ok record {
                    contract_address = address;
                    constructor_retdata = retdata;
                    need_retdata_hack = hack;
                  }))))

    pub deploy_handler-IsSized :
        (formats : ClassFormats P.Casm P.Deprecated)
        → IsSized v Overdraws (deploy_handler {P = P} v formats) deploy_request_size 3
    deploy_handler-IsSized formats = record {
      reads = skip_request-Reads v deploy_request_size;
      spends = λ _. execute_deploy-Spends formats;
      writes = write_deploy_response-Writes v w;
    }

    pub storage_write_handler-IsSized :
        IsSized v Never (storage_write_handler {P = P} v) storage_write_request_size 0
    storage_write_handler-IsSized = record {
      reads = read_address_domain-Reads v storage_write_request_size;
      spends = λ _. Frugal-lift v ⊥ (ok tt);
      writes = λ _. nothing-Writes v w;
    }

    pub no_op_handler-IsSized : (n : ℕ) → IsSized v Never (no_op_handler {P = P} v n) n 0
    no_op_handler-IsSized n = record {
      reads = skip_request-Reads v n;
      spends = λ _. Frugal-lift v ⊥ (ok tt);
      writes = λ _. nothing-Writes v w;
    }

    pub get_execution_info_handler-IsSized :
        IsSized v Never (get_execution_info_handler {P = P} v) 0 1
    unfolding execute_get_execution_info
    get_execution_info_handler-IsSized =
        let info : SyscallHelper Ptr P → SyscallResult Ptr =
          λ h. execution_info_ptr h.execution_helper.call_execution_info_ptr in
        record {
          reads = λ m p. w.add_zero p;
          spends = λ _. Frugal-reads_helper v ⊥ info;
          writes = λ p. write_maybe_relocatable-OkThat v w (relocatable_value p);
        }
