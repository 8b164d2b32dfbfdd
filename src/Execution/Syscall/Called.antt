-- ===== src/Execution/Syscall/Called.antt =====
-- `run_handler` of crates/starknet-os/src/execution/syscall_handler_utils.rs, followed to the call of
-- the handler: its answer is what the handler's execution made of the state.
use snos.Base.{
  ℕ, ◌+◌, ◌-◌, ◌^◌, ◌≤◌, ◌<◌, ◌≡◌, refl, ◌⊎◌, inl, inr, ltb, Bool-cases, if◌then◌else◌, some, [],
  ◌∷◌, arith, ltb→lt,
}
use snos.Base.Outcome.{ok, err, panicked, Ends_imp}
use snos.Execution.Vm.{VirtualMachine, IsWriteOnce}
use snos.Execution.Exec.{
  internal_error, SyscallResult, Exec, blockifier_syscall_error, invalid_address_domain,
  invalid_syscall_input, syscall_error, out_of_gas,
}
use snos.Execution.Syscall.{
  felt_from_ptr, SyscallHandler, write_success, respond, charged, refused, run_handler,
  syscall_base_gas_cost, out_of_gas_error,
}
use snos.Execution.Syscall.Response.{
  OkThat, OkThat-bind, felt_from_ptr-OkThat, Answered, WroteAnswer, answer-OkThat,
  write_failure-OkThat,
}
use snos.Execution.Syscall.Handled.{IsSized}

module _ {Vm S : Type 0} where
  -- The state that the handler's execution is given.
  abbrev pub charged_state : ℕ → ℕ → Vm → S → Exec Vm S
  charged_state gas_counter required_gas m helper = record {
    vm = m;
    helper = helper;
    remaining_gas = gas_counter - required_gas;
  }

module _ {Vm Ptr S : Type 0} (v : VirtualMachine Vm Ptr) where
  -- The answer at a pointer, from what the execution gave.
  abbrev pub Ran :
      {Response : Type 0} → Ptr → Ptr × Vm × S → SyscallResult Response × Exec Vm S → Type 0
  Ran response result (ok value, s) =
      (result.2 ≡ s.helper) × Answered v response s.remaining_gas 0 result.1
  Ran response result (err (syscall_error d), s) =
      (result.2 ≡ s.helper) × Answered v response s.remaining_gas 1 result.1
  Ran response result (err internal_error, s) = ⊥
  Ran response result (err blockifier_syscall_error, s) = ⊥
  Ran response result (err (invalid_address_domain d), s) = ⊥
  Ran response result (err (invalid_syscall_input d), s) = ⊥
  Ran response result (err (out_of_gas d), s) = ⊥
  Ran response result (panicked, s) = ⊥

  module _ {Request Response : Type 0} (handler : SyscallHandler Vm Ptr S Request Response)
      (request_size : ℕ) where
    abbrev pub CalledWith : ℕ → ℕ → Vm → Ptr → S → Ptr × Vm × S → Type 0
    CalledWith gas_counter required_gas m behind_counter helper result =
        (request : Request) × (response : Ptr) × (v.add behind_counter request_size ≡ some response)
        × Ran response result
            (handler.execute request (charged_state gas_counter required_gas m helper))

    -- Refused for lack of gas, with the helper as before, or executed.
    abbrev pub Called : ℕ → Vm → Ptr → S → Ptr × Vm × S → Type 0
    Called cost m p helper result =
        (gas_counter : ℕ) × (behind_counter : Ptr) × (v.get_integer m p ≡ some gas_counter)
        × (v.add p 1 ≡ some behind_counter)
        × (((gas_counter < cost - syscall_base_gas_cost) × (result.2 ≡ helper))
            ⊎ ((cost - syscall_base_gas_cost ≤ gas_counter)
                × CalledWith gas_counter (cost - syscall_base_gas_cost) m behind_counter helper
                    result))

  module _ (w : IsWriteOnce v) {Request Response : Type 0} (Over : S → ℕ → Type 0)
      (handler : SyscallHandler Vm Ptr S Request Response) (request_size response_size : ℕ)
      (sized : IsSized v Over handler request_size response_size) where
    respond-Ran :
        (response : Ptr) (r : SyscallResult Response × Exec Vm S)
        → OkThat (λ result. Ran response result r) (respond v handler response r)
    unfolding respond write_success
    respond-Ran response (ok value, s) =
        OkThat-bind (WroteAnswer v s.vm response s.remaining_gas 0 (1 + (1 + response_size)))
          (λ (result : Ptr × Vm × S). Ran response result (ok value, s))
          (write_success v handler s.remaining_gas value s.vm response) _
          (answer-OkThat v w s.remaining_gas 0 response_size s.vm response _
            (λ r. sized.writes value r.0 r.1))
          (λ r g. (refl, g.1))
    respond-Ran response (err (syscall_error d), s) =
        OkThat-bind (WroteAnswer v s.vm response s.remaining_gas 1 4)
          (λ (result : Ptr × Vm × S).
            (result.2 ≡ s.helper) × Answered v response s.remaining_gas 1 result.1)
          _ _ (write_failure-OkThat v w s.remaining_gas d s.vm response) (λ r g. (refl, g.1))
    respond-Ran response (err internal_error, s) = tt
    respond-Ran response (err blockifier_syscall_error, s) = tt
    respond-Ran response (err (invalid_address_domain d), s) = tt
    respond-Ran response (err (invalid_syscall_input d), s) = tt
    respond-Ran response (err (out_of_gas d), s) = tt
    respond-Ran response (panicked, s) = tt

    charged-CalledWith :
        (gas_counter required_gas : ℕ) (m : Vm) (p : Ptr) (helper : S)
        → OkThat
            (CalledWith handler request_size gas_counter required_gas m p helper)
            (charged v handler gas_counter required_gas m p helper)
    unfolding charged
    charged-CalledWith gas_counter required_gas m p helper =
        OkThat-bind (λ (r : Request × Ptr). v.add p request_size ≡ some r.1)
          (CalledWith handler request_size gas_counter required_gas m p helper)
          (handler.read_request m p) _ (sized.reads m p)
          (λ r e.
            let s = charged_state gas_counter required_gas m helper in
            Ends_imp (λ _. Unit) Unit (λ result. Ran r.1 result (handler.execute r.0 s))
              (CalledWith handler request_size gas_counter required_gas m p helper) _
              (λ result a. (r.0, r.1, e, a)) (respond-Ran r.1 (handler.execute r.0 s)))

    refused-same :
        (gas_counter : ℕ) (m : Vm) (p : Ptr) (helper : S)
        → OkThat
            (λ (result : Ptr × Vm × S). result.2 ≡ helper)
            (refused v handler gas_counter m p helper)
    unfolding refused
    refused-same gas_counter m p helper =
        OkThat-bind (WroteAnswer v m p gas_counter 1 4)
          (λ (result : Ptr × Vm × S). result.2 ≡ helper) _ _
          (write_failure-OkThat v w gas_counter (out_of_gas_error ∷ []) m p) (λ r h. refl)

    called :
        (cost : ℕ) (m : Vm) (p : Ptr) (helper : S) (felt : ℕ) (next : Ptr)
        → v.get_integer m p ≡ some felt
        → v.add p 1 ≡ some next
        → OkThat (Called handler request_size cost m p helper) (
            if ltb felt (cost - syscall_base_gas_cost)
            then refused v handler felt m next helper
            else charged v handler felt (cost - syscall_base_gas_cost) m next helper)
    called cost m p helper felt next e f =
        elim (Bool-cases (ltb felt (cost - syscall_base_gas_cost))) [
          | inl less ↦ rw less (
              Ends_imp (λ _. Unit) Unit (λ (result : Ptr × Vm × S). result.2 ≡ helper)
                (Called handler request_size cost m p helper) _
                (λ result h. (felt, next, e, f, inl (ltb→lt _ _ less, h)))
                (refused-same felt m next helper))
          | inr more ↦ rw more (
              Ends_imp (λ _. Unit) Unit
                (CalledWith handler request_size felt (cost - syscall_base_gas_cost) m next helper)
                (Called handler request_size cost m p helper) _
                (λ result h. (felt, next, e, f, inr (ground arith, h)))
                (charged-CalledWith felt (cost - syscall_base_gas_cost) m next helper))
        ]

    pub run_handler-Called :
        (cost : ℕ) (m : Vm) (p : Ptr) (helper : S)
        → OkThat
            (Called handler request_size cost m p helper)
            (run_handler v handler cost m p helper)
    unfolding run_handler
    run_handler-Called cost m p helper = elim (Bool-cases (ltb cost syscall_base_gas_cost)) [
      | inl low ↦ rw low tt
      | inr enough ↦ rw enough (
          OkThat-bind (λ (r : ℕ × Ptr). (v.get_integer m p ≡ some r.0) × (v.add p 1 ≡ some r.1))
            (Called handler request_size cost m p helper) (felt_from_ptr v m p) _
            (felt_from_ptr-OkThat v m p)
            (λ r e. elim (Bool-cases (ltb r.0 (2 ^ 64))) [
              | inr large ↦ rw large tt
              | inl fits ↦ rw fits (called cost m p helper r.0 r.1 e.0 e.1)
            ]))
    ]
