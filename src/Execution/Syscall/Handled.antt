-- ===== src/Execution/Syscall/Handled.antt =====
-- What `run_handler` of crates/starknet-os/src/execution/syscall_handler_utils.rs makes of a system
-- call: where the answer stands, and what gas it leaves.
use snos.Base.{
  ℕ, ◌+◌, ◌-◌, ◌^◌, ◌≤◌, ◌<◌, ◌≡◌, ◌⊎◌, refl, ltb, Bool-cases, inl, inr, if◌then◌else◌, none, some,
  [], ◌∷◌, arith, ltb→lt,
}
use snos.Base.Outcome.{ok, err, panicked, ◌>>=◌, Ends_imp}
use snos.Execution.Vm.{VirtualMachine, Kept, IsWriteOnce, Kept-trans}
use snos.Execution.Exec.{
  internal_error, SyscallResult, Exec, Leaves, blockifier_syscall_error, invalid_address_domain,
  invalid_syscall_input, syscall_error, out_of_gas,
}
use snos.Execution.Syscall.{
  felt_from_ptr, write_failure, SyscallHandler, write_success, respond, charged, refused,
  run_handler, syscall_base_gas_cost, to_u64, out_of_gas_error,
}
use snos.Execution.Syscall.Response.{
  OkThat, OkThat-bind, felt_from_ptr-OkThat, Answered, WroteAnswer, answer-OkThat,
  write_failure-OkThat,
}

-- The gas of the call never wraps.
abbrev pub Never : {S : Type 0} → S → ℕ → Type 0
Never helper gas = ⊥

module _ {Vm Ptr S : Type 0} (v : VirtualMachine Vm Ptr) where
  -- What a state that a handler leaves has of the one that it was given, if only `Over` lets the gas
  -- wrap below zero.
  abbrev pub Spends : Type 0 → Exec Vm S → Exec Vm S → Type 0
  Spends Over s s' = Kept v s.vm s'.vm × ((s'.remaining_gas ≤ s.remaining_gas) ⊎ Over)

  -- A handler with requests and responses of these sizes that only adds to the memory, and only
  -- spends gas unless the helper and the gas that it is given satisfy `Over`.
  pub record IsSized {Request Response : Type 0} (Over : S → ℕ → Type 0)
      (handler : SyscallHandler Vm Ptr S Request Response) (request_size response_size : ℕ)
      : Type 0 where
    pub reads :
        (m : Vm) (p : Ptr)
        → OkThat (λ (r : Request × Ptr). v.add p request_size ≡ some r.1) (handler.read_request m p)
    pub spends :
        (request : Request) (s : Exec Vm S)
        → Leaves
            (Spends (Over s.helper s.remaining_gas) s)
            (λ _ _. Unit)
            (handler.execute request s)
    pub writes :
        (response : Response) (m : Vm) (p : Ptr)
        → OkThat
            (λ (r : Vm × Ptr). Kept v m r.0 × (v.add p response_size ≡ some r.1))
            (handler.write_response response m p)

  -- The answers to a system call with a gas counter: the gas is written at the pointer behind the
  -- request, or behind the counter if the gas does not suffice.
  pub data Answer (Over : S → ℕ → Type 0) (request_size response_size required_gas gas_counter : ℕ)
      (behind_counter : Ptr) (helper : S) (ptr : Ptr) (m : Vm) (helper' : S) : Type 0 where
    refused_call :
        gas_counter < required_gas
        → Answered v behind_counter gas_counter 1 m
        → v.add behind_counter 4 ≡ some ptr
        → helper' ≡ helper
        → Answer Over request_size response_size required_gas gas_counter behind_counter helper ptr
            m helper'
    failed_call :
        (response : Ptr) (gas : ℕ)
        → required_gas ≤ gas_counter
        → (gas + required_gas ≤ gas_counter) ⊎ Over helper (gas_counter - required_gas)
        → v.add behind_counter request_size ≡ some response
        → Answered v response gas 1 m
        → v.add response 4 ≡ some ptr
        → Answer Over request_size response_size required_gas gas_counter behind_counter helper ptr
            m helper'
    answered_call :
        (response : Ptr) (gas : ℕ)
        → required_gas ≤ gas_counter
        → (gas + required_gas ≤ gas_counter) ⊎ Over helper (gas_counter - required_gas)
        → v.add behind_counter request_size ≡ some response
        → Answered v response gas 0 m
        → v.add response (1 + (1 + response_size)) ≡ some ptr
        → Answer Over request_size response_size required_gas gas_counter behind_counter helper ptr
            m helper'

  pub record IsHandled (Over : S → ℕ → Type 0) (request_size response_size cost : ℕ) (m : Vm)
      (p : Ptr) (helper : S) (result : Ptr × Vm × S) : Type 0 where
    pub gas_counter : ℕ
    pub behind_counter : Ptr
    pub counted : v.get_integer m p ≡ some gas_counter
    pub next : v.add p 1 ≡ some behind_counter
    pub fits : gas_counter < 2 ^ 64
    pub kept : Kept v m result.1
    pub answer :
        Answer Over request_size response_size
          (cost - syscall_base_gas_cost)
          gas_counter
          behind_counter
          helper
          result.0
          result.1
          result.2

  module _ (w : IsWriteOnce v) {Request Response : Type 0} (Over : S → ℕ → Type 0)
      (handler : SyscallHandler Vm Ptr S Request Response) (request_size response_size : ℕ)
      (sized : IsSized Over handler request_size response_size) where
    abbrev Answers : ℕ → ℕ → Vm → Ptr → S → Ptr × Vm × S → Type 0
    Answers required_gas gas_counter m behind_counter helper r =
        Kept v m r.1
        × Answer Over request_size response_size required_gas gas_counter behind_counter helper r.0
            r.1 r.2

    refused-Answers :
        (required_gas gas_counter : ℕ) (m : Vm) (p : Ptr) (helper : S)
        → gas_counter < required_gas
        → OkThat
            (Answers required_gas gas_counter m p helper)
            (refused v handler gas_counter m p helper)
    unfolding refused
    refused-Answers required_gas gas_counter m p helper lt =
        OkThat-bind (WroteAnswer v m p gas_counter 1 4) _
          (write_failure v gas_counter (out_of_gas_error ∷ []) m p) _
          (write_failure-OkThat v w gas_counter (out_of_gas_error ∷ []) m p)
          (λ r h. (h.0.0, refused_call lt h.1 h.0.1 refl))

    within :
        {O : Type 0} {required_gas : ℕ} (left gas_counter : ℕ)
        → required_gas ≤ gas_counter
        → (left ≤ gas_counter - required_gas) ⊎ O
        → (left + required_gas ≤ gas_counter) ⊎ O
    within left gas_counter le (inl h) = inl (omega arith)
    within left gas_counter le (inr over) = inr over

    respond-Answers :
        (required_gas gas_counter : ℕ) (m : Vm) (p response : Ptr) (helper : S)
        (r : SyscallResult Response × Exec Vm S)
        → required_gas ≤ gas_counter
        → v.add p request_size ≡ some response
        → Leaves
            (λ (s : Exec Vm S).
              Kept v m s.vm
              × ((s.remaining_gas ≤ gas_counter - required_gas)
                  ⊎ Over helper (gas_counter - required_gas)))
            (λ _ _. Unit)
            r
        → OkThat (Answers required_gas gas_counter m p helper) (respond v handler response r)
    unfolding respond write_success
    respond-Answers required_gas gas_counter m p response helper (ok value, s) le e h =
        OkThat-bind (WroteAnswer v s.vm response s.remaining_gas 0 (1 + (1 + response_size)))
          (Answers required_gas gas_counter m p helper)
          (write_success v handler s.remaining_gas value s.vm response) _
          (answer-OkThat v w s.remaining_gas 0 response_size s.vm response _
            (λ r. sized.writes value r.0 r.1))
          (λ r g. (
            Kept-trans v h.0.0 g.0.0,
            answered_call response s.remaining_gas le (within s.remaining_gas gas_counter le h.0.1)
                e g.1 g.0.1,
          ))
    respond-Answers required_gas gas_counter m p response helper (err (syscall_error d), s) le e h =
        OkThat-bind (WroteAnswer v s.vm response s.remaining_gas 1 4) _ _ _
          (write_failure-OkThat v w s.remaining_gas d s.vm response)
          (λ r g. (
            Kept-trans v h.0 g.0.0,
            failed_call response s.remaining_gas le (within s.remaining_gas gas_counter le h.1) e
                g.1 g.0.1,
          ))
    respond-Answers required_gas gas_counter m p response helper (err internal_error, s) le e h = tt
    respond-Answers required_gas gas_counter m p response helper (err blockifier_syscall_error, s)
          le e h =
        tt
    respond-Answers required_gas gas_counter m p response helper (err (invalid_address_domain d), s)
          le e h =
        tt
    respond-Answers required_gas gas_counter m p response helper (err (invalid_syscall_input d), s)
          le e h =
        tt
    respond-Answers required_gas gas_counter m p response helper (err (out_of_gas d), s) le e h = tt
    respond-Answers required_gas gas_counter m p response helper (panicked, s) le e h = tt

    charged-Answers :
        (required_gas gas_counter : ℕ) (m : Vm) (p : Ptr) (helper : S)
        → required_gas ≤ gas_counter
        → OkThat
            (Answers required_gas gas_counter m p helper)
            (charged v handler gas_counter required_gas m p helper)
    unfolding charged
    charged-Answers required_gas gas_counter m p helper le =
        OkThat-bind (λ (r : Request × Ptr). v.add p request_size ≡ some r.1) _
          (handler.read_request m p) _ (sized.reads m p)
          (λ r e. respond-Answers required_gas gas_counter m p r.1 helper _ le e (
            sized.spends r.0
              record { vm = m; helper = helper; remaining_gas = gas_counter - required_gas }))

    counter :
        (cost : ℕ) (m : Vm) (p : Ptr) (helper : S) (felt : ℕ) (next : Ptr)
        → v.get_integer m p ≡ some felt
        → v.add p 1 ≡ some next
        → OkThat (IsHandled Over request_size response_size cost m p helper) (
            (elim (to_u64 felt) [ none ↦ err (invalid_syscall_input felt) | some g ↦ ok g ])
            >>= λ gas_counter.
                if ltb gas_counter (cost - syscall_base_gas_cost)
                then refused v handler gas_counter m next helper
                else charged v handler gas_counter (cost - syscall_base_gas_cost) m next helper)
    counter cost m p helper felt next e f = elim (Bool-cases (ltb felt (2 ^ 64))) [
      | inr large ↦ rw large tt
      | inl fits ↦ rw fits (
          let required_gas = cost - syscall_base_gas_cost in
          let handled = λ (r : Ptr × Vm × S) (a : Answers required_gas felt m next helper r).
            let h : IsHandled Over request_size response_size cost m p helper r = record {
              gas_counter = felt;
              behind_counter = next;
              counted = e;
              next = f;
              fits = ltb→lt felt (2 ^ 64) fits;
              kept = a.0;
              answer = a.1;
            } in
            h in
          elim (Bool-cases (ltb felt required_gas)) [
            | inl less ↦ rw less (
                Ends_imp (λ _. Unit) Unit (Answers required_gas felt m next helper)
                  (IsHandled Over request_size response_size cost m p helper) _ handled
                  (refused-Answers required_gas felt m next helper (ltb→lt _ _ less)))
            | inr more ↦ rw more (
                Ends_imp (λ _. Unit) Unit (Answers required_gas felt m next helper)
                  (IsHandled Over request_size response_size cost m p helper) _ handled
                  (charged-Answers required_gas felt m next helper (ground arith)))
          ])
    ]

    -- If a system call whose handler only adds to the memory and only spends gas returns, then what
    -- the memory held before is still there, and the answer has the gas and a flag at its start. It
    -- stands behind the request, with the gas that is left after the cost of the call less the base
    -- cost, and with the size of the response behind a flag of 0, or of an error's two pointers
    -- behind a flag of 1. If the gas counter is below that cost, the flag is 1, the gas and the
    -- execution helper are as before, and the answer stands behind the counter.
    pub run_handler-IsHandled :
        (cost : ℕ) (m : Vm) (p : Ptr) (helper : S)
        → OkThat
            (IsHandled Over request_size response_size cost m p helper)
            (run_handler v handler cost m p helper)
    unfolding run_handler
    run_handler-IsHandled cost m p helper = elim (Bool-cases (ltb cost syscall_base_gas_cost)) [
      | inl low ↦ rw low tt
      | inr enough ↦ rw enough (
          OkThat-bind (λ (r : ℕ × Ptr). (v.get_integer m p ≡ some r.0) × (v.add p 1 ≡ some r.1)) _
            (felt_from_ptr v m p) _ (felt_from_ptr-OkThat v m p)
            (λ r e. counter cost m p helper r.0 r.1 e.0 e.1))
    ]
