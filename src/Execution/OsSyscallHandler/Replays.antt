-- ===== src/Execution/OsSyscallHandler/Replays.antt =====
-- The system calls of crates/starknet-os/src/execution/syscall_handler.rs that replay what the
-- execution helper holds: inner calls, and reads of storage.
use snos.Base.{
  ℕ, ◌-◌, ◌∙◌, ◌≤◌, ◌<◌, ◌≡◌, refl, sym, ◌⊎◌, inl, inr, Bool, true, false, Bool-cases, Option, none,
  some, List, [], ◌∷◌, arith, map, length,
}
use snos.Base.Outcome.{Ends_imp}
use snos.Execution.Vm.{VirtualMachine, int, IsWriteOnce}
use snos.Execution.Helper.{CallResult, next_result}
use snos.Execution.Exec.{Exec, pure, spend}
use snos.Execution.Syscall.{ReadOnlySegment, run_handler, syscall_base_gas_cost}
use snos.Execution.Syscall.Response.{OkThat, Answered}
use snos.Execution.Syscall.Called.{charged_state, Called, run_handler-Called}
use snos.Execution.Syscall.Settles.{Left, Settles, Settles-bind, Settles-Ran, spend-Settles}
use snos.Execution.State.{Packages, SyscallHelper, replay, temporary_segment, load, loaded}
use snos.Execution.Requests.{call_contract_request_size}
use snos.Execution.Handlers.{load_retdata, execute_call, call_contract_handler}
use snos.Execution.OsSyscallHandler.Sized.{Overdraws, call_contract_handler-IsSized}

module _ {Vm S Ptr : Type 0} (v : VirtualMachine Vm Ptr) where
  -- The same helper and gas as in another state.
  abbrev Same : Exec Vm S → Exec Vm S → Type 0
  Same s s' = (s'.helper ≡ s.helper) × (s'.remaining_gas ≡ s.remaining_gas)

  on_loaded :
      (Q : Exec Vm S → Type 0) (s : Exec Vm S) (o : Option (Ptr × Vm))
      → Settles (λ _ s'. Same s s') Q (loaded v s o)
  on_loaded Q s none = tt
  on_loaded Q s (some (end, m)) = (refl, refl)

  load_retdata-Settles :
      (P Q : Exec Vm S → Type 0) (retdata : List ℕ) (s : Exec Vm S)
      → ((s' : Exec Vm S) → Same s s' → P s')
      → Settles (λ _ s'. P s') Q (load_retdata v retdata s)
  unfolding load_retdata temporary_segment load
  load_retdata-Settles P Q retdata s k =
      let (start, m) = v.add_temporary_segment s.vm in
      let s1 : Exec Vm S = record s { vm = m } in
      Settles-bind (λ _ s'. Same s s') (λ _ s'. P s') Q (load v start retdata)
        (λ end. pure record { start_ptr = start; length = length retdata }) s1
        (on_loaded Q s1 (v.load_data m start (map int retdata))) (λ end s' h. k s' h)

Left-moved : {consumed a b g h : ℕ} → b ≡ a → h ≡ g → Left consumed b g → Left consumed a h
Left-moved e f (inl x) = inl (omega arith)
Left-moved e f (inr (less, x)) = inr (omega arith, f ∙ x ∙ rw e refl)

module _ {Ptr : Type 0} {P : Packages} where
  -- The next result is taken from the iterator, and nothing else of the helper changes.
  abbrev pub Taken : SyscallHelper Ptr P → CallResult → SyscallHelper Ptr P → Type 0
  Taken h result h' =
      (rest : List CallResult) × (h.execution_helper.result_iter ≡ result ∷ rest)
      × (h' ≡ record h { execution_helper = record (h.execution_helper) { result_iter = rest } })

  next-Settles :
      {Vm : Type 0} (Q : Exec Vm (SyscallHelper Ptr P) → Type 0) (s : Exec Vm (SyscallHelper Ptr P))
      (iter : List CallResult)
      → s.helper.execution_helper.result_iter ≡ iter
      → Settles
          (λ result s'. Taken s.helper result s'.helper × (s'.remaining_gas ≡ s.remaining_gas))
          Q
          (replay next_result s)
  unfolding next_result
  next-Settles Q s [] e = rw e tt
  next-Settles Q s (result ∷ rest) e = rw e ((rest, refl, refl), refl)

module _ {Vm Ptr : Type 0} {P : Packages} (v : VirtualMachine Vm Ptr) where
  -- What the execution of an inner call leaves, by its recorded result.
  abbrev pub Charged : Bool → Exec Vm (SyscallHelper Ptr P) → Exec Vm (SyscallHelper Ptr P) → Type 0
  Charged failed s s' =
      (result : CallResult) × Taken s.helper result s'.helper
      × (result.failed ≡ failed)
      × Left result.gas_consumed s.remaining_gas s'.remaining_gas

  execute_call-Settles :
      (s : Exec Vm (SyscallHelper Ptr P))
      → Settles
          (λ (_ : ReadOnlySegment Ptr) s'. Charged false s s')
          (Charged true s)
          (execute_call v s)
  unfolding execute_call
  execute_call-Settles s =
      Settles-bind
        (λ result s1. Taken s.helper result s1.helper × (s1.remaining_gas ≡ s.remaining_gas))
        (λ (_ : ReadOnlySegment Ptr) s'. Charged false s s') (Charged true s) (replay next_result) _
        s (next-Settles (Charged true s) s s.helper.execution_helper.result_iter refl)
        (λ result s1 taken.
          Settles-bind
            (λ _ s2.
              (s2.helper ≡ s1.helper) × Left result.gas_consumed s1.remaining_gas s2.remaining_gas)
            (λ (_ : ReadOnlySegment Ptr) s'. Charged false s s') (Charged true s)
            (spend result.gas_consumed) _ s1 (spend-Settles (Charged true s) result.gas_consumed s1)
            (λ u s2 spent.
              let same : s1.helper ≡ s2.helper = sym spent.0 in
              let taken' : Taken s.helper result s2.helper = rw same at taken.0 in
              elim (Bool-cases result.failed) [
                | inl failed ↦ rw failed (result, taken', failed, Left-moved taken.1 refl spent.1)
                | inr fine ↦ rw fine (
                    load_retdata-Settles v (Charged false s) (Charged true s) result.retdata s2
                      (λ s3 same'.
                        let kept : s2.helper ≡ s3.helper = sym same'.0 in
                        (result, (rw kept at taken'), fine, Left-moved taken.1 same'.1 spent.1)))
              ]))

  -- What an answered `CallContract` has of the gas counter, the helper and the answer.
  abbrev pub Replayed :
      Bool → ℕ → ℕ → Ptr → SyscallHelper Ptr P → Ptr × Vm × SyscallHelper Ptr P → Type 0
  Replayed failed flag available response helper outcome =
      (result : CallResult) × (gas : ℕ) × Taken helper result outcome.2
      × (result.failed ≡ failed)
      × Left result.gas_consumed available gas
      × Answered v response gas flag outcome.1

  abbrev pub CallReplayed :
      ℕ → Vm → Ptr → SyscallHelper Ptr P → Ptr × Vm × SyscallHelper Ptr P → Type 0
  CallReplayed cost m p helper outcome =
      (gas_counter : ℕ) × (behind_counter : Ptr) × (v.get_integer m p ≡ some gas_counter)
      × (v.add p 1 ≡ some behind_counter)
      × (((gas_counter < cost - syscall_base_gas_cost) × (outcome.2 ≡ helper))
          ⊎ ((cost - syscall_base_gas_cost ≤ gas_counter)
              × (response : Ptr) × (v.add behind_counter call_contract_request_size ≡ some response)
              × (Replayed false 0 (gas_counter - (cost - syscall_base_gas_cost)) response helper
                    outcome
                  ⊎ Replayed true 1 (gas_counter - (cost - syscall_base_gas_cost)) response helper
                      outcome)))

  call_outcome :
      (failed : Bool) (flag : ℕ) (response : Ptr) (s s' : Exec Vm (SyscallHelper Ptr P))
      (outcome : Ptr × Vm × SyscallHelper Ptr P)
      → Charged failed s s'
      → outcome.2 ≡ s'.helper
      → Answered v response s'.remaining_gas flag outcome.1
      → Replayed failed flag s.remaining_gas response s.helper outcome
  call_outcome failed flag response s s' outcome (result, taken, f, gas) same answer =
      let same' : s'.helper ≡ outcome.2 = sym same in
      (result, s'.remaining_gas, (rw same' at taken), f, gas, answer)

  -- If a `CallContract` is answered, then either the gas did not suffice and the helper is as
  -- before, or the next recorded result is taken, and nothing else of the helper changes: the answer
  -- reports a failure exactly if the result is one, and its gas is the counter less the cost of the
  -- call beyond the base cost and less the gas that the result consumed, plus 2 ^ 64 if that is below
  -- zero.
  pub run_handler-CallReplayed :
      (w : IsWriteOnce v) (cost : ℕ) (m : Vm) (p : Ptr) (helper : SyscallHelper Ptr P)
      → OkThat
          (CallReplayed cost m p helper)
          (run_handler v (call_contract_handler v) cost m p helper)
  run_handler-CallReplayed w cost m p helper =
      Ends_imp (λ _. Unit) Unit
        (Called v (call_contract_handler v) call_contract_request_size cost m p helper)
        (CallReplayed cost m p helper) _
        (λ outcome (gas_counter, behind, e, f, either). (
          gas_counter,
          behind,
          e,
          f,
          elim either [
            | inl refused ↦ inl refused
            | inr (enough, (request, response, at, ran)) ↦
                let s = charged_state gas_counter (cost - syscall_base_gas_cost) m helper in
                inr (
                  enough,
                  response,
                  at,
                  elim (Settles-Ran v (λ (_ : ReadOnlySegment Ptr) s'. Charged false s s')
                      (Charged true s) (execute_call v s) response outcome (execute_call-Settles s)
                      ran) [
                        | inl (a, s', charged, same, answer) ↦
                            inl (call_outcome false 0 response s s' outcome charged same answer)
                        | inr (s', charged, same, answer) ↦
                            inr (call_outcome true 1 response s s' outcome charged same answer)
                      ],
                )
          ],
        ))
        (run_handler-Called v w Overdraws (call_contract_handler v) call_contract_request_size 2
          (call_contract_handler-IsSized v w) cost m p helper)
