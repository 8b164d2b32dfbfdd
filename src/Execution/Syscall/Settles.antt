-- ===== src/Execution/Syscall/Settles.antt =====
-- What a call leaves behind if the system call reports its result: a value or a failure.
use snos.Base.{ℕ, ◌+◌, ◌-◌, ◌^◌, ◌<◌, ltb→lt, ◌≡◌, refl, ◌⊎◌, inl, inr, ltb, Bool-cases, arith}
use snos.Base.Outcome.{ok, err, panicked}
use snos.Execution.Vm.{VirtualMachine}
use snos.Execution.Exec.{
  SyscallResult, Exec, Call, ◌>>=◌, spend, wrapping_sub, syscall_error, internal_error,
  blockifier_syscall_error, invalid_address_domain, invalid_syscall_input, out_of_gas,
}
use snos.Execution.Syscall.Response.{Answered}
use snos.Execution.Syscall.Called.{Ran}

-- The gas that is left of what was available: it wraps below zero.
abbrev pub Left : ℕ → ℕ → ℕ → Type 0
Left consumed available gas =
    (gas + consumed ≡ available) ⊎ ((available < consumed) × (gas ≡ available + 2 ^ 64 - consumed))

-- What holds of a value and the state behind it, and of the state behind a failure that the system
-- call reports; any other error ends the run.
module _ {Vm S : Type 0} where
  abbrev pub Settles :
      {A : Type 0}
      → (A → Exec Vm S → Type 0)
      → (Exec Vm S → Type 0)
      → SyscallResult A × Exec Vm S
      → Type 0
  Settles P Q (ok a, s) = P a s
  Settles P Q (err (syscall_error d), s) = Q s
  Settles P Q (err internal_error, s) = Unit
  Settles P Q (err blockifier_syscall_error, s) = Unit
  Settles P Q (err (invalid_address_domain d), s) = Unit
  Settles P Q (err (invalid_syscall_input d), s) = Unit
  Settles P Q (err (out_of_gas d), s) = Unit
  Settles P Q (panicked, s) = Unit

  bound :
      {A B : Type 0} (P : A → Exec Vm S → Type 0) (P' : B → Exec Vm S → Type 0)
      (Q : Exec Vm S → Type 0) (f : A → Call Vm S B) (s : Exec Vm S)
      (r : SyscallResult A × Exec Vm S)
      → Settles P Q r
      → ((a : A) (s' : Exec Vm S) → P a s' → Settles P' Q (f a s'))
      → Settles P' Q (((λ _. r) >>= f) s)
  bound P P' Q f s (ok a, t) h k = k a t h
  bound P P' Q f s (err (syscall_error d), t) h k = h
  bound P P' Q f s (err internal_error, t) h k = tt
  bound P P' Q f s (err blockifier_syscall_error, t) h k = tt
  bound P P' Q f s (err (invalid_address_domain d), t) h k = tt
  bound P P' Q f s (err (invalid_syscall_input d), t) h k = tt
  bound P P' Q f s (err (out_of_gas d), t) h k = tt
  bound P P' Q f s (panicked, t) h k = tt

  pub Settles-bind :
      {A B : Type 0} (P : A → Exec Vm S → Type 0) (P' : B → Exec Vm S → Type 0)
      (Q : Exec Vm S → Type 0) (c : Call Vm S A) (f : A → Call Vm S B) (s : Exec Vm S)
      → Settles P Q (c s)
      → ((a : A) (s' : Exec Vm S) → P a s' → Settles P' Q (f a s'))
      → Settles P' Q ((c >>= f) s)
  Settles-bind P P' Q c f s h k = bound P P' Q f s (c s) h k

  module _ {Ptr : Type 0} (v : VirtualMachine Vm Ptr) where
    -- The answer then reports one or the other.
    pub Settles-Ran :
        {A : Type 0} (P : A → Exec Vm S → Type 0) (Q : Exec Vm S → Type 0)
        (r : SyscallResult A × Exec Vm S) (response : Ptr) (result : Ptr × Vm × S)
        → Settles P Q r
        → Ran v response result r
        → ((a : A) × (s : Exec Vm S) × P a s
            × (result.2 ≡ s.helper)
            × Answered v response s.remaining_gas 0 result.1)
          ⊎ ((s : Exec Vm S) × Q s
              × (result.2 ≡ s.helper)
              × Answered v response s.remaining_gas 1 result.1)
    Settles-Ran P Q (ok a, s) response result h ran = inl (a, s, h, ran.0, ran.1)
    Settles-Ran P Q (err (syscall_error d), s) response result h ran = inr (s, h, ran.0, ran.1)
    Settles-Ran P Q (err internal_error, s) response result h ran = absurd ran
    Settles-Ran P Q (err blockifier_syscall_error, s) response result h ran = absurd ran
    Settles-Ran P Q (err (invalid_address_domain d), s) response result h ran = absurd ran
    Settles-Ran P Q (err (invalid_syscall_input d), s) response result h ran = absurd ran
    Settles-Ran P Q (err (out_of_gas d), s) response result h ran = absurd ran
    Settles-Ran P Q (panicked, s) response result h ran = absurd ran

  pub spend-Settles :
      (Q : Exec Vm S → Type 0) (gas : ℕ) (s : Exec Vm S)
      → Settles
          (λ _ s'. (s'.helper ≡ s.helper) × Left gas s.remaining_gas s'.remaining_gas)
          Q
          (spend gas s)
  unfolding spend wrapping_sub
  spend-Settles Q gas s = elim (Bool-cases (ltb s.remaining_gas gas)) [
    | inl less ↦ rw less (refl, inr (ltb→lt s.remaining_gas gas less, refl))
    | inr enough ↦ rw enough (refl, inl (ground arith))
  ]
