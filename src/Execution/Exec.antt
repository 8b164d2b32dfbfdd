-- ===== src/Execution/Exec.antt =====
-- What a system call can change while it executes: the memory of the VM, the execution helper and
-- the gas, which are the `&mut` arguments of `SyscallHandler::execute` in
-- crates/starknet-os/src/execution/syscall_handler_utils.rs. They keep their changes after an error.
use snos.Base.{ℕ, if◌then◌else◌, Option, none, some, List, ltb, ◌+◌, ◌-◌, ◌^◌}
use snos.Base.Outcome.{Outcome, ok, err, panicked}

-- The messages are forgotten. The variant of blockifier's errors is also for those of its secp
-- processors.
pub data SyscallExecutionError : Type 0 where
  internal_error blockifier_syscall_error : SyscallExecutionError
  invalid_address_domain : ℕ → SyscallExecutionError
  invalid_syscall_input : ℕ → SyscallExecutionError
  syscall_error : List ℕ → SyscallExecutionError
  out_of_gas : ℕ → SyscallExecutionError

abbrev pub SyscallResult : Type 0 → Type 0
SyscallResult A = Outcome SyscallExecutionError A

-- `?` on a result of the VM: its errors become `InternalError`.
abbrev pub vm_ok : {A : Type 0} → Option A → SyscallResult A
vm_ok none = err internal_error
vm_ok (some a) = ok a

pub record Exec (Vm S : Type 0) : Type 0 where
  pub vm : Vm
  pub helper : S
  pub remaining_gas : ℕ

abbrev pub Call : Type 0 → Type 0 → Type 0 → Type 0
Call Vm S A = Exec Vm S → SyscallResult A × Exec Vm S

-- The difference of two `u64`, which wraps below zero.
unfoldable pub wrapping_sub : ℕ → ℕ → ℕ
wrapping_sub a b = if ltb a b then a + 2 ^ 64 - b else a - b

module _ {Vm S : Type 0} where
  abbrev pub pure : {A : Type 0} → A → Call Vm S A
  pure a s = (ok a, s)

  abbrev pub fail : {A : Type 0} → SyscallExecutionError → Call Vm S A
  fail e s = (err e, s)

  abbrev pub lift : {A : Type 0} → SyscallResult A → Call Vm S A
  lift o s = (o, s)

  abbrev continue :
      {A B : Type 0} → (A → Call Vm S B) → SyscallResult A × Exec Vm S → SyscallResult B × Exec Vm S
  continue f (ok a, s) = f a s
  continue f (err e, s) = (err e, s)
  continue f (panicked, s) = (panicked, s)

  infixl 5 ◌>>=◌ ◌>>◌
  abbrev pub ◌>>=◌ : {A B : Type 0} → Call Vm S A → (A → Call Vm S B) → Call Vm S B
  ◌>>=◌ m f s = continue f (m s)

  abbrev pub ◌>>◌ : {B : Type 0} → Call Vm S (Unit {0}) → Call Vm S B → Call Vm S B
  m >> k = m >>= λ _. k

  -- `*remaining_gas -= gas`, of a `u64`.
  unfoldable pub spend : ℕ → Call Vm S (Unit {0})
  spend gas s = (ok tt, record s { remaining_gas = wrapping_sub s.remaining_gas gas })

  -- What holds of the state after a call, and of its value if it succeeds.
  abbrev pub Leaves :
      {A : Type 0}
      → (Exec Vm S → Type 0)
      → (A → Exec Vm S → Type 0)
      → SyscallResult A × Exec Vm S
      → Type 0
  Leaves I P (ok a, s) = I s × P a s
  Leaves I P (err e, s) = I s
  Leaves I P (panicked, s) = Unit

  pub Leaves-bind :
      {A B : Type 0} (I : Exec Vm S → Type 0) (P : A → Exec Vm S → Type 0)
      (Q : B → Exec Vm S → Type 0) (r : SyscallResult A × Exec Vm S) (f : A → Call Vm S B)
      → Leaves I P r
      → ((a : A) (s : Exec Vm S) → I s → P a s → Leaves I Q (f a s))
      → Leaves I Q (continue f r)
  Leaves-bind I P Q (ok a, s) f v w = w a s v.0 v.1
  Leaves-bind I P Q (err e, s) f v w = v
  Leaves-bind I P Q (panicked, s) f v w = tt
