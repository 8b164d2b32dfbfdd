-- ===== src/Execution/Syscall/Frugal.antt =====
-- Calls that only add to the memory and, but for what lets the gas wrap, only spend gas: the operations that the handlers of
-- crates/starknet-os/src/execution/syscall_handler.rs are made of.
use snos.Base.{ℕ, ◌≤◌, ◌⊎◌, ◌≡◌, refl, ltb, false, inl, inr, Option, none, some, List, map, arith}
use snos.Base.Outcome.{ok, err, panicked}
use snos.Execution.Vm.{VirtualMachine, int, IsWriteOnce, Kept-refl, Kept-trans}
use snos.Execution.Exec.{SyscallResult, vm_ok, Exec, Call, lift, ◌>>=◌, spend, wrapping_sub, Leaves}
use snos.Execution.Syscall.Handled.{Spends}
use snos.Execution.State.{
  reads_helper, set_helper, on_helper, reads_vm, temporary_segment, memory_segment, load, changed,
  loaded,
}

less : {Over : Type 0} (a b g : ℕ) → (a ≤ b) ⊎ Over → (g ≤ a) ⊎ Over → (g ≤ b) ⊎ Over
less a b g (inl x) (inl y) = inl (omega arith)
less a b g (inl x) (inr over) = inr over
less a b g (inr over) y = inr over

module _ {Vm Ptr S : Type 0} (v : VirtualMachine Vm Ptr) (Over : Type 0) where
  -- The gas wraps only if `Over` holds.
  abbrev pub Frugal : {A : Type 0} → Call Vm S A → Type 0
  Frugal c = (s : Exec Vm S) → Leaves (Spends v Over s) (λ _ _. Unit) (c s)

  Spends_refl : (s : Exec Vm S) → Spends v Over s s
  Spends_refl s = (Kept-refl v s.vm, inl (omega arith))

  pub after :
      {A : Type 0} (s s' : Exec Vm S) (r : SyscallResult A × Exec Vm S)
      → Spends v Over s s'
      → Leaves (Spends v Over s') (λ _ _. Unit) r
      → Leaves (Spends v Over s) (λ _ _. Unit) r
  after s s' (ok a, t) f h = (
    (Kept-trans v f.0 h.0.0, less s'.remaining_gas s.remaining_gas t.remaining_gas f.1 h.0.1),
    tt,
  )
  after s s' (err e, t) f h =
      (Kept-trans v f.0 h.0, less s'.remaining_gas s.remaining_gas t.remaining_gas f.1 h.1)
  after s s' (panicked, t) f h = tt

  outcome :
      {A : Type 0} (s : Exec Vm S) (s' : Exec Vm S) (o : SyscallResult A)
      → Spends v Over s s'
      → Leaves (Spends v Over s) (λ _ _. Unit) (o, s')
  outcome s s' (ok a) h = (h, tt)
  outcome s s' (err e) h = h
  outcome s s' panicked h = tt

  pub bound :
      {A B : Type 0} (f : A → Call Vm S B) (s : Exec Vm S) (r : SyscallResult A × Exec Vm S)
      → Leaves (Spends v Over s) (λ _ _. Unit) r
      → ((a : A) → Frugal (f a))
      → Leaves (Spends v Over s) (λ _ _. Unit) (((λ _. r) >>= f) s)
  bound f s (ok a, t) h k = after s t (f a t) h.0 (k a t)
  bound f s (err e, t) h k = h
  bound f s (panicked, t) h k = tt

  pub Frugal-bind :
      {A B : Type 0} (c : Call Vm S A) (f : A → Call Vm S B)
      → Frugal c
      → ((a : A) → Frugal (f a))
      → Frugal (c >>= f)
  Frugal-bind c f h k s = bound f s (c s) (h s) k

  pub Frugal-lift : {A : Type 0} (o : SyscallResult A) → Frugal (lift o)
  Frugal-lift o s = outcome s s o (Spends_refl s)

  pub Frugal-reads_helper : {A : Type 0} (f : S → SyscallResult A) → Frugal (reads_helper f)
  Frugal-reads_helper f s = outcome s s (f s.helper) (Spends_refl s)

  pub Frugal-set_helper : (f : S → S) → Frugal (set_helper f)
  Frugal-set_helper f s = (Spends_refl s, tt)

  on_changed :
      {A : Type 0} (s : Exec Vm S) (r : SyscallResult A × S)
      → Leaves (Spends v Over s) (λ _ _. Unit) (changed s r)
  on_changed s (o, helper) = outcome s (record s { helper = helper }) o (Spends_refl s)

  pub Frugal-on_helper : {A : Type 0} (f : S → SyscallResult A × S) → Frugal (on_helper f)
  Frugal-on_helper f s = on_changed s (f s.helper)

  pub Frugal-reads_vm : {A : Type 0} (f : Vm → Option A) → Frugal (reads_vm v f)
  Frugal-reads_vm f s = outcome s s (vm_ok (f s.vm)) (Spends_refl s)

  pub spend-Spends :
      (gas : ℕ) (s : Exec Vm S)
      → (gas ≤ s.remaining_gas) ⊎ Over
      → Leaves (Spends v Over s) (λ _ _. Unit) (spend gas s)
  unfolding spend wrapping_sub
  spend-Spends gas s (inr over) = ((Kept-refl v s.vm, inr over), tt)
  spend-Spends gas s (inl enough) =
      let fits : ltb s.remaining_gas gas ≡ false = ground (arith, enough) in
      rw fits ((Kept-refl v s.vm, inl (omega arith)), tt)

  module _ (w : IsWriteOnce v) where
    pub Frugal-temporary_segment : Frugal (temporary_segment v)
    unfolding temporary_segment
    Frugal-temporary_segment s = ((w.Kept-temporary s.vm, inl (omega arith)), tt)

    pub Frugal-memory_segment : Frugal (memory_segment v)
    unfolding memory_segment
    Frugal-memory_segment s = ((w.Kept-segment s.vm, inl (omega arith)), tt)

    on_loaded :
        (s : Exec Vm S) (start : Ptr) (felts : List ℕ) (o : Option (Ptr × Vm))
        → v.load_data s.vm start (map int felts) ≡ o
        → Leaves (Spends v Over s) (λ _ _. Unit) (loaded v s o)
    on_loaded s start felts none e = Spends_refl s
    on_loaded s start felts (some (end, m)) e =
        ((w.Kept-load start end (map int felts) e, inl (omega arith)), tt)

    pub Frugal-load : (start : Ptr) (felts : List ℕ) → Frugal (load v start felts)
    unfolding load
    Frugal-load start felts s =
        on_loaded s start felts (v.load_data s.vm start (map int felts)) refl
