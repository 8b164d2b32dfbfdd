-- ===== src/Execution/Syscall/Response.antt =====
-- What the readers and writers of crates/starknet-os/src/execution/syscall_handler_utils.rs do to
-- the memory and the pointer where they succeed.
use snos.Base.{ℕ, ◌+◌, ◌≡◌, refl, sym, ◌∙◌, Option, none, some, List, map}
use snos.Base.Outcome.{◌>>=◌, Ends, Ends_bind, Ends_imp}
use snos.Execution.Vm.{
  VirtualMachine, MaybeRelocatable, int, relocatable_value, Kept, IsWriteOnce, Kept-trans,
}
use snos.Execution.Exec.{SyscallResult, vm_ok}
use snos.Execution.Syscall.{
  felt_from_ptr, relocatable_from_ptr, write_maybe_relocatable, write_felt, write_segment,
  write_failure, advance, ReadOnlySegment,
}

-- If it succeeds, then with such a value.
abbrev pub OkThat : {A : Type 0} → (A → Type 0) → SyscallResult A → Type 0
OkThat P o = Ends (λ _. Unit) Unit P o

pub OkThat-bind :
    {A B : Type 0} (P : A → Type 0) (Q : B → Type 0) (o : SyscallResult A) (f : A → SyscallResult B)
    → OkThat P o
    → ((a : A) → P a → OkThat Q (f a))
    → OkThat Q (o >>= f)
OkThat-bind P Q o f v w = Ends_bind (λ _. Unit) Unit P Q o f v w

pub vm_ok-OkThat : {A : Type 0} (o : Option A) → OkThat (λ a. o ≡ some a) (vm_ok o)
vm_ok-OkThat none = tt
vm_ok-OkThat (some a) = refl

module _ {Vm Ptr : Type 0} (v : VirtualMachine Vm Ptr) where
  pub felt_from_ptr-OkThat :
      (m : Vm) (p : Ptr)
      → OkThat
          (λ (r : ℕ × Ptr). (v.get_integer m p ≡ some r.0) × (v.add p 1 ≡ some r.1))
          (felt_from_ptr v m p)
  unfolding felt_from_ptr
  felt_from_ptr-OkThat m p =
      OkThat-bind (λ n. v.get_integer m p ≡ some n) _ (vm_ok (v.get_integer m p)) _
        (vm_ok-OkThat (v.get_integer m p))
        (λ n e.
          OkThat-bind (λ q. v.add p 1 ≡ some q) _ (advance v p 1) _ (vm_ok-OkThat (v.add p 1))
            (λ q f. (e, f)))

  pub relocatable_from_ptr-OkThat :
      (m : Vm) (p : Ptr)
      → OkThat
          (λ (r : Ptr × Ptr). (v.get_relocatable m p ≡ some r.0) × (v.add p 1 ≡ some r.1))
          (relocatable_from_ptr v m p)
  unfolding relocatable_from_ptr
  relocatable_from_ptr-OkThat m p =
      OkThat-bind (λ n. v.get_relocatable m p ≡ some n) _ (vm_ok (v.get_relocatable m p)) _
        (vm_ok-OkThat (v.get_relocatable m p))
        (λ n e.
          OkThat-bind (λ q. v.add p 1 ≡ some q) _ (advance v p 1) _ (vm_ok-OkThat (v.add p 1))
            (λ q f. (e, f)))

  -- So many cells on, in a memory that keeps what was there.
  abbrev pub Wrote : Vm → Ptr → ℕ → Vm × Ptr → Type 0
  Wrote m p n r = Kept v m r.0 × (v.add p n ≡ some r.1)

  same_pointer :
      {m : Vm} {p q : Ptr} {n : ℕ}
      → some p ≡ some q
      → v.get_integer m p ≡ some n
      → v.get_integer m q ≡ some n
  same_pointer {p = p} {q = q} e h = let f : p ≡ q = cc e in rw f at h

  -- The gas and the flag of an answer.
  abbrev pub Answered : Ptr → ℕ → ℕ → Vm → Type 0
  Answered p gas flag m =
      (v.get_integer m p ≡ some gas)
      × ((q : Ptr) → v.add p 1 ≡ some q → v.get_integer m q ≡ some flag)

  abbrev pub WroteAnswer : Vm → Ptr → ℕ → ℕ → ℕ → Vm × Ptr → Type 0
  WroteAnswer m p gas flag n r = Wrote m p n r × Answered p gas flag r.0

  module _ (w : IsWriteOnce v) where
    pub Wrote-trans :
        {m : Vm} {p : Ptr} (a b : ℕ) (r s : Vm × Ptr)
        → Wrote m p a r
        → Wrote r.0 r.1 b s
        → Wrote m p (a + b) s
    Wrote-trans a b r s f g = (Kept-trans v f.0 g.0, sym (w.add_add a b f.1) ∙ g.1)

    abbrev WroteValue : MaybeRelocatable Ptr → Vm → Ptr → Vm × Ptr → Type 0
    WroteValue value m p r = Wrote m p 1 r × (v.insert_value m p value ≡ some r.0)

    write_value-OkThat :
        (value : MaybeRelocatable Ptr) (m : Vm) (p : Ptr)
        → OkThat (WroteValue value m p) (write_maybe_relocatable v value m p)
    unfolding write_maybe_relocatable
    write_value-OkThat value m p =
        OkThat-bind (λ m'. v.insert_value m p value ≡ some m') _ (vm_ok (v.insert_value m p value))
          _ (vm_ok-OkThat (v.insert_value m p value))
          (λ m' e.
            OkThat-bind (λ q. v.add p 1 ≡ some q) _ (advance v p 1) _ (vm_ok-OkThat (v.add p 1))
              (λ q f. ((w.Kept-insert p value e, f), e)))

    pub write_maybe_relocatable-OkThat :
        (value : MaybeRelocatable Ptr) (m : Vm) (p : Ptr)
        → OkThat (Wrote m p 1) (write_maybe_relocatable v value m p)
    write_maybe_relocatable-OkThat value m p =
        Ends_imp (λ _. Unit) Unit (WroteValue value m p) (Wrote m p 1) _ (λ r h. h.0)
          (write_value-OkThat value m p)

    pub write_felt-OkThat :
        (n : ℕ) (m : Vm) (p : Ptr)
        → OkThat
            (λ (r : Vm × Ptr). Wrote m p 1 r × (v.get_integer r.0 p ≡ some n))
            (write_felt v n m p)
    write_felt-OkThat n m p =
        Ends_imp (λ _. Unit) Unit (WroteValue (int n) m p)
          (λ (r : Vm × Ptr). Wrote m p 1 r × (v.get_integer r.0 p ≡ some n)) _
          (λ r h. (h.0, w.get-insert p n h.1)) (write_value-OkThat (int n) m p)

    -- One writer after another.
    pub Wrote-bind :
        (m : Vm) (p : Ptr) (a b : ℕ) (o : SyscallResult (Vm × Ptr))
        (f : Vm × Ptr → SyscallResult (Vm × Ptr))
        → OkThat (Wrote m p a) o
        → ((r : Vm × Ptr) → OkThat (Wrote r.0 r.1 b) (f r))
        → OkThat (Wrote m p (a + b)) (o >>= f)
    Wrote-bind m p a b o f h k = OkThat-bind (Wrote m p a) (Wrote m p (a + b)) o f h (λ r g.
        Ends_imp (λ _. Unit) Unit (Wrote r.0 r.1 b) (Wrote m p (a + b)) _
          (λ s k'. Wrote-trans a b r s g k') (k r))

    pub write_segment-OkThat :
        (segment : ReadOnlySegment Ptr) (m : Vm) (p : Ptr)
        → OkThat (Wrote m p 2) (write_segment v segment m p)
    unfolding write_segment
    write_segment-OkThat segment m p =
        Wrote-bind m p 1 1 _ _
          (write_maybe_relocatable-OkThat (relocatable_value segment.start_ptr) m p)
          (λ r.
            OkThat-bind (λ _. Unit) (Wrote r.0 r.1 1) (advance v segment.start_ptr segment.length) _
              (Ends_imp (λ _. Unit) Unit _ (λ _. Unit) _ (λ a e. tt) (vm_ok-OkThat _))
              (λ end u. write_maybe_relocatable-OkThat (relocatable_value end) r.0 r.1))

    pub answer-OkThat :
        (gas flag n : ℕ) (m : Vm) (p : Ptr) (rest : Vm × Ptr → SyscallResult (Vm × Ptr))
        → ((r : Vm × Ptr) → OkThat (Wrote r.0 r.1 n) (rest r))
        → OkThat
            (WroteAnswer m p gas flag (1 + (1 + n)))
            (write_felt v gas m p >>= λ r. write_felt v flag r.0 r.1 >>= rest)
    answer-OkThat gas flag n m p rest h =
        OkThat-bind (λ (r : Vm × Ptr). Wrote m p 1 r × (v.get_integer r.0 p ≡ some gas))
          (WroteAnswer m p gas flag (1 + (1 + n))) _ _ (write_felt-OkThat gas m p)
          (λ r f.
            OkThat-bind (λ (s : Vm × Ptr). Wrote r.0 r.1 1 s × (v.get_integer s.0 r.1 ≡ some flag))
              (WroteAnswer m p gas flag (1 + (1 + n))) _ _ (write_felt-OkThat flag r.0 r.1)
              (λ s g.
                Ends_imp (λ _. Unit) Unit (Wrote s.0 s.1 n) (WroteAnswer m p gas flag (1 + (1 + n)))
                  _
                  (λ t k. (
                    Wrote-trans 1 (1 + n) r t f.0 (Wrote-trans 1 n s t g.0 k),
                    (
                      k.0.integers p gas (g.0.0.integers p gas f.1),
                      λ q e. k.0.integers q flag (same_pointer (sym f.0.1 ∙ e) g.1),
                    ),
                  ))
                  (h s)))

    pub write_failure-OkThat :
        (gas : ℕ) (error_data : List ℕ) (m : Vm) (p : Ptr)
        → OkThat (WroteAnswer m p gas 1 4) (write_failure v gas error_data m p)
    unfolding write_failure
    write_failure-OkThat gas error_data m p = answer-OkThat gas 1 2 m p _ (λ r.
        let (start, m') = v.add_memory_segment r.0 in
        OkThat-bind (λ (l : Ptr × Vm). Kept v r.0 l.1) (Wrote r.0 r.1 2)
          (vm_ok (v.load_data m' start (map int error_data))) _
          (Ends_imp (λ _. Unit) Unit
            (λ (l : Ptr × Vm). v.load_data m' start (map int error_data) ≡ some l)
            (λ (l : Ptr × Vm). Kept v r.0 l.1) _
            (λ l e. Kept-trans v (w.Kept-segment r.0) (w.Kept-load start l.0 _ e)) (vm_ok-OkThat _))
          (λ l k.
            Ends_imp (λ _. Unit) Unit (Wrote l.1 r.1 2) (Wrote r.0 r.1 2) _
              (λ t h. (Kept-trans v k h.0, h.1))
              (Wrote-bind l.1 r.1 1 1 _ _
                (write_maybe_relocatable-OkThat (relocatable_value start) l.1 r.1)
                (λ t. write_maybe_relocatable-OkThat (relocatable_value l.0) t.0 t.1))))
