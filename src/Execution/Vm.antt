-- ===== src/Execution/Vm.antt =====
-- What the system calls of crates/starknet-os/src/execution use of the Cairo VM (cairo_vm): its
-- memory, segments and pointers. An operation that fails gives `none`: the callers turn every error
-- of the VM into the same error.
use snos.Base.{ℕ, ◌+◌, ◌≡◌, ◌≢◌, Option, none, some, List}

-- `MaybeRelocatable`: what a memory cell holds.
pub data MaybeRelocatable (Ptr : Type 0) : Type 0 where
  int : ℕ → MaybeRelocatable Ptr
  relocatable_value : Ptr → MaybeRelocatable Ptr

-- `VirtualMachine`, for a type of its states and a type of pointers (`Relocatable`).
pub record VirtualMachine (Vm Ptr : Type 0) : Type 0 where
  pub add : Ptr → ℕ → Option Ptr
  pub sub : Ptr → Ptr → Option ℕ
  -- The field of a pointer.
  pub offset : Ptr → ℕ
  pub get_integer : Vm → Ptr → Option ℕ
  pub get_relocatable : Vm → Ptr → Option Ptr
  pub get_integer_range : Vm → Ptr → ℕ → Option (List ℕ)
  pub insert_value : Vm → Ptr → MaybeRelocatable Ptr → Option Vm
  -- With the pointer behind what was written.
  pub load_data : Vm → Ptr → List (MaybeRelocatable Ptr) → Option (Ptr × Vm)
  pub add_memory_segment : Vm → Ptr × Vm
  pub add_temporary_segment : Vm → Ptr × Vm

module _ {Vm Ptr : Type 0} (v : VirtualMachine Vm Ptr) where
  -- What one memory holds, another one holds too.
  pub record Kept (m m' : Vm) : Type 0 where
    pub integers : (p : Ptr) (n : ℕ) → v.get_integer m p ≡ some n → v.get_integer m' p ≡ some n
    pub pointers : (p q : Ptr) → v.get_relocatable m p ≡ some q → v.get_relocatable m' p ≡ some q

  -- The documented behaviour of the memory: a cell is written once and then keeps its value, which
  -- another write can only repeat.
  pub record IsWriteOnce : Type 0 where
    pub Kept-insert :
        {m m' : Vm} (p : Ptr) (x : MaybeRelocatable Ptr)
        → v.insert_value m p x ≡ some m'
        → Kept m m'
    pub Kept-load :
        {m m' : Vm} (p end : Ptr) (xs : List (MaybeRelocatable Ptr))
        → v.load_data m p xs ≡ some (end, m')
        → Kept m m'
    pub Kept-segment : (m : Vm) → Kept m (v.add_memory_segment m).1
    pub Kept-temporary : (m : Vm) → Kept m (v.add_temporary_segment m).1
    pub get-insert :
        {m m' : Vm} (p : Ptr) (n : ℕ)
        → v.insert_value m p (int n) ≡ some m'
        → v.get_integer m' p ≡ some n
    pub insert_again :
        (m : Vm) (p : Ptr) (n k : ℕ)
        → v.get_integer m p ≡ some n
        → n ≢ k
        → v.insert_value m p (int k) ≡ none
    pub insert_over_pointer :
        (m : Vm) (p q : Ptr) (k : ℕ)
        → v.get_relocatable m p ≡ some q
        → v.insert_value m p (int k) ≡ none
    pub add_zero : (p : Ptr) → v.add p 0 ≡ some p
    pub add_add : {p q : Ptr} (a b : ℕ) → v.add p a ≡ some q → v.add q b ≡ v.add p (a + b)

  pub Kept-refl : (m : Vm) → Kept m m
  Kept-refl m = record { integers = λ p n e. e; pointers = λ p q e. e }

  pub Kept-trans : {m1 m2 m3 : Vm} → Kept m1 m2 → Kept m2 m3 → Kept m1 m3
  Kept-trans f g = record {
    integers = λ p n e. g.integers p n (f.integers p n e);
    pointers = λ p q e. g.pointers p q (f.pointers p q e);
  }
