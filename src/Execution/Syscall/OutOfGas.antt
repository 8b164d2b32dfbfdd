-- ===== src/Execution/Syscall/OutOfGas.antt =====
-- The refusal of a system call for lack of gas in `run_handler` of
-- crates/starknet-os/src/execution/syscall_handler_utils.rs, which is written without reading the
-- request.
use snos.Base.{
  ℕ, ◌-◌, ◌^◌, ◌≤◌, ◌<◌, ◌≡◌, ◌≢◌, refl, true, false, ltb, none, some, List, [], ◌∷◌, arith,
}
use snos.Base.Outcome.{err}
use snos.Execution.Vm.{VirtualMachine, int, IsWriteOnce}
use snos.Execution.Exec.{internal_error}
use snos.Execution.Syscall.{
  felt_from_ptr, write_maybe_relocatable, write_failure, SyscallHandler, refused, run_handler,
  syscall_base_gas_cost, out_of_gas_error,
}

module _ {Vm Ptr : Type 0} (v : VirtualMachine Vm Ptr) where
  -- The cell holds something else than the number.
  pub data Occupied (m : Vm) (p : Ptr) (n : ℕ) : Type 0 where
    by_integer : (k : ℕ) → v.get_integer m p ≡ some k → k ≢ n → Occupied m p n
    by_pointer : (q : Ptr) → v.get_relocatable m p ≡ some q → Occupied m p n

  module _ (w : IsWriteOnce v) where
    insert-Occupied :
        (m : Vm) (p : Ptr) (n : ℕ) → Occupied m p n → v.insert_value m p (int n) ≡ none
    insert-Occupied m p n (by_integer k e ne) = w.insert_again m p k n e ne
    insert-Occupied m p n (by_pointer q e) = w.insert_over_pointer m p q n e

    write_failure-Occupied :
        (m : Vm) (p : Ptr) (n : ℕ) (error_data : List ℕ)
        → Occupied m p n
        → write_failure v n error_data m p ≡ err internal_error
    unfolding write_failure write_maybe_relocatable
    write_failure-Occupied m p n error_data o = rw (insert-Occupied m p n o) refl

    module _ {S Request Response : Type 0}
        (handler : SyscallHandler Vm Ptr S Request Response) where
      -- A system call with a gas counter that does not suffice, behind which the cell holds
      -- something else than this counter, such as the start of its request, is not answered with a
      -- failure: `run_handler` returns an error.
      pub run_handler-out_of_gas :
          (cost : ℕ) (m : Vm) (p next : Ptr) (helper : S) (gas_counter : ℕ)
          → syscall_base_gas_cost ≤ cost
          → v.get_integer m p ≡ some gas_counter
          → v.add p 1 ≡ some next
          → gas_counter < 2 ^ 64
          → gas_counter < cost - syscall_base_gas_cost
          → Occupied m next gas_counter
          → run_handler v handler cost m p helper ≡ err internal_error
      unfolding run_handler felt_from_ptr refused
      run_handler-out_of_gas cost m p next helper gas_counter enough e f fits less o =
          let low : ltb cost syscall_base_gas_cost ≡ false = ground arith in
          let fits' : ltb gas_counter (2 ^ 64) ≡ true = ground arith in
          let less' : ltb gas_counter (cost - syscall_base_gas_cost) ≡ true = ground arith in
          rw
            (
              low,
              e,
              f,
              fits',
              less',
              write_failure-Occupied m next gas_counter (out_of_gas_error ∷ []) o,
            )
            refl
