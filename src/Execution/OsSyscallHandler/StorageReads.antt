-- ===== src/Execution/OsSyscallHandler/StorageReads.antt =====
-- `StorageRead` of crates/starknet-os/src/execution/syscall_handler.rs on a memory that has room for
-- its answer.
use snos.Base.{ℕ, ◌-◌, ◌^◌, ◌≤◌, ◌<◌, ◌≡◌, ◌≢◌, refl, true, false, ltb, some, List, ◌∷◌, arith}
use snos.Base.Outcome.{ok}
use snos.Execution.Vm.{VirtualMachine, MaybeRelocatable, int, IsWriteOnce}
use snos.Execution.Helper.{next_storage_read}
use snos.Execution.Syscall.{
  felt_from_ptr, write_maybe_relocatable, write_success, respond, charged, run_handler,
  syscall_base_gas_cost,
}
use snos.Execution.State.{Packages, SyscallHelper}
use snos.Execution.Requests.{skip_request, read_address_domain, storage_read_request_size}
use snos.Execution.Handlers.{execute_storage_read, storage_read_handler}

-- Cells that nothing was written to: they take any value, and writing one leaves the others free.
pub record HasRoom {Vm Ptr : Type 0} (v : VirtualMachine Vm Ptr) (Free : Vm → Ptr → Type 0)
    : Type 0 where
  pub takes :
      (m : Vm) (p : Ptr) (x : MaybeRelocatable Ptr)
      → Free m p
      → (m' : Vm) × (v.insert_value m p x ≡ some m')
  pub stays :
      (m m' : Vm) (p q : Ptr) (x : MaybeRelocatable Ptr)
      → v.insert_value m p x ≡ some m'
      → q ≢ p
      → Free m q
      → Free m' q

module _ {Vm Ptr : Type 0} (v : VirtualMachine Vm Ptr) (Free : Vm → Ptr → Type 0) where
  -- A call: the gas counter, the address domain 0, and behind the request three free cells.
  pub record IsReadable (m : Vm) (p request gas flag value end : Ptr) (gas_counter : ℕ)
      : Type 0 where
    pub counted : v.get_integer m p ≡ some gas_counter
    pub fits : gas_counter < 2 ^ 64
    pub domain : v.get_integer m request ≡ some 0
    pub behind_counter : v.add p 1 ≡ some request
    pub behind_request : v.add request storage_read_request_size ≡ some gas
    pub behind_gas : v.add gas 1 ≡ some flag
    pub behind_flag : v.add flag 1 ≡ some value
    pub behind_value : v.add value 1 ≡ some end
    pub free_gas : Free m gas
    pub free_flag : Free m flag
    pub free_value : Free m value
    pub flag-ne-gas : flag ≢ gas
    pub value-ne-gas : value ≢ gas
    pub value-ne-flag : value ≢ flag

module _ {Vm Ptr : Type 0} (v : VirtualMachine Vm Ptr) (Free : Vm → Ptr → Type 0)
    (room : HasRoom v Free) where
  -- The three numbers of an answer are written one after the other.
  written :
      (m : Vm) (gas flag value : Ptr) (a b c : ℕ)
      → Free m gas
      → Free m flag
      → Free m value
      → flag ≢ gas
      → value ≢ gas
      → value ≢ flag
      → (m1 : Vm) × (m2 : Vm) × (m3 : Vm) × (v.insert_value m gas (int a) ≡ some m1)
        × (v.insert_value m1 flag (int b) ≡ some m2)
        × (v.insert_value m2 value (int c) ≡ some m3)
  written m gas flag value a b c fg ff fv n1 n2 n3 =
      let (m1, e1) = room.takes m gas (int a) fg in
      let (m2, e2) = room.takes m1 flag (int b) (room.stays m m1 gas flag (int a) e1 n1 ff) in
      let free =
        room.stays m1 m2 flag value (int b) e2 n3 (room.stays m m1 gas value (int a) e1 n2 fv) in
      let (m3, e3) = room.takes m2 value (int c) free in (m1, m2, m3, e1, e2, e3)

module _ {Vm Ptr : Type 0} {P : Packages} (v : VirtualMachine Vm Ptr) (w : IsWriteOnce v)
    (Free : Vm → Ptr → Type 0) (room : HasRoom v Free) where
  -- A `StorageRead` of the address domain 0 whose gas suffices, on a memory with room for its answer
  -- and with a recorded read left, succeeds: the answer is the gas less the cost beyond the base
  -- cost, no failure, and the next recorded value, which is taken from the helper.
  pub run_handler-storage_read :
      (cost : ℕ) (m : Vm) (p request gas flag value end : Ptr) (gas_counter felt : ℕ)
      (helper : SyscallHelper Ptr P) (rest : List ℕ)
      → syscall_base_gas_cost ≤ cost
      → cost - syscall_base_gas_cost ≤ gas_counter
      → IsReadable v Free m p request gas flag value end gas_counter
      → helper.execution_helper.execute_code_read_iter ≡ felt ∷ rest
      → (m' : Vm) × (run_handler v (storage_read_handler v) cost m p helper
          ≡ ok (
            end,
            m',
            record helper {
              execution_helper = record (helper.execution_helper) { execute_code_read_iter = rest };
            },
          ))
        × (v.get_integer m' gas ≡ some (gas_counter - (cost - syscall_base_gas_cost)))
        × (v.get_integer m' flag ≡ some 0)
        × (v.get_integer m' value ≡ some felt)
  unfolding run_handler charged respond write_success write_maybe_relocatable felt_from_ptr
      read_address_domain skip_request execute_storage_read next_storage_read
  run_handler-storage_read cost m p request gas flag value end gas_counter felt helper rest enough
        suffices r e =
      let low : ltb cost syscall_base_gas_cost ≡ false = ground arith in
      let fits : ltb gas_counter (2 ^ 64) ≡ true = ground (arith, r.fits) in
      let more : ltb gas_counter (cost - syscall_base_gas_cost) ≡ false = ground arith in
      let left : ℕ = gas_counter - (cost - syscall_base_gas_cost) in
      let (m1, m2, m3, e1, e2, e3) =
        written v Free room m gas flag value left 0 felt r.free_gas r.free_flag r.free_value
          r.flag-ne-gas r.value-ne-gas r.value-ne-flag in
      let k2 = w.Kept-insert flag (int 0) e2 in
      let k3 = w.Kept-insert value (int felt) e3 in
      (
        m3,
        rw
            (
              low, r.counted, r.behind_counter, fits, more, r.domain, r.behind_request, e, e1,
              r.behind_gas, e2, r.behind_flag, e3, r.behind_value,
            )
            refl,
        k3.integers gas left (k2.integers gas left (w.get-insert gas left e1)),
        k3.integers flag 0 (w.get-insert flag 0 e2),
        w.get-insert value felt e3,
      )
