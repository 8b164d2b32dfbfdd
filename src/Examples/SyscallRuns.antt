-- ===== src/Examples/SyscallRuns.antt =====
-- A read of storage as a system call, with enough gas and without.
use snos.Base.{
  ℕ, ◌-◌, ◌≡◌, refl, true, ◌==◌, if◌then◌else◌, none, some, [], ◌∷◌, ◌++◌, arith, length, replicate,
}
use snos.Base.Outcome.{ok, err}
use snos.Base.HashMap
use snos.Base.HashMap.{HashMap, nat_eq}
use snos.CommitmentTree.Bytes.{Bytes}
use snos.Execution.Vm.{int}
use snos.Execution.Helper.{PerContractStorage, new}
use snos.Execution.Exec.{internal_error}
use snos.Execution.State.{Packages, SyscallHelper}
use snos.Execution.Handlers.{call_contract_handler, storage_read_handler}
use snos.Execution.Secp.{SecpHintProcessor}
use snos.Execution.Syscall.{run_handler, syscall_base_gas_cost}
use snos.Execution.Syscall.Response.{OkThat}
use snos.Execution.Syscall.OutOfGas.{by_integer, run_handler-out_of_gas}
use snos.Execution.OsSyscallHandler.{OsSyscallHandler, Runtime}
use snos.Execution.OsSyscallHandler.Replays.{CallReplayed, run_handler-CallReplayed}
use snos.Execution.OsSyscallHandler.StorageReads.{IsReadable, run_handler-storage_read}
use snos.Examples.Packages.{base_256}
use snos.Examples.Memory.{Memory, memory, memory-IsWriteOnce, Free, memory-HasRoom}

-- Processors that know no point.
abbrev no_points : SecpHintProcessor (Unit {0})
no_points = record {
  secp_new = λ request p. (ok none, p);
  secp_get_point_from_x = λ request p. (ok none, p);
  secp_mul = λ id n p. (err internal_error, p);
  secp_add = λ a b p. (err internal_error, p);
  secp_get_xy = λ id p. (err internal_error, p);
}

abbrev packages : Packages
packages = record {
  PCS = HashMap ℕ ℕ;
  Casm = ℕ;
  Deprecated = ℕ;
  Secp256k1 = Unit {0};
  Secp256r1 = Unit {0};
}

abbrev map_storage : PerContractStorage (HashMap ℕ ℕ)
map_storage = record {
  read = λ key storage. (HashMap.get key storage, storage);
  write = λ key value storage. HashMap.insert key value storage;
}

abbrev bytes_32 : ℕ → Bytes
bytes_32 n = let bytes = base_256.to_bytes_be n in replicate (32 - length bytes) 0 ++ bytes

abbrev runtime : Runtime Memory ℕ packages
runtime = record {
  vm = memory;
  same = λ p q. p == q;
  to_bytes_be = bytes_32;
  storages = map_storage;
  formats = record { constructors = λ n. some n; deprecated_constructors = λ n. some n };
  hashes = record { f1600 = λ state. state; compress256 = λ state block. state };
  secp256k1 = no_points;
  secp256r1 = no_points;
}

abbrev helper : SyscallHelper ℕ packages
helper = record {
  execution_helper = record (new [] [] (1, 2)) { execute_code_read_iter = 33 ∷ [] };
  os_input = none;
  secp256k1_syscall_processor = record { processor = tt; segment = none };
  secp256r1_syscall_processor = record { processor = tt; segment = none };
  sha256_segment = none;
}

abbrev handler : OsSyscallHandler ℕ packages
handler = record { exec_wrapper = helper; syscall_ptr = some 0 }

-- "StorageRead", the gas, the address domain and the key.
abbrev call_memory : ℕ → Memory
call_memory gas = record {
  cells = λ p.
      if p == 0
      then some (int 0x53746f7261676552656164)
      else (if p == 1
          then some (int gas)
          else (if p == 2 then some (int 0) else (if p == 3 then some (int 5) else none)));
  segments = 1;
}

-- A call with one recorded result, which fails.
abbrev caller : SyscallHelper ℕ packages
caller = record helper {
  execution_helper = record (new [] [] (1, 2)) {
    result_iter = record { failed = true; retdata = 7 ∷ []; gas_consumed = 500 } ∷ [];
  };
}

run_handler-CallReplayed_example :
    OkThat
      (CallReplayed memory 71000 (call_memory 100000) 1 caller)
      (run_handler memory (call_contract_handler memory) 71000 (call_memory 100000) 1 caller)
run_handler-CallReplayed_example =
    run_handler-CallReplayed memory memory-IsWriteOnce 71000 (call_memory 100000) 1 caller

run_handler-out_of_gas_example :
    run_handler memory (storage_read_handler memory) 15000 (call_memory 4999) 1 helper
    ≡ err internal_error
run_handler-out_of_gas_example =
    run_handler-out_of_gas memory memory-IsWriteOnce (storage_read_handler memory) 15000
      (call_memory 4999) 1 2 helper 4999 (omega arith) refl refl (omega arith) (omega arith)
      (by_integer 0 refl (λ e. absurd (omega arith)))

readable : IsReadable memory Free (call_memory 100000) 1 2 4 5 6 7 100000
readable = record {
  counted = refl;
  fits = omega arith;
  domain = refl;
  behind_counter = refl;
  behind_request = refl;
  behind_gas = refl;
  behind_flag = refl;
  behind_value = refl;
  free_gas = refl;
  free_flag = refl;
  free_value = refl;
  flag-ne-gas = λ e. absurd (omega arith);
  value-ne-gas = λ e. absurd (omega arith);
  value-ne-flag = λ e. absurd (omega arith);
}

run_handler-storage_read_example :
    (m' : Memory) × (run_handler memory
        (storage_read_handler memory)
        15000
        (call_memory 100000)
        1
        helper
      ≡ ok (
        7,
        m',
        record helper {
          execution_helper = record (helper.execution_helper) { execute_code_read_iter = [] };
        },
      ))
    × (memory.get_integer m' 4 ≡ some (100000 - (15000 - syscall_base_gas_cost)))
    × (memory.get_integer m' 5 ≡ some 0)
    × (memory.get_integer m' 6 ≡ some 33)
run_handler-storage_read_example =
    run_handler-storage_read memory memory-IsWriteOnce Free memory-HasRoom 15000
      (call_memory 100000) 1 2 4 5 6 7 100000 33 helper [] (omega arith) (omega arith) readable refl
