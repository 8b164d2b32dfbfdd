-- ===== src/Execution/Helper.antt =====
-- crates/starknet-os/src/execution/helper.rs: the state that replays the calls of a block's
-- transactions, and the system calls that take from its iterators
-- (crates/starknet-os/src/execution/syscall_handler.rs). An iterator is the list of what it has
-- still to give, and the lock that guards the state is held by one call at a time.
pub mod Runs
pub mod Steps
pub mod Replay
pub mod Order
pub mod Storages
pub mod Skips
use snos.Base.{ℕ, Bool, true, false, Option, none, some, List, [], ◌∷◌, if◌then◌else◌}
use snos.Base.Outcome.{Outcome, ok, err, panicked, ◌>>=◌}
use snos.Base.HashMap
use snos.Base.HashMap.{HashMap, nat_eq}
use snos.Execution.Calls.{
  Call, CallInfo, CallInfos, no_calls, calls, call, inner_calls, TransactionExecutionInfo,
  gen_call_iterator, is_constructor,
}

pub record CallResult : Type 0 where
  pub failed : Bool
  pub retdata : List ℕ
  pub gas_consumed : ℕ

-- `ExecutionHelper`, for a type of per-contract storages and a type of pointers into the VM.
pub record ExecutionHelper (PCS Relocatable : Type 0) : Type 0 where
  pub tx_execution_info_iter : List TransactionExecutionInfo
  pub tx_execution_info : Option TransactionExecutionInfo
  pub tx_info_ptr : Option Relocatable
  pub call_execution_info_ptr : Option Relocatable
  pub old_block_number_and_hash : Option (ℕ × ℕ)
  pub call_iter : List CallInfo
  pub call_info : Option CallInfo
  pub result_iter : List CallResult
  pub deployed_contracts_iter : List ℕ
  pub execute_code_read_iter : List ℕ
  pub storage_by_address : HashMap ℕ PCS

pub data HelperError : Type 0 where
  block_number_too_small no_result_left no_deployed_contract_left no_storage_read_left
        content_not_found :
      HelperError

abbrev pub call_result : CallInfo → CallResult
call_result info = record {
  failed = (call info).failed;
  retdata = (call info).retdata;
  gas_consumed = (call info).gas_consumed;
}

unfoldable pub call_results : CallInfos → List CallResult
call_results no_calls = []
call_results (calls info rest) = call_result info ∷ call_results rest

unfoldable pub deployed_contracts : CallInfos → List ℕ
deployed_contracts no_calls = []
deployed_contracts (calls info rest) =
    let others = deployed_contracts rest in
    if is_constructor info then (call info).storage_address ∷ others else others

abbrev pub is_none {ℓ} : {A : Type ℓ} → Option A → Bool
is_none none = true
is_none (some a) = false

abbrev pub is_exhausted {ℓ} : {A : Type ℓ} → List A → Bool
is_exhausted [] = true
is_exhausted (x ∷ xs) = false

-- `assert!`, before what follows it.
abbrev assert : {E A : Type 0} → Bool → Outcome E A → Outcome E A
assert holds rest = if holds then rest else panicked

module _ {PCS Relocatable : Type 0} where
  -- `ExecutionHelperWrapper::new`
  abbrev pub new :
      HashMap ℕ PCS → List TransactionExecutionInfo → ℕ × ℕ → ExecutionHelper PCS Relocatable
  new contract_storage_map tx_execution_infos old_block_number_and_hash = record {
    tx_execution_info_iter = tx_execution_infos;
    tx_execution_info = none;
    tx_info_ptr = none;
    call_execution_info_ptr = none;
    old_block_number_and_hash = some old_block_number_and_hash;
    call_iter = [];
    call_info = none;
    result_iter = [];
    deployed_contracts_iter = [];
    execute_code_read_iter = [];
    storage_by_address = contract_storage_map;
  }

  -- `unwrap()` of the next transaction.
  abbrev first_tx :
      Option Relocatable
      → List TransactionExecutionInfo
      → ExecutionHelper PCS Relocatable
      → Outcome HelperError (ExecutionHelper PCS Relocatable)
  first_tx tx_info_ptr [] eh = panicked
  first_tx tx_info_ptr (info ∷ rest) eh = ok record eh {
    tx_info_ptr = tx_info_ptr;
    tx_execution_info_iter = rest;
    tx_execution_info = some info;
    call_iter = gen_call_iterator info;
  }

  unfoldable pub start_tx :
      Option Relocatable
      → ExecutionHelper PCS Relocatable
      → Outcome HelperError (ExecutionHelper PCS Relocatable)
  start_tx tx_info_ptr eh =
      assert (is_none eh.tx_info_ptr)
        (assert (is_none eh.tx_execution_info) (first_tx tx_info_ptr eh.tx_execution_info_iter eh))

  unfoldable pub end_tx :
      ExecutionHelper PCS Relocatable → Outcome HelperError (ExecutionHelper PCS Relocatable)
  end_tx eh =
      if is_exhausted eh.call_iter
      then (if is_none eh.tx_execution_info
          then panicked
          else ok record eh { tx_info_ptr = none; tx_execution_info = none })
      else panicked

  unfoldable pub skip_tx :
      ExecutionHelper PCS Relocatable → Outcome HelperError (ExecutionHelper PCS Relocatable)
  skip_tx eh = start_tx none eh >>= end_tx

  unfoldable pub assert_iterators_exhausted :
      ExecutionHelper PCS Relocatable
      → Outcome HelperError (ExecutionHelper PCS Relocatable)
      → Outcome HelperError (ExecutionHelper PCS Relocatable)
  assert_iterators_exhausted eh rest =
      assert (is_exhausted eh.deployed_contracts_iter) (
        assert (is_exhausted eh.result_iter) (assert (is_exhausted eh.execute_code_read_iter) rest))

  abbrev first_call :
      Option Relocatable
      → List CallInfo
      → ExecutionHelper PCS Relocatable
      → Outcome HelperError (ExecutionHelper PCS Relocatable)
  first_call execution_info_ptr [] eh = panicked
  first_call execution_info_ptr (info ∷ rest) eh = ok record eh {
    call_execution_info_ptr = execution_info_ptr;
    call_iter = rest;
    deployed_contracts_iter = deployed_contracts (inner_calls info);
    result_iter = call_results (inner_calls info);
    execute_code_read_iter = (call info).storage_read_values;
    call_info = some info;
  }

  unfoldable pub enter_call :
      Option Relocatable
      → ExecutionHelper PCS Relocatable
      → Outcome HelperError (ExecutionHelper PCS Relocatable)
  enter_call execution_info_ptr eh = assert (is_none eh.call_execution_info_ptr) (
      assert_iterators_exhausted eh
        (assert (is_none eh.call_info) (first_call execution_info_ptr eh.call_iter eh)))

  unfoldable pub exit_call :
      ExecutionHelper PCS Relocatable → Outcome HelperError (ExecutionHelper PCS Relocatable)
  exit_call eh = assert_iterators_exhausted eh (
      if is_none eh.call_info
      then panicked
      else ok record eh { call_execution_info_ptr = none; call_info = none })

  unfoldable pub skip_call :
      ExecutionHelper PCS Relocatable → Outcome HelperError (ExecutionHelper PCS Relocatable)
  skip_call eh = enter_call none eh >>= exit_call

  -- `result_iter.next()`, in `CallContract` and `LibraryCall`.
  unfoldable pub next_result :
      ExecutionHelper PCS Relocatable
      → Outcome HelperError (CallResult × ExecutionHelper PCS Relocatable)
  next_result eh = elim eh.result_iter [
    | [] ↦ err no_result_left
    | r ∷ rest ↦ ok (r, record eh { result_iter = rest })
  ]

  -- `deployed_contracts_iter.next()`, in `Deploy`.
  unfoldable pub next_deployed_contract :
      ExecutionHelper PCS Relocatable → Outcome HelperError (ℕ × ExecutionHelper PCS Relocatable)
  next_deployed_contract eh = elim eh.deployed_contracts_iter [
    | [] ↦ err no_deployed_contract_left
    | a ∷ rest ↦ ok (a, record eh { deployed_contracts_iter = rest })
  ]

  -- `StorageRead::execute`
  unfoldable pub next_storage_read :
      ExecutionHelper PCS Relocatable → Outcome HelperError (ℕ × ExecutionHelper PCS Relocatable)
  next_storage_read eh = elim eh.execute_code_read_iter [
    | [] ↦ err no_storage_read_left
    | value ∷ rest ↦ ok (value, record eh { execute_code_read_iter = rest })
  ]

  unfoldable pub get_old_block_number_and_hash :
      ExecutionHelper PCS Relocatable → Outcome HelperError (ℕ × ℕ)
  get_old_block_number_and_hash eh = elim eh.old_block_number_and_hash [
    | none ↦ err block_number_too_small
    | some pair ↦ ok pair
  ]

-- `PerContractStorage`: a read may change what the storage caches.
pub record PerContractStorage (PCS : Type 0) : Type 0 where
  pub read : ℕ → PCS → Option ℕ × PCS
  pub write : ℕ → ℕ → PCS → PCS

module _ {PCS Relocatable : Type 0} (pcs : PerContractStorage PCS) where
  abbrev read_outcome :
      ℕ
      → ExecutionHelper PCS Relocatable
      → Option ℕ × PCS
      → Outcome HelperError ℕ × ExecutionHelper PCS Relocatable
  read_outcome address eh (value, storage) = (
    elim value [ none ↦ err content_not_found | some v ↦ ok v ],
    record eh { storage_by_address = HashMap.insert address storage eh.storage_by_address },
  )

  abbrev read_found :
      ℕ
      → ℕ
      → ExecutionHelper PCS Relocatable
      → Option PCS
      → Outcome HelperError ℕ × ExecutionHelper PCS Relocatable
  read_found address key eh none = (err content_not_found, eh)
  read_found address key eh (some storage) = read_outcome address eh (pcs.read key storage)

  -- What the read changed in the storage stays, also when there is no value.
  unfoldable pub read_storage_for_address :
      ℕ
      → ℕ
      → ExecutionHelper PCS Relocatable
      → Outcome HelperError ℕ × ExecutionHelper PCS Relocatable
  read_storage_for_address address key eh =
      read_found address key eh (HashMap.get address eh.storage_by_address)

  abbrev write_found :
      ℕ
      → ℕ
      → ℕ
      → ExecutionHelper PCS Relocatable
      → Option PCS
      → Outcome HelperError (ExecutionHelper PCS Relocatable)
  write_found address key value eh none = err content_not_found
  write_found address key value eh (some storage) = ok record eh {
    storage_by_address = HashMap.insert address (pcs.write key value storage) eh.storage_by_address;
  }

  unfoldable pub write_storage_for_address :
      ℕ
      → ℕ
      → ℕ
      → ExecutionHelper PCS Relocatable
      → Outcome HelperError (ExecutionHelper PCS Relocatable)
  write_storage_for_address address key value eh =
      write_found address key value eh (HashMap.get address eh.storage_by_address)
