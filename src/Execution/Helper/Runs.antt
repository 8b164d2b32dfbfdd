-- ===== src/Execution/Helper/Runs.antt =====
-- Runs of the execution helper of crates/starknet-os/src/execution/helper.rs: what holds after any
-- sequence of its operations, started from `ExecutionHelperWrapper::new`.
use snos.Base.{ℕ, true, Option, some, List, [], ◌∷◌, ◌++◌, ◌≡◌}
use snos.Base.Outcome.{ok}
use snos.Base.HashMap.{nat_eq}
use snos.Execution.Calls.{CallInfo, TransactionExecutionInfo, gen_call_iterator}
use snos.Execution.Helper.{
  ExecutionHelper, CallResult, start_tx, end_tx, enter_call, exit_call, next_result,
  next_deployed_contract, next_storage_read, PerContractStorage, read_storage_for_address,
  write_storage_for_address, is_none,
}

-- The calls of a list of transactions, in the order in which they are made.
unfoldable pub block_calls : List TransactionExecutionInfo → List CallInfo
block_calls [] = []
block_calls (tx ∷ txs) = gen_call_iterator tx ++ block_calls txs

module _ {PCS Relocatable : Type 0} (pcs : PerContractStorage PCS) where
  -- The states that operations reach, with the calls that were entered on the way.
  pub data Run (start : ExecutionHelper PCS Relocatable)
      : List CallInfo → ExecutionHelper PCS Relocatable → Type 0 where
    begin : Run start [] start
    start_tx_step :
        {entered : List CallInfo} {eh eh' : ExecutionHelper PCS Relocatable}
        (ptr : Option Relocatable)
        → Run start entered eh
        → start_tx ptr eh ≡ ok eh'
        → Run start entered eh'
    end_tx_step :
        {entered : List CallInfo} {eh eh' : ExecutionHelper PCS Relocatable}
        → Run start entered eh
        → end_tx eh ≡ ok eh'
        → Run start entered eh'
    enter_call_step :
        {entered : List CallInfo} {eh eh' : ExecutionHelper PCS Relocatable}
        (ptr : Option Relocatable) (info : CallInfo)
        → Run start entered eh
        → enter_call ptr eh ≡ ok eh'
        → eh'.call_info ≡ some info
        → Run start (entered ++ (info ∷ [])) eh'
    exit_call_step :
        {entered : List CallInfo} {eh eh' : ExecutionHelper PCS Relocatable}
        → Run start entered eh
        → exit_call eh ≡ ok eh'
        → Run start entered eh'
    result_step :
        {entered : List CallInfo} {eh eh' : ExecutionHelper PCS Relocatable} {r : CallResult}
        → Run start entered eh
        → next_result eh ≡ ok (r, eh')
        → Run start entered eh'
    deployed_step :
        {entered : List CallInfo} {eh eh' : ExecutionHelper PCS Relocatable} {a : ℕ}
        → Run start entered eh
        → next_deployed_contract eh ≡ ok (a, eh')
        → Run start entered eh'
    storage_read_step :
        {entered : List CallInfo} {eh eh' : ExecutionHelper PCS Relocatable} {v : ℕ}
        → Run start entered eh
        → next_storage_read eh ≡ ok (v, eh')
        → Run start entered eh'
    write_step :
        {entered : List CallInfo} {eh eh' : ExecutionHelper PCS Relocatable} (address key value : ℕ)
        → Run start entered eh
        → write_storage_for_address pcs address key value eh ≡ ok eh'
        → Run start entered eh'
    read_step :
        {entered : List CallInfo} {eh : ExecutionHelper PCS Relocatable} (address key : ℕ)
        → Run start entered eh
        → Run start entered ((read_storage_for_address pcs address key eh).1)

  -- What every reachable state satisfies.
  pub record IsReplaying (txs : List TransactionExecutionInfo) (entered : List CallInfo)
      (eh : ExecutionHelper PCS Relocatable) : Type 0 where
    -- The calls entered are followed by those of the current transaction and of the later ones.
    pub order : entered ++ (eh.call_iter ++ block_calls eh.tx_execution_info_iter) ≡ block_calls txs
    -- Between two transactions no call is left.
    pub between_txs : is_none eh.tx_execution_info ≡ true → eh.call_iter ≡ []
    -- Between two calls no result, deployed contract or storage read is left.
    pub between_calls :
        is_none eh.call_info ≡ true
        → (eh.result_iter ≡ [])
          × (eh.deployed_contracts_iter ≡ [])
          × (eh.execute_code_read_iter ≡ [])
