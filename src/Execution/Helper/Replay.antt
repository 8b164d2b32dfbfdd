-- ===== src/Execution/Helper/Replay.antt =====
-- The order in which the execution helper of crates/starknet-os/src/execution/helper.rs replays the
-- calls of a block.
use mathlib.Core.List.{append-nil}
use snos.Base.{ℕ, none, List, [], ◌≡◌, refl, ◌∙◌, sym, ap}
use snos.Base.HashMap
use snos.Base.HashMap.{HashMap, nat_eq}
use snos.Execution.Calls.{CallInfo, TransactionExecutionInfo}
use snos.Execution.Helper.{
  ExecutionHelper, new, start_tx, end_tx, enter_call, exit_call, next_result,
  next_deployed_contract, next_storage_read, PerContractStorage, write_storage_for_address, is_none,
}
use snos.Execution.Helper.Runs.{
  Run, begin, start_tx_step, end_tx_step, enter_call_step, exit_call_step, result_step,
  deployed_step, storage_read_step, write_step, read_step, block_calls, IsReplaying,
}
use snos.Execution.Helper.Steps.{
  ok_of_AllOk, start_tx-IsReplaying, end_tx-IsReplaying, Enters, enter_call-Enters,
  exit_call-IsReplaying, result-IsReplaying, deployed-IsReplaying, storage_read-IsReplaying,
  write-IsReplaying, read-IsReplaying,
}

module _ {PCS Relocatable : Type 0} (pcs : PerContractStorage PCS)
    (txs : List TransactionExecutionInfo) where
  -- After any run from a new helper, the calls that were entered, then those left of the current
  -- transaction, then those of the transactions still to come are together the calls of the block in
  -- the order of `gen_call_iterator`. Between two transactions no call is left, and between two
  -- calls no result, deployed contract or storage read is left.
  pub Run-IsReplaying :
      (map : HashMap ℕ PCS) (old : ℕ × ℕ) (entered : List CallInfo)
      (eh : ExecutionHelper PCS Relocatable)
      → Run pcs (new map txs old) entered eh
      → IsReplaying pcs txs entered eh
  Run-IsReplaying map old entered eh begin = record {
    order = refl;
    between_txs = λ no. refl;
    between_calls = λ no. (refl, refl, refl);
  }
  Run-IsReplaying map old entered eh' (start_tx_step {eh = eh} ptr run e) =
      ok_of_AllOk (IsReplaying pcs txs entered) (start_tx ptr eh)
        (start_tx-IsReplaying pcs txs entered ptr eh (Run-IsReplaying map old entered eh run)) e
  Run-IsReplaying map old entered eh' (end_tx_step {eh = eh} run e) =
      ok_of_AllOk (IsReplaying pcs txs entered) (end_tx eh)
        (end_tx-IsReplaying pcs txs entered eh (Run-IsReplaying map old entered eh run)) e
  Run-IsReplaying map old _ eh' (enter_call_step {entered = entered} {eh = eh} ptr info run e i) =
      ok_of_AllOk (Enters pcs txs entered) (enter_call ptr eh)
        (enter_call-Enters pcs txs entered ptr eh (Run-IsReplaying map old entered eh run)) e info i
  Run-IsReplaying map old entered eh' (exit_call_step {eh = eh} run e) =
      ok_of_AllOk (IsReplaying pcs txs entered) (exit_call eh)
        (exit_call-IsReplaying pcs txs entered eh (Run-IsReplaying map old entered eh run)) e
  Run-IsReplaying map old entered eh' (result_step {eh = eh} run e) =
      ok_of_AllOk (λ out. IsReplaying pcs txs entered out.1) (next_result eh)
        (result-IsReplaying pcs txs entered eh eh.result_iter refl
          (Run-IsReplaying map old entered eh run))
        e
  Run-IsReplaying map old entered eh' (deployed_step {eh = eh} run e) =
      ok_of_AllOk (λ out. IsReplaying pcs txs entered out.1) (next_deployed_contract eh)
        (deployed-IsReplaying pcs txs entered eh eh.deployed_contracts_iter refl
          (Run-IsReplaying map old entered eh run))
        e
  Run-IsReplaying map old entered eh' (storage_read_step {eh = eh} run e) =
      ok_of_AllOk (λ out. IsReplaying pcs txs entered out.1) (next_storage_read eh)
        (storage_read-IsReplaying pcs txs entered eh eh.execute_code_read_iter refl
          (Run-IsReplaying map old entered eh run))
        e
  Run-IsReplaying map old entered eh' (write_step {eh = eh} address key value run e) =
      ok_of_AllOk (IsReplaying pcs txs entered) (write_storage_for_address pcs address key value eh)
        (write-IsReplaying pcs txs entered eh address key value
          (HashMap.get address eh.storage_by_address) refl (Run-IsReplaying map old entered eh run))
        e
  Run-IsReplaying map old entered eh' (read_step {eh = eh} address key run) =
      read-IsReplaying pcs txs entered eh address key (HashMap.get address eh.storage_by_address)
        refl (Run-IsReplaying map old entered eh run)

  -- Once no transaction is under way and none is left, the calls entered are all calls of the block,
  -- in the order of `gen_call_iterator`.
  pub Run-block_calls :
      (map : HashMap ℕ PCS) (old : ℕ × ℕ) (entered : List CallInfo)
      (eh : ExecutionHelper PCS Relocatable)
      → Run pcs (new map txs old) entered eh
      → eh.tx_execution_info ≡ none
      → eh.tx_execution_info_iter ≡ []
      → entered ≡ block_calls txs
  unfolding block_calls
  Run-block_calls map old entered eh run no_tx no_txs =
      let r = Run-IsReplaying map old entered eh run in
      let no_call : eh.call_iter ≡ [] = r.between_txs (ap is_none no_tx) in
      sym (append-nil entered) ∙ rw (no_call, no_txs) at r.order
