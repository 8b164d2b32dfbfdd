-- ===== src/Examples/ExecutionRuns.antt =====
-- A block of one transaction that makes a call with an inner call, replayed; and a search.
use snos.Base.{
  ℕ, ◌+◌, ◌-◌, ◌∙◌, ◌*◌, ◌≤◌, ◌<◌, ◌≡◌, refl, Bool, true, false, some, none, [], ◌∷◌, ◌++◌, arith,
  ◌↔◌, ltb, if◌then◌else◌, replicate, ◌&&◌,
}
use snos.Base.Outcome.{Outcome, ok, err, panicked}
use snos.Base.HashMap
use snos.Base.HashMap.{HashMap, nat_eq}
use snos.Execution.Calls.{
  external, Call, CallInfo, call_info, no_calls, calls, TransactionExecutionInfo, gen_call_iterator,
  gen_call_topology,
}
use snos.Execution.Helper.{
  ExecutionHelper, PerContractStorage, new, start_tx, end_tx, enter_call, exit_call, next_result,
  next_storage_read, write_storage_for_address, assert_iterators_exhausted, call_results,
  deployed_contracts,
}
use snos.Execution.Helper.Runs.{
  Run, begin, start_tx_step, end_tx_step, enter_call_step, exit_call_step, result_step,
  storage_read_step, IsReplaying,
}
use snos.Execution.Helper.{skip_call, is_exhausted}
use snos.Execution.Calls.{call, inner_calls}
use snos.Execution.Helper.Skips.{between, has_no_calls, skip_call_lem}
use snos.Execution.Helper.Replay.{Run-IsReplaying}
use snos.Execution.Helper.Order.{AreTransactions, Run-AreTransactions}
use snos.Execution.Helper.Storages.{WriteOutcome, write_storage_for_address-WriteOutcome}
use snos.CommitmentTree.Bytes.{Bytes}
use snos.Execution.Selector.{deploy, selector_name, try_from}
use snos.Base.{All}
use snos.Execution.Selector.Felts.{be_value, try_from-felt}
use snos.Hints.FindElement.{HintError, not_an_integer, search_sorted_optimistic}
use snos.Hints.FindElement.Search.{
  IsFirst, search_sorted_optimistic-IsFirst, search_sorted_optimistic-found,
}

-- A storage that is a map from keys to values.
abbrev map_storage : PerContractStorage (HashMap ℕ ℕ)
map_storage = record {
  read = λ key storage. (HashMap.get key storage, storage);
  write = λ key value storage. HashMap.insert key value storage;
}

abbrev plain_call : Call
plain_call = record {
  entry_point_type = external;
  storage_address = 7;
  failed = false;
  retdata = 1 ∷ [];
  gas_consumed = 10;
  storage_read_values = [];
}

abbrev inner_call : CallInfo
inner_call = call_info (record plain_call { storage_read_values = 33 ∷ [] }) no_calls

abbrev outer_call : CallInfo
outer_call = call_info plain_call (calls inner_call no_calls)

abbrev transaction : TransactionExecutionInfo
transaction = record {
  validate_call_info = none;
  execute_call_info = some outer_call;
  fee_transfer_call_info = none;
}

abbrev Helper : Type 0
Helper = ExecutionHelper (HashMap ℕ ℕ) ℕ

abbrev contract_storages : HashMap ℕ (HashMap ℕ ℕ)
contract_storages = (7, []) ∷ []

abbrev start : Helper
start = new contract_storages (transaction ∷ []) (1, 2)

abbrev in_tx : Helper
in_tx = record start {
  tx_execution_info_iter = [];
  tx_execution_info = some transaction;
  tx_info_ptr = some 5;
  call_iter = outer_call ∷ inner_call ∷ [];
}

abbrev in_outer : Helper
in_outer = record in_tx {
  call_execution_info_ptr = some 6;
  call_iter = inner_call ∷ [];
  call_info = some outer_call;
  result_iter = record { failed = false; retdata = 1 ∷ []; gas_consumed = 10 } ∷ [];
}

abbrev result_taken : Helper
result_taken = record in_outer { result_iter = [] }

abbrev between_calls : Helper
between_calls = record in_tx { call_iter = inner_call ∷ [] }

abbrev in_inner : Helper
in_inner = record in_tx {
  call_execution_info_ptr = some 6;
  call_iter = [];
  call_info = some inner_call;
  execute_code_read_iter = 33 ∷ [];
}

abbrev value_read : Helper
value_read = record in_inner { execute_code_read_iter = [] }

abbrev calls_done : Helper
calls_done = record in_tx { call_iter = [] }

abbrev block_done : Helper
block_done = record start { tx_execution_info_iter = [] }

block-Run : Run map_storage start (outer_call ∷ inner_call ∷ []) block_done
unfolding start_tx end_tx enter_call exit_call next_result next_storage_read gen_call_iterator
    gen_call_topology assert_iterators_exhausted call_results deployed_contracts
block-Run =
    end_tx_step {eh = calls_done}
      (exit_call_step {eh = value_read}
        (storage_read_step {eh = in_inner} {v = 33}
          (enter_call_step {entered = outer_call ∷ []} {eh = between_calls} (some 6) inner_call
            (exit_call_step {eh = result_taken}
              (result_step {eh = in_outer}
                (enter_call_step {entered = []} {eh = in_tx} (some 6) outer_call
                  (start_tx_step {eh = start} (some 5) begin refl) refl refl)
                refl)
              refl)
            refl refl)
          refl)
        refl)
      refl

Run-IsReplaying_example :
    IsReplaying map_storage (transaction ∷ []) (outer_call ∷ inner_call ∷ []) block_done
Run-IsReplaying_example =
    Run-IsReplaying map_storage (transaction ∷ []) contract_storages (1, 2)
      (outer_call ∷ inner_call ∷ []) block_done block-Run

Run-AreTransactions_example : AreTransactions (transaction ∷ []) (outer_call ∷ inner_call ∷ [])
Run-AreTransactions_example =
    Run-AreTransactions map_storage (transaction ∷ []) contract_storages (1, 2)
      (outer_call ∷ inner_call ∷ []) block_done block-Run refl refl

map_storage-reads_back :
    (key value : ℕ) (storage : HashMap ℕ ℕ)
    → (map_storage.read key (map_storage.write key value storage)).0 ≡ some value
map_storage-reads_back key value storage = HashMap.get-insert key key value storage ∙ ground arith

write_storage_for_address-WriteOutcome_example :
    WriteOutcome map_storage map_storage-reads_back 7 1 2 start
      (write_storage_for_address map_storage 7 1 2 start)
write_storage_for_address-WriteOutcome_example =
    write_storage_for_address-WriteOutcome map_storage map_storage-reads_back 7 1 2 start

-- The array 2, 4, 6 at offset 10, each element of two words.
abbrev even : ℕ → ℕ
even i = 2 * i + 2

memory : ℕ → Outcome HintError ℕ
memory address = if ltb address 10 then err (not_an_integer address) else ok (address - 10 + 2)

memory-even : (i : ℕ) → i < 3 → memory (10 + 2 * i) ≡ ok (even i)
unfolding memory
memory-even i lt = ground arith

even-sorted : (i j : ℕ) → i ≤ j → j < 3 → even i ≤ even j
even-sorted i j le lt = omega arith

search_sorted_optimistic-IsFirst_example :
    (index : ℕ) × (exists : Bool) × (search_sorted_optimistic memory 10 2 3 5 (some 100)
      ≡ ok (index, exists))
    × IsFirst even 3 5 index exists
search_sorted_optimistic-IsFirst_example =
    search_sorted_optimistic-IsFirst memory even 10 2 3 5 memory-even (omega arith) (some 100)
      (omega arith) (omega arith) (omega arith) refl

search_sorted_optimistic-found_example :
    (index : ℕ) × (exists : Bool) × (search_sorted_optimistic memory 10 2 3 6 none
      ≡ ok (index, exists))
    × ((exists ≡ true) ↔ ((i : ℕ) × (i < 3) × (even i ≡ 6)))
search_sorted_optimistic-found_example =
    search_sorted_optimistic-found memory even 10 2 3 6 memory-even (omega arith) none (omega arith)
      (omega arith) (omega arith) refl even-sorted

-- "Deploy", in the last of 32 bytes.
abbrev deploy_bytes : Bytes
deploy_bytes = replicate 26 0 ++ selector_name deploy

deploy_bytes_small : All (λ x. x < 256) deploy_bytes
deploy_bytes_small = (
  omega arith,
  (
    omega arith,
    (
      omega arith,
      (
        omega arith,
        (
          omega arith,
          (
            omega arith,
            (
              omega arith,
              (
                omega arith,
                (
                  omega arith,
                  (
                    omega arith,
                    (
                      omega arith,
                      (
                        omega arith,
                        (
                          omega arith,
                          (
                            omega arith,
                            (
                              omega arith,
                              (
                                omega arith,
                                (
                                  omega arith,
                                  (
                                    omega arith,
                                    (
                                      omega arith,
                                      (
                                        omega arith,
                                        (
                                          omega arith,
                                          (
                                            omega arith,
                                            (
                                              omega arith,
                                              (
                                                omega arith,
                                                (
                                                  omega arith,
                                                  (
                                                    omega arith,
                                                    (
                                                      omega arith,
                                                      (
                                                        omega arith,
                                                        (
                                                          omega arith,
                                                          (
                                                            omega arith,
                                                            (omega arith, (omega arith, tt)),
                                                          ),
                                                        ),
                                                      ),
                                                    ),
                                                  ),
                                                ),
                                              ),
                                            ),
                                          ),
                                        ),
                                      ),
                                    ),
                                  ),
                                ),
                              ),
                            ),
                          ),
                        ),
                      ),
                    ),
                  ),
                ),
              ),
            ),
          ),
        ),
      ),
    ),
  ),
)

try_from-felt_example :
    (try_from deploy_bytes ≡ ok deploy) ↔ (be_value 0 deploy_bytes ≡ 75202468540281)
try_from-felt_example = try_from-felt deploy_bytes deploy deploy_bytes_small

skip_call_lem_example : skip_call (between in_tx (outer_call ∷ inner_call ∷ [])) ≡ (
    if has_no_calls (inner_calls outer_call) && is_exhausted (call outer_call).storage_read_values
    then ok (between in_tx (inner_call ∷ []))
    else panicked)
skip_call_lem_example = skip_call_lem in_tx outer_call (inner_call ∷ [])
