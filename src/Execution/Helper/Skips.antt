-- ===== src/Execution/Helper/Skips.antt =====
-- `skip_call` of crates/starknet-os/src/execution/helper.rs.
use snos.Base.{
  ℕ, Bool, true, false, ◌&&◌, none, List, [], ◌∷◌, ◌≡◌, refl, if◌then◌else◌, Bool-cases, inl, inr,
}
use snos.Base.Outcome.{ok, panicked}
use snos.Execution.Calls.{CallInfo, call_info, CallInfos, no_calls, calls, call, inner_calls}
use snos.Execution.Helper.{
  ExecutionHelper, enter_call, exit_call, skip_call, call_results, deployed_contracts, is_exhausted,
  assert_iterators_exhausted,
}

-- A state between two calls, of which another is left.
abbrev pub between :
    {PCS Relocatable : Type 0}
    → ExecutionHelper PCS Relocatable
    → List CallInfo
    → ExecutionHelper PCS Relocatable
between eh left = record eh {
  call_execution_info_ptr = none;
  call_info = none;
  call_iter = left;
  result_iter = [];
  deployed_contracts_iter = [];
  execute_code_read_iter = [];
}

abbrev pub has_no_calls : CallInfos → Bool
has_no_calls no_calls = true
has_no_calls (calls info rest) = false

-- Between two calls, the next call is skipped if it makes no calls and reads no storage, and the
-- state is then that before the call after it. A call that does one of these panics.
pub skip_call_lem :
    {PCS Relocatable : Type 0} (eh : ExecutionHelper PCS Relocatable) (info : CallInfo)
    (rest : List CallInfo)
    → skip_call (between eh (info ∷ rest)) ≡ (
        if has_no_calls (inner_calls info) && is_exhausted (call info).storage_read_values
        then ok (between eh rest)
        else panicked)
unfolding skip_call enter_call exit_call assert_iterators_exhausted call_results deployed_contracts
skip_call_lem eh (call_info c no_calls) rest = go c.storage_read_values refl
  where
    go :
        (reads : List ℕ)
        → c.storage_read_values ≡ reads
        → skip_call (between eh (call_info c no_calls ∷ rest))
          ≡ (if is_exhausted c.storage_read_values then ok (between eh rest) else panicked)
    go [] e = rw e refl
    go (x ∷ xs) e = rw e refl
skip_call_lem eh (call_info c (calls info others)) rest =
    elim (Bool-cases (is_exhausted (deployed_contracts (calls info others)))) [
      | inl e ↦ rw e refl
      | inr e ↦ rw e refl
    ]
