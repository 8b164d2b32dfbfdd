-- ===== src/Execution/Calls.antt =====
-- `GenCallIter` and `GenCallTopology` of crates/starknet-os/src/execution/helper.rs, with the fields
-- that the program reads of blockifier's `CallInfo` and `TransactionExecutionInfo`.
use snos.Base.{ℕ, Bool, true, false, Option, none, some, List, [], ◌∷◌, ◌++◌, if◌then◌else◌}

pub data EntryPointType : Type 0 where
  constructor external l1_handler : EntryPointType

abbrev pub matches_constructor : EntryPointType → Bool
matches_constructor constructor = true
matches_constructor external = false
matches_constructor l1_handler = false

-- A call without its inner calls.
pub record Call : Type 0 where
  pub entry_point_type : EntryPointType
  pub storage_address : ℕ
  pub failed : Bool
  pub retdata : List ℕ
  pub gas_consumed : ℕ
  pub storage_read_values : List ℕ

-- `CallInfo`, and the vector of its `inner_calls`.
mutual
  pub data CallInfo : Type 0 where
    call_info : Call → CallInfos → CallInfo

  pub data CallInfos : Type 0 where
    no_calls : CallInfos
    calls : CallInfo → CallInfos → CallInfos

abbrev pub call : CallInfo → Call
call (call_info c inner) = c

abbrev pub inner_calls : CallInfo → CallInfos
inner_calls (call_info c inner) = inner

pub record TransactionExecutionInfo : Type 0 where
  pub validate_call_info : Option CallInfo
  pub execute_call_info : Option CallInfo
  pub fee_transfer_call_info : Option CallInfo

-- The call first, then its inner calls, each with those within it.
unfoldable mutual
  pub gen_call_topology : CallInfo → List CallInfo
  gen_call_topology (call_info c inner) = call_info c inner ∷ gen_inner_topologies inner

  pub gen_inner_topologies : CallInfos → List CallInfo
  gen_inner_topologies no_calls = []
  gen_inner_topologies (calls info rest) = gen_call_topology info ++ gen_inner_topologies rest

abbrev pub is_constructor : CallInfo → Bool
is_constructor info = matches_constructor (call info).entry_point_type

-- The order in which the calls of a transaction are made: a deployment of an account is executed
-- before it is validated.
abbrev pub is_deploy : Option CallInfo → Bool
is_deploy none = false
is_deploy (some info) = is_constructor info

abbrev pub topology_of : Option CallInfo → List CallInfo
topology_of none = []
topology_of (some info) = gen_call_topology info

unfoldable pub gen_call_iterator : TransactionExecutionInfo → List CallInfo
gen_call_iterator info =
    let validate = topology_of info.validate_call_info in
    let execute = topology_of info.execute_call_info in
    let fee_transfer = topology_of info.fee_transfer_call_info in
    if is_deploy info.execute_call_info
    then execute ++ (validate ++ fee_transfer)
    else validate ++ (execute ++ fee_transfer)
