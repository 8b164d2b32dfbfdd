-- ===== src/Execution/Helper/Order.antt =====
-- The order of the calls of a block as a relation, and that a whole run of the execution helper of
-- crates/starknet-os/src/execution/helper.rs enters them in it.
use snos.Base.{ℕ, true, false, inl, inr, ◌⊎◌, Option, none, some, List, [], ◌∷◌, ◌++◌, ◌≡◌, refl}
use snos.Base.HashMap.{HashMap, nat_eq}
use snos.Execution.Calls.{
  Call, CallInfo, CallInfos, call_info, no_calls, calls, call, EntryPointType,
  TransactionExecutionInfo, gen_call_topology, gen_inner_topologies, topology_of, gen_call_iterator,
  is_deploy,
}
use snos.Execution.Helper.{ExecutionHelper, new, PerContractStorage}
use snos.Execution.Helper.Runs.{Run, block_calls}
use snos.Execution.Helper.Replay.{Run-block_calls}

-- A call comes before the calls that it makes, each of which comes with all calls within it before
-- the next one.
mutual
  pub data InOrder : CallInfo → List CallInfo → Type 0 where
    outer_first :
        (c : Call) (inner : CallInfos) (cs : List CallInfo)
        → AreInOrder inner cs
        → InOrder (call_info c inner) (call_info c inner ∷ cs)

  pub data AreInOrder : CallInfos → List CallInfo → Type 0 where
    no_more : AreInOrder no_calls []
    one_by_one :
        (info : CallInfo) (rest : CallInfos) (cs ds : List CallInfo)
        → InOrder info cs
        → AreInOrder rest ds
        → AreInOrder (calls info rest) (cs ++ ds)

-- The calls of a part of a transaction that may be missing.
abbrev pub PartInOrder : Option CallInfo → List CallInfo → Type 0
PartInOrder none cs = cs ≡ []
PartInOrder (some info) cs = InOrder info cs

-- A part whose call is that of a constructor.
abbrev pub Constructs : Option CallInfo → Type 0
Constructs none = ⊥
Constructs (some info) = (call info).entry_point_type ≡ EntryPointType.constructor

-- The validation, the execution and the fee transfer of a transaction are made in this order, or,
-- if the execution is of a constructor, the execution comes first.
pub record IsTransaction (tx : TransactionExecutionInfo) (cs : List CallInfo) : Type 0 where
  pub validate : List CallInfo
  pub execute : List CallInfo
  pub fee_transfer : List CallInfo
  pub validated : PartInOrder tx.validate_call_info validate
  pub executed : PartInOrder tx.execute_call_info execute
  pub paid : PartInOrder tx.fee_transfer_call_info fee_transfer
  pub order :
      (Constructs tx.execute_call_info × (cs ≡ execute ++ (validate ++ fee_transfer)))
      ⊎ ((Constructs tx.execute_call_info → ⊥) × (cs ≡ validate ++ (execute ++ fee_transfer)))

-- The calls of the transactions, one transaction after the other.
pub data AreTransactions : List TransactionExecutionInfo → List CallInfo → Type 0 where
  no_transactions : AreTransactions [] []
  next_transaction :
      (tx : TransactionExecutionInfo) (txs : List TransactionExecutionInfo) (cs ds : List CallInfo)
      → IsTransaction tx cs
      → AreTransactions txs ds
      → AreTransactions (tx ∷ txs) (cs ++ ds)

mutual
  unfolding gen_call_topology gen_inner_topologies

  topology-InOrder : (info : CallInfo) → InOrder info (gen_call_topology info)
  topology-InOrder (call_info c inner) =
      outer_first c inner (gen_inner_topologies inner) (inner-AreInOrder inner)

  inner-AreInOrder : (infos : CallInfos) → AreInOrder infos (gen_inner_topologies infos)
  inner-AreInOrder no_calls = no_more
  inner-AreInOrder (calls info rest) =
      one_by_one info rest (gen_call_topology info) (gen_inner_topologies rest)
        (topology-InOrder info) (inner-AreInOrder rest)

part-InOrder : (part : Option CallInfo) → PartInOrder part (topology_of part)
part-InOrder none = refl
part-InOrder (some info) = topology-InOrder info

deploy-Constructs :
    (part : Option CallInfo)
    → ((is_deploy part ≡ true) × Constructs part)
      ⊎ ((is_deploy part ≡ false) × (Constructs part → ⊥))
deploy-Constructs none = inr (refl, λ e. e)
deploy-Constructs (some (call_info c inner)) = of_type c.entry_point_type c refl inner
  where
    of_type :
        (t : EntryPointType) (c : Call)
        → c.entry_point_type ≡ t
        → (inner : CallInfos)
        → ((is_deploy (some (call_info c inner)) ≡ true) × Constructs (some (call_info c inner)))
          ⊎ ((is_deploy (some (call_info c inner)) ≡ false)
              × (Constructs (some (call_info c inner)) → ⊥))
    of_type EntryPointType.constructor c e inner = inl (rw e refl, e)
    of_type EntryPointType.external c e inner = inr (rw e refl, λ f. absurd (cc (e, f)))
    of_type EntryPointType.l1_handler c e inner = inr (rw e refl, λ f. absurd (cc (e, f)))

gen_call_iterator-IsTransaction :
    (tx : TransactionExecutionInfo) → IsTransaction tx (gen_call_iterator tx)
unfolding gen_call_iterator
gen_call_iterator-IsTransaction tx = record {
  validate = topology_of tx.validate_call_info;
  execute = topology_of tx.execute_call_info;
  fee_transfer = topology_of tx.fee_transfer_call_info;
  validated = part-InOrder tx.validate_call_info;
  executed = part-InOrder tx.execute_call_info;
  paid = part-InOrder tx.fee_transfer_call_info;
  order = elim (deploy-Constructs tx.execute_call_info) [
    | inl (e, d) ↦ inl (d, rw e refl)
    | inr (e, d) ↦ inr (d, rw e refl)
  ];
}

block_calls-AreTransactions :
    (txs : List TransactionExecutionInfo) → AreTransactions txs (block_calls txs)
unfolding block_calls
block_calls-AreTransactions [] = no_transactions
block_calls-AreTransactions (tx ∷ txs) =
    next_transaction tx txs (gen_call_iterator tx) (block_calls txs)
      (gen_call_iterator-IsTransaction tx) (block_calls-AreTransactions txs)

module _ {PCS Relocatable : Type 0} (pcs : PerContractStorage PCS)
    (txs : List TransactionExecutionInfo) where
  -- Once no transaction is under way and none is left, the calls entered in a run from a new helper
  -- are those of the transactions, one transaction after the other: of each the validation, the
  -- execution and the fee transfer, or the execution first if it is of a constructor, and each call
  -- before the calls that it makes.
  pub Run-AreTransactions :
      (map : HashMap ℕ PCS) (old : ℕ × ℕ) (entered : List CallInfo)
      (eh : ExecutionHelper PCS Relocatable)
      → Run pcs (new map txs old) entered eh
      → eh.tx_execution_info ≡ none
      → eh.tx_execution_info_iter ≡ []
      → AreTransactions txs entered
  Run-AreTransactions map old entered eh run no_tx no_txs =
      rw (Run-block_calls pcs txs map old entered eh run no_tx no_txs)
        (block_calls-AreTransactions txs)
