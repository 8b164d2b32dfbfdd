-- ===== src/Execution/Helper/Steps.antt =====
-- Each operation of the execution helper of crates/starknet-os/src/execution/helper.rs keeps what
-- a replay satisfies.
use mathlib.Core.List.{append_assoc}
use snos.Base.{
  ℕ, true, Option, none, some, List, [], ◌∷◌, ◌++◌, ◌≡◌, refl, ◌∙◌, Bool-cases, inl, inr,
}
use snos.Base.Outcome.{Outcome, ok, err, panicked}
use snos.Base.HashMap
use snos.Base.HashMap.{HashMap, nat_eq}
use snos.Execution.Calls.{CallInfo, TransactionExecutionInfo}
use snos.Execution.Helper.{
  ExecutionHelper, HelperError, CallResult, start_tx, end_tx, enter_call, exit_call, next_result,
  next_deployed_contract, next_storage_read, PerContractStorage, read_storage_for_address,
  write_storage_for_address, is_none, is_exhausted, assert_iterators_exhausted,
}
use snos.Execution.Helper.Runs.{block_calls, IsReplaying}

-- The first of the calls that are left becomes the last of those that were entered.
move :
    (entered rest later : List CallInfo) {info info' : CallInfo} {all : List CallInfo}
    → some info ≡ some info'
    → entered ++ ((info ∷ rest) ++ later) ≡ all
    → (entered ++ (info' ∷ [])) ++ (rest ++ later) ≡ all
move entered rest later {info = info} {info' = info'} same e =
    let eq : info ≡ info' = cc in append_assoc entered (info' ∷ []) (rest ++ later) ∙ rw eq at e

exhausted : {A : Type 0} (xs : List A) → is_exhausted xs ≡ true → xs ≡ []
exhausted [] e = refl
exhausted (x ∷ xs) e = cc

abbrev pub AllOk : {E A : Type 0} → (A → Type 0) → Outcome E A → Type 0
AllOk P (ok a) = P a
AllOk P (err e) = Unit
AllOk P panicked = Unit

pub ok_of_AllOk :
    {E A : Type 0} (P : A → Type 0) (m : Outcome E A) {a : A} → AllOk P m → m ≡ ok a → P a
ok_of_AllOk P m h e = rw e at h

module _ {PCS Relocatable : Type 0} (pcs : PerContractStorage PCS)
    (txs : List TransactionExecutionInfo) where
  first_tx-IsReplaying :
      (entered : List CallInfo) (ptr : Option Relocatable) (eh : ExecutionHelper PCS Relocatable)
      (left : List TransactionExecutionInfo)
      → eh.tx_execution_info_iter ≡ left
      → is_none eh.tx_info_ptr ≡ true
      → is_none eh.tx_execution_info ≡ true
      → IsReplaying pcs txs entered eh
      → AllOk (IsReplaying pcs txs entered) (start_tx ptr eh)
  unfolding start_tx block_calls
  first_tx-IsReplaying entered ptr eh [] l e f r = rw (e, f, l) tt
  first_tx-IsReplaying entered ptr eh (info ∷ rest) l e f r =
      rw (e, f, l)
        record {
          order = rw (r.between_txs f, l) at r.order;
          between_txs = λ no. cc;
          between_calls = r.between_calls;
        }

  pub start_tx-IsReplaying :
      (entered : List CallInfo) (ptr : Option Relocatable) (eh : ExecutionHelper PCS Relocatable)
      → IsReplaying pcs txs entered eh
      → AllOk (IsReplaying pcs txs entered) (start_tx ptr eh)
  start_tx-IsReplaying entered ptr eh r = elim (Bool-cases (is_none eh.tx_info_ptr)) [
    | inl e ↦ elim (Bool-cases (is_none eh.tx_execution_info)) [
      | inl f ↦ first_tx-IsReplaying entered ptr eh eh.tx_execution_info_iter refl e f r
      | inr f ↦ unfold start_tx in rw (e, f) tt
    ]
    | inr e ↦ unfold start_tx in rw e tt
  ]

  pub end_tx-IsReplaying :
      (entered : List CallInfo) (eh : ExecutionHelper PCS Relocatable)
      → IsReplaying pcs txs entered eh
      → AllOk (IsReplaying pcs txs entered) (end_tx eh)
  unfolding end_tx
  end_tx-IsReplaying entered eh r = elim (Bool-cases (is_exhausted eh.call_iter)) [
    | inl e ↦ elim (Bool-cases (is_none eh.tx_execution_info)) [
      | inl f ↦ rw (e, f) tt
      | inr f ↦
          rw (e, f)
            record {
              order = r.order;
              between_txs = λ no. exhausted eh.call_iter e;
              between_calls = r.between_calls;
            }
    ]
    | inr e ↦ rw e tt
  ]

  -- Each call that is entered goes from the calls that are left to those that were entered.
  abbrev pub Enters : List CallInfo → ExecutionHelper PCS Relocatable → Type 0
  Enters entered eh =
      (info : CallInfo) → eh.call_info ≡ some info → IsReplaying pcs txs (entered ++ (info ∷ [])) eh

  iterators-AllOk :
      (P : ExecutionHelper PCS Relocatable → Type 0) (eh : ExecutionHelper PCS Relocatable)
      (rest : Outcome HelperError (ExecutionHelper PCS Relocatable))
      → ((eh.result_iter ≡ [])
            × (eh.deployed_contracts_iter ≡ [])
            × (eh.execute_code_read_iter ≡ [])
          → AllOk P rest)
      → AllOk P (assert_iterators_exhausted eh rest)
  unfolding assert_iterators_exhausted
  iterators-AllOk P eh rest h = elim (Bool-cases (is_exhausted eh.deployed_contracts_iter)) [
    | inl d ↦ elim (Bool-cases (is_exhausted eh.result_iter)) [
      | inl e ↦ elim (Bool-cases (is_exhausted eh.execute_code_read_iter)) [
        | inl f ↦ rw (d, e, f) (h (exhausted _ e, exhausted _ d, exhausted _ f))
        | inr f ↦ rw (d, e, f) tt
      ]
      | inr e ↦ rw (d, e) tt
    ]
    | inr d ↦ rw d tt
  ]

  first_call-Enters :
      (entered : List CallInfo) (ptr : Option Relocatable) (eh : ExecutionHelper PCS Relocatable)
      (left : List CallInfo)
      → eh.call_iter ≡ left
      → is_none eh.call_execution_info_ptr ≡ true
      → is_none eh.call_info ≡ true
      → IsReplaying pcs txs entered eh
      → AllOk (Enters entered) (enter_call ptr eh)
  unfolding enter_call assert_iterators_exhausted
  first_call-Enters entered ptr eh [] l a n r =
      rw (a, n, l) (iterators-AllOk (Enters entered) eh panicked λ nil. tt)
  first_call-Enters entered ptr eh (info ∷ rest) l a n r =
      rw (a, n, l)
        (iterators-AllOk (Enters entered) eh _ λ nil info' same. record {
          order = move entered rest (block_calls eh.tx_execution_info_iter) same (rw l at r.order);
          between_txs = λ no. let empty : eh.call_iter ≡ [] = r.between_txs no in cc;
          between_calls = λ no. cc;
        })

  pub enter_call-Enters :
      (entered : List CallInfo) (ptr : Option Relocatable) (eh : ExecutionHelper PCS Relocatable)
      → IsReplaying pcs txs entered eh
      → AllOk (Enters entered) (enter_call ptr eh)
  unfolding enter_call
  enter_call-Enters entered ptr eh r = elim (Bool-cases (is_none eh.call_execution_info_ptr)) [
    | inl a ↦ elim (Bool-cases (is_none eh.call_info)) [
      | inl n ↦ first_call-Enters entered ptr eh eh.call_iter refl a n r
      | inr n ↦ rw (a, n) (iterators-AllOk (Enters entered) eh panicked λ nil. tt)
    ]
    | inr a ↦ rw a tt
  ]

  pub exit_call-IsReplaying :
      (entered : List CallInfo) (eh : ExecutionHelper PCS Relocatable)
      → IsReplaying pcs txs entered eh
      → AllOk (IsReplaying pcs txs entered) (exit_call eh)
  unfolding exit_call
  exit_call-IsReplaying entered eh r = elim (Bool-cases (is_none eh.call_info)) [
    | inl n ↦ rw n (iterators-AllOk (IsReplaying pcs txs entered) eh panicked λ nil. tt)
    | inr n ↦ rw n (
        iterators-AllOk (IsReplaying pcs txs entered) eh _
          λ nil. record { order = r.order; between_txs = r.between_txs; between_calls = λ no. nil })
  ]

  pub result-IsReplaying :
      (entered : List CallInfo) (eh : ExecutionHelper PCS Relocatable) (left : List CallResult)
      → eh.result_iter ≡ left
      → IsReplaying pcs txs entered eh
      → AllOk (λ out. IsReplaying pcs txs entered out.1) (next_result eh)
  unfolding next_result
  result-IsReplaying entered eh [] l r = rw l tt
  result-IsReplaying entered eh (x ∷ left) l r = rw l record {
    order = r.order;
    between_txs = r.between_txs;
    between_calls = λ no. let nil : eh.result_iter ≡ [] = (r.between_calls no).0 in cc;
  }

  pub deployed-IsReplaying :
      (entered : List CallInfo) (eh : ExecutionHelper PCS Relocatable) (left : List ℕ)
      → eh.deployed_contracts_iter ≡ left
      → IsReplaying pcs txs entered eh
      → AllOk (λ out. IsReplaying pcs txs entered out.1) (next_deployed_contract eh)
  unfolding next_deployed_contract
  deployed-IsReplaying entered eh [] l r = rw l tt
  deployed-IsReplaying entered eh (x ∷ left) l r = rw l record {
    order = r.order;
    between_txs = r.between_txs;
    between_calls = λ no. let nil : eh.deployed_contracts_iter ≡ [] = (r.between_calls no).1 in cc;
  }

  pub storage_read-IsReplaying :
      (entered : List CallInfo) (eh : ExecutionHelper PCS Relocatable) (left : List ℕ)
      → eh.execute_code_read_iter ≡ left
      → IsReplaying pcs txs entered eh
      → AllOk (λ out. IsReplaying pcs txs entered out.1) (next_storage_read eh)
  unfolding next_storage_read
  storage_read-IsReplaying entered eh [] l r = rw l tt
  storage_read-IsReplaying entered eh (x ∷ left) l r = rw l record {
    order = r.order;
    between_txs = r.between_txs;
    between_calls = λ no. let nil : eh.execute_code_read_iter ≡ [] = (r.between_calls no).2 in cc;
  }

  pub write-IsReplaying :
      (entered : List CallInfo) (eh : ExecutionHelper PCS Relocatable) (address key value : ℕ)
      (found : Option PCS)
      → HashMap.get address eh.storage_by_address ≡ found
      → IsReplaying pcs txs entered eh
      → AllOk (IsReplaying pcs txs entered) (write_storage_for_address pcs address key value eh)
  unfolding write_storage_for_address
  write-IsReplaying entered eh address key value none f r = rw f tt
  write-IsReplaying entered eh address key value (some storage) f r =
      rw f record { order = r.order; between_txs = r.between_txs; between_calls = r.between_calls }

  pub read-IsReplaying :
      (entered : List CallInfo) (eh : ExecutionHelper PCS Relocatable) (address key : ℕ)
      (found : Option PCS)
      → HashMap.get address eh.storage_by_address ≡ found
      → IsReplaying pcs txs entered eh
      → IsReplaying pcs txs entered ((read_storage_for_address pcs address key eh).1)
  unfolding read_storage_for_address
  read-IsReplaying entered eh address key none f r = rw f r
  read-IsReplaying entered eh address key (some storage) f r =
      rw f record { order = r.order; between_txs = r.between_txs; between_calls = r.between_calls }
