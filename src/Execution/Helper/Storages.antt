-- ===== src/Execution/Helper/Storages.antt =====
-- Reads and writes of contract storages through the execution helper of
-- crates/starknet-os/src/execution/helper.rs.
use snos.Base.{ℕ, Option, none, some, ◌≡◌, ◌≢◌, refl, ◌∙◌, arith, ==_self}
use snos.Base.Outcome.{Outcome, ok, err, panicked}
use snos.Base.HashMap
use snos.Base.HashMap.{HashMap, nat_eq}
use snos.Execution.Helper.{
  ExecutionHelper, PerContractStorage, read_storage_for_address, write_storage_for_address,
  HelperError, content_not_found,
}

module _ {PCS Relocatable : Type 0} (pcs : PerContractStorage PCS)
    (read_back : (key value : ℕ) (storage : PCS)
      → (pcs.read key (pcs.write key value storage)).0 ≡ some value) where
  -- What a write to a contract makes of the state.
  abbrev pub WriteOutcome :
      ℕ
      → ℕ
      → ℕ
      → ExecutionHelper PCS Relocatable
      → Outcome HelperError (ExecutionHelper PCS Relocatable)
      → Type 0
  WriteOutcome address key value eh (ok eh') =
      ((read_storage_for_address pcs address key eh').0 ≡ ok value)
      × ((other : ℕ)
          → other ≢ address
          → HashMap.get other eh'.storage_by_address ≡ HashMap.get other eh.storage_by_address)
  WriteOutcome address key value eh (err e) =
      (e ≡ content_not_found) × (HashMap.get address eh.storage_by_address ≡ none)
  WriteOutcome address key value eh panicked = ⊥

  found-WriteOutcome :
      (address key value : ℕ) (eh : ExecutionHelper PCS Relocatable) (found : Option PCS)
      → HashMap.get address eh.storage_by_address ≡ found
      → WriteOutcome address key value eh (write_storage_for_address pcs address key value eh)
  unfolding write_storage_for_address read_storage_for_address
  found-WriteOutcome address key value eh none f = rw f (refl, f)
  found-WriteOutcome address key value eh (some storage) f =
      let written = pcs.write key value storage in
      let here : HashMap.get address (HashMap.insert address written eh.storage_by_address)
          ≡ some written =
        HashMap.get-insert address address written eh.storage_by_address
        ∙ (rw (==_self address) refl) in
      rw f (
        rw (here, read_back key value storage) refl,
        λ other ne. HashMap.get-insert address other written eh.storage_by_address ∙ ground arith,
      )

  -- If a storage gives back what was written to it, then what is written under an address and a key
  -- is read there afterwards, and the storages of the other addresses stay as they were. A write
  -- fails only for an address that has no storage.
  pub write_storage_for_address-WriteOutcome :
      (address key value : ℕ) (eh : ExecutionHelper PCS Relocatable)
      → WriteOutcome address key value eh (write_storage_for_address pcs address key value eh)
  write_storage_for_address-WriteOutcome address key value eh =
      found-WriteOutcome address key value eh (HashMap.get address eh.storage_by_address) refl
