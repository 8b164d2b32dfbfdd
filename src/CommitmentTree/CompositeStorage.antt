-- ===== src/CommitmentTree/CompositeStorage.antt =====
-- crates/starknet-os/src/storage/composite_storage.rs: a main store in front of a fallback one.
-- `CachedStorage` (cached_storage.rs) is one whose main store is a dictionary. Where the fallback
-- refuses a write that the main store has taken, the error is modelled and the half-written pair
-- is not.
use snos.Base.{Option, none, some}
use snos.Base.Outcome.{Outcome, ok, err, panicked, ◌>>=◌}
use snos.CommitmentTree.Bytes.{Bytes}
use snos.CommitmentTree.Storage.{StorageError, content_not_found, deserialize, serialize, Storage}

pub record CompositeStorage (M F : Type 0) : Type 0 where
  pub main : M
  pub fallback : F

module _ {M F : Type 0} (m : Storage M) (f : Storage F) where
  unfoldable pub set_value :
      CompositeStorage M F → Bytes → Bytes → Outcome StorageError (CompositeStorage M F)
  set_value s key value = do
    main ← m.set_value s.main key value
    fallback ← f.set_value s.fallback key value
    ok (record { main = main; fallback = fallback })

  -- The fallback is asked where the main store has nothing, also if it says so by an error.
  or_fallback :
      Outcome StorageError (Option Bytes)
      → Outcome StorageError (Option Bytes)
      → Outcome StorageError (Option Bytes)
  or_fallback (ok (some value)) other = ok (some value)
  or_fallback (ok none) other = other
  or_fallback (err content_not_found) other = other
  or_fallback (err (deserialize e)) other = err (deserialize e)
  or_fallback (err (serialize e)) other = err (serialize e)
  or_fallback panicked other = panicked

  unfoldable pub get_value : CompositeStorage M F → Bytes → Outcome StorageError (Option Bytes)
  unfolding or_fallback
  get_value s key = or_fallback (m.get_value s.main key) (f.get_value s.fallback key)

  abbrev pub composite_storage : Storage (CompositeStorage M F)
  composite_storage = record { set_value = set_value; get_value = get_value }
