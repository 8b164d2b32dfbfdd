-- ===== src/CommitmentTree/DictStorage.antt =====
-- crates/starknet-os/src/storage/dict_storage.rs
use snos.Base.{◌≡◌, refl, Option, some, arith, if◌then◌else◌}
use snos.Base.Outcome.{Outcome, ok}
use snos.Base.HashMap
use snos.Base.HashMap.{HashMap, get-insert}
use snos.CommitmentTree.Bytes.{Bytes, bytes_Eq, bytes_eq}
use snos.CommitmentTree.Storage.{StorageError, Storage, IsLawful}

pub record DictStorage : Type 0 where
  pub db : HashMap Bytes Bytes

unfoldable pub set_value : DictStorage → Bytes → Bytes → Outcome StorageError DictStorage
set_value s key value = ok (record { db = HashMap.insert key value s.db })

unfoldable pub get_value : DictStorage → Bytes → Outcome StorageError (Option Bytes)
get_value s key = ok (HashMap.get key s.db)

abbrev pub dict_storage : Storage DictStorage
dict_storage = record { set_value = set_value; get_value = get_value }

get_value-set_value :
    (s s' : DictStorage) (key value j : Bytes)
    → set_value s key value ≡ ok s'
    → get_value s' j ≡ (if bytes_eq key j then ok (some value) else get_value s j)
unfolding set_value get_value
get_value-set_value s s' key value j h =
    let e : s' ≡ record { db = HashMap.insert key value s.db } = cc in
    rw (e, get-insert) (ground arith)

-- A dictionary keeps what the clients of a store rely on.
pub dict_storage-IsLawful : IsLawful dict_storage
unfolding set_value
dict_storage-IsLawful = record {
  written = λ s key value. (record { db = HashMap.insert key value s.db }, refl);
  get-set = get_value-set_value;
}
