-- ===== src/CommitmentTree/DbObject.antt =====
-- Objects in a store, for crates/starknet-os/src/storage/storage.rs: what is set is got back.
use snos.Base.{◌≡◌, ◌≢◌, [], ◌∷◌, ◌++◌, Bool-cases, inl, inr}
use snos.Base.Outcome.{ok, ok_of_bind, map_err}
use snos.CommitmentTree.Bytes.{Bytes, bytes_eq, bytes_eq_self, bytes_eq→eq}
use snos.CommitmentTree.Storage.{
  StorageError, Storage, IsLawful, Serializable, db_key, get, get_or_fail, set,
}

append-cancel : (xs ys zs : Bytes) → xs ++ ys ≡ xs ++ zs → ys ≡ zs
append-cancel [] ys zs h = h
append-cancel (x ∷ xs) ys zs h = append-cancel xs ys zs (cc h)

module _ {A S : Type 0} (o : Serializable A) (st : Storage S) where
  -- Two suffixes have the same key only if they are the same.
  pub db_key-injective : (x y : Bytes) → db_key o st x ≡ db_key o st y → x ≡ y
  unfolding db_key
  db_key-injective x y h = cc (append-cancel o.prefix (b':' ∷ x) (b':' ∷ y) h)

module _ {A S : Type 0} (o : Serializable A) (st : Storage S) (lawful : IsLawful st) where
  -- In a lawful store, an object that is set under a suffix is got from there, if its bytes are read
  -- as the object.
  pub get_or_fail-set :
      (a : A) (bytes : Bytes) (s s' : S) (suffix : Bytes)
      → o.to_bytes a ≡ ok bytes
      → o.of_bytes bytes ≡ ok a
      → set o st a s suffix ≡ ok s'
      → get_or_fail o st s' suffix ≡ ok a
  unfolding set get_or_fail get
  get_or_fail-set a bytes s s' suffix to of h =
      let written : st.set_value s (db_key o st suffix) bytes ≡ ok s' = rw to at h in
      rw (
        lawful.get-set s s' (db_key o st suffix) bytes (db_key o st suffix) written,
        bytes_eq_self (db_key o st suffix),
        of,
      )

  -- In a lawful store, setting an object leaves what is under every other suffix of its type as it
  -- was.
  pub get_or_fail-set_ne :
      (a : A) (s s' : S) (suffix other : Bytes)
      → suffix ≢ other
      → set o st a s suffix ≡ ok s'
      → get_or_fail o st s' other ≡ get_or_fail o st s other
  unfolding set get_or_fail get
  get_or_fail-set_ne a s s' suffix other ne h =
      let (bytes, _, written) = ok_of_bind _ (map_err StorageError.serialize (o.to_bytes a)) h in
      let law = lawful.get-set s s' (db_key o st suffix) bytes (db_key o st other) written in
      elim (Bool-cases (bytes_eq (db_key o st suffix) (db_key o st other))) [
        | inl e ↦ absurd (ne (db_key-injective o st suffix other (bytes_eq→eq _ _ e)))
        | inr e ↦ rw law (rw e)
      ]
