-- ===== src/CommitmentTree/PatriciaTree/Stored.antt =====
-- `write_fact_nodes` of
-- crates/starknet-os/src/starkware_utils/commitment_tree/update_tree.rs: what is in the store after
-- it.
use snos.Base.{◌≡◌, refl, true, ◌∙◌, inl, inr, ◌⊎◌, some, List, [], ◌∷◌, All, All-imp, Bool-cases}
use snos.Base.Outcome
use snos.Base.Outcome.{Outcome, ok, err, panicked, map_err, Ends, Ends_bind}
use snos.CommitmentTree.Bytes.{Bytes, Hash, Crypto, bytes_eq, bytes_eq→eq, bytes_eq_self}
use snos.CommitmentTree.Storage.{
  SerializeError, StorageError, Storage, IsLawful, Serializable, db_key, set,
}
use snos.CommitmentTree.Nodes.{PatriciaNodeFact, node_object}
use snos.CommitmentTree.Context.{LeafFact}
use snos.CommitmentTree.Calculation.{NodeFactDict}
use snos.CommitmentTree.Update.{write_inner_nodes, write_leaves, write_fact_nodes}

abbrev pub In : {A : Type 0} → A → List A → Type 0
In x [] = ⊥
In x (y ∷ ys) = (x ≡ y) ⊎ In x ys

All-In : {A : Type 0} (xs : List A) → All (λ x. In x xs) xs
All-In [] = tt
All-In (x ∷ xs) =
    (inl refl, All-imp (λ y. In y xs) (λ y. In y (x ∷ xs)) xs (λ y i. inr i) (All-In xs))

module _ {S : Type 0} (st : Storage S) (lawful : IsLawful st) (Put : Bytes → Bytes → Type 0)
    (Blame : StorageError → Type 0) (Broken : Type 0) where
  -- A value that was put under the key is read there.
  abbrev pub Reads : S → Bytes → Type 0
  Reads s key = (value : Bytes) × (st.get_value s key ≡ ok (some value)) × Put key value

  -- What was put before is still read, or overwritten by what was put later.
  abbrev pub Keeps : S → S → Type 0
  Keeps s s' = (key : Bytes) → Reads s key → Reads s' key

  module _ {A : Type 0} (o : Serializable A) where
    -- How a write of the entry is accounted for.
    pub record Accounted (entry : Hash × A) : Type 0 where
      pub puts : (value : Bytes) → o.to_bytes entry.1 ≡ ok value → Put (db_key o st entry.0) value
      pub fails :
          (w : SerializeError) → o.to_bytes entry.1 ≡ err w → Blame (StorageError.serialize w)
      pub breaks : o.to_bytes entry.1 ≡ panicked → Broken

    put :
        (entry : Hash × A) (s : S) (r : Outcome SerializeError Bytes)
        → Accounted entry
        → o.to_bytes entry.1 ≡ r
        → Ends Blame Broken
            (λ s'. Reads s' (db_key o st entry.0) × Keeps s s')
            (Outcome.◌>>=◌
              (map_err StorageError.serialize r)
              (λ value. st.set_value s (db_key o st entry.0) value))
    put entry s (ok value) a e =
        let key = db_key o st entry.0 in
        let (s', w) = lawful.written s key value in
        let own = lawful.get-set s s' key value key w in
        rw w (
          (value, own ∙ rw (bytes_eq_self key) refl, a.puts value e),
          λ k (v, g, p).
              let law = lawful.get-set s s' key value k w in
              elim (Bool-cases (bytes_eq key k)) [
                | inl same ↦ (value, law ∙ rw same refl, put_at same (a.puts value e))
                | inr other ↦ (v, law ∙ rw other g, p)
              ],
        )
      where
        put_at : {j k v : Bytes} → bytes_eq j k ≡ true → Put j v → Put k v
        put_at {j} {k} {v} same p = let e : j ≡ k = bytes_eq→eq j k same in rw e at p
    put entry s (err w) a e = a.fails w e
    put entry s panicked a e = a.breaks e

    pub set-Reads :
        (entry : Hash × A) (s : S)
        → Accounted entry
        → Ends Blame Broken
            (λ s'. Reads s' (db_key o st entry.0) × Keeps s s')
            (set o st entry.1 s entry.0)
    unfolding set
    set-Reads entry s a = put entry s (o.to_bytes entry.1) a refl

    abbrev pub AllRead : List (Hash × A) → S → Type 0
    AllRead entries s = All (λ entry. Reads s (db_key o st entry.0)) entries

    pub AllRead-Keeps :
        (entries : List (Hash × A)) (s s' : S) → Keeps s s' → AllRead entries s → AllRead entries s'
    AllRead-Keeps entries s s' k a =
        All-imp (λ entry. Reads s (db_key o st entry.0)) (λ entry. Reads s' (db_key o st entry.0))
          entries (λ entry r. k (db_key o st entry.0) r) a

    -- One write, then the others.
    pub cons-Ends :
        (entry : Hash × A) (entries : List (Hash × A)) (s : S) (rest : S → Outcome StorageError S)
        → Accounted entry
        → ((s1 : S) → Ends Blame Broken (λ s'. AllRead entries s' × Keeps s1 s') (rest s1))
        → Ends Blame Broken
            (λ s'. AllRead (entry ∷ entries) s' × Keeps s s')
            (Outcome.◌>>=◌ (set o st entry.1 s entry.0) rest)
    cons-Ends entry entries s rest a later =
        Ends_bind Blame Broken (λ s1. Reads s1 (db_key o st entry.0) × Keeps s s1)
          (λ s'. AllRead (entry ∷ entries) s' × Keeps s s') (set o st entry.1 s entry.0) rest
          (set-Reads entry s a)
          (λ s1 first. after (db_key o st entry.0) entries s s1 (rest s1) first (later s1))
      where
        after :
            (key : Bytes) (entries : List (Hash × A)) (s s1 : S) (r : Outcome StorageError S)
            → Reads s1 key × Keeps s s1
            → Ends Blame Broken (λ s'. AllRead entries s' × Keeps s1 s') r
            → Ends Blame Broken (λ s'. (Reads s' key × AllRead entries s') × Keeps s s') r
        after key entries s s1 (ok s') first v =
            ((v.1 key first.0, v.0), λ k r. v.1 k (first.1 k r))
        after key entries s s1 (err e) first v = v
        after key entries s s1 panicked first v = v

module _ {S LF : Type 0} (c : Crypto) (st : Storage S) (lf : LeafFact LF) (lawful : IsLawful st)
    (nodes : NodeFactDict LF) where
  abbrev inner : Serializable PatriciaNodeFact
  inner = node_object c.biguint

  -- The bytes of a collected fact whose key this is.
  abbrev pub IsPut : Bytes → Bytes → Type 0
  IsPut key value =
      ((e : Hash × PatriciaNodeFact) × In e nodes.inner_nodes
        × (db_key inner st e.0 ≡ key)
        × (inner.to_bytes e.1 ≡ ok value))
      ⊎ ((e : Hash × LF) × In e nodes.leaves
          × (db_key lf.object st e.0 ≡ key)
          × (lf.object.to_bytes e.1 ≡ ok value))

  -- A collected fact is refused by its serialization.
  abbrev pub IsRefused : StorageError → Type 0
  IsRefused x =
      (w : SerializeError) × (x ≡ StorageError.serialize w)
      × (((e : Hash × PatriciaNodeFact) × In e nodes.inner_nodes × (inner.to_bytes e.1 ≡ err w))
          ⊎ ((e : Hash × LF) × In e nodes.leaves × (lf.object.to_bytes e.1 ≡ err w)))

  abbrev pub IsPanic : Type 0
  IsPanic =
      ((e : Hash × PatriciaNodeFact) × In e nodes.inner_nodes × (inner.to_bytes e.1 ≡ panicked))
      ⊎ ((e : Hash × LF) × In e nodes.leaves × (lf.object.to_bytes e.1 ≡ panicked))

  inner-Accounted :
      (e : Hash × PatriciaNodeFact)
      → In e nodes.inner_nodes
      → Accounted st lawful IsPut IsRefused IsPanic inner e
  inner-Accounted e i = record {
    puts = λ value b. inl (e, i, refl, b);
    fails = λ w b. (w, refl, inl (e, i, b));
    breaks = λ b. inl (e, i, b);
  }

  leaf-Accounted :
      (e : Hash × LF) → In e nodes.leaves → Accounted st lawful IsPut IsRefused IsPanic lf.object e
  leaf-Accounted e i = record {
    puts = λ value b. inr (e, i, refl, b);
    fails = λ w b. (w, refl, inr (e, i, b));
    breaks = λ b. inr (e, i, b);
  }

  abbrev Kept : S → S → Type 0
  Kept s s' = Keeps st lawful IsPut IsRefused IsPanic s s'

  abbrev InnerRead : List (Hash × PatriciaNodeFact) → S → Type 0
  InnerRead entries s = AllRead st lawful IsPut IsRefused IsPanic inner entries s

  abbrev LeavesRead : List (Hash × LF) → S → Type 0
  LeavesRead entries s = AllRead st lawful IsPut IsRefused IsPanic lf.object entries s

  write_inner_nodes-Read :
      (entries : List (Hash × PatriciaNodeFact)) (s : S)
      → All (λ e. In e nodes.inner_nodes) entries
      → Ends IsRefused IsPanic
          (λ s'. InnerRead entries s' × Kept s s')
          (write_inner_nodes c st lf entries s)
  unfolding write_inner_nodes
  write_inner_nodes-Read [] s a = (tt, λ k r. r)
  write_inner_nodes-Read (e ∷ entries) s a =
      cons-Ends st lawful IsPut IsRefused IsPanic inner e entries s
        (write_inner_nodes c st lf entries) (inner-Accounted e a.0)
        (λ s1. write_inner_nodes-Read entries s1 a.1)

  write_leaves-Read :
      (entries : List (Hash × LF)) (s : S)
      → All (λ e. In e nodes.leaves) entries
      → Ends IsRefused IsPanic
          (λ s'. LeavesRead entries s' × Kept s s')
          (write_leaves c st lf entries s)
  unfolding write_leaves
  write_leaves-Read [] s a = (tt, λ k r. r)
  write_leaves-Read (e ∷ entries) s a =
      cons-Ends st lawful IsPut IsRefused IsPanic lf.object e entries s
        (write_leaves c st lf entries) (leaf-Accounted e a.0)
        (λ s1. write_leaves-Read entries s1 a.1)

  -- Under the key of every collected fact.
  abbrev pub AreStored : S → Type 0
  AreStored s = InnerRead nodes.inner_nodes s × LeavesRead nodes.leaves s

  -- In a lawful store, once the collected facts are written, the key of each of them holds the bytes
  -- of a collected fact with this key. The ways to fail are collected facts that cannot be
  -- serialized.
  pub write_fact_nodes-AreStored :
      (s : S) → Ends IsRefused IsPanic AreStored (write_fact_nodes c st lf nodes s)
  unfolding write_fact_nodes
  write_fact_nodes-AreStored s =
      Ends_bind IsRefused IsPanic (λ s1. InnerRead nodes.inner_nodes s1 × Kept s s1) AreStored
        (write_inner_nodes c st lf nodes.inner_nodes s) (write_leaves c st lf nodes.leaves)
        (write_inner_nodes-Read nodes.inner_nodes s (All-In nodes.inner_nodes))
        (λ s1 first.
          with_leaves s1 (write_leaves c st lf nodes.leaves s1) first.0
            (write_leaves-Read nodes.leaves s1 (All-In nodes.leaves)))
    where
      with_leaves :
          (s1 : S) (r : Outcome StorageError S)
          → InnerRead nodes.inner_nodes s1
          → Ends IsRefused IsPanic (λ s'. LeavesRead nodes.leaves s' × Kept s1 s') r
          → Ends IsRefused IsPanic AreStored r
      with_leaves s1 (ok s') read v = (
        AllRead-Keeps st lawful IsPut IsRefused IsPanic inner nodes.inner_nodes s1 s' v.1 read,
        v.0,
      )
      with_leaves s1 (err e) read v = v
      with_leaves s1 panicked read v = v
