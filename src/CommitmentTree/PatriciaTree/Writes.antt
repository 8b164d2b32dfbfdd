-- ===== src/CommitmentTree/PatriciaTree/Writes.antt =====
-- `write_fact_nodes` of
-- crates/starknet-os/src/starkware_utils/commitment_tree/update_tree.rs: how a write can fail.
use snos.Base.{◌≡◌, refl, inl, inr, ◌⊎◌, [], ◌∷◌}
use snos.Base.Outcome
use snos.Base.Outcome.{Outcome, ok, err, panicked, map_err, Ends, Ends_weaken, Ends_bind}
use snos.Base.HashMap.{HashMap, nat_eq}
use snos.CommitmentTree.Bytes.{Hash, Crypto}
use snos.CommitmentTree.Storage.{
  SerializeError, StorageError, Storage, IsLawful, Serializable, db_key, set,
}
use snos.CommitmentTree.Nodes.{PatriciaNodeFact, node_object}
use snos.CommitmentTree.Context.{LeafFact}
use snos.CommitmentTree.Calculation.{NodeFactDict}
use snos.CommitmentTree.Update.{write_inner_nodes, write_leaves, write_fact_nodes}

-- A write to a lawful store fails only because an object cannot be serialized.
abbrev pub Unserialized : StorageError → Type 0
Unserialized e = (w : SerializeError) × (e ≡ StorageError.serialize w)

abbrev pub Panics : {A : Type 0} → Serializable A → Type 0
Panics {A} o = (a : A) × (o.to_bytes a ≡ panicked)

module _ {A S : Type 0} (o : Serializable A) (st : Storage S) (lawful : IsLawful st) where
  set_bytes :
      (a : A) (s : S) (suffix : Hash) (r : Outcome SerializeError Hash)
      → o.to_bytes a ≡ r
      → Ends Unserialized
          (Panics o)
          (λ _. Unit {0})
          (Outcome.◌>>=◌
            (map_err StorageError.serialize r)
            (λ value. st.set_value s (db_key o st suffix) value))
  set_bytes a s suffix (ok value) e =
      let (s', w) = lawful.written s (db_key o st suffix) value in rw w tt
  set_bytes a s suffix (err w) e = (w, refl)
  set_bytes a s suffix panicked e = (a, e)

  pub set-Ends :
      (a : A) (s : S) (suffix : Hash)
      → Ends Unserialized (Panics o) (λ _. Unit {0}) (set o st a s suffix)
  unfolding set
  set-Ends a s suffix = set_bytes a s suffix (o.to_bytes a) refl

module _ {S LF : Type 0} (c : Crypto) (st : Storage S) (lf : LeafFact LF)
    (lawful : IsLawful st) where
  -- An object cannot be serialized without a panic.
  abbrev pub WritePanics : Type 0
  WritePanics = Panics (node_object c.biguint) ⊎ Panics lf.object

  write_inner_nodes-Ends :
      (nodes : HashMap Hash PatriciaNodeFact) (s : S)
      → Ends Unserialized WritePanics (λ _. Unit {0}) (write_inner_nodes c st lf nodes s)
  unfolding write_inner_nodes
  write_inner_nodes-Ends [] s = tt
  write_inner_nodes-Ends ((h, fact) ∷ nodes) s =
      Ends_bind Unserialized WritePanics (λ _. Unit {0}) (λ _. Unit {0})
        (set (node_object c.biguint) st fact s h) (write_inner_nodes c st lf nodes)
        (Ends_weaken Unserialized Unserialized (Panics (node_object c.biguint)) WritePanics
          (λ _. Unit {0}) (set (node_object c.biguint) st fact s h) (λ e v. v) inl
          (set-Ends (node_object c.biguint) st lawful fact s h))
        (λ s' _. write_inner_nodes-Ends nodes s')

  write_leaves-Ends :
      (leaves : HashMap Hash LF) (s : S)
      → Ends Unserialized WritePanics (λ _. Unit {0}) (write_leaves c st lf leaves s)
  unfolding write_leaves
  write_leaves-Ends [] s = tt
  write_leaves-Ends ((h, fact) ∷ leaves) s =
      Ends_bind Unserialized WritePanics (λ _. Unit {0}) (λ _. Unit {0}) (set lf.object st fact s h)
        (write_leaves c st lf leaves)
        (Ends_weaken Unserialized Unserialized (Panics lf.object) WritePanics (λ _. Unit {0})
          (set lf.object st fact s h) (λ e v. v) inr (set-Ends lf.object st lawful fact s h))
        (λ s' _. write_leaves-Ends leaves s')

  pub write_fact_nodes-Ends :
      (nodes : NodeFactDict LF) (s : S)
      → Ends Unserialized WritePanics (λ _. Unit {0}) (write_fact_nodes c st lf nodes s)
  unfolding write_fact_nodes
  write_fact_nodes-Ends nodes s =
      Ends_bind Unserialized WritePanics (λ _. Unit {0}) (λ _. Unit {0})
        (write_inner_nodes c st lf nodes.inner_nodes s) (write_leaves c st lf nodes.leaves)
        (write_inner_nodes-Ends nodes.inner_nodes s) (λ s' _. write_leaves-Ends nodes.leaves s')
