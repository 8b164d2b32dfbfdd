-- ===== src/CommitmentTree/Context.antt =====
-- A store and the facts that a caller collects, as
-- crates/starknet-os/src/starkware_utils/commitment_tree/binary_fact_tree_node.rs passes them
-- round: `ffc: &mut FactFetchingContext<S, H>` and `facts: &mut Option<BinaryFactDict>`.
use snos.Base.{ℕ, ◌≡◌, Bool, true, Option, none, some, List}
use snos.Base.Outcome.{Outcome, ok, err, panicked}
use snos.Base.HashMap
use snos.Base.HashMap.{HashMap, nat_eq}
use snos.CommitmentTree.Bytes.{Hash, Crypto, empty_hash}
use snos.CommitmentTree.Storage.{StorageError, Storage, Serializable, get_or_fail, set}
use snos.CommitmentTree.Nodes.{PatriciaNodeFact, node_object, to_tuple, hash_node}

abbrev pub BinaryFactDict : Type 0
BinaryFactDict = HashMap ℕ (List ℕ)

pub record Context (S : Type 0) : Type 0 where
  pub storage : S
  pub facts : Option BinaryFactDict

-- A call that reads and writes the context, and may fail with an error in `E`.
abbrev pub Action : Type 0 → Type 0 → Type 0 → Type 0
Action S E A = Context S → Outcome E (A × Context S)

abbrev pub pure : {S E A : Type 0} → A → Action S E A
pure a ctx = ok (a, ctx)

abbrev pub throw : {S E A : Type 0} → E → Action S E A
throw e ctx = err e

abbrev pub lift : {S E A : Type 0} → Outcome E A → Action S E A
lift (ok a) ctx = ok (a, ctx)
lift (err e) ctx = err e
lift panicked ctx = panicked

abbrev pub continue :
    {S E A B : Type 0} → Outcome E (A × Context S) → (A → Action S E B) → Outcome E (B × Context S)
continue (ok (a, ctx)) f = f a ctx
continue (err e) f = err e
continue panicked f = panicked

infixl 5 ◌>>=◌ ◌>>◌
abbrev pub ◌>>=◌ : {S E A B : Type 0} → Action S E A → (A → Action S E B) → Action S E B
◌>>=◌ m f ctx = continue (m ctx) f

abbrev pub ◌>>◌ : {S E A B : Type 0} → Action S E A → Action S E B → Action S E B
m >> k = m >>= λ _. k

-- The trait `LeafFact`, for the type of leaves. Leaf types hash an empty leaf to the empty hash.
pub record LeafFact (LF : Type 0) : Type 0 where
  pub object : Serializable LF
  pub hash : LF → Hash
  pub is_empty : LF → Bool
  pub hash_empty : (fact : LF) → is_empty fact ≡ true → hash fact ≡ empty_hash

add_fact : Option BinaryFactDict → ℕ → List ℕ → Option BinaryFactDict
add_fact none key tuple = none
add_fact (some facts) key tuple = some (HashMap.insert key tuple facts)

module _ {S : Type 0} (c : Crypto) (st : Storage S) where
  unfoldable pub read_node_fact : Hash → Action S StorageError PatriciaNodeFact
  unfolding add_fact
  read_node_fact fact_hash ctx =
      continue (lift (get_or_fail (node_object c.biguint) st ctx.storage fact_hash) ctx)
        λ fact ctx'. ok (
          fact,
          record ctx' {
            facts =
                add_fact ctx'.facts (c.biguint.from_bytes_be fact_hash) (to_tuple c.biguint fact);
          },
        )

  unfoldable pub write_node_fact : PatriciaNodeFact → Action S StorageError Hash
  unfolding add_fact
  write_node_fact fact ctx =
      let fact_hash = hash_node c fact in
      continue (lift (set (node_object c.biguint) st fact ctx.storage fact_hash) ctx)
        λ storage ctx'. ok (
          fact_hash,
          record {
            storage = storage;
            facts =
                add_fact ctx'.facts (c.biguint.from_bytes_be fact_hash) (to_tuple c.biguint fact);
          },
        )
