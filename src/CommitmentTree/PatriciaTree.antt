-- ===== src/CommitmentTree/PatriciaTree.antt =====
-- crates/starknet-os/src/starkware_utils/commitment_tree/patricia_tree/patricia_tree.rs: a tree by
-- its root and its height.
pub mod Writes
pub mod Stored
pub mod Root
use snos.Base.{ℕ, List}
use snos.Base.Outcome
use snos.Base.Outcome.{ok, map_err}
use snos.CommitmentTree.Bytes.{Hash, Crypto}
use snos.CommitmentTree.Storage.{Storage, set}
use snos.CommitmentTree.Nodes.{TreeError}
use snos.CommitmentTree.Context.{Action, LeafFact, pure, ◌>>=◌}
use snos.CommitmentTree.VirtualNode.{from_hash}
use snos.CommitmentTree.VirtualNode as VirtualNode
use snos.CommitmentTree.Update.{update_tree}

pub record PatriciaTree : Type 0 where
  pub root : Hash
  pub height : ℕ

module _ {S LF : Type 0} (c : Crypto) (st : Storage S) (lf : LeafFact LF) where
  -- `set_fact` of storage.rs: the fact goes under its hash.
  unfoldable pub set_fact : LF → Action S TreeError Hash
  set_fact fact ctx =
      Outcome.◌>>=◌ (map_err TreeError.storage (set lf.object st fact ctx.storage (lf.hash fact)))
        λ s. ok (lf.hash fact, record ctx { storage = s })

  unfoldable pub empty_tree : ℕ → LF → Action S TreeError PatriciaTree
  empty_tree height leaf_fact = set_fact leaf_fact >>= λ empty_leaf_fact_hash.
      pure (record { root = empty_leaf_fact_hash; height = height })

  -- The fact of a root that is an edge is written by `commit`.
  unfoldable pub update : PatriciaTree → List (ℕ × LF) → Action S TreeError PatriciaTree
  update tree modifications =
      update_tree c st lf (from_hash tree.root tree.height) modifications >>= λ updated.
      VirtualNode.commit c st updated >>= λ root_hash.
      pure (record { root = root_hash; height = updated.height })
