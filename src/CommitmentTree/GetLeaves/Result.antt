-- ===== src/CommitmentTree/GetLeaves/Result.antt =====
-- What `get_leaves` of
-- crates/starknet-os/src/starkware_utils/commitment_tree/patricia_tree/patricia_tree.rs returns: the
-- leaves of the specification, under the indices asked for and no others.
use snos.Base.{ℕ, ◌^◌, ◌<◌, ◌≡◌, some, List, [], ◌∷◌, All, All-imp, arith, ap, sym, ◌∙◌}
use snos.Base.Outcome.{ok, Ends, Ends_imp}
use snos.Base.HashMap
use snos.Base.HashMap.{HashMap, nat_eq, get-insert, All-collect_into}
use snos.CommitmentTree.Bytes.{Crypto}
use snos.CommitmentTree.Storage.{Storage}
use snos.CommitmentTree.Context.{Context, LeafFact}
use snos.CommitmentTree.Reading.{Reading}
use snos.CommitmentTree.VirtualNode.{from_hash}
use snos.CommitmentTree.VirtualNode.Leaves.{flat-IsValid, flat-leaf}
use snos.CommitmentTree.Update.Climb.{Keeping}
use snos.CommitmentTree.GetLeaves.{get_tree_leaves}
use snos.CommitmentTree.GetLeaves.Partition.{Present, of_get}
use snos.CommitmentTree.PatriciaTree.{PatriciaTree}
use snos.CommitmentTree.GetLeaves.Parts.{
  LeavesBlame, LeavesBroken, IsLeafOf, AreLeaves, stored_leaf,
}
use snos.CommitmentTree.GetLeaves.Ends.{get_leaves-End}

module _ {S LF : Type 0} (c : Crypto) (st : Storage S) (lf : LeafFact LF) (s : S)
    (rd : Reading c st s) where
  open rd use {Held, resolve}

  -- What `get_leaves` of a tree may give: every index that is asked for has the leaf that is stored
  -- under the hash of the tree's leaf, and every entry is of an index with Q.
  pub record AreTreeLeaves (tree : PatriciaTree) (Q : ℕ → Type 0) (indices : List ℕ)
      (leaves : HashMap ℕ LF) : Type 0 where
    pub found :
        All
          (λ i.
            (leaf : LF) × (HashMap.get i leaves ≡ some leaf)
            × (stored_leaf c st lf s rd (resolve tree.root tree.height i) ≡ ok leaf))
          indices
    pub asked : All (λ e. Q e.0) leaves

  found_leaves :
      (tree : PatriciaTree) (Q : ℕ → Type 0) (indices : List ℕ) (leaves : HashMap ℕ LF)
      → All (λ i. Q i × (i < 2 ^ tree.height)) indices
      → AreLeaves c st lf s rd (from_hash tree.root tree.height) Q indices leaves
      → AreTreeLeaves tree Q indices leaves
  found_leaves tree Q indices leaves a v = record {
    found = both indices a v.complete;
    asked = All-imp _ (λ e. Q e.0) leaves (λ e q. q.0) v.entries;
  }
    where
      both :
          (is : List ℕ)
          → All (λ i. Q i × (i < 2 ^ tree.height)) is
          → All (Present leaves) is
          → All
              (λ i.
                (leaf : LF) × (HashMap.get i leaves ≡ some leaf)
                × (stored_leaf c st lf s rd (resolve tree.root tree.height i) ≡ ok leaf))
              is
      both [] a p = tt
      both (i ∷ is) a p =
          let (leaf, e, q) =
            of_get (IsLeafOf c st lf s rd (from_hash tree.root tree.height) Q) leaves i v.entries
              p.0 in
          (
            (
              leaf,
              e,
              ap (stored_leaf c st lf s rd)
                    (sym (flat-leaf c st s rd tree.root tree.height i a.0.1))
                  ∙ q.1,
            ),
            both is a.1 p.1,
          )

  -- For a root that is held, `get_leaves` finds under each index below 2 ^ height the leaf that is
  -- stored under the hash of the tree's leaf there, and has no entry of an index without Q if all
  -- indices have Q; the store stays as it was. The ways to fail are facts in the store: one that
  -- cannot be read, or is that of an empty node or of an edge of length 0.
  pub get_tree_leaves-AreTreeLeaves :
      (tree : PatriciaTree) (Q : ℕ → Type 0) (indices : List ℕ) (ctx : Context S)
      → Held tree.root tree.height
      → All (λ i. Q i × (i < 2 ^ tree.height)) indices
      → ctx.storage ≡ s
      → Ends
          (LeavesBlame c st lf s rd)
          (LeavesBroken c st lf s rd)
          (Keeping (AreTreeLeaves tree Q indices) s)
          (get_tree_leaves c st lf tree indices ctx)
  unfolding get_tree_leaves
  get_tree_leaves-AreTreeLeaves tree Q indices ctx held a es =
      Ends_imp (LeavesBlame c st lf s rd) (LeavesBroken c st lf s rd)
        (Keeping (AreLeaves c st lf s rd (from_hash tree.root tree.height) Q indices) s)
        (Keeping (AreTreeLeaves tree Q indices) s) _
        (λ (leaves, ctx') kept. (found_leaves tree Q indices leaves a kept.0, kept.1))
        (get_leaves-End c st lf s rd tree.height (from_hash tree.root tree.height) Q indices ctx
          (flat-IsValid c st s rd tree.root tree.height held) (omega arith) es a)
