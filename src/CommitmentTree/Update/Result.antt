-- ===== src/CommitmentTree/Update/Result.antt =====
-- What `build_updated_calculation` of
-- crates/starknet-os/src/starkware_utils/commitment_tree/update_tree.rs makes of a tree and a list
-- of modifications.
use snos.Base.{
  ℕ, zero, suc, ◌+◌, ◌-◌, ◌*◌, ◌^◌, ◌<◌, ◌≡◌, ◌≢◌, refl, sym, ◌∙◌, ap, arith, All, none, some, List,
  [], ◌∷◌, ==_self,
}
use snos.Base.Outcome.{Outcome, ok, Ends}
use snos.Base.HashMap
use snos.Base.HashMap.{nat_eq, last_value}
use snos.CommitmentTree.Bytes.{Hash, Crypto}
use snos.CommitmentTree.Storage.{Storage}
use snos.CommitmentTree.Nodes.{TreeError}
use snos.CommitmentTree.Context.{Context, LeafFact, continue, lift}
use snos.CommitmentTree.Reading.{Reading}
use snos.CommitmentTree.UpdateTree.{UpdateTree, absent, build_update_tree}
use snos.CommitmentTree.UpdateTree.Build.{value_at, IsInduced, value_at-absent}
use snos.CommitmentTree.UpdateTree.Values.{BuiltFrom, built, build_update_tree-BuiltFrom}
use snos.CommitmentTree.VirtualNode.{VirtualPatriciaNode}
use snos.CommitmentTree.VirtualNode.Leaves.{IsValid as IsValidNode, node_leaf as tree_leaf}
use snos.CommitmentTree.Calculation.{VirtualCalculationNode}
use snos.CommitmentTree.Calculation.Leaves.{IsValid, node_leaf}
use snos.CommitmentTree.Update.{
  NodeType, UpdatedNodes, size, traverse, traverse_tree, build_updated_calculation, unwrap,
}
use snos.CommitmentTree.Update.Order.{here, first, nothing}
use snos.CommitmentTree.Update.Work.{pending, pendings, get_node}
use snos.CommitmentTree.Update.Climb.{Keeping, Ends_continue}
use snos.CommitmentTree.Update.Targets.{TreeBlame, Broken, overwritten}
use snos.CommitmentTree.Update.Traverse.{Visiting}
use snos.CommitmentTree.Update.Queue.{RootUpdated, traverse-Ends}

module _ {S LF : Type 0} (c : Crypto) (st : Storage S) (lf : LeafFact LF) (s : S)
    (rd : Reading c st s) where
  open rd use {Held, resolve}

  -- The leaf that the modifications leave under an index of a tree.
  abbrev pub updated_leaf : VirtualPatriciaNode → List (ℕ × LF) → ℕ → Hash
  updated_leaf tree modifications i =
      overwritten lf (last_value i none modifications) (tree_leaf c st s rd tree i)

  -- A valid node of the tree's height with the updated leaves.
  pub record IsUpdated (tree : VirtualPatriciaNode) (modifications : List (ℕ × LF))
      (n : VirtualCalculationNode LF) : Type 0 where
    pub valid : IsValid Held n
    pub height : n.height ≡ tree.height
    pub leaves :
        (i : ℕ) → i < 2 ^ tree.height → node_leaf lf resolve n i ≡ updated_leaf tree modifications i

  abbrev target : VirtualPatriciaNode → List (ℕ × LF) → ℕ → Hash
  target tree modifications k = updated_leaf tree modifications (k - 2 ^ tree.height)

  target_leaf :
      (tree : VirtualPatriciaNode) (modifications : List (ℕ × LF)) (i : ℕ)
      → target tree modifications (1 * 2 ^ tree.height + i) ≡ updated_leaf tree modifications i
  target_leaf tree modifications i =
      let back : 1 * 2 ^ tree.height + i - 2 ^ tree.height ≡ i = omega arith in
      ap (updated_leaf tree modifications) back

  root_of :
      (tree : VirtualPatriciaNode) (modifications : List (ℕ × LF)) (nodes : UpdatedNodes LF)
      (ctx : Context S)
      → RootUpdated c st lf s rd (target tree modifications) tree.height nodes
      → ctx.storage ≡ s
      → Ends
          (TreeBlame c st lf s rd)
          (Broken c st lf s rd)
          (Keeping (IsUpdated tree modifications) s)
          (lift (unwrap (get_node 1 nodes)) ctx)
  root_of tree modifications nodes ctx (n, e, g) es = rw e (
    record {
      valid = g.valid;
      height = g.height;
      leaves = λ i lt. g.leaves i lt ∙ target_leaf tree modifications i;
    },
    es,
  )

  traverse_tree-Ends :
      (tree : VirtualPatriciaNode) (modifications : List (ℕ × LF)) (update : UpdateTree LF)
      (ctx : Context S)
      → IsValidNode c st s rd tree
      → IsInduced tree.height update
      → ((i : ℕ)
          → i < 2 ^ tree.height
          → value_at tree.height update i ≡ last_value i none modifications)
      → ctx.storage ≡ s
      → Ends
          (TreeBlame c st lf s rd)
          (Broken c st lf s rd)
          (Keeping (IsUpdated tree modifications) s)
          (continue
            (traverse_tree c st lf (record { index = 1; tree = tree; update = update }) ctx)
            (λ nodes. lift (unwrap (get_node 1 nodes))))
  unfolding traverse_tree HashMap.get pendings
  traverse_tree-Ends tree modifications update ctx v induced values es =
      let x : NodeType LF = record { index = 1; tree = tree; update = update } in
      let start : Visiting c st lf s rd (target tree modifications) tree.height [] (x ∷ []) =
        record {
          work = pending x;
          holds = (
            λ k b. refl,
            record {
              index = refl;
              valid = v;
              height = refl;
              induced = induced;
              leaves = λ p lt.
                  ap (λ o. overwritten lf o (tree_leaf c st s rd tree p)) (values p lt)
                  ∙ sym (target_leaf tree modifications p);
            },
          );
          no_zero = refl;
          order = first here nothing;
        } in
      Ends_continue (TreeBlame c st lf s rd) (Broken c st lf s rd)
        (Keeping (RootUpdated c st lf s rd (target tree modifications) tree.height) s)
        (Keeping (IsUpdated tree modifications) s) (traverse c st lf (size update) (x ∷ []) [] ctx)
        (λ nodes. lift (unwrap (get_node 1 nodes)))
        (traverse-Ends c st lf s rd (target tree modifications) tree.height (size update) (x ∷ [])
          [] ctx start (omega arith) es)
        (λ nodes ctx' kept. root_of tree modifications nodes ctx' kept.0 kept.1)

  kept_some : (k : ℕ) (fact : LF) (mods : List (ℕ × LF)) → last_value k (some fact) mods ≢ none
  unfolding last_value
  kept_some k fact [] e = absurd (cc e)
  kept_some k fact ((j, f) ∷ mods) e = ground (arith, kept_some k fact mods, kept_some k f mods, e)

  modified :
      (k : ℕ) (fact : LF) (mods : List (ℕ × LF)) → last_value k none ((k, fact) ∷ mods) ≢ none
  unfolding last_value
  modified k fact mods e = kept_some k fact mods (rw (==_self k) at e)

  absent-IsInduced : (h : ℕ) → IsInduced {LF = LF} h absent
  absent-IsInduced zero = tt
  absent-IsInduced (suc h) = tt

  from_built :
      (tree : VirtualPatriciaNode) (modifications : List (ℕ × LF))
      (o : Outcome TreeError (UpdateTree LF)) (ctx : Context S)
      → IsValidNode c st s rd tree
      → ctx.storage ≡ s
      → BuiltFrom tree.height modifications o
      → Ends
          (TreeBlame c st lf s rd)
          (Broken c st lf s rd)
          (Keeping (IsUpdated tree modifications) s)
          (continue (lift o ctx) (λ update ctx'.
            continue
              (traverse_tree c st lf (record { index = 1; tree = tree; update = update }) ctx')
              (λ nodes. lift (unwrap (get_node 1 nodes)))))
  from_built tree modifications o ctx v es (built t induced values) =
      traverse_tree-Ends tree modifications t ctx v induced values es

  -- Modifications of leaves of a valid tree lead to a valid node of the tree's height, whose leaf
  -- under an index is the last modification of that index, and the tree's leaf where there is none;
  -- the store stays as it was. The traversal ends, and its final `unwrap()` finds the root. The one
  -- way to fail is a fact in the store: one that cannot be read, or is that of an empty node, or of
  -- an edge of length 0.
  pub build_updated_calculation-IsUpdated :
      (tree : VirtualPatriciaNode) (modifications : List (ℕ × LF)) (ctx : Context S)
      → IsValidNode c st s rd tree
      → All (λ m. m.0 < 2 ^ tree.height) modifications
      → ctx.storage ≡ s
      → Ends
          (TreeBlame c st lf s rd)
          (Broken c st lf s rd)
          (Keeping (IsUpdated tree modifications) s)
          (build_updated_calculation c st lf tree modifications ctx)
  unfolding build_updated_calculation build_update_tree last_value
  build_updated_calculation-IsUpdated tree [] ctx v all es =
      from_built tree [] (ok absent) ctx v es
        (built absent (absent-IsInduced tree.height) (λ i lt. value_at-absent tree.height i))
  build_updated_calculation-IsUpdated tree ((k, fact) ∷ mods) ctx v all es =
      from_built tree ((k, fact) ∷ mods) (build_update_tree tree.height ((k, fact) ∷ mods)) ctx v es
        (build_update_tree-BuiltFrom tree.height ((k, fact) ∷ mods) k all.0 (modified k fact mods))
