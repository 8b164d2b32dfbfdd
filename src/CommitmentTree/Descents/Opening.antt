-- ===== src/CommitmentTree/Descents/Opening.antt =====
-- The three trees of
-- crates/starknet-os/src/starkware_utils/commitment_tree/patricia_tree/patricia_guess_descents.rs are
-- opened together: they stay at one height.
use snos.Base.{
  ℕ, suc, ◌-◌, ◌/◌, ◌^◌, ◌≤◌, ◌≡◌, refl, true, false, ◌&&◌, ◌==◌, ltb, Bool-cases, inl, inr, Option,
  none, some, List, [], ◌∷◌, length, arith,
}
use snos.Base.Outcome.{Outcome, ok, err, panicked, Ends, Ends_bind, ◌>>=◌}
use snos.Base.HashMap
use snos.Base.HashMap.{HashMap, nat_eq, All-collect_into}
use snos.CommitmentTree.UpdateTree.{UpdateTree, absent, present, tuple, leaf}
use snos.CommitmentTree.UpdateTree.Build.{IsInduced}
use snos.CommitmentTree.UpdateTree.Values.{decode_node-IsInduced}
use snos.CommitmentTree.Descents.{
  Preimage, Triplet, DescentError, preimage_not_found, is_not_branch, tree_height_mismatch, math,
  canonic, pair_of, get_children, PreimageNodeIterator, branch, child, next, branches, Trees,
  open_iterator, open_trees, is_absent, start_eq,
}

module _ (preimage : Preimage) where
  -- A fact of the preimage has two felts at least.
  abbrev pub HasPairs : Type 0
  HasPairs =
      (node_hash : ℕ) (back : List ℕ) → HashMap.get node_hash preimage ≡ some back → 2 ≤ length back

  -- A preimage that is missing, or a length of 2 ^ 64 or more.
  abbrev pub PreimageBlame : DescentError → Type 0
  PreimageBlame (preimage_not_found node_hash) = HashMap.get node_hash preimage ≡ none
  PreimageBlame (math n) = 2 ^ 64 ≤ n
  PreimageBlame is_not_branch = ⊥
  PreimageBlame tree_height_mismatch = ⊥

  -- An iterator that has not been asked, of a height.
  abbrev pub AtHeight : ℕ → Option PreimageNodeIterator → Type 0
  AtHeight h none = Unit
  AtHeight h (some iter) = (iter.height ≡ h) × (iter.is_done ≡ false)

  pair_of-Ends :
      (node_hash : ℕ) (o : Option (List ℕ))
      → HasPairs
      → HashMap.get node_hash preimage ≡ o
      → Ends PreimageBlame ⊥ (λ _. Unit {0}) (pair_of node_hash o)
  pair_of-Ends node_hash none pairs e = e
  pair_of-Ends node_hash (some []) pairs e = absurd (omega (arith, pairs node_hash [] e))
  pair_of-Ends node_hash (some (a ∷ [])) pairs e =
      absurd (omega (arith, pairs node_hash (a ∷ []) e))
  pair_of-Ends node_hash (some (a ∷ b ∷ back)) pairs e = tt

  get_children-Ends :
      (node : Triplet)
      → HasPairs
      → Ends PreimageBlame ⊥ (λ _. Unit {0}) (get_children preimage node)
  unfolding get_children
  get_children-Ends node pairs = elim (Bool-cases (node.length == 0)) [
    | inl e ↦ elim (Bool-cases (node.node_hash == 0)) [
      | inl f ↦ rw (e, f) tt
      | inr f ↦
          rw (e, f)
            (Ends_bind PreimageBlame ⊥ (λ _. Unit {0}) (λ _. Unit {0}) _
              (λ both. ok (canonic preimage both.0, canonic preimage both.1))
              (pair_of-Ends node.node_hash (HashMap.get node.node_hash preimage) pairs refl)
              (λ both _. tt))
    ]
    | inr e ↦ elim (Bool-cases (ltb node.length (2 ^ 64))) [
      | inl f ↦ elim (Bool-cases (node.word / 2 ^ (node.length - 1) == 0)) [
        | inl g ↦ rw (e, f, g) tt
        | inr g ↦ rw (e, f, g) tt
      ]
      | inr f ↦ rw (e, f) (ground arith)
    ]
  ]

  AtHeight-child : (h : ℕ) (node : Triplet) → AtHeight h (child h node)
  AtHeight-child h node =
      elim (Bool-cases (node.length == 0 && (node.word == 0 && node.node_hash == 0))) [
        | inl e ↦ rw e tt
        | inr e ↦ rw e (refl, refl)
      ]

  abbrev Both : ℕ → Option PreimageNodeIterator × Option PreimageNodeIterator → Type 0
  Both h (l, r) = AtHeight h l × AtHeight h r

  branches-Ends :
      (h : ℕ) (r : Outcome DescentError (Triplet × Triplet))
      → Ends PreimageBlame ⊥ (λ _. Unit {0}) r
      → Ends PreimageBlame ⊥
          (Both h)
          (branches (some (r >>= λ both. ok (branch (child h both.0) (child h both.1)))))
  branches-Ends h (ok (l, r)) v = (AtHeight-child h l, AtHeight-child h r)
  branches-Ends h (err e) v = v
  branches-Ends h panicked v = v

  open_iterator-Ends :
      (h : ℕ) (o : Option PreimageNodeIterator)
      → HasPairs
      → AtHeight (suc h) o
      → Ends PreimageBlame ⊥ (Both h) (open_iterator preimage o)
  unfolding next
  open_iterator-Ends h none pairs v = (tt, tt)
  open_iterator-Ends h (some iter) pairs v =
      let inner : (iter.height == 0) ≡ false = ground (arith, v.0) in
      let down : iter.height - 1 ≡ h = omega (arith, v.0) in
      rw (v.1, inner, down)
        (branches-Ends h (get_children preimage iter.node) (get_children-Ends iter.node pairs))

module _ {LF : Type 0} (preimage : Preimage) where
  -- Three trees of a height.
  pub record Fitting (h : ℕ) (trees : Trees LF) : Type 0 where
    pub induced : IsInduced h trees.update_tree
    pub previous : AtHeight preimage h trees.previous_tree
    pub new : AtHeight preimage h trees.new_tree

  abbrev pub Opened : ℕ → Trees LF × Trees LF → Type 0
  Opened h (l, r) =
      Fitting h l × Fitting h r × (is_absent l.update_tree ≡ true → is_absent r.update_tree ≡ false)

  one_present :
      (h : ℕ) (l r : UpdateTree LF)
      → IsInduced (suc h) (present (tuple l r))
      → is_absent l ≡ true
      → is_absent r ≡ false
  one_present h absent absent v e = absurd v
  one_present h absent (present r) v e = refl
  one_present h (present l) r v e = absurd (cc e)

  pub opened :
      (h : ℕ) (u : UpdateTree LF) (p n : Option PreimageNodeIterator)
      → HasPairs preimage
      → is_absent u ≡ false
      → IsInduced (suc h) u
      → AtHeight preimage (suc h) p
      → AtHeight preimage (suc h) n
      → Ends
          (PreimageBlame preimage)
          ⊥
          (Opened h)
          (open_trees preimage (record { update_tree = u; previous_tree = p; new_tree = n }))
  unfolding open_trees
  opened h absent p n pairs na v vp vn = absurd (cc na)
  opened h (present (leaf fact)) p n pairs na v vp vn = absurd v
  opened h (present (tuple l r)) p n pairs na v vp vn =
      Ends_bind (PreimageBlame preimage) ⊥ (Both preimage h) (Opened h) (open_iterator preimage p) _
        (open_iterator-Ends preimage h p pairs vp)
        (λ bp hp.
          Ends_bind (PreimageBlame preimage) ⊥ (Both preimage h) (Opened h)
            (open_iterator preimage n) _ (open_iterator-Ends preimage h n pairs vn)
            (λ bn hn.
              let ind = decode_node-IsInduced h l r v in
              (
                record { induced = ind.1; previous = hp.0; new = hn.0 },
                record { induced = ind.2; previous = hp.1; new = hn.1 },
                one_present h l r v,
              )))
