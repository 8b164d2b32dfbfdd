-- ===== src/CommitmentTree/UpdateTree/Build.antt =====
-- What `build_update_tree` of
-- crates/starknet-os/src/starkware_utils/commitment_tree/update_tree.rs builds, against the list of
-- modifications: layer by layer, each entry is the tree of the modifications below it.
use native.Mathlib.Nat.{pow-suc}
use snos.Base.{
  ℕ, zero, suc, ◌+◌, ◌-◌, ◌*◌, ◌^◌, ◌≤◌, ◌<◌, ◌≡◌, ◌≢◌, refl, Option, none, some, List, [], ◌∷◌,
  map, arith, ltb, ltb→lt, if◌then◌else◌, Bool-cases, inl, inr, ◌∙◌, ap,
}
use snos.Base.HashMap
use snos.Base.HashMap.{HashMap, nat_eq, last_value, get-collect_into}
use snos.CommitmentTree.UpdateTree.{
  UpdateTree, absent, present, TreeUpdate, tuple, leaf, Layer, of_option, leaf_entry, bottom_layer,
  next_layer, raise,
}
use snos.CommitmentTree.UpdateTree.Layers.{join, get-next_layer}

module _ {LF : Type 0} where
  -- The leaf under an index of a tree of the height: the half of the index range tells the child.
  abbrev pub value_at : ℕ → UpdateTree LF → ℕ → Option LF
  value_at zero absent i = none
  value_at zero (present (leaf fact)) i = some fact
  value_at zero (present (tuple l r)) i = none
  value_at (suc h) absent i = none
  value_at (suc h) (present (leaf fact)) i = none
  value_at (suc h) (present (tuple l r)) i =
      let in_left = value_at h l i in
      let in_right = value_at h r (i - 2 ^ h) in if ltb i (2 ^ h) then in_left else in_right

  -- The leaves stand at height 0, and no pair is of two absent trees.
  abbrev pub IsInduced : ℕ → UpdateTree LF → Type 0
  IsInduced zero absent = Unit
  IsInduced zero (present (leaf fact)) = Unit
  IsInduced zero (present (tuple l r)) = ⊥
  IsInduced (suc h) absent = Unit
  IsInduced (suc h) (present (leaf fact)) = ⊥
  IsInduced (suc h) (present (tuple absent absent)) = ⊥
  IsInduced (suc h) (present (tuple (present l) r)) = IsInduced h (present l) × IsInduced h r
  IsInduced (suc h) (present (tuple absent (present r))) = Unit {0} × IsInduced h (present r)

  pub value_at-absent : (h i : ℕ) → value_at h absent i ≡ none
  value_at-absent zero i = refl
  value_at-absent (suc h) i = refl

  IsInduced-join :
      (h : ℕ) (l r : Option (TreeUpdate LF))
      → IsInduced h (of_option l)
      → IsInduced h (of_option r)
      → IsInduced (suc h) (of_option (join l r))
  IsInduced-join h none none hl hr = tt
  IsInduced-join h none (some r) hl hr = (tt, hr)
  IsInduced-join h (some l) none hl hr = (hl, hr)
  IsInduced-join h (some l) (some r) hl hr = (hl, hr)

  value_at-join :
      (h : ℕ) (l r : Option (TreeUpdate LF)) (i : ℕ)
      → value_at (suc h) (of_option (join l r)) i ≡ (
          if ltb i (2 ^ h)
          then value_at h (of_option l) i
          else value_at h (of_option r) (i - 2 ^ h))
  value_at-join h none none i = ground (arith, value_at-absent h i, value_at-absent h (i - 2 ^ h))
  value_at-join h none (some r) i = refl
  value_at-join h (some l) none i = refl
  value_at-join h (some l) (some r) i = refl

  -- A present tree has a leaf.
  pub leaf_of_present :
      (h : ℕ) (t : TreeUpdate LF)
      → IsInduced h (present t)
      → (i : ℕ) × (i < 2 ^ h) × (value_at h (present t) i ≢ none)
  leaf_of_present zero (leaf fact) v = (0, omega arith, λ e. cc e)
  leaf_of_present zero (tuple l r) v = absurd v
  leaf_of_present (suc h) (leaf fact) v = absurd v
  leaf_of_present (suc h) (tuple absent absent) v = absurd v
  leaf_of_present (suc h) (tuple (present l) r) v =
      let (i, lt, ne) = leaf_of_present h l v.0 in (i, omega (arith, pow-suc 2 h), ground arith)
  leaf_of_present (suc h) (tuple absent (present r)) v =
      let (i, lt, ne) = leaf_of_present h r v.1 in
      let back : i + 2 ^ h - 2 ^ h ≡ i = omega arith in
      (i + 2 ^ h, omega (arith, pow-suc 2 h), ground (arith, ap (value_at h (present r)) back))

  -- Every entry of the layer is the tree of the modifications below it.
  record Describes (k : ℕ) (layer : Layer LF) (mods : List (ℕ × LF)) : Type 0 where
    induced : (j : ℕ) → IsInduced k (of_option (HashMap.get j layer))
    values :
        (j i : ℕ)
        → i < 2 ^ k
        → value_at k (of_option (HashMap.get j layer)) i ≡ last_value (j * 2 ^ k + i) none mods

  abbrev leaf_option : Option LF → Option (TreeUpdate LF)
  leaf_option none = none
  leaf_option (some fact) = some (leaf fact)

  last_value-map :
      (j : ℕ) (before : Option LF) (mods : List (ℕ × LF))
      → last_value j (leaf_option before) (map leaf_entry mods)
        ≡ leaf_option (last_value j before mods)
  unfolding last_value
  last_value-map j before [] = refl
  last_value-map j before ((k, fact) ∷ mods) =
      ground (arith, last_value-map j (some fact) mods, last_value-map j before mods)

  value_at-leaf : (o : Option LF) (i : ℕ) → value_at 0 (of_option (leaf_option o)) i ≡ o
  value_at-leaf none i = refl
  value_at-leaf (some fact) i = refl

  IsInduced-leaf : (o : Option LF) → IsInduced 0 (of_option (leaf_option o))
  IsInduced-leaf none = tt
  IsInduced-leaf (some fact) = tt

  get-bottom_layer :
      (mods : List (ℕ × LF)) (j : ℕ)
      → HashMap.get j (bottom_layer mods) ≡ leaf_option (last_value j none mods)
  unfolding bottom_layer HashMap.get
  get-bottom_layer mods j = get-collect_into j [] (map leaf_entry mods) ∙ last_value-map j none mods

  Describes-bottom_layer : (mods : List (ℕ × LF)) → Describes 0 (bottom_layer mods) mods
  Describes-bottom_layer mods = record {
    induced = λ j. rw get-bottom_layer (IsInduced-leaf (last_value j none mods));
    values = λ j i lt.
        let e : j * 2 ^ 0 + i ≡ j = omega arith in
        rw (get-bottom_layer mods j, e) (value_at-leaf (last_value j none mods) i);
  }

  Describes-next_layer :
      (k : ℕ) (layer : Layer LF) (mods : List (ℕ × LF))
      → Describes k layer mods
      → Describes (suc k) (next_layer layer) mods
  Describes-next_layer k layer mods d = record {
    induced =
        λ j. rw get-next_layer (IsInduced-join k _ _ (d.induced (j * 2)) (d.induced (j * 2 + 1)));
    values = λ j i lt.
        let l = HashMap.get (j * 2) layer in
        let r = HashMap.get (j * 2 + 1) layer in
        let p = 2 ^ k in
        let size : 2 ^ suc k ≡ 2 ^ k * 2 = pow-suc 2 k in
        let in_left : j * 2 * 2 ^ k + i ≡ j * 2 ^ suc k + i = rw size (omega arith) in
        rw (get-next_layer layer j) (
          value_at-join k l r i ∙ elim (Bool-cases (ltb i (2 ^ k))) [
            | inl e ↦
                rw e (d.values (j * 2) i (ltb→lt i _ e) ∙ ap (λ n. last_value n none mods) in_left)
            | inr e ↦
                let ge : 2 ^ k ≤ i = ground arith in
                let in_right : (j * 2 + 1) * 2 ^ k + (i - 2 ^ k) ≡ j * 2 ^ suc k + i =
                  rw size (omega arith) in
                rw e (
                  d.values (j * 2 + 1) (i - 2 ^ k) (omega (arith, size))
                  ∙ ap (λ n. last_value n none mods) in_right)
          ]);
  }

  Describes-raise :
      (h k n : ℕ) (layer : Layer LF) (mods : List (ℕ × LF))
      → h + k ≡ n
      → Describes k layer mods
      → Describes n (raise h layer) mods
  unfolding raise
  Describes-raise zero k n layer mods e d = let e' : n ≡ k = omega arith in rw e' d
  Describes-raise (suc h) k n layer mods e d =
      Describes-raise h (suc k) n (next_layer layer) mods (omega arith)
        (Describes-next_layer k layer mods d)

  abbrev pub top : ℕ → List (ℕ × LF) → Option (TreeUpdate LF)
  top height mods = HashMap.get 0 (raise height (bottom_layer mods))

  pub Describes-top :
      (height : ℕ) (mods : List (ℕ × LF))
      → IsInduced height (of_option (top height mods))
        × ((i : ℕ)
            → i < 2 ^ height
            → value_at height (of_option (top height mods)) i ≡ last_value i none mods)
  Describes-top height mods =
      let d =
        Describes-raise height 0 height (bottom_layer mods) mods (omega arith)
          (Describes-bottom_layer mods) in
      (
        d.induced 0,
        λ i lt. let e : 0 * 2 ^ height + i ≡ i = omega arith in rw e at (d.values 0 i lt),
      )
