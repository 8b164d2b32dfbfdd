-- ===== src/CommitmentTree/Descents/Bounds.antt =====
-- What `patricia_guess_descents` of
-- crates/starknet-os/src/starkware_utils/commitment_tree/patricia_tree/patricia_guess_descents.rs
-- returns: descents within the tree, or the error of a preimage.
use native.Mathlib.Nat.{mod-lt}
use snos.Base.{
  ℕ, zero, suc, ◌+◌, ◌-◌, ◌*◌, ◌^◌, ◌≤◌, ◌<◌, ◌≡◌, refl, true, false, ◌==◌, ltb, if◌then◌else◌,
  Bool-cases, inl, inr, All, arith,
}
use snos.Base.Pow.{pow_pos, pow_add}
use snos.Base.Outcome.{ok, Ends, Ends_bind, Ends_imp, ◌>>=◌}
use snos.Base.HashMap
use snos.Base.HashMap.{HashMap, nat_eq, All-collect_into}
use snos.CommitmentTree.UpdateTree.{UpdateTree}
use snos.CommitmentTree.UpdateTree.Build.{IsInduced}
use snos.CommitmentTree.Descents.{
  Preimage, Trees, open_trees, all_none, is_absent, Stop, stop, DescentStart, DescentPath, start_eq,
  find_edge, edge_entry, get_descents, patricia_guess_descents,
}
use snos.CommitmentTree.Descents.Opening.{HasPairs, PreimageBlame, Fitting, Opened, opened}

-- A descent within a tree of the height: it is longer than 1, it starts in the tree and does not
-- pass its leaves, and its path fits its length.
pub record IsDescent (H : ℕ) (entry : DescentStart × DescentPath) : Type 0 where
  pub longer : 1 < entry.1.length
  pub within : entry.1.length ≤ entry.0.height
  pub start_height : entry.0.height ≤ H
  pub start_path : entry.0.path < 2 ^ (H - entry.0.height)
  pub path : entry.1.path < 2 ^ entry.1.length

double : (path d : ℕ) → path < 2 ^ d → (path * 2 < 2 ^ (d + 1)) × (path * 2 + 1 < 2 ^ (d + 1))
double path d lt = (omega (arith, pow_add d 1), omega (arith, pow_add d 1))

module _ {LF : Type 0} (preimage : Preimage) where
  -- Where the loop may stop: below its start, at a path that fits, with trees of the height below.
  pub record Stopped (height : ℕ) (d : ℕ) (s : Stop LF) : Type 0 where
    pub below : s.height ≤ height
    pub path : s.path < 2 ^ (d + (height - s.height))
    pub lefts : (h : ℕ) → s.height ≡ suc h → Fitting preimage h s.lefts
    pub rights : (h : ℕ) → s.height ≡ suc h → Fitting preimage h s.rights

  all_none-is_absent : (t : Trees LF) → all_none t ≡ true → is_absent t.update_tree ≡ true
  all_none-is_absent t e = ground arith

  deeper : (h d : ℕ) (s : Stop LF) → Stopped h (d + 1) s → Stopped (suc h) d s
  deeper h d s v = record {
    below = omega (arith, v.below);
    path =
        let e : d + 1 + (h - s.height) ≡ d + (suc h - s.height) = omega (arith, v.below) in
        rw e at v.path;
    lefts = v.lefts;
    rights = v.rights;
  }

  no_trees :
      (path d : ℕ) (l r : Trees LF) → path < 2 ^ (d + 1) → Stopped 1 d (stop preimage 0 path (l, r))
  no_trees path d l r lt = record {
    below = omega arith;
    path = lt;
    lefts = λ h e. absurd (omega arith);
    rights = λ h e. absurd (omega arith);
  }

  Stopped-here :
      (h path d : ℕ) (l r : Trees LF)
      → path < 2 ^ d
      → Fitting preimage h l
      → Fitting preimage h r
      → Stopped (suc h) d (stop preimage (suc h) path (l, r))
  Stopped-here h path d l r lt fl fr = record {
    below = omega arith;
    path = let e : d + (suc h - suc h) ≡ d = omega arith in rw e lt;
    lefts = λ k e. let f : k ≡ h = omega arith in rw f fl;
    rights = λ k e. let f : k ≡ h = omega arith in rw f fr;
  }

  find_edge-Ends :
      (h path d : ℕ) (trees : Trees LF)
      → HasPairs preimage
      → is_absent trees.update_tree ≡ false
      → Fitting preimage (suc h) trees
      → path < 2 ^ d
      → Ends (PreimageBlame preimage) ⊥ (Stopped (suc h) d) (find_edge preimage (suc h) path trees)
  unfolding find_edge
  find_edge-Ends zero path d trees pairs na v lt =
      Ends_bind (PreimageBlame preimage) ⊥ (Opened preimage 0) (Stopped 1 d)
        (open_trees preimage trees) _
        (opened preimage 0 trees.update_tree trees.previous_tree trees.new_tree pairs na v.induced
          v.previous v.new)
        (λ (l, r) o. elim (Bool-cases (all_none l)) [
          | inl e ↦ rw e (no_trees (path * 2 + 1) d l r (double path d lt).1)
          | inr e ↦ elim (Bool-cases (all_none r)) [
            | inl f ↦ rw (e, f) (no_trees (path * 2) d l r (double path d lt).0)
            | inr f ↦ rw (e, f) (Stopped-here 0 path d l r lt o.0 o.1)
          ]
        ])
  find_edge-Ends (suc h) path d trees pairs na v lt =
      Ends_bind (PreimageBlame preimage) ⊥ (Opened preimage (suc h)) (Stopped (suc (suc h)) d)
        (open_trees preimage trees) _
        (opened preimage (suc h) trees.update_tree trees.previous_tree trees.new_tree pairs na
          v.induced v.previous v.new)
        (λ (l, r) o.
          let inner : (suc h == 0) ≡ false = ground arith in
          elim (Bool-cases (all_none l)) [
            | inl e ↦
                rw (e, inner)
                  (Ends_imp (PreimageBlame preimage) ⊥ (Stopped (suc h) (d + 1))
                    (Stopped (suc (suc h)) d) _ (deeper (suc h) d)
                    (find_edge-Ends h (path * 2 + 1) (d + 1) r pairs (o.2 (all_none-is_absent l e))
                      o.1 (double path d lt).1))
            | inr e ↦ elim (Bool-cases (all_none r)) [
              | inl f ↦
                  let na_left : is_absent l.update_tree ≡ false =
                    elim (Bool-cases (is_absent l.update_tree)) [
                      | inl g ↦ absurd (cc (o.2 g, all_none-is_absent r f))
                      | inr g ↦ g
                    ] in
                  rw (e, f, inner)
                    (Ends_imp (PreimageBlame preimage) ⊥ (Stopped (suc h) (d + 1))
                      (Stopped (suc (suc h)) d) _ (deeper (suc h) d)
                      (find_edge-Ends h (path * 2) (d + 1) l pairs na_left o.0
                        (double path d lt).0))
              | inr f ↦ rw (e, f) (Stopped-here (suc h) path d l r lt o.0 o.1)
            ]
          ])

  entry-IsDescent :
      (H height d path : ℕ) (s : Stop LF)
      → d + height ≡ H
      → path < 2 ^ d
      → Stopped height d s
      → All (IsDescent H) (edge_entry preimage height path s)
  entry-IsDescent H height d path s e lt v =
      let n = height - s.height in
      elim (Bool-cases (ltb 1 n)) [
        | inr f ↦ rw f tt
        | inl f ↦
            let up : H - height ≡ d = omega arith in
            rw f (
              record {
                longer = ground arith;
                within = omega arith;
                start_height = omega arith;
                start_path = rw up lt;
                path = mod-lt s.path (pow_pos n);
              },
              tt,
            )
      ]

  get_descents-Ends :
      (H fuel height d path : ℕ) (trees : Trees LF)
      → HasPairs preimage
      → height ≤ fuel
      → d + height ≡ H
      → path < 2 ^ d
      → Fitting preimage height trees
      → Ends
          (PreimageBlame preimage)
          ⊥
          (All (IsDescent H))
          (get_descents preimage fuel height path trees)
  unfolding get_descents
  get_descents-Ends H zero height d path trees pairs le e lt v =
      let z : (height == 0) ≡ true = ground arith in
      elim (Bool-cases (is_absent trees.update_tree)) [ inl f ↦ rw f tt | inr f ↦ rw (f, z) tt ]
  get_descents-Ends H (suc fuel) zero d path trees pairs le e lt v =
      elim (Bool-cases (is_absent trees.update_tree)) [ inl f ↦ rw f tt | inr f ↦ rw f tt ]
  get_descents-Ends H (suc fuel) (suc h) d path trees pairs le e lt v =
      let inner : (suc h == 0) ≡ false = ground arith in
      elim (Bool-cases (is_absent trees.update_tree)) [
        | inl f ↦ rw f tt
        | inr f ↦
            rw (f, inner)
              (Ends_bind (PreimageBlame preimage) ⊥ (Stopped (suc h) d) (All (IsDescent H))
                (find_edge preimage (suc h) path trees) _
                (find_edge-Ends h path d trees pairs f v lt)
                (λ s w. below_stop H fuel (suc h) d path s e lt w (λ k child_path t es lt' fit.
                  get_descents-Ends H fuel k (d + (suc h - s.height) + 1) child_path t pairs
                    (omega (arith, w.below)) (omega (arith, w.below)) lt' fit)))
      ]
    where
      below_stop :
          (H fuel height d path : ℕ) (s : Stop LF)
          → d + height ≡ H
          → path < 2 ^ d
          → Stopped height d s
          → ((k child_path : ℕ) (t : Trees LF)
              → s.height ≡ suc k
              → child_path < 2 ^ (d + (height - s.height) + 1)
              → Fitting preimage k t
              → Ends
                  (PreimageBlame preimage)
                  ⊥
                  (All (IsDescent H))
                  (get_descents preimage fuel k child_path t))
          → Ends (PreimageBlame preimage) ⊥ (All (IsDescent H)) (
              let descent_map = edge_entry preimage height path s in
              let next_height = s.height - 1 in
              let extended =
                get_descents preimage fuel next_height (s.path * 2) s.lefts >>= λ in_left.
                get_descents preimage fuel next_height (s.path * 2 + 1) s.rights >>= λ in_right.
                ok (HashMap.collect_into (HashMap.collect_into descent_map in_left) in_right) in
              if s.height == 0 then ok descent_map else extended)
      below_stop H fuel height d path s e lt w go = elim (Bool-cases (s.height == 0)) [
        | inl f ↦ rw f (entry-IsDescent H height d path s e lt w)
        | inr f ↦
            let k = s.height - 1 in
            let up : s.height ≡ suc k = ground arith in
            let wide = double s.path (d + (height - s.height)) w.path in
            rw f (
              Ends_bind (PreimageBlame preimage) ⊥ (All (IsDescent H)) (All (IsDescent H))
                (get_descents preimage fuel k (s.path * 2) s.lefts) _
                (go k (s.path * 2) s.lefts up wide.0 (w.lefts k up))
                (λ in_left al.
                  Ends_bind (PreimageBlame preimage) ⊥ (All (IsDescent H)) (All (IsDescent H))
                    (get_descents preimage fuel k (s.path * 2 + 1) s.rights) _
                    (go k (s.path * 2 + 1) s.rights up wide.1 (w.rights k up))
                    (λ in_right ar.
                      All-collect_into (IsDescent H) _ in_right
                        (All-collect_into (IsDescent H) _ in_left
                          (entry-IsDescent H height d path s e lt w) al)
                        ar)))
      ]

  -- For a tree of modifications of the height, and preimages of two felts at least, the search ends
  -- with descents within the tree: each is longer than 1, starts at a node of the tree and does not
  -- pass its leaves, and its path fits its length. Otherwise a preimage is missing, or an edge has a
  -- length of 2 ^ 64 or more; the trees are never found to differ in height, and nothing panics.
  pub patricia_guess_descents-IsDescent :
      (prime height : ℕ) (node : UpdateTree LF) (prev_root new_root : ℕ)
      → HasPairs preimage
      → IsInduced height node
      → Ends
          (PreimageBlame preimage)
          ⊥
          (All (IsDescent height))
          (patricia_guess_descents prime height node preimage prev_root new_root)
  unfolding patricia_guess_descents
  patricia_guess_descents-IsDescent prime height node prev_root new_root pairs v =
      get_descents-Ends height height height 0 0 _ pairs (omega arith) (omega arith) (omega arith)
        (record { induced = v; previous = (refl, refl); new = (refl, refl) })
