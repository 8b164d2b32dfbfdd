-- ===== src/CommitmentTree/Update/Order.antt =====
-- A queue and a list that hold the same elements in different orders, for the breadth-first queue of
-- crates/starknet-os/src/starkware_utils/commitment_tree/merkle_tree/traverse_tree.rs.
use snos.Base.{◌≡◌, refl, ap, List, [], ◌∷◌, ◌++◌}

module _ {A : Type 0} where
  -- The first list is the second one with the element somewhere in it.
  pub data Into (x : A) : List A → List A → Type 0 where
    here : {l : List A} → Into x (x ∷ l) l
    there : {y : A} {l r : List A} → Into x l r → Into x (y ∷ l) (y ∷ r)

  pub data Same : List A → List A → Type 0 where
    nothing : Same [] []
    first : {x : A} {q l r : List A} → Into x l r → Same q r → Same (x ∷ q) l

  pub record Exchange (a x : A) (l r : List A) : Type 0 where
    pub rest : List A
    pub outer : Into x l rest
    pub inner : Into a rest r

  exchange : {a x : A} {l m r : List A} → Into a l m → Into x m r → Exchange a x l r
  exchange here i = record { rest = _; outer = there i; inner = here }
  exchange (there i) here = record { rest = _; outer = here; inner = i }
  exchange (there i) (there j) =
      let e = exchange i j in record { rest = _; outer = there e.outer; inner = there e.inner }

  pub Same_push : {a : A} {q l m : List A} → Into a l m → Same q m → Same (q ++ (a ∷ [])) l
  Same_push i (first j s) = let e = exchange i j in first e.outer (Same_push e.inner s)
  Same_push here nothing = first here nothing

  -- Where an element of two lists is.
  pub data Split (x : A) (l m r : List A) : Type 0 where
    in_left : (k : List A) → Into x l k → r ≡ k ++ m → Split x l m r
    in_right : (k : List A) → Into x m k → r ≡ l ++ k → Split x l m r

  Split-there : {x : A} (y : A) (l m r : List A) → Split x l m r → Split x (y ∷ l) m (y ∷ r)
  Split-there y l m r (in_left k i e) = in_left (y ∷ k) (there i) (ap (λ z. y ∷ z) e)
  Split-there y l m r (in_right k i e) = in_right k i (ap (λ z. y ∷ z) e)

  pub split : (x : A) (l m : List A) {r : List A} → Into x (l ++ m) r → Split x l m r
  split x [] m i = in_right _ i refl
  split x (y ∷ l) m here = in_left l here refl
  split x (y ∷ l) m (there i) = Split-there y l m _ (split x l m i)

  pub Into-left : {x : A} {l k : List A} (m : List A) → Into x l k → Into x (l ++ m) (k ++ m)
  Into-left m here = here
  Into-left m (there i) = there (Into-left m i)

  pub Into-right : {x : A} {m k : List A} (l : List A) → Into x m k → Into x (l ++ m) (l ++ k)
  Into-right [] i = i
  Into-right (y ∷ l) i = there (Into-right l i)
