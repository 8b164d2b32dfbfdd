-- ===== src/Base/HashSet.antt =====
-- `HashSet<K>` as a list with no element twice.
use mathlib.Core.Path.{◌≡◌, refl}
use mathlib.Core.Bool.{Bool, false, ◌||◌}
use mathlib.Core.List.{List, [], ◌∷◌}
use native.Mathlib.Omega.{arith}
use snos.Base.Tests.{if◌then◌else◌}
use snos.Base.HashMap.{Eq}

abbrev pub HashSet {ℓ} : Type ℓ → Type ℓ
HashSet K = List K

module _ {ℓ} {K : Type ℓ} ⦃e : Eq K⦄ where
  unfoldable pub contains : K → HashSet K → Bool
  contains k [] = false
  contains k (j ∷ s) = e.beq j k || contains k s

  unfoldable pub insert : K → HashSet K → HashSet K
  insert k s = if contains k s then s else k ∷ s

  unfoldable pub collect : List K → HashSet K
  collect [] = []
  collect (k ∷ ks) = insert k (collect ks)

  pub contains-insert :
      (k j : K) (s : HashSet K) → contains j (insert k s) ≡ (e.beq k j || contains j s)
  unfolding contains insert
  contains-insert k j s = ground (arith, e.beq_iff k j)

  -- A set from a list contains what the list does.
  pub contains-collect : (j : K) (ks : List K) → contains j (collect ks) ≡ contains j ks
  unfolding contains collect
  contains-collect j [] = refl
  contains-collect j (k ∷ ks) = rw (contains-insert k j (collect ks), contains-collect j ks)
