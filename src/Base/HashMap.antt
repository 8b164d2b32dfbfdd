-- ===== src/Base/HashMap.antt =====
-- `HashMap<K, V>` as an association list with one entry for each key. The order of entries is that
-- of insertion; no operation of the program that is modelled depends on it.
use Prim.Native.Nat.{ℕ}
use mathlib.Core.Path.{◌≡◌, refl}
use mathlib.Core.Logic.{◌↔◌, inl, inr}
use mathlib.Core.Bool.{Bool, true}
use mathlib.Core.Option.{Option, none, some}
use mathlib.Core.List.{List, [], ◌∷◌}
use native.Mathlib.Omega.{arith}
use snos.Base.Lists.{All}
use snos.Base.Tests.{Bool-cases, if◌then◌else◌, ◌==◌ as nat_beq, ==_iff}

-- The key's `Eq`.
pub record Eq {ℓ} (K : Type ℓ) : Type ℓ where
  pub beq : K → K → Bool
  pub beq_iff : (a b : K) → (beq a b ≡ true) ↔ (a ≡ b)

instance abbrev pub nat_eq : Eq ℕ
nat_eq = record { beq = nat_beq; beq_iff = ==_iff }

abbrev pub HashMap {ℓ κ} : Type ℓ → Type κ → Type (ℓ ⊔ κ)
HashMap K V = List (K × V)

module _ {ℓ κ} {K : Type ℓ} {V : Type κ} ⦃e : Eq K⦄ where
  unfoldable pub get : K → HashMap K V → Option V
  get k [] = none
  get k ((j, v) ∷ m) = if e.beq j k then some v else get k m

  -- A key that is present keeps its place and takes the new value.
  unfoldable pub insert : K → V → HashMap K V → HashMap K V
  insert k v [] = (k, v) ∷ []
  insert k v ((j, w) ∷ m) = if e.beq j k then (j, v) ∷ m else (j, w) ∷ insert k v m

  unfoldable pub remove : K → HashMap K V → HashMap K V
  remove k [] = []
  remove k ((j, w) ∷ m) = let rest = remove k m in if e.beq j k then rest else (j, w) ∷ rest

  -- `collect()` from pairs: a later pair overwrites an earlier one.
  unfoldable pub collect_into : HashMap K V → List (K × V) → HashMap K V
  collect_into m [] = m
  collect_into m ((k, v) ∷ ps) = collect_into (insert k v m) ps

  pub get-insert :
      (k j : K) (v : V) (m : HashMap K V)
      → get j (insert k v m) ≡ (if e.beq k j then some v else get j m)
  unfolding get insert
  get-insert k j v [] = refl
  get-insert k j v ((i, w) ∷ m) =
      ground (arith, e.beq_iff k j, e.beq_iff i k, e.beq_iff i j, get-insert k j v m)

  pub get-remove :
      (k j : K) (m : HashMap K V) → get j (remove k m) ≡ (if e.beq k j then none else get j m)
  unfolding get remove
  get-remove k j [] = ground arith
  get-remove k j ((i, w) ∷ m) =
      ground (arith, e.beq_iff k j, e.beq_iff i k, e.beq_iff i j, get-remove k j m)

-- The value of the last pair with the key.
unfoldable pub last_value {ℓ κ} :
    {K : Type ℓ} {V : Type κ} ⦃e : Eq K⦄ → K → Option V → List (K × V) → Option V
last_value k before [] = before
last_value ⦃e⦄ k before ((j, v) ∷ ps) = last_value k (if e.beq j k then some v else before) ps

pub get-collect_into {ℓ κ} :
    {K : Type ℓ} {V : Type κ} ⦃e : Eq K⦄ (k : K) (m : HashMap K V) (ps : List (K × V))
    → get k (collect_into m ps) ≡ last_value k (get k m) ps
unfolding collect_into last_value
get-collect_into k m [] = refl
get-collect_into k m ((j, v) ∷ ps) =
    rw (← get-insert j k v m) (get-collect_into k (insert j v m) ps)

module _ {ℓ κ μ} {K : Type ℓ} {V : Type κ} ⦃e : Eq K⦄ (P : K × V → Type μ) where
  pub All-insert : (k : K) (v : V) (m : HashMap K V) → P (k, v) → All P m → All P (insert k v m)
  unfolding insert
  All-insert k v [] p a = (p, tt)
  All-insert k v ((j, w) ∷ m) p a = elim (Bool-cases (e.beq j k)) [
    | inl s ↦
        let same : j ≡ k = (e.beq_iff j k).0 s in
        let here : P (j, v) = rw same p in rw s (here, a.1)
    | inr s ↦ rw s (a.0, All-insert k v m p a.1)
  ]

  pub All-collect_into : (m ps : List (K × V)) → All P m → All P ps → All P (collect_into m ps)
  unfolding collect_into
  All-collect_into m [] a b = a
  All-collect_into m ((k, v) ∷ ps) a b =
      All-collect_into (insert k v m) ps (All-insert k v m b.0 a) b.1
