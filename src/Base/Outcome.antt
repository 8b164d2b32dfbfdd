-- ===== src/Base/Outcome.antt =====
-- The outcome of a call: `Ok`, `Err`, or a panic (a failed `assert!`, `unwrap()` or `expect()`, an
-- index out of bounds).
use Prim.Native.Nat.{ℕ, zero, suc}
use mathlib.Core.Path.{◌≡◌, refl}
use mathlib.Core.List.{List, [], ◌∷◌}

pub data Outcome {ℓ κ} (E : Type ℓ) (A : Type κ) : Type (ℓ ⊔ κ) where
  ok : A → Outcome E A
  err : E → Outcome E A
  panicked : Outcome E A

infixl 5 ◌>>=◌ ◌>>◌
abbrev pub ◌>>=◌ {ℓ κ μ} :
    {E : Type ℓ} {A : Type κ} {B : Type μ} → Outcome E A → (A → Outcome E B) → Outcome E B
ok a >>= f = f a
err e >>= f = err e
panicked >>= f = panicked

abbrev pub ◌>>◌ {ℓ κ} : {E : Type ℓ} {B : Type κ} → Outcome E (Unit {0}) → Outcome E B → Outcome E B
m >> k = m >>= λ _. k

-- The conversion of errors that `?` makes.
abbrev pub map_err {ℓ κ μ} :
    {E : Type ℓ} {F : Type κ} {A : Type μ} → (E → F) → Outcome E A → Outcome F A
map_err f (ok a) = ok a
map_err f (err e) = err (f e)
map_err f panicked = panicked

-- `v[i]`: an index out of bounds panics.
abbrev pub index {ℓ κ} : {E : Type ℓ} {A : Type κ} → List A → ℕ → Outcome E A
index [] i = panicked
index (x ∷ xs) zero = ok x
index (x ∷ xs) (suc i) = index xs i

-- A chain of two calls succeeds only if each of them does.
pub ok_of_bind {ℓ κ μ} :
    {E : Type ℓ} {B : Type κ} {A : Type μ} {last : B} (next : A → Outcome E B) (first : Outcome E A)
    → first >>= next ≡ ok last
    → (between : A) × (first ≡ ok between) × (next between ≡ ok last)
ok_of_bind next panicked both = absurd (cc both)
ok_of_bind next (err why) both = absurd (cc both)
ok_of_bind next (ok between) both = (between, refl, both)

-- A call succeeds with a value that satisfies P, or fails with an error that satisfies Blame, or
-- panics, which requires Broken.
abbrev pub Ends : {E A : Type 0} → (E → Type 0) → Type 0 → (A → Type 0) → Outcome E A → Type 0
Ends Blame Broken P (ok a) = P a
Ends Blame Broken P (err e) = Blame e
Ends Blame Broken P panicked = Broken

pub Ends_weaken :
    {E A : Type 0} (B B' : E → Type 0) (K K' : Type 0) (P : A → Type 0) (o : Outcome E A)
    → ((e : E) → B e → B' e)
    → (K → K')
    → Ends B K P o
    → Ends B' K' P o
Ends_weaken B B' K K' P (ok a) f g v = v
Ends_weaken B B' K K' P (err e) f g v = f e v
Ends_weaken B B' K K' P panicked f g v = g v

pub Ends_bind :
    {E A C : Type 0} (B : E → Type 0) (K : Type 0) (P : A → Type 0) (Q : C → Type 0)
    (o : Outcome E A) (f : A → Outcome E C)
    → Ends B K P o
    → ((a : A) → P a → Ends B K Q (f a))
    → Ends B K Q (o >>= f)
Ends_bind B K P Q (ok a) f v w = w a v
Ends_bind B K P Q (err e) f v w = v
Ends_bind B K P Q panicked f v w = v

pub Ends_imp :
    {E A : Type 0} (B : E → Type 0) (K : Type 0) (P Q : A → Type 0) (o : Outcome E A)
    → ((a : A) → P a → Q a)
    → Ends B K P o
    → Ends B K Q o
Ends_imp B K P Q (ok a) f v = f a v
Ends_imp B K P Q (err e) f v = v
Ends_imp B K P Q panicked f v = v
