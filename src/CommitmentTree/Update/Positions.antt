-- ===== src/CommitmentTree/Update/Positions.antt =====
-- The indices of
-- crates/starknet-os/src/starkware_utils/commitment_tree/update_tree.rs: the root has index 1, and
-- the children of index i are i * 2 and i * 2 + 1.
use native.Mathlib.Nat.{div-div-eq-div-mul, pow-suc, div-le_self}
use snos.Base.{
  ℕ, zero, suc, ◌+◌, ◌-◌, ◌*◌, ◌/◌, ◌^◌, ◌≤◌, ◌<◌, ◌≡◌, refl, ◌∙◌, arith, ◌⊎◌, inl, inr,
}
use snos.Base.Pow.{pow_add}

-- Index k lies in the subtree of index i.
pub data Below (i k : ℕ) : Type 0 where
  at_depth : (d : ℕ) → k / 2 ^ d ≡ i → Below i k

pub Below-self : (i : ℕ) → Below i i
Below-self i = at_depth 0 (omega arith)

halve : (k d i : ℕ) → k / 2 ^ d ≡ i → k / 2 ^ (d + 1) ≡ i / 2
halve k d i e =
    let size : 2 ^ (d + 1) ≡ 2 ^ d * 2 = pow_add d 1 in
    rw (size, ← div-div-eq-div-mul k (2 ^ d) 2, e) refl

pub Below-left : (i k : ℕ) → Below (i * 2) k → Below i k
Below-left i k (at_depth d e) =
    let half : i * 2 / 2 ≡ i = omega arith in at_depth (d + 1) (halve k d (i * 2) e ∙ half)

pub Below-right : (i k : ℕ) → Below (i * 2 + 1) k → Below i k
Below-right i k (at_depth d e) =
    let half : (i * 2 + 1) / 2 ≡ i = omega arith in
    at_depth (d + 1) (halve k d (i * 2 + 1) e ∙ half)

-- An index that is not 0 is not below a larger one, and none is below 0 but at depths.
small : (i k d : ℕ) → i < k → i / 2 ^ d ≡ k → ⊥
small i k d lt e = omega (arith, div-le_self i (2 ^ d))

pub root-not-Below_left : (i : ℕ) → 0 < i → Below (i * 2) i → ⊥
root-not-Below_left i pos (at_depth d e) = small i (i * 2) d (omega arith) e

pub root-not-Below_right : (i : ℕ) → 0 < i → Below (i * 2 + 1) i → ⊥
root-not-Below_right i pos (at_depth d e) = small i (i * 2 + 1) d (omega arith) e

pub zero-not-Below : Below 1 0 → ⊥
zero-not-Below (at_depth d e) = small 0 1 d (omega arith) e

-- Two depths of one index: the higher ancestor is an ancestor of the lower one.
above : (k d n : ℕ) → k / 2 ^ (d + n) ≡ k / 2 ^ d / 2 ^ n
above k d n = rw (pow_add d n, ← div-div-eq-div-mul k (2 ^ d) (2 ^ n)) refl

-- No index is below two siblings.
pub left-not_right : (i k : ℕ) → 0 < i → Below (i * 2) k → Below (i * 2 + 1) k → ⊥
left-not_right i k pos (at_depth a ea) (at_depth b eb) = elim (order a b) [
  | inl le ↦
      let e : a + (b - a) ≡ b = omega arith in
      let up : k / 2 ^ b ≡ i * 2 / 2 ^ (b - a) = rw e at (rw ea at (above k a (b - a))) in
      omega (arith, div-le_self (i * 2) (2 ^ (b - a)))
  | inr lt ↦
      let n = a - b - 1 in
      let e : b + (1 + n) ≡ a = omega arith in
      let up : k / 2 ^ a ≡ (i * 2 + 1) / 2 ^ (1 + n) = rw e at (rw eb at (above k b (1 + n))) in
      let half : (i * 2 + 1) / 2 ^ (1 + n) ≡ i / 2 ^ n =
        above (i * 2 + 1) 1 n ∙ (let h : (i * 2 + 1) / 2 ^ 1 ≡ i = omega arith in rw h refl) in
      omega (arith, div-le_self i (2 ^ n))
]
  where
    order : (a b : ℕ) → (a ≤ b) ⊎ (b < a)
    order a b = omega arith

-- Fuel that bounds the depth of an index is not used up.
pub positive : (i f : ℕ) → 0 < i → i < 2 ^ f → 0 < f
positive i zero pos lt = absurd (omega arith)
positive i (suc f) pos lt = omega arith

pub index_bound : (n : ℕ) → n < 2 ^ suc n
index_bound zero = omega arith
index_bound (suc n) = omega (arith, index_bound n, pow-suc 2 (suc n))
