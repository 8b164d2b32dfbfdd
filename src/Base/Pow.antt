-- ===== src/Base/Pow.antt =====
-- Powers of two: shifts and masks as divisions.
use Prim.Native.Nat.{ℕ, zero, suc, ◌+◌, ◌-◌, ◌*◌, ◌/◌, ◌^◌, ◌≤◌, ◌<◌}
use mathlib.Core.Path.{◌≡◌}
use native.Mathlib.Nat.{pow-suc, div-lt_iff_lt-mul}
use native.Mathlib.Omega.{arith}

pub pow_pos : (n : ℕ) → 0 < 2 ^ n
pow_pos zero = omega arith
pow_pos (suc n) = omega (arith, pow-suc 2 n, pow_pos n)

pub pow_double : (n : ℕ) → 2 ^ (n + 1) ≡ 2 * 2 ^ n
pow_double n = let e : n + 1 ≡ suc n = omega arith in rw e (omega (arith, pow-suc 2 n))

pub pow_add : (m n : ℕ) → 2 ^ (m + n) ≡ 2 ^ m * 2 ^ n
pow_add m zero = let e : m + 0 ≡ m = omega arith in rw e (omega arith)
pow_add m (suc n) =
    let e : m + suc n ≡ suc (m + n) = omega arith in
    rw (e, pow-suc 2 (m + n), pow-suc 2 n, pow_add m n) (omega arith)

pub pow_split : (m n : ℕ) → n ≤ m → 2 ^ m ≡ 2 ^ n * 2 ^ (m - n)
pow_split m n h = let e : n + (m - n) ≡ m = omega arith in rw e at (pow_add n (m - n))

-- What lies below q blocks of w is in a block before the q-th.
pub div-lt_of_lt-mul : (i q w : ℕ) → 0 < w → i < q * w → i / w < q
div-lt_of_lt-mul i q w pos h = (div-lt_iff_lt-mul pos).1 h
