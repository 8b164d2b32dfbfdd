-- ===== src/Examples/Packages.antt =====
-- Instances for tests: numbers as bytes to the base 256, felts as 32 bytes, and a hash function that
-- adds up its arguments.
use native.Mathlib.Nat.{div-add-mod, pow-suc}
use snos.Base.{
  ℕ, zero, suc, ◌+◌, ◌*◌, ◌/◌, ◌%◌, ◌^◌, ◌≤◌, ◌<◌, ◌≡◌, refl, ◌∙◌, ap, true, [], ◌∷◌, ◌++◌, ltb,
  if◌then◌else◌, length, replicate, arith, Bool-cases, inl, inr,
}
use snos.Base.Pow.{div-lt_of_lt-mul}
use snos.CommitmentTree.Bytes.{Bytes, BigUintBytes, Crypto}

-- The number that bytes stand for, after bytes that stand for another.
unfoldable pub number : ℕ → Bytes → ℕ
number before [] = before
number before (x ∷ xs) = number (before * 256 + x) xs

-- The bytes of a number in front of others; as much fuel as the number is enough.
unfoldable pub digits : (fuel n : ℕ) → Bytes → Bytes
digits zero n rest = n ∷ rest
digits (suc fuel) n rest =
    let more = digits fuel (n / 256) (n % 256 ∷ rest) in if ltb n 256 then n ∷ rest else more

pub number-digits : (fuel n : ℕ) (rest : Bytes) → number 0 (digits fuel n rest) ≡ number n rest
unfolding number digits
number-digits zero n rest = let e : 0 * 256 + n ≡ n = omega arith in ap (λ k. number k rest) e
number-digits (suc fuel) n rest =
    let e : 0 * 256 + n ≡ n = omega arith in
    let split : n / 256 * 256 + n % 256 ≡ n = omega (arith, div-add-mod n 256) in
    elim (Bool-cases (ltb n 256)) [
      | inl l ↦ rw l (ap (λ k. number k rest) e)
      | inr g ↦ rw g (number-digits fuel (n / 256) (n % 256 ∷ rest) ∙ ap (λ k. number k rest) split)
    ]

pub length-digits :
    (fuel k n : ℕ) (rest : Bytes)
    → n < 256 ^ suc k
    → length (digits fuel n rest) ≤ suc k + length rest
unfolding digits
length-digits zero k n rest h = omega arith
length-digits (suc fuel) zero n rest h =
    let small : ltb n 256 ≡ true = ground arith in rw small (omega arith)
length-digits (suc fuel) (suc k) n rest h = elim (Bool-cases (ltb n 256)) [
  | inl l ↦ rw l (omega arith)
  | inr g ↦ rw g (
      let less : n / 256 < 256 ^ suc k =
        div-lt_of_lt-mul n (256 ^ suc k) 256 (omega arith) (omega (arith, pow-suc 256 (suc k))) in
      let ih = length-digits fuel k (n / 256) (n % 256 ∷ rest) less in omega (arith, ih))
]

unfoldable pub base_256 : BigUintBytes
unfolding number
base_256 = record {
  to_bytes_be = λ n. digits n n [];
  from_bytes_be = number 0;
  from-to = λ n. number-digits n n [] ∙ refl;
  from-zero = λ bytes. refl;
  length-to = λ n h. omega (arith, length-digits n 31 n [] h);
}

-- A felt below 256 in the last of 32 bytes.
abbrev pub felt_bytes : ℕ → Bytes
felt_bytes felt = replicate 31 0 ++ (felt % 256 ∷ [])

pub felt_bytes-number : (felt : ℕ) → felt < 251 → number 0 (felt_bytes felt) ≡ felt
unfolding number
felt_bytes-number felt h = omega arith

abbrev pub crypto : Crypto
crypto = record {
  biguint = base_256;
  prime = 251;
  felt_from_bytes = number 0;
  felt_to_bytes = felt_bytes;
  hash = λ x y. felt_bytes (number 0 x * 3 + number 0 y + 1);
  length-felt_to_bytes = λ felt. refl;
  length-hash = λ x y. refl;
  felt_to_bytes-zero = refl;
  felt_from-to = felt_bytes-number;
}
