-- ===== src/CommitmentTree/Bytes.antt =====
-- Bytes, hashes (crates/starknet-os-types/src/hash.rs), and the packages that the program takes
-- its big-endian conversions and its hash function from.
use snos.Base.{
  ℕ, zero, suc, ◌-◌, ◌^◌, ◌≤◌, ◌<◌, ◌≡◌, refl, Bool, true, false, List, [], ◌∷◌, ◌++◌, arith, ltb,
  length, replicate, ◌↔◌, ◌∙◌, ◌==◌, if◌then◌else◌,
}
use snos.Base.Outcome.{Outcome, ok, panicked}
use snos.Base.HashMap.{Eq}

abbrev pub Bytes : Type 0
Bytes = List ℕ

-- `HASH_BYTES`
abbrev pub hash_bytes : ℕ
hash_bytes = 32

abbrev pub u64_bound : ℕ
u64_bound = 2 ^ 64

unfoldable pub bytes_eq : Bytes → Bytes → Bool
bytes_eq [] [] = true
bytes_eq [] (y ∷ ys) = false
bytes_eq (x ∷ xs) [] = false
bytes_eq (x ∷ xs) (y ∷ ys) = if x == y then bytes_eq xs ys else false

pub bytes_eq→eq : (xs ys : Bytes) → bytes_eq xs ys ≡ true → xs ≡ ys
unfolding bytes_eq
bytes_eq→eq [] [] h = refl
bytes_eq→eq [] (y ∷ ys) h = cc
bytes_eq→eq (x ∷ xs) [] h = cc
bytes_eq→eq (x ∷ xs) (y ∷ ys) h = ground (arith, bytes_eq→eq xs ys)

pub bytes_eq_self : (xs : Bytes) → bytes_eq xs xs ≡ true
unfolding bytes_eq
bytes_eq_self [] = refl
bytes_eq_self (x ∷ xs) = ground (arith, bytes_eq_self xs)

pub bytes_eq_iff : (xs ys : Bytes) → (bytes_eq xs ys ≡ true) ↔ (xs ≡ ys)
bytes_eq_iff xs ys = (bytes_eq→eq xs ys, λ e. ground (arith, bytes_eq_self xs))

instance abbrev pub bytes_Eq : Eq Bytes
bytes_Eq = record { beq = bytes_eq; beq_iff = bytes_eq_iff }

-- `struct Hash([u8; 32])`: its 32 bytes.
abbrev pub Hash : Type 0
Hash = Bytes

abbrev pub IsHash : Hash → Type 0
IsHash h = length h ≡ hash_bytes

-- `EMPTY_HASH`, `EMPTY_NODE_HASH`
abbrev pub empty_hash : Hash
empty_hash = replicate hash_bytes 0

-- `Hash::from_bytes_be_slice`: zeros in front; more than 32 bytes underflow the start.
unfoldable pub from_bytes_be_slice {ℓ} : {E : Type ℓ} → Bytes → Outcome E Hash
from_bytes_be_slice bytes =
    if ltb hash_bytes (length bytes)
    then panicked
    else ok (replicate (hash_bytes - length bytes) 0 ++ bytes)

pub from_bytes_be_slice_full {ℓ} :
    {E : Type ℓ} (bytes : Bytes)
    → length bytes ≡ hash_bytes
    → from_bytes_be_slice {E = E} bytes ≡ ok bytes
unfolding from_bytes_be_slice
from_bytes_be_slice_full bytes h = rw h

-- num_bigint's `BigUint::to_bytes_be` and `BigUint::from_bytes_be`: the first writes the least
-- number of bytes, the second takes no notice of zeros in front.
pub record BigUintBytes : Type 0 where
  pub to_bytes_be : ℕ → Bytes
  pub from_bytes_be : Bytes → ℕ
  pub from-to : (n : ℕ) → from_bytes_be (to_bytes_be n) ≡ n
  pub from-zero : (bytes : Bytes) → from_bytes_be (0 ∷ bytes) ≡ from_bytes_be bytes
  pub length-to : (n : ℕ) → n < 2 ^ 256 → length (to_bytes_be n) ≤ hash_bytes

pub from_bytes_be-replicate_zero :
    (b : BigUintBytes) (k : ℕ) (bytes : Bytes)
    → b.from_bytes_be (replicate k 0 ++ bytes) ≡ b.from_bytes_be bytes
from_bytes_be-replicate_zero b zero bytes = refl
from_bytes_be-replicate_zero b (suc k) bytes =
    b.from-zero (replicate k 0 ++ bytes) ∙ from_bytes_be-replicate_zero b k bytes

-- `Felt252`'s conversions and its prime, and the two-to-one hash function of the tree
-- (`HashFunctionType::hash`, Pedersen or Poseidon). A felt and a hash have 32 bytes, those of 0 are
-- zeros, and a felt below the prime is read from its bytes.
pub record Crypto : Type 0 where
  pub biguint : BigUintBytes
  pub prime : ℕ
  pub felt_from_bytes : Bytes → ℕ
  pub felt_to_bytes : ℕ → Bytes
  pub hash : Bytes → Bytes → Hash
  pub length-felt_to_bytes : (felt : ℕ) → length (felt_to_bytes felt) ≡ hash_bytes
  pub length-hash : (x y : Bytes) → length (hash x y) ≡ hash_bytes
  pub felt_to_bytes-zero : felt_to_bytes 0 ≡ empty_hash
  pub felt_from-to : (felt : ℕ) → felt < prime → felt_from_bytes (felt_to_bytes felt) ≡ felt
