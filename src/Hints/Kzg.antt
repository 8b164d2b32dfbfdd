-- ===== src/Hints/Kzg.antt =====
-- crates/starknet-os/src/hints/kzg.rs: the blob of a polynomial, and the split of a commitment. The
-- numbers are non-negative, as the coefficients are that the hints read, so that a BigInt is a
-- natural number; the subtraction in the transform adds the prime first. The recursion of
-- `inner_fft` is on fuel, for which the number of coefficients is taken; it would not end for no
-- coefficients, which `fft` excludes.
pub mod Sizes
pub mod Blob
pub mod Fft
pub mod Halves
pub mod Reversed
pub mod Evaluations
use snos.Base.{
  ℕ, zero, suc, ◌+◌, ◌-◌, ◌*◌, ◌/◌, ◌%◌, ◌^◌, Bool, true, false, ◌==◌, ltb, leb, if◌then◌else◌,
  List, [], ◌∷◌, ◌++◌, length, take, drop, replicate,
}
use snos.Base.Outcome.{Outcome, ok, err, panicked, ◌>>=◌, index}
use snos.CommitmentTree.Bytes.{Bytes, BigUintBytes}

abbrev pub field_elements_per_blob : ℕ
field_elements_per_blob = 4096

-- `BYTES_PER_FIELD_ELEMENT` of c_kzg
abbrev pub bytes_per_field_element : ℕ
bytes_per_field_element = 32

abbrev pub blob_subgroup_generator : ℕ
blob_subgroup_generator =
    39033254847818212395286706435128746857159659164139250548781411570340225835782

abbrev pub bls_prime : ℕ
bls_prime = 52435875175126190479447740508185965837690552500527637822603658699938581184513

abbrev pub commitment_bits : ℕ
commitment_bits = 384

abbrev pub commitment_bits_midpoint : ℕ
commitment_bits_midpoint = 192

-- The other errors are of parsing constants, and of c_kzg.
pub data FftError : Type 0 where
  too_many_coefficients : FftError

-- `iter().step_by(2)`, and `iter().skip(1).step_by(2)`
unfoldable mutual
  pub evens : List ℕ → List ℕ
  evens [] = []
  evens (x ∷ xs) = x ∷ odds xs

  pub odds : List ℕ → List ℕ
  odds [] = []
  odds (x ∷ xs) = evens xs

-- `group.iter().take(f_odd.len()).zip(f_odd.iter()).map(..)`
unfoldable pub multiply : ℕ → List ℕ → List ℕ → List ℕ
multiply prime [] f_odd = []
multiply prime (g ∷ group) [] = []
multiply prime (g ∷ group) (f ∷ f_odd) = (g * f) % prime ∷ multiply prime group f_odd

-- The two loops over `0..f_even.len()`, which index the products.
unfoldable pub sums : ℕ → List ℕ → List ℕ → Outcome FftError (List ℕ)
sums prime [] products = ok []
sums prime (f ∷ f_even) [] = panicked
sums prime (f ∷ f_even) (g ∷ products) = do
  rest ← sums prime f_even products
  ok ((f + g) % prime ∷ rest)

unfoldable pub differences : ℕ → List ℕ → List ℕ → Outcome FftError (List ℕ)
differences prime [] products = ok []
differences prime (f ∷ f_even) [] = panicked
differences prime (f ∷ f_even) (g ∷ products) = do
  rest ← differences prime f_even products
  ok ((f + prime - g) % prime ∷ rest)

unfoldable pub inner_fft : ℕ → List ℕ → List ℕ → ℕ → Outcome FftError (List ℕ)
inner_fft zero coeffs group prime = if length coeffs == 1 then ok coeffs else panicked
inner_fft (suc fuel) coeffs group prime =
    let halves = inner_fft fuel (evens coeffs) (evens group) prime >>= λ f_even.
    inner_fft fuel (odds coeffs) (evens group) prime >>= λ f_odd.
    let group_mul_f_odd = multiply prime group f_odd in
    sums prime f_even group_mul_f_odd >>= λ low.
    differences prime f_even group_mul_f_odd >>= λ high. ok (low ++ high) in
    if length coeffs == 1 then ok coeffs else halves

-- The powers of the generator, from the last one pushed.
unfoldable pub push_powers : ℕ → ℕ → ℕ → ℕ → List ℕ
push_powers zero generator prime last = last ∷ []
push_powers (suc n) generator prime last =
    last ∷ push_powers n generator prime ((last * generator) % prime)

unfoldable pub trailing_zeros : ℕ → ℕ → ℕ
trailing_zeros zero n = 0
trailing_zeros (suc fuel) n =
    let more = suc (trailing_zeros fuel (n / 2)) in if n % 2 == 0 then more else 0

abbrev pub is_power_of_two : ℕ → Bool
is_power_of_two n = n == 2 ^ trailing_zeros n n

-- The binary digits of a number of the width, reversed and read.
unfoldable pub reverse_bits : ℕ → ℕ → ℕ
reverse_bits zero i = 0
reverse_bits (suc width) i = (i % 2) * 2 ^ width + reverse_bits width (i / 2)

-- `(0..coeffs_len)`, from an index on.
abbrev pub range_from : ℕ → ℕ → List ℕ
range_from i zero = []
range_from i (suc n) = i ∷ range_from (suc i) n

unfoldable pub permute : ℕ → List ℕ → List ℕ → Outcome FftError (List ℕ)
permute width values [] = ok []
permute width values (i ∷ indices) = do
  value ← index values (reverse_bits width i)
  rest ← permute width values indices
  ok (value ∷ rest)

unfoldable pub fft : List ℕ → ℕ → ℕ → Bool → Outcome FftError (List ℕ)
fft [] generator prime bit_reversed = ok []
fft (x ∷ xs) generator prime bit_reversed =
    let coeffs_len = length (x ∷ xs) in
    let group = push_powers (coeffs_len - 1) generator prime 1 in
    let width = trailing_zeros coeffs_len coeffs_len in
    let transformed = inner_fft coeffs_len (x ∷ xs) group prime >>= λ values.
    if bit_reversed then permute width values (range_from 0 coeffs_len) else ok values in
    if is_power_of_two coeffs_len then transformed else panicked

-- low and high
unfoldable pub split_commitment : ℕ → ℕ × ℕ
split_commitment num =
    let n = num % 2 ^ commitment_bits in
    (n % 2 ^ commitment_bits_midpoint, n / 2 ^ commitment_bits_midpoint)

module _ (b : BigUintBytes) where
  -- `saturating_sub` is the subtraction of ℕ.
  unfoldable pub to_bytes : ℕ → ℕ → Bytes
  to_bytes x size = let bytes = b.to_bytes_be x in replicate (size - length bytes) 0 ++ bytes

  abbrev pub all_bytes : List ℕ → Bytes
  all_bytes [] = []
  all_bytes (x ∷ blob) = to_bytes x bytes_per_field_element ++ all_bytes blob

  unfoldable pub serialize_blob : List ℕ → Outcome FftError Bytes
  serialize_blob blob =
      if length blob == field_elements_per_blob then ok (all_bytes blob) else panicked

  -- `padded_coefficients.resize(FIELD_ELEMENTS_PER_BLOB, zero)`, of at most as many.
  abbrev pub pad : List ℕ → List ℕ
  pad coefficients = coefficients ++ replicate (field_elements_per_blob - length coefficients) 0

  unfoldable pub polynomial_coefficients_to_blob : List ℕ → Outcome FftError Bytes
  polynomial_coefficients_to_blob coefficients =
      let transformed = fft (pad coefficients) blob_subgroup_generator bls_prime true in
      if ltb field_elements_per_blob (length coefficients)
      then err too_many_coefficients
      else transformed >>= serialize_blob
