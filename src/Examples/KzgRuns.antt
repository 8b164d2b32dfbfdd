-- ===== src/Examples/KzgRuns.antt =====
-- Blobs and commitments.
use snos.Base.{ℕ, false, true, refl, arith, ◌+◌, ◌*◌, ◌%◌, ◌^◌, ◌<◌, ◌≡◌, List, [], ◌∷◌}
use snos.Hints.Kzg.{polynomial_coefficients_to_blob, split_commitment, fft, reverse_bits}
use snos.Hints.Kzg.Blob.{
  BlobOutcome, polynomial_coefficients_to_blob-BlobOutcome, split_commitment_lem,
}
use snos.Hints.Kzg.Fft.{Transform, fft-Transform}
use snos.Hints.Kzg.Reversed.{Permuted, fft-Permuted, IsReversed, reverse_bits-IsReversed}
use snos.Hints.Kzg.Evaluations.{EvaluatedBlob, polynomial_coefficients_to_blob-EvaluatedBlob}
use snos.Hints.Kzg.Halves.{by_multiples, Gives}
use snos.Examples.Packages.{base_256}

abbrev coefficients : List ℕ
coefficients = 3 ∷ 0 ∷ 5 ∷ []

polynomial_coefficients_to_blob-BlobOutcome_example :
    BlobOutcome base_256 coefficients (polynomial_coefficients_to_blob base_256 coefficients)
polynomial_coefficients_to_blob-BlobOutcome_example =
    polynomial_coefficients_to_blob-BlobOutcome base_256 coefficients

split_commitment_lem_example :
    ((split_commitment (2 ^ 200)).0 < 2 ^ 192)
    × ((split_commitment (2 ^ 200)).1 < 2 ^ 192)
    × ((split_commitment (2 ^ 200)).0 + (split_commitment (2 ^ 200)).1 * 2 ^ 192
        ≡ 2 ^ 200 % 2 ^ 384)
split_commitment_lem_example = split_commitment_lem (2 ^ 200)

abbrev eight_coefficients : List ℕ
eight_coefficients = 3 ∷ 0 ∷ 5 ∷ 16 ∷ 1 ∷ 1 ∷ 0 ∷ 9 ∷ []

-- 2 ^ 4 is -1 modulo 17.
fft-Transform_example :
    Gives 17 (Transform 17 (omega arith) eight_coefficients 3 2) (fft eight_coefficients 2 17 false)
fft-Transform_example =
    fft-Transform 17 (omega arith) 3 2 eight_coefficients refl (by_multiples 0 1 refl)

fft-Permuted_example :
    Gives 17 (Permuted 17 eight_coefficients 3 2 0 8) (fft eight_coefficients 2 17 true)
fft-Permuted_example =
    fft-Permuted 17 (omega arith) 3 2 eight_coefficients refl (by_multiples 0 1 refl)

reverse_bits-IsReversed_example : IsReversed 12 77 (reverse_bits 12 77)
reverse_bits-IsReversed_example = reverse_bits-IsReversed 12 77 (omega arith)

polynomial_coefficients_to_blob-EvaluatedBlob_example :
    EvaluatedBlob base_256 coefficients (polynomial_coefficients_to_blob base_256 coefficients)
polynomial_coefficients_to_blob-EvaluatedBlob_example =
    polynomial_coefficients_to_blob-EvaluatedBlob base_256 coefficients
