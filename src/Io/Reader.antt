-- ===== src/Io/Reader.antt =====
-- A function of crates/starknet-os/src/io/output.rs that takes `&mut impl Iterator<Item = Felt252>`:
-- it reads felts from the front and leaves the rest. `SnOsError::CatchAll` carries a text; its
-- constructors here are the texts that the functions format, with what they print.
-- A felt is the number below the prime that it stands for; a `usize` is a number below 2 ^ 64.
use snos.Base.{
  ℕ, String, ◌^◌, Option, none, some, List, [], ◌∷◌, ◌==◌, ltb, if◌then◌else◌, length, take, drop,
}
use snos.Base.Outcome.{Outcome, ok, err, panicked}

pub data Name : Type 0 where
  name : String → Name
  -- "{name} #{i}"
  name_at : String → ℕ → Name

pub data OutputError : Type 0 where
  -- "Could not read {item_name} field"
  could_not_read : Name → OutputError
  -- "Could not read {item_name} segment size"
  could_not_read_size : String → OutputError
  -- "{item_name} segment size is too large"
  size_too_large : String → OutputError
  -- "Expected {length} {item_name}, could only read {n}"
  expected_items : ℕ → String → ℕ → OutputError

abbrev pub Reader : Type 0 → Type 0
Reader A = List ℕ → Outcome OutputError (A × List ℕ)

abbrev pub pure : {A : Type 0} → A → Reader A
pure a input = ok (a, input)

abbrev pub lift : {A : Type 0} → Outcome OutputError A → Reader A
lift (ok a) input = ok (a, input)
lift (err e) input = err e
lift panicked input = panicked

-- The rest of a block, after the first step.
abbrev pub continue :
    {A B : Type 0}
    → Outcome OutputError (A × List ℕ)
    → (A → Reader B)
    → Outcome OutputError (B × List ℕ)
continue (ok (a, rest)) f = f a rest
continue (err e) f = err e
continue panicked f = panicked

infixl 5 ◌>>=◌ ◌>>◌
abbrev pub ◌>>=◌ : {A B : Type 0} → Reader A → (A → Reader B) → Reader B
◌>>=◌ m f input = continue (m input) f

abbrev pub ◌>>◌ : {A B : Type 0} → Reader A → Reader B → Reader B
m >> k = m >>= λ _. k

abbrev pub run : {A : Type 0} → List ℕ → Reader A → Outcome OutputError (A × List ℕ)
run input m = m input

abbrev pub usize_bound : ℕ
usize_bound = 2 ^ 64

-- `Felt252::to_usize`
abbrev pub to_usize : ℕ → Option ℕ
to_usize n = if ltb n usize_bound then some n else none

unfoldable pub next_or_fail : Name → Reader ℕ
next_or_fail item [] = err (could_not_read item)
next_or_fail item (x ∷ rest) = ok (x, rest)

as_usize : String → ℕ → List ℕ → Outcome OutputError (ℕ × List ℕ)
as_usize item x rest = if ltb x usize_bound then ok (x, rest) else err (size_too_large item)

unfoldable pub next_as_usize : String → Reader ℕ
unfolding as_usize
next_as_usize item [] = err (could_not_read_size item)
next_as_usize item (x ∷ rest) = as_usize item x rest

-- `output_iter.by_ref().take(n).collect()`
abbrev pub take_up_to : ℕ → Reader (List ℕ)
take_up_to n input = ok (take n input, drop n input)

unfoldable pub read_segment : ℕ → String → Reader (List ℕ)
read_segment n item input =
    let segment = take n input in
    if length segment == n
    then ok (segment, drop n input)
    else err (expected_items n item (length segment))
