-- ===== src/Execution/Selector/Felts.antt =====
-- The felts that stand for the system calls, for the match of
-- crates/starknet-os/src/execution/syscall_handler_utils.rs.
use snos.Base.{
  ℕ, zero, suc, ◌+◌, ◌*◌, ◌<◌, ◌≤◌, ◌≡◌, refl, sym, ◌∙◌, ap, arith, Bool, true, false, ltb, ◌==◌,
  if◌then◌else◌, Bool-cases, inl, inr, [], ◌∷◌, All, length, ltb→lt, ◌↔◌,
}
use snos.Base.Outcome.{ok}
use snos.CommitmentTree.Bytes.{Bytes}
use snos.Execution.Selector.{SyscallSelector, selector_name, remove_leading_zeros, try_from}
use snos.Execution.Selector.Names.{try_from_iff}

-- The number with the bytes, the highest first, behind the digits of another number.
abbrev pub be_value : ℕ → Bytes → ℕ
be_value n [] = n
be_value n (x ∷ xs) = be_value (n * 256 + x) xs

-- The felt of a system call, which is its name as a short string.
abbrev pub selector_felt : SyscallSelector → ℕ
selector_felt SyscallSelector.call_contract = 20853273475220472486191784820
selector_felt SyscallSelector.delegate_call = 21167594061783206823196716140
selector_felt SyscallSelector.delegate_l1_handler = 23274015802972845247556842986379118667122
selector_felt SyscallSelector.deploy = 75202468540281
selector_felt SyscallSelector.emit_event = 1280709301550335749748
selector_felt SyscallSelector.get_block_hash = 22096086224907272360718070632
selector_felt SyscallSelector.get_block_number = 1448089106835523001438702345020786
selector_felt SyscallSelector.get_block_timestamp = 24294903732626645868215235778792757751152
selector_felt SyscallSelector.get_caller_address = 94901967781393078444254803017658102643
selector_felt SyscallSelector.get_contract_address = 6219495360805491471215297013070624192820083
selector_felt SyscallSelector.get_execution_info = 94901967946959054011942058057773508207
selector_felt SyscallSelector.get_sequencer_address = 1592190833581991703053805829594610833820054387
selector_felt SyscallSelector.get_tx_info = 1317029390204112103023
selector_felt SyscallSelector.get_tx_signature = 1448089128652340074717162277007973
selector_felt SyscallSelector.keccak = 82898831237483
selector_felt SyscallSelector.library_call = 92376026794327011772951660
selector_felt SyscallSelector.library_call_l1_handler =
    436233452754198157705746250789557519228244616562
selector_felt SyscallSelector.replace_class = 25500403217443378527601783667
selector_felt SyscallSelector.sha256_process_block = 7265838294305583062364681881640435236954987
selector_felt SyscallSelector.secp256k1_add = 25809826906887716310825919588
selector_felt SyscallSelector.secp256k1_get_point_from_x =
    31202166147520941793195011415201397765240582401125720
selector_felt SyscallSelector.secp256k1_get_xy = 1691472816169793376146313253771385
selector_felt SyscallSelector.secp256k1_mul = 25809826906887716310826710380
selector_felt SyscallSelector.secp256k1_new = 25809826906887716310826771831
selector_felt SyscallSelector.secp256r1_add = 25809826906887716340890690660
selector_felt SyscallSelector.secp256r1_get_point_from_x =
    31202166147520941829541089424945191164954056705666392
selector_felt SyscallSelector.secp256r1_get_xy = 1691472816169793378116638090745977
selector_felt SyscallSelector.secp256r1_mul = 25809826906887716340891481452
selector_felt SyscallSelector.secp256r1_new = 25809826906887716340891542903
selector_felt SyscallSelector.send_message_to_l1 = 433017908768303439907196859243777073
selector_felt SyscallSelector.storage_read = 100890693370601760042082660
selector_felt SyscallSelector.storage_write = 25828017502874050592466629733

abbrev AreBytes : Bytes → Type 0
AreBytes bytes = All (λ x. x < 256) bytes

-- No 0 is in front.
abbrev IsStripped : Bytes → Type 0
IsStripped [] = Unit
IsStripped (x ∷ xs) = 0 < x

be_value-strip : (bytes : Bytes) → be_value 0 (remove_leading_zeros bytes) ≡ be_value 0 bytes
unfolding remove_leading_zeros
be_value-strip [] = refl
be_value-strip (x ∷ xs) = elim (Bool-cases (x == 0)) [
  | inl e ↦ let z : x ≡ 0 = ground arith in rw (e, z) (be_value-strip xs)
  | inr e ↦ rw e refl
]

strip-IsStripped :
    (bytes : Bytes)
    → AreBytes bytes
    → AreBytes (remove_leading_zeros bytes) × IsStripped (remove_leading_zeros bytes)
unfolding remove_leading_zeros
strip-IsStripped [] a = (tt, tt)
strip-IsStripped (x ∷ xs) a = elim (Bool-cases (x == 0)) [
  | inl e ↦ rw e (strip-IsStripped xs a.1)
  | inr e ↦ rw e (a, ground arith)
]

same_digits :
    (xs ys : Bytes) (m n : ℕ)
    → AreBytes xs
    → AreBytes ys
    → length xs ≡ length ys
    → be_value m xs ≡ be_value n ys
    → (m ≡ n) × (xs ≡ ys)
same_digits [] [] m n a b e v = (v, refl)
same_digits [] (y ∷ ys) m n a b e v = absurd (omega arith)
same_digits (x ∷ xs) [] m n a b e v = absurd (omega arith)
same_digits (x ∷ xs) (y ∷ ys) m n a b e v =
    let (digits, rest) = same_digits xs ys (m * 256 + x) (n * 256 + y) a.1 b.1 (omega arith) v in
    let lx = a.0 in
    let ly = b.0 in
    let head : x ≡ y = omega (arith, digits, lx, ly) in
    (omega (arith, digits, lx, ly), rw (head, rest) refl)

-- Digits behind a number that is not 0 do not leave 0 in front of fewer digits.
longer :
    (d : ℕ) (xs ys : Bytes) (m n : ℕ)
    → AreBytes xs
    → AreBytes ys
    → length xs ≡ d + length ys
    → be_value m xs ≡ be_value n ys
    → m ≤ n
longer zero xs ys m n a b e v =
    let same = (same_digits xs ys m n a b (omega (arith, e)) v).0 in omega (arith, same)
longer (suc d) [] ys m n a b e v = absurd (omega (arith, e))
longer (suc d) (x ∷ xs) ys m n a b e v =
    let le = longer d xs ys (m * 256 + x) n a.1 b (omega (arith, e)) v in omega (arith, le)

no_longer :
    (d : ℕ) (xs ys : Bytes)
    → AreBytes xs
    → AreBytes ys
    → IsStripped xs
    → length xs ≡ suc d + length ys
    → be_value 0 xs ≡ be_value 0 ys
    → ⊥
no_longer d [] ys a b pos e v = absurd (omega (arith, e))
no_longer d (x ∷ xs) ys a b pos e v =
    let le = longer d xs ys (0 * 256 + x) 0 a.1 b (omega (arith, e)) v in
    absurd (omega (arith, le, pos))

excess : (m n : ℕ) → m < n → (d : ℕ) × (n ≡ suc d + m)
excess zero zero lt = absurd (omega arith)
excess zero (suc n) lt = (n, omega arith)
excess (suc m) zero lt = absurd (omega arith)
excess (suc m) (suc n) lt = let (d, e) = excess m n (omega arith) in (d, omega (arith, e))

stripped_eq :
    (xs ys : Bytes)
    → AreBytes xs
    → AreBytes ys
    → IsStripped xs
    → IsStripped ys
    → be_value 0 xs ≡ be_value 0 ys
    → xs ≡ ys
stripped_eq xs ys a b px py v = elim (Bool-cases (ltb (length xs) (length ys))) [
  | inl less ↦
      let (d, e) = excess (length xs) (length ys) (ltb→lt _ _ less) in
      absurd (no_longer d ys xs b a py e (sym v))
  | inr ge ↦ elim (Bool-cases (ltb (length ys) (length xs))) [
    | inl more ↦
        let (d, e) = excess (length ys) (length xs) (ltb→lt _ _ more) in
        absurd (no_longer d xs ys a b px e v)
    | inr le ↦ (same_digits xs ys 0 0 a b (ground arith) v).1
  ]
]

abbrev small : Bytes → Bool
small [] = true
small (x ∷ xs) = if ltb x 256 then small xs else false

abbrev starts : Bytes → Bool
starts [] = true
starts (x ∷ xs) = ltb 0 x

small-AreBytes : (bytes : Bytes) → small bytes ≡ true → AreBytes bytes
small-AreBytes [] e = tt
small-AreBytes (x ∷ xs) e = elim (Bool-cases (ltb x 256)) [
  | inl l ↦ (ltb→lt x 256 l, small-AreBytes xs (rw l at e))
  | inr l ↦ let no : false ≡ true = rw l at e in absurd (cc no)
]

starts-IsStripped : (bytes : Bytes) → starts bytes ≡ true → IsStripped bytes
starts-IsStripped [] e = tt
starts-IsStripped (x ∷ xs) e = ltb→lt 0 x e

holds_of_test :
    (bytes : Bytes)
    → (if small bytes then starts bytes else false) ≡ true
    → AreBytes bytes × IsStripped bytes
holds_of_test bytes e = elim (Bool-cases (small bytes)) [
  | inl l ↦ (small-AreBytes bytes l, starts-IsStripped bytes (rw l at e))
  | inr l ↦ let no : false ≡ true = rw l at e in absurd (cc no)
]

name_test :
    (s : SyscallSelector)
    → (if small (selector_name s) then starts (selector_name s) else false) ≡ true
name_test SyscallSelector.call_contract = refl
name_test SyscallSelector.delegate_call = refl
name_test SyscallSelector.delegate_l1_handler = refl
name_test SyscallSelector.deploy = refl
name_test SyscallSelector.emit_event = refl
name_test SyscallSelector.get_block_hash = refl
name_test SyscallSelector.get_block_number = refl
name_test SyscallSelector.get_block_timestamp = refl
name_test SyscallSelector.get_caller_address = refl
name_test SyscallSelector.get_contract_address = refl
name_test SyscallSelector.get_execution_info = refl
name_test SyscallSelector.get_sequencer_address = refl
name_test SyscallSelector.get_tx_info = refl
name_test SyscallSelector.get_tx_signature = refl
name_test SyscallSelector.keccak = refl
name_test SyscallSelector.library_call = refl
name_test SyscallSelector.library_call_l1_handler = refl
name_test SyscallSelector.replace_class = refl
name_test SyscallSelector.sha256_process_block = refl
name_test SyscallSelector.secp256k1_add = refl
name_test SyscallSelector.secp256k1_get_point_from_x = refl
name_test SyscallSelector.secp256k1_get_xy = refl
name_test SyscallSelector.secp256k1_mul = refl
name_test SyscallSelector.secp256k1_new = refl
name_test SyscallSelector.secp256r1_add = refl
name_test SyscallSelector.secp256r1_get_point_from_x = refl
name_test SyscallSelector.secp256r1_get_xy = refl
name_test SyscallSelector.secp256r1_mul = refl
name_test SyscallSelector.secp256r1_new = refl
name_test SyscallSelector.send_message_to_l1 = refl
name_test SyscallSelector.storage_read = refl
name_test SyscallSelector.storage_write = refl

name_holds : (s : SyscallSelector) → AreBytes (selector_name s) × IsStripped (selector_name s)
name_holds s = holds_of_test (selector_name s) (name_test s)

value_of_name : (s : SyscallSelector) → be_value 0 (selector_name s) ≡ selector_felt s
value_of_name SyscallSelector.call_contract = refl
value_of_name SyscallSelector.delegate_call = refl
value_of_name SyscallSelector.delegate_l1_handler = refl
value_of_name SyscallSelector.deploy = refl
value_of_name SyscallSelector.emit_event = refl
value_of_name SyscallSelector.get_block_hash = refl
value_of_name SyscallSelector.get_block_number = refl
value_of_name SyscallSelector.get_block_timestamp = refl
value_of_name SyscallSelector.get_caller_address = refl
value_of_name SyscallSelector.get_contract_address = refl
value_of_name SyscallSelector.get_execution_info = refl
value_of_name SyscallSelector.get_sequencer_address = refl
value_of_name SyscallSelector.get_tx_info = refl
value_of_name SyscallSelector.get_tx_signature = refl
value_of_name SyscallSelector.keccak = refl
value_of_name SyscallSelector.library_call = refl
value_of_name SyscallSelector.library_call_l1_handler = refl
value_of_name SyscallSelector.replace_class = refl
value_of_name SyscallSelector.sha256_process_block = refl
value_of_name SyscallSelector.secp256k1_add = refl
value_of_name SyscallSelector.secp256k1_get_point_from_x = refl
value_of_name SyscallSelector.secp256k1_get_xy = refl
value_of_name SyscallSelector.secp256k1_mul = refl
value_of_name SyscallSelector.secp256k1_new = refl
value_of_name SyscallSelector.secp256r1_add = refl
value_of_name SyscallSelector.secp256r1_get_point_from_x = refl
value_of_name SyscallSelector.secp256r1_get_xy = refl
value_of_name SyscallSelector.secp256r1_mul = refl
value_of_name SyscallSelector.secp256r1_new = refl
value_of_name SyscallSelector.send_message_to_l1 = refl
value_of_name SyscallSelector.storage_read = refl
value_of_name SyscallSelector.storage_write = refl

-- Bytes are taken for a system call exactly if they are its felt, with the highest byte first.
pub try_from-felt :
    (selector_bytes : Bytes) (s : SyscallSelector)
    → All (λ x. x < 256) selector_bytes
    → (try_from selector_bytes ≡ ok s) ↔ (be_value 0 selector_bytes ≡ selector_felt s)
try_from-felt selector_bytes s a = (
  (λ h.
      sym (be_value-strip selector_bytes)
      ∙ ap (be_value 0) ((try_from_iff selector_bytes s).0 h)
      ∙ value_of_name s),
  λ e.
      let stripped = strip-IsStripped selector_bytes a in
      let named = name_holds s in
      (try_from_iff selector_bytes s).1 (
        stripped_eq (remove_leading_zeros selector_bytes) (selector_name s) stripped.0 named.0
          stripped.1 named.1 (be_value-strip selector_bytes ∙ e ∙ sym (value_of_name s))),
)
