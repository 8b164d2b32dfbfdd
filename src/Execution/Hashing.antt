-- ===== src/Execution/Hashing.antt =====
-- `Keccak` and `Sha256ProcessBlock` of crates/starknet-os/src/execution/syscall_handler.rs. The
-- permutation of the keccak package and the compression of sha2 are parameters.
use Prim.Native.Nat.{bit_xor}
use snos.Base.{
  ℕ, zero, suc, ◌+◌, ◌*◌, ◌/◌, ◌%◌, ◌^◌, Bool, ◌==◌, ltb, if◌then◌else◌, Option, none, some, List,
  [], ◌∷◌, length, take, drop, replicate,
}
use snos.Base.Outcome.{ok, err, panicked}
use snos.Execution.Vm.{VirtualMachine}
use snos.Execution.Exec.{
  invalid_syscall_input, syscall_error, out_of_gas, SyscallResult, Call, pure, fail, lift, ◌>>=◌,
  ◌>>◌, spend,
}
use snos.Execution.Syscall.{SyscallHandler, to_u64}
use snos.Execution.State.{
  Packages, SyscallHelper, reads_helper, set_helper, reads_vm, memory_segment, load,
}
use snos.Execution.Requests.{read_two_pointers, write_two_felts, write_pointer}

abbrev pub keccak_full_rate_in_u64s : ℕ
keccak_full_rate_in_u64s = 17

abbrev pub keccak_round_cost_gas_cost : ℕ
keccak_round_cost_gas_cost = 180000

-- The text "Invalid input length" as a felt.
abbrev pub invalid_input_length_error : ℕ
invalid_input_length_error = 0x496e76616c696420696e707574206c656e677468

abbrev pub sha256_block_size : ℕ
sha256_block_size = 16

abbrev pub sha256_state_size : ℕ
sha256_state_size = 8

-- `keccak::f1600` on 25 words, and `sha2::compress256` on 8 words and the bytes of a block.
pub record Hashes : Type 0 where
  pub f1600 : List ℕ → List ℕ
  pub compress256 : List ℕ → List ℕ → List ℕ

abbrev absorbed : ℕ → ℕ → Option ℕ → SyscallResult (List ℕ) → SyscallResult (List ℕ)
absorbed word felt none rest = err (invalid_syscall_input felt)
absorbed word felt (some n) (ok state) = ok (bit_xor word n ∷ state)
absorbed word felt (some n) (err e) = err e
absorbed word felt (some n) panicked = panicked

-- The loop over a chunk; `state[i]` panics where there is no such word.
unfoldable pub absorb : List ℕ → List ℕ → SyscallResult (List ℕ)
absorb state [] = ok state
absorb [] (felt ∷ chunk) = panicked
absorb (word ∷ state) (felt ∷ chunk) = absorbed word felt (to_u64 felt) (absorb state chunk)

-- The loop over so many chunks of 17 felts, of which the last one may be shorter.
unfoldable pub absorb_chunks : (List ℕ → List ℕ) → ℕ → List ℕ → List ℕ → SyscallResult (List ℕ)
absorb_chunks f1600 zero state felts = ok state
absorb_chunks f1600 (suc chunks) state felts =
    elim (absorb state (take keccak_full_rate_in_u64s felts)) [
      | ok state' ↦ absorb_chunks f1600 chunks (f1600 state') (drop keccak_full_rate_in_u64s felts)
      | err e ↦ err e
      | panicked ↦ panicked
    ]

unfoldable pub hash_words : List ℕ → SyscallResult (ℕ × ℕ)
hash_words (a ∷ b ∷ c ∷ d ∷ state) = ok (b * 2 ^ 64 + a, d * 2 ^ 64 + c)
hash_words state = panicked

abbrev pushed : ℕ → SyscallResult (List ℕ) → SyscallResult (List ℕ)
pushed word (ok words) = ok (word ∷ words)
pushed word (err e) = err e
pushed word panicked = panicked

-- `to_u32().expect(..)` of each felt
unfoldable pub all_u32 : List ℕ → SyscallResult (List ℕ)
all_u32 [] = ok []
all_u32 (felt ∷ felts) = if ltb felt (2 ^ 32) then pushed felt (all_u32 felts) else panicked

-- `to_be_bytes` of each word
unfoldable pub be_bytes : List ℕ → List ℕ
be_bytes [] = []
be_bytes (n ∷ words) =
    (n / 2 ^ 24) % 256 ∷ (n / 2 ^ 16) % 256 ∷ (n / 2 ^ 8) % 256 ∷ n % 256 ∷ be_bytes words

abbrev pub segment_or : {Ptr : Type 0} → Ptr → Option Ptr → Ptr
segment_or fresh none = fresh
segment_or fresh (some segment) = segment

module _ {Vm S : Type 0} where
  abbrev pub expect_that : Bool → Call Vm S (Unit {0})
  expect_that holds s = if holds then (ok tt, s) else (panicked, s)

  abbrev pub out_of_gas_or : ℕ → Call Vm S (ℕ × ℕ) → Call Vm S (ℕ × ℕ)
  out_of_gas_or gas_cost rest s =
      if ltb s.remaining_gas gas_cost then (err (out_of_gas s.remaining_gas), s) else rest s

  module _ {Ptr : Type 0} (v : VirtualMachine Vm Ptr) (hashes : Hashes) where
    -- The part of `KeccakHandler::execute` behind the check of the length.
    unfoldable pub keccak_rounds : Ptr → ℕ → ℕ → Call Vm S (ℕ × ℕ)
    keccak_rounds input_start input_len gas_cost = do
      spend gas_cost
      felts ← reads_vm v (λ m. v.get_integer_range m input_start input_len)
      state ← lift (
          absorb_chunks hashes.f1600 ((length felts + 16) / keccak_full_rate_in_u64s)
            (replicate 25 0) felts)
      lift (hash_words state)

    unfoldable pub execute_keccak : Ptr × Ptr → Call Vm S (ℕ × ℕ)
    execute_keccak (input_start, input_end) = do
      input_len ← reads_vm v (λ m. v.sub input_end input_start)
      let gas_cost = (input_len / keccak_full_rate_in_u64s * keccak_round_cost_gas_cost) % 2 ^ 64
      (if input_len % keccak_full_rate_in_u64s == 0
          then out_of_gas_or gas_cost (keccak_rounds input_start input_len gas_cost)
          else fail (syscall_error (invalid_input_length_error ∷ [])))

    abbrev pub keccak_handler : SyscallHandler Vm Ptr S (Ptr × Ptr) (ℕ × ℕ)
    keccak_handler = record {
      read_request = read_two_pointers v;
      execute = execute_keccak;
      write_response = write_two_felts v;
    }

module _ {Vm Ptr : Type 0} {P : Packages} where
  -- The side effect of `Sha256ProcessBlock`.
  unfoldable pub advance_segment : Ptr → Ptr → Call Vm (SyscallHelper Ptr P) Ptr
  advance_segment response end = do
    set_helper (λ h. record h { sha256_segment = some end })
    pure response

-- `unwrap_or` adds a segment also where there is one already.
module _ {Vm Ptr : Type 0} {P : Packages} (v : VirtualMachine Vm Ptr) (hashes : Hashes) where
  unfoldable pub compress : List ℕ → List ℕ → Call Vm (SyscallHelper Ptr P) Ptr
  compress block_words state_words = do
    fresh ← memory_segment v
    segment ← reads_helper (λ h. ok (segment_or fresh h.sha256_segment))
    response ← reads_vm v (λ m. v.add segment 24)
    end ← load v response (hashes.compress256 state_words (be_bytes block_words))
    advance_segment response end

  unfoldable pub execute_sha256_process_block : Ptr × Ptr → Call Vm (SyscallHelper Ptr P) Ptr
  execute_sha256_process_block (state_ptr, input_start) = do
    block ← reads_vm v (λ m. v.get_integer_range m input_start sha256_block_size)
    prev_state ← reads_vm v (λ m. v.get_integer_range m state_ptr sha256_state_size)
    block_words ← lift (all_u32 block)
    expect_that (length block_words == sha256_block_size)
    state_words ← lift (all_u32 (take sha256_state_size prev_state))
    expect_that (length state_words == sha256_state_size)
    compress block_words state_words

  abbrev pub sha256_process_block_handler :
      SyscallHandler Vm Ptr (SyscallHelper Ptr P) (Ptr × Ptr) Ptr
  sha256_process_block_handler = record {
    read_request = read_two_pointers v;
    execute = execute_sha256_process_block;
    write_response = write_pointer v;
  }
