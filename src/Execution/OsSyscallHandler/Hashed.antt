-- ===== src/Execution/OsSyscallHandler/Hashed.antt =====
-- The handlers of crates/starknet-os/src/execution/syscall_handler.rs that hash only add to the
-- memory and only spend gas, and have the sizes of their layout.
use snos.Base.{
  ℕ, ◌+◌, ◌*◌, ◌/◌, ◌%◌, ◌^◌, ◌≤◌, arith, Bool, true, false, ◌==◌, ltb, Bool-cases, inl, inr,
  Option, some, List, [], ◌∷◌, length, take, replicate,
}
use snos.Base.Outcome.{ok, err}
use snos.Execution.Vm.{VirtualMachine, relocatable_value, IsWriteOnce}
use snos.Execution.Exec.{
  SyscallResult, Exec, Call, Leaves, pure, lift, spend, syscall_error, out_of_gas,
}
use snos.Execution.Syscall.Response.{write_maybe_relocatable-OkThat}
use snos.Execution.Syscall.Handled.{IsSized, Never, Spends}
use snos.Execution.Syscall.Frugal.{
  Frugal, Frugal-bind, Frugal-lift, Frugal-reads_helper, Frugal-set_helper, Frugal-reads_vm,
  spend-Spends, bound, Frugal-memory_segment, Frugal-load,
}
use snos.Execution.State.{
  Packages, SyscallHelper, reads_helper, set_helper, reads_vm, memory_segment, load,
}
use snos.Execution.Requests.Sizes.{read_two_pointers-Reads, write_two_felts-Writes}
use snos.Execution.Hashing.{
  Hashes, keccak_full_rate_in_u64s, keccak_round_cost_gas_cost, invalid_input_length_error,
  sha256_block_size, sha256_state_size, absorb_chunks, hash_words, all_u32, be_bytes, segment_or,
  expect_that, keccak_rounds, out_of_gas_or, execute_keccak, keccak_handler, compress,
  advance_segment, execute_sha256_process_block, sha256_process_block_handler,
}

module _ {Vm S Ptr : Type 0} (v : VirtualMachine Vm Ptr) where
  Frugal-out_of_gas_or :
      (gas_cost : ℕ) (rest : Call Vm S (ℕ × ℕ))
      → ((s : Exec Vm S)
          → gas_cost ≤ s.remaining_gas
          → Leaves (Spends v ⊥ s) (λ _ _. Unit) (rest s))
      → Frugal v ⊥ (out_of_gas_or gas_cost rest)
  Frugal-out_of_gas_or gas_cost rest h s = elim (Bool-cases (ltb s.remaining_gas gas_cost)) [
    | inl less ↦ rw less (Frugal-lift v ⊥ {A = ℕ × ℕ} (err (out_of_gas s.remaining_gas)) s)
    | inr more ↦ rw more (h s (ground arith))
  ]

module _ {Vm S Ptr : Type 0} (v : VirtualMachine Vm Ptr) (hashes : Hashes) where
  keccak_rounds-Spends :
      (start : Ptr) (input_len gas_cost : ℕ) (s : Exec Vm S)
      → gas_cost ≤ s.remaining_gas
      → Leaves
          (Spends v ⊥ s)
          (λ _ _. Unit)
          (keccak_rounds {S = S} v hashes start input_len gas_cost s)
  unfolding keccak_rounds
  keccak_rounds-Spends start input_len gas_cost s enough =
      let input : Vm → Option (List ℕ) = λ m. v.get_integer_range m start input_len in
      bound v ⊥ _ s (spend gas_cost s) (spend-Spends v ⊥ gas_cost s (inl enough)) (λ u.
        Frugal-bind v ⊥ (reads_vm v input) _ (Frugal-reads_vm v ⊥ input) (λ felts.
          let absorbed =
            absorb_chunks hashes.f1600 ((length felts + 16) / keccak_full_rate_in_u64s)
              (replicate 25 0) felts in
          Frugal-bind v ⊥ (lift absorbed) _ (Frugal-lift v ⊥ absorbed)
            (λ state. Frugal-lift v ⊥ (hash_words state))))

  Frugal-execute_keccak :
      (request : Ptr × Ptr) → Frugal v ⊥ (execute_keccak {S = S} v hashes request)
  unfolding execute_keccak
  Frugal-execute_keccak (start, end) =
      let distance : Vm → Option ℕ = λ m. v.sub end start in
      Frugal-bind v ⊥ (reads_vm v distance) _ (Frugal-reads_vm v ⊥ distance) (λ input_len.
        let gas_cost =
          (input_len / keccak_full_rate_in_u64s * keccak_round_cost_gas_cost) % 2 ^ 64 in
        elim (Bool-cases (input_len % keccak_full_rate_in_u64s == 0)) [
          | inl whole ↦ rw whole (
              Frugal-out_of_gas_or v gas_cost (keccak_rounds v hashes start input_len gas_cost)
                (keccak_rounds-Spends start input_len gas_cost))
          | inr partial ↦
              rw partial (
                Frugal-lift v ⊥ {A = ℕ × ℕ} (err (syscall_error (invalid_input_length_error ∷ []))))
        ])

  pub keccak_handler-IsSized :
      (w : IsWriteOnce v) → IsSized v Never (keccak_handler {S = S} v hashes) 2 2
  keccak_handler-IsSized w = record {
    reads = read_two_pointers-Reads v w;
    spends = Frugal-execute_keccak;
    writes = write_two_felts-Writes v w;
  }

module _ {Vm S Ptr : Type 0} (v : VirtualMachine Vm Ptr) where
  Frugal-expect_that : (holds : Bool) → Frugal v ⊥ (expect_that {S = S} holds)
  Frugal-expect_that true s = Frugal-lift v ⊥ (ok tt) s
  Frugal-expect_that false s = tt

module _ {Vm Ptr : Type 0} {P : Packages} (v : VirtualMachine Vm Ptr) (w : IsWriteOnce v)
    (hashes : Hashes) where
  Frugal-advance_segment : (response end : Ptr) → Frugal v ⊥ (advance_segment {P = P} response end)
  unfolding advance_segment
  Frugal-advance_segment response end =
      Frugal-bind v ⊥ (set_helper (λ h. record h { sha256_segment = some end }))
        (λ _. pure response) (Frugal-set_helper v ⊥ (λ h. record h { sha256_segment = some end }))
        (λ _. Frugal-lift v ⊥ (ok response))

  Frugal-compress :
      (block_words state_words : List ℕ)
      → Frugal v ⊥ (compress {P = P} v hashes block_words state_words)
  unfolding compress
  Frugal-compress block_words state_words =
      Frugal-bind v ⊥ (memory_segment v) _ (Frugal-memory_segment v ⊥ w) (λ fresh.
        let chosen : SyscallHelper Ptr P → SyscallResult Ptr =
          λ h. ok (segment_or fresh h.sha256_segment) in
        Frugal-bind v ⊥ (reads_helper chosen) _ (Frugal-reads_helper v ⊥ chosen) (λ segment.
          let out_state : Vm → Option Ptr = λ m. v.add segment 24 in
          Frugal-bind v ⊥ (reads_vm v out_state) _ (Frugal-reads_vm v ⊥ out_state) (λ response.
            let hashed = hashes.compress256 state_words (be_bytes block_words) in
            Frugal-bind v ⊥ (load v response hashed) (advance_segment response)
              (Frugal-load v ⊥ w response hashed) (Frugal-advance_segment response))))

  pub sha256_process_block_handler-IsSized :
      IsSized v Never (sha256_process_block_handler {P = P} v hashes) 2 1
  unfolding execute_sha256_process_block
  sha256_process_block_handler-IsSized = record {
    reads = read_two_pointers-Reads v w;
    spends = λ request.
        let block : Vm → Option (List ℕ) = λ m. v.get_integer_range m request.1 sha256_block_size in
        let state : Vm → Option (List ℕ) = λ m. v.get_integer_range m request.0 sha256_state_size in
        Frugal-bind v ⊥ (reads_vm v block) _ (Frugal-reads_vm v ⊥ block) (λ felts.
          Frugal-bind v ⊥ (reads_vm v state) _ (Frugal-reads_vm v ⊥ state) (λ prev_state.
            Frugal-bind v ⊥ (lift (all_u32 felts)) _ (Frugal-lift v ⊥ (all_u32 felts))
              (λ block_words.
                Frugal-bind v ⊥ (expect_that (length block_words == sha256_block_size)) _
                  (Frugal-expect_that v (length block_words == sha256_block_size))
                  (λ u.
                    let words = all_u32 (take sha256_state_size prev_state) in
                    Frugal-bind v ⊥ (lift words) _ (Frugal-lift v ⊥ words) (λ state_words.
                      Frugal-bind v ⊥ (expect_that (length state_words == sha256_state_size))
                        (λ _. compress v hashes block_words state_words)
                        (Frugal-expect_that v (length state_words == sha256_state_size))
                        (λ u'. Frugal-compress block_words state_words))))));
    writes = λ p. write_maybe_relocatable-OkThat v w (relocatable_value p);
  }
