-- ===== src/Execution/Selector/Names.antt =====
-- Which bytes the match of crates/starknet-os/src/execution/syscall_handler_utils.rs takes for which
-- selector.
use snos.Base.{List, [], ◌∷◌, ◌≡◌, refl, ◌↔◌, Bool-cases, inl, inr}
use snos.Base.Outcome.{ok}
use snos.CommitmentTree.Bytes.{Bytes, bytes_eq, bytes_eq→eq}
use snos.Execution.Selector.{
  SyscallSelector, selector_name, selectors, remove_leading_zeros, match_selector, try_from,
}

match_selector-name :
    (raw bytes : Bytes) (ss : List SyscallSelector) (s : SyscallSelector)
    → match_selector raw bytes ss ≡ ok s
    → bytes ≡ selector_name s
unfolding match_selector
match_selector-name raw bytes [] s h = absurd (cc h)
match_selector-name raw bytes (t ∷ ts) s h = elim (Bool-cases (bytes_eq bytes (selector_name t))) [
  | inl e ↦
      let here : ok t ≡ ok s = rw e at h in
      let same : t ≡ s = cc here in rw same at (bytes_eq→eq bytes (selector_name t) e)
  | inr e ↦ match_selector-name raw bytes ts s (rw e at h)
]

named : (raw : Bytes) (s : SyscallSelector) → match_selector raw (selector_name s) selectors ≡ ok s
unfolding match_selector bytes_eq
named raw SyscallSelector.call_contract = refl
named raw SyscallSelector.delegate_call = refl
named raw SyscallSelector.delegate_l1_handler = refl
named raw SyscallSelector.deploy = refl
named raw SyscallSelector.emit_event = refl
named raw SyscallSelector.get_block_hash = refl
named raw SyscallSelector.get_block_number = refl
named raw SyscallSelector.get_block_timestamp = refl
named raw SyscallSelector.get_caller_address = refl
named raw SyscallSelector.get_contract_address = refl
named raw SyscallSelector.get_execution_info = refl
named raw SyscallSelector.get_sequencer_address = refl
named raw SyscallSelector.get_tx_info = refl
named raw SyscallSelector.get_tx_signature = refl
named raw SyscallSelector.keccak = refl
named raw SyscallSelector.library_call = refl
named raw SyscallSelector.library_call_l1_handler = refl
named raw SyscallSelector.replace_class = refl
named raw SyscallSelector.sha256_process_block = refl
named raw SyscallSelector.secp256k1_add = refl
named raw SyscallSelector.secp256k1_get_point_from_x = refl
named raw SyscallSelector.secp256k1_get_xy = refl
named raw SyscallSelector.secp256k1_mul = refl
named raw SyscallSelector.secp256k1_new = refl
named raw SyscallSelector.secp256r1_add = refl
named raw SyscallSelector.secp256r1_get_point_from_x = refl
named raw SyscallSelector.secp256r1_get_xy = refl
named raw SyscallSelector.secp256r1_mul = refl
named raw SyscallSelector.secp256r1_new = refl
named raw SyscallSelector.send_message_to_l1 = refl
named raw SyscallSelector.storage_read = refl
named raw SyscallSelector.storage_write = refl

-- A felt is taken for a selector exactly if its bytes, without zeros in front, are the selector's
-- name.
pub try_from_iff :
    (selector_bytes : Bytes) (s : SyscallSelector)
    → (try_from selector_bytes ≡ ok s) ↔ (remove_leading_zeros selector_bytes ≡ selector_name s)
unfolding try_from
try_from_iff selector_bytes s = (
  (λ h. match_selector-name selector_bytes (remove_leading_zeros selector_bytes) selectors s h),
  λ e. rw e (named selector_bytes s),
)
