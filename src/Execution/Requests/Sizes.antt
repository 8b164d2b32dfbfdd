-- ===== src/Execution/Requests/Sizes.antt =====
-- How many cells the requests and the responses of
-- crates/starknet-os/src/execution/syscall_handler.rs and secp_handler.rs take.
use snos.Base.{ℕ, ◌+◌, ◌≡◌, sym, ◌∙◌, Bool, ◌==◌, Bool-cases, inl, inr, Option, none, some}
use snos.Base.Outcome.{ok, err, panicked, ◌>>=◌, Ends_imp}
use snos.Execution.Vm.{VirtualMachine, IsWriteOnce}
use snos.Execution.Exec.{SyscallResult}
use snos.Execution.Syscall.{felt_from_ptr, relocatable_from_ptr, write_felt, advance}
use snos.Execution.Syscall.Response.{
  OkThat, OkThat-bind, vm_ok-OkThat, felt_from_ptr-OkThat, relocatable_from_ptr-OkThat, Wrote,
  Wrote-bind, write_maybe_relocatable-OkThat, write_segment-OkThat,
}
use snos.Execution.Requests.{
  DeployResponse, skip_request, read_block_number, get_block_hash_request_size, read_address_domain,
  read_two_pointers, write_two_felts, write_deploy_response, read_u256, read_new,
  read_get_point_from_x, felt_to_bool, read_mul, write_optional_point, write_u256,
  write_coordinates, pack,
}

anything : {A : Type 0} (o : SyscallResult A) → OkThat (λ _. Unit) o
anything (ok a) = tt
anything (err e) = tt
anything panicked = tt

module _ {Vm Ptr : Type 0} (v : VirtualMachine Vm Ptr) where
  -- So many cells are read.
  abbrev pub Reads : {A : Type 0} → Ptr → ℕ → SyscallResult (A × Ptr) → Type 0
  Reads {A} p n o = OkThat (λ (r : A × Ptr). v.add p n ≡ some r.1) o

  advance-OkThat : (p : Ptr) (n : ℕ) → OkThat (λ q. v.add p n ≡ some q) (advance v p n)
  advance-OkThat p n = vm_ok-OkThat (v.add p n)

  pub felt-Reads : (m : Vm) (p : Ptr) → Reads p 1 (felt_from_ptr v m p)
  felt-Reads m p =
      Ends_imp (λ _. Unit) Unit
        (λ (r : ℕ × Ptr). (v.get_integer m p ≡ some r.0) × (v.add p 1 ≡ some r.1))
        (λ (r : ℕ × Ptr). v.add p 1 ≡ some r.1) _ (λ r h. h.1) (felt_from_ptr-OkThat v m p)

  pub pointer-Reads : (m : Vm) (p : Ptr) → Reads p 1 (relocatable_from_ptr v m p)
  pointer-Reads m p =
      Ends_imp (λ _. Unit) Unit
        (λ (r : Ptr × Ptr). (v.get_relocatable m p ≡ some r.0) × (v.add p 1 ≡ some r.1))
        (λ (r : Ptr × Ptr). v.add p 1 ≡ some r.1) _ (λ r h. h.1) (relocatable_from_ptr-OkThat v m p)

  Reads-ok :
      {A B : Type 0} (p : Ptr) (n : ℕ) (o : SyscallResult (A × Ptr)) (g : A → B)
      → Reads p n o
      → Reads p n (o >>= λ r. ok (g r.0, r.1))
  Reads-ok {A} {B} p n o g h =
      OkThat-bind (λ (r : A × Ptr). v.add p n ≡ some r.1) (λ (r : B × Ptr). v.add p n ≡ some r.1) o
        _ h (λ r e. e)

  pub skip_request-Reads : (n : ℕ) (m : Vm) (p : Ptr) → Reads p n (skip_request v n m p)
  unfolding skip_request
  skip_request-Reads n m p =
      OkThat-bind (λ q. v.add p n ≡ some q) _ (advance v p n) _ (advance-OkThat p n) (λ q e. e)

  pub read_block_number-Reads :
      (m : Vm) (p : Ptr) → Reads p get_block_hash_request_size (read_block_number v m p)
  unfolding read_block_number
  read_block_number-Reads m p =
      OkThat-bind (λ n. v.get_integer m p ≡ some n) (λ (r : ℕ × Ptr). v.add p 1 ≡ some r.1) _ _
        (vm_ok-OkThat (v.get_integer m p))
        (λ n e.
          OkThat-bind (λ q. v.add p 1 ≡ some q) (λ (r : ℕ × Ptr). v.add p 1 ≡ some r.1) _ _
            (advance-OkThat p 1) (λ q f. f))

  pub read_address_domain-Reads :
      (n : ℕ) (m : Vm) (p : Ptr) → Reads p n (read_address_domain v n m p)
  unfolding read_address_domain
  read_address_domain-Reads n m p =
      OkThat-bind (λ d. v.get_integer m p ≡ some d) (λ (r : Unit {0} × Ptr). v.add p n ≡ some r.1) _
        _ (vm_ok-OkThat (v.get_integer m p))
        (λ d e. elim (Bool-cases (d == 0)) [
          | inl zero ↦ rw zero (skip_request-Reads n m p)
          | inr other ↦ rw other tt
        ])

  module _ (w : IsWriteOnce v) where
    Reads-bind :
        {A B : Type 0} (p : Ptr) (a b : ℕ) (o : SyscallResult (A × Ptr))
        (f : A × Ptr → SyscallResult (B × Ptr))
        → Reads p a o
        → ((r : A × Ptr) → Reads r.1 b (f r))
        → Reads p (a + b) (o >>= f)
    Reads-bind {A} {B} p a b o f h k =
        OkThat-bind (λ (r : A × Ptr). v.add p a ≡ some r.1)
          (λ (s : B × Ptr). v.add p (a + b) ≡ some s.1) o f h
          (λ r e.
            Ends_imp (λ _. Unit) Unit (λ (s : B × Ptr). v.add r.1 b ≡ some s.1)
              (λ (s : B × Ptr). v.add p (a + b) ≡ some s.1) _ (λ s g. sym (w.add_add a b e) ∙ g)
              (k r))

    pub read_two_pointers-Reads : (m : Vm) (p : Ptr) → Reads p 2 (read_two_pointers v m p)
    unfolding read_two_pointers
    read_two_pointers-Reads m p =
        Reads-bind p 1 1 _ _ (pointer-Reads m p)
          (λ r. Reads-ok r.1 1 _ (λ second. (r.0, second)) (pointer-Reads m r.1))

    read_u256-Reads : (m : Vm) (p : Ptr) → Reads p 2 (read_u256 v m p)
    unfolding read_u256
    read_u256-Reads m p =
        Reads-bind p 1 1 _ _ (felt-Reads m p) (λ r. Reads-ok r.1 1 _ (pack r.0) (felt-Reads m r.1))

    pub read_new-Reads : (m : Vm) (p : Ptr) → Reads p 4 (read_new v m p)
    unfolding read_new
    read_new-Reads m p =
        Reads-bind p 2 2 _ _ (read_u256-Reads m p)
          (λ r. Reads-ok r.1 2 _ (λ y. (r.0, y)) (read_u256-Reads m r.1))

    pub read_mul-Reads : (m : Vm) (p : Ptr) → Reads p 3 (read_mul v m p)
    unfolding read_mul
    read_mul-Reads m p =
        Reads-bind p 1 2 _ _ (pointer-Reads m p)
          (λ r. Reads-ok r.1 2 _ (λ scalar. (r.0, scalar)) (read_u256-Reads m r.1))

    pub read_get_point_from_x-Reads : (m : Vm) (p : Ptr) → Reads p 3 (read_get_point_from_x v m p)
    unfolding read_get_point_from_x
    read_get_point_from_x-Reads m p = Reads-bind p 2 1 _ _ (read_u256-Reads m p) (λ r.
        OkThat-bind (λ (s : ℕ × Ptr). v.add r.1 1 ≡ some s.1)
          (λ (s : (ℕ × Bool) × Ptr). v.add r.1 1 ≡ some s.1) _ _ (felt-Reads m r.1)
          (λ s e.
            OkThat-bind (λ _. Unit) (λ (t : (ℕ × Bool) × Ptr). v.add r.1 1 ≡ some t.1)
              (felt_to_bool s.0) _ (anything (felt_to_bool s.0)) (λ parity u. e)))

    abbrev pub Writes : Vm → Ptr → ℕ → SyscallResult (Vm × Ptr) → Type 0
    Writes m p n o = OkThat (Wrote v m p n) o

    value-Writes : (n : ℕ) (m : Vm) (p : Ptr) → Writes m p 1 (write_felt v n m p)
    value-Writes n m p = write_maybe_relocatable-OkThat v w _ m p

    pub write_two_felts-Writes :
        (pair : ℕ × ℕ) (m : Vm) (p : Ptr) → Writes m p 2 (write_two_felts v pair m p)
    unfolding write_two_felts
    write_two_felts-Writes (low, high) m p =
        Wrote-bind v w m p 1 1 _ _ (value-Writes low m p) (λ r. value-Writes high r.0 r.1)

    pub write_deploy_response-Writes :
        (response : DeployResponse Ptr) (m : Vm) (p : Ptr)
        → Writes m p 3 (write_deploy_response v response m p)
    unfolding write_deploy_response
    write_deploy_response-Writes response m p =
        Wrote-bind v w m p 1 2 _ _ (value-Writes response.contract_address m p) (λ r.
          elim (Bool-cases response.need_retdata_hack) [
            | inl hack ↦ rw hack (write_two_felts-Writes (0, 0) r.0 r.1)
            | inr segment ↦
                rw segment (write_segment-OkThat v w response.constructor_retdata r.0 r.1)
          ])

    pub write_optional_point-Writes :
        (id : Option Ptr) (m : Vm) (p : Ptr) → Writes m p 2 (write_optional_point v id m p)
    unfolding write_optional_point
    write_optional_point-Writes (some id) m p =
        Wrote-bind v w m p 1 1 _ _ (value-Writes 0 m p)
          (λ r. write_maybe_relocatable-OkThat v w _ r.0 r.1)
    write_optional_point-Writes none m p =
        Wrote-bind v w m p 1 1 _ _ (value-Writes 1 m p) (λ r. value-Writes 0 r.0 r.1)

    write_u256-Writes : (n : ℕ) (m : Vm) (p : Ptr) → Writes m p 2 (write_u256 v n m p)
    unfolding write_u256
    write_u256-Writes n m p =
        Wrote-bind v w m p 1 1 _ _ (value-Writes _ m p) (λ r. value-Writes _ r.0 r.1)

    pub write_coordinates-Writes :
        (point : ℕ × ℕ) (m : Vm) (p : Ptr) → Writes m p 4 (write_coordinates v point m p)
    unfolding write_coordinates
    write_coordinates-Writes (x, y) m p =
        Wrote-bind v w m p 2 2 _ _ (write_u256-Writes x m p) (λ r. write_u256-Writes y r.0 r.1)
