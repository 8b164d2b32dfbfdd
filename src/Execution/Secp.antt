-- ===== src/Execution/Secp.antt =====
-- crates/starknet-os/src/execution/secp_handler.rs: the system calls on points of an elliptic curve,
-- for the processor of blockifier that holds the points, which is a parameter.
use snos.Base.{ℕ, ◌*◌, ◌/◌, ◌%◌, ◌^◌, Bool, Option, none, some}
use snos.Base.Outcome.{ok, panicked}
use snos.Execution.Vm.{VirtualMachine}
use snos.Execution.Exec.{SyscallResult, Call, pure, ◌>>=◌, ◌>>◌}
use snos.Execution.Syscall.{SyscallHandler, relocatable_from_ptr}
use snos.Execution.State.{
  SecpSyscallProcessor, reads_helper, set_helper, on_helper, reads_vm, memory_segment,
}
use snos.Execution.Requests.{
  read_new, read_get_point_from_x, read_mul, read_two_pointers, write_optional_point, write_pointer,
  write_coordinates,
}

-- `EcCoordinate::cairo_size()`: two points of three felts.
abbrev pub ec_coordinate_size : ℕ
ec_coordinate_size = 6

-- `SecpHintProcessor`: points under numbers. Its errors are as they are converted.
pub record SecpHintProcessor (Processor : Type 0) : Type 0 where
  pub secp_new : ℕ × ℕ → Processor → SyscallResult (Option ℕ) × Processor
  pub secp_get_point_from_x : ℕ × Bool → Processor → SyscallResult (Option ℕ) × Processor
  pub secp_mul : ℕ → ℕ → Processor → SyscallResult ℕ × Processor
  pub secp_add : ℕ → ℕ → Processor → SyscallResult ℕ × Processor
  pub secp_get_xy : ℕ → Processor → SyscallResult (ℕ × ℕ) × Processor

-- `GetSecpSyscallHandler`: the processor of a curve in the helper.
pub record GetSecpSyscallHandler (S Processor Ptr : Type 0) : Type 0 where
  pub get_secp_handler : S → SecpSyscallProcessor Processor Ptr
  pub set_secp_handler : SecpSyscallProcessor Processor Ptr → S → S

module _ {S Processor Ptr : Type 0} (lens : GetSecpSyscallHandler S Processor Ptr) where
  abbrev pub processed : {A : Type 0} → S → SyscallResult A × Processor → SyscallResult A × S
  processed h (o, processor) =
      (o, lens.set_secp_handler (record (lens.get_secp_handler h) { processor = processor }) h)

  abbrev pub process : {A Vm : Type 0} → (Processor → SyscallResult A × Processor) → Call Vm S A
  process f = on_helper (λ h. processed h (f (lens.get_secp_handler h).processor))

  -- `segment.get().unwrap()`
  abbrev pub existing : Option Ptr → SyscallResult Ptr
  existing none = panicked
  existing (some segment) = ok segment

  abbrev pub get_segment : {Vm : Type 0} → Call Vm S Ptr
  get_segment = reads_helper (λ h. existing (lens.get_secp_handler h).segment)

  module _ {Vm : Type 0} (v : VirtualMachine Vm Ptr) where
    unfoldable pub new_segment : Call Vm S Ptr
    new_segment = do
      segment ← memory_segment v
      set_helper (λ h.
          lens.set_secp_handler (record (lens.get_secp_handler h) { segment = some segment }) h)
      pure segment

    abbrev pub init_segment : Option Ptr → Call Vm S Ptr
    init_segment none = new_segment
    init_segment (some segment) = pure segment

    -- `segment.get_or_init(|| vm.add_memory_segment())`
    unfoldable pub get_or_init : Call Vm S Ptr
    get_or_init s = init_segment (lens.get_secp_handler s.helper).segment s

    unfoldable pub point_at : Ptr → ℕ → Call Vm S Ptr
    point_at segment point = reads_vm v (λ m. v.add segment ((point * ec_coordinate_size) % 2 ^ 64))

    abbrev pub located : Option ℕ → Call Vm S (Option Ptr)
    located none = pure none
    located (some point) = do segment ← get_or_init; ptr ← point_at segment point; pure (some ptr)

    module _ (secp : SecpHintProcessor Processor) where
      unfoldable pub execute_secp_new : ℕ × ℕ → Call Vm S (Option Ptr)
      execute_secp_new request = do point ← process (secp.secp_new request); located point

      unfoldable pub execute_secp_get_point_from_x : ℕ × Bool → Call Vm S (Option Ptr)
      execute_secp_get_point_from_x request = do
        point ← process (secp.secp_get_point_from_x request)
        located point

      unfoldable pub execute_secp_mul : Ptr × ℕ → Call Vm S Ptr
      execute_secp_mul (ec_point_id, multiplier) = do
        segment ← get_segment
        point ← process (secp.secp_mul (v.offset ec_point_id / ec_coordinate_size) multiplier)
        point_at segment point

      unfoldable pub execute_secp_add : Ptr × Ptr → Call Vm S Ptr
      execute_secp_add (lhs_id, rhs_id) = do
        point ← process (
            secp.secp_add (v.offset lhs_id / ec_coordinate_size)
              (v.offset rhs_id / ec_coordinate_size))
        segment ← get_segment
        point_at segment point

      unfoldable pub execute_secp_get_xy : Ptr → Call Vm S (ℕ × ℕ)
      execute_secp_get_xy ec_point_id = do
        _ ← get_segment
        process (secp.secp_get_xy (v.offset ec_point_id / ec_coordinate_size))

      abbrev pub secp_new_handler : SyscallHandler Vm Ptr S (ℕ × ℕ) (Option Ptr)
      secp_new_handler = record {
        read_request = read_new v;
        execute = execute_secp_new;
        write_response = write_optional_point v;
      }

      abbrev pub secp_get_point_from_x_handler : SyscallHandler Vm Ptr S (ℕ × Bool) (Option Ptr)
      secp_get_point_from_x_handler = record {
        read_request = read_get_point_from_x v;
        execute = execute_secp_get_point_from_x;
        write_response = write_optional_point v;
      }

      abbrev pub secp_mul_handler : SyscallHandler Vm Ptr S (Ptr × ℕ) Ptr
      secp_mul_handler = record {
        read_request = read_mul v;
        execute = execute_secp_mul;
        write_response = write_pointer v;
      }

      abbrev pub secp_add_handler : SyscallHandler Vm Ptr S (Ptr × Ptr) Ptr
      secp_add_handler = record {
        read_request = read_two_pointers v;
        execute = execute_secp_add;
        write_response = write_pointer v;
      }

      abbrev pub secp_get_xy_handler : SyscallHandler Vm Ptr S Ptr (ℕ × ℕ)
      secp_get_xy_handler = record {
        read_request = relocatable_from_ptr v;
        execute = execute_secp_get_xy;
        write_response = write_coordinates v;
      }
