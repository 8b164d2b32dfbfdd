-- ===== src/Execution/OsSyscallHandler/Points.antt =====
-- The handlers of crates/starknet-os/src/execution/secp_handler.rs only add to the memory and only
-- spend gas, and have the sizes of their layout.
use snos.Base.{ℕ, ◌*◌, ◌/◌, ◌%◌, ◌^◌, Option, none, some}
use snos.Base.Outcome.{ok}
use snos.Execution.Vm.{VirtualMachine, relocatable_value, IsWriteOnce}
use snos.Execution.Exec.{SyscallResult, pure}
use snos.Execution.Syscall.Response.{write_maybe_relocatable-OkThat}
use snos.Execution.Syscall.Handled.{IsSized, Never}
use snos.Execution.Syscall.Frugal.{
  Frugal, Frugal-bind, Frugal-lift, Frugal-reads_helper, Frugal-set_helper, Frugal-on_helper,
  Frugal-reads_vm, Frugal-memory_segment,
}
use snos.Execution.State.{set_helper, memory_segment}
use snos.Execution.Requests.Sizes.{
  read_two_pointers-Reads, read_new-Reads, read_mul-Reads, read_get_point_from_x-Reads,
  pointer-Reads, write_optional_point-Writes, write_coordinates-Writes,
}
use snos.Execution.Secp.{
  SecpHintProcessor, GetSecpSyscallHandler, processed, process, existing, get_segment, new_segment,
  init_segment, get_or_init, point_at, located, execute_secp_new, execute_secp_get_point_from_x,
  execute_secp_mul, execute_secp_add, execute_secp_get_xy, secp_new_handler,
  secp_get_point_from_x_handler, secp_mul_handler, secp_add_handler, secp_get_xy_handler,
  ec_coordinate_size,
}

module _ {Vm Ptr S Processor : Type 0} (lens : GetSecpSyscallHandler S Processor Ptr)
    (v : VirtualMachine Vm Ptr) where
  Frugal-process :
      {A : Type 0} (f : Processor → SyscallResult A × Processor)
      → Frugal v ⊥ (process lens {A = A} f)
  Frugal-process f =
      Frugal-on_helper v ⊥ (λ h. processed lens h (f (lens.get_secp_handler h).processor))

  Frugal-get_segment : Frugal v ⊥ (get_segment lens)
  Frugal-get_segment =
      Frugal-reads_helper v ⊥ (λ h. existing lens (lens.get_secp_handler h).segment)

  Frugal-point_at : (segment : Ptr) (point : ℕ) → Frugal v ⊥ (point_at lens v segment point)
  unfolding point_at
  Frugal-point_at segment point =
      Frugal-reads_vm v ⊥ (λ m. v.add segment ((point * ec_coordinate_size) % 2 ^ 64))

  module _ (w : IsWriteOnce v) where
    Frugal-new_segment : Frugal v ⊥ (new_segment lens v)
    unfolding new_segment
    Frugal-new_segment =
        Frugal-bind v ⊥ (memory_segment v) _ (Frugal-memory_segment v ⊥ w) (λ segment.
          let initialised : S → S = λ h.
            lens.set_secp_handler (record (lens.get_secp_handler h) { segment = some segment }) h in
          Frugal-bind v ⊥ (set_helper initialised) (λ _. pure segment)
            (Frugal-set_helper v ⊥ initialised) (λ u. Frugal-lift v ⊥ (ok segment)))

    Frugal-init_segment : (o : Option Ptr) → Frugal v ⊥ (init_segment lens v o)
    Frugal-init_segment none = Frugal-new_segment
    Frugal-init_segment (some segment) = Frugal-lift v ⊥ (ok segment)

    Frugal-get_or_init : Frugal v ⊥ (get_or_init lens v)
    unfolding get_or_init
    Frugal-get_or_init s = Frugal-init_segment (lens.get_secp_handler s.helper).segment s

    Frugal-located : (point : Option ℕ) → Frugal v ⊥ (located lens v point)
    Frugal-located none = Frugal-lift v ⊥ {A = Option Ptr} (ok none)
    Frugal-located (some point) =
        Frugal-bind v ⊥ (get_or_init lens v) _ Frugal-get_or_init (λ segment.
          Frugal-bind v ⊥ (point_at lens v segment point) _ (Frugal-point_at segment point)
            (λ ptr. Frugal-lift v ⊥ {A = Option Ptr} (ok (some ptr))))

    module _ (secp : SecpHintProcessor Processor) where
      pub secp_new_handler-IsSized : IsSized v Never (secp_new_handler lens v secp) 4 2
      unfolding execute_secp_new
      secp_new_handler-IsSized = record {
        reads = read_new-Reads v w;
        spends = λ request.
            Frugal-bind v ⊥ (process lens (secp.secp_new request)) _
              (Frugal-process (secp.secp_new request)) Frugal-located;
        writes = write_optional_point-Writes v w;
      }

      pub secp_get_point_from_x_handler-IsSized :
          IsSized v Never (secp_get_point_from_x_handler lens v secp) 3 2
      unfolding execute_secp_get_point_from_x
      secp_get_point_from_x_handler-IsSized = record {
        reads = read_get_point_from_x-Reads v w;
        spends = λ request.
            Frugal-bind v ⊥ (process lens (secp.secp_get_point_from_x request)) _
              (Frugal-process (secp.secp_get_point_from_x request)) Frugal-located;
        writes = write_optional_point-Writes v w;
      }

      pub secp_mul_handler-IsSized : IsSized v Never (secp_mul_handler lens v secp) 3 1
      unfolding execute_secp_mul
      secp_mul_handler-IsSized = record {
        reads = read_mul-Reads v w;
        spends = λ request.
            let multiplied = secp.secp_mul (v.offset request.0 / ec_coordinate_size) request.1 in
            Frugal-bind v ⊥ (get_segment lens) _ Frugal-get_segment (λ segment.
              Frugal-bind v ⊥ (process lens multiplied) _ (Frugal-process multiplied)
                (Frugal-point_at segment));
        writes = λ p. write_maybe_relocatable-OkThat v w (relocatable_value p);
      }

      pub secp_add_handler-IsSized : IsSized v Never (secp_add_handler lens v secp) 2 1
      unfolding execute_secp_add
      secp_add_handler-IsSized = record {
        reads = read_two_pointers-Reads v w;
        spends = λ request.
            let added =
              secp.secp_add (v.offset request.0 / ec_coordinate_size)
                (v.offset request.1 / ec_coordinate_size) in
            Frugal-bind v ⊥ (process lens added) _ (Frugal-process added) (λ point.
              Frugal-bind v ⊥ (get_segment lens) _ Frugal-get_segment
                (λ segment. Frugal-point_at segment point));
        writes = λ p. write_maybe_relocatable-OkThat v w (relocatable_value p);
      }

      pub secp_get_xy_handler-IsSized : IsSized v Never (secp_get_xy_handler lens v secp) 1 4
      unfolding execute_secp_get_xy
      secp_get_xy_handler-IsSized = record {
        reads = pointer-Reads v;
        spends = λ p.
            let found = secp.secp_get_xy (v.offset p / ec_coordinate_size) in
            Frugal-bind v ⊥ (get_segment lens) _ Frugal-get_segment
              (λ segment. Frugal-process found);
        writes = write_coordinates-Writes v w;
      }
