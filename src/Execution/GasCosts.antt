-- ===== src/Execution/GasCosts.antt =====
-- crates/starknet-os/src/execution/constants.rs: the gas of the system calls.
use snos.Base.{ℕ, ◌+◌, ◌*◌}
use snos.Execution.Syscall.{step_gas_cost, syscall_base_gas_cost}

abbrev bitwise_builtin_gas_cost : ℕ
bitwise_builtin_gas_cost = 594

abbrev range_check_gas_cost : ℕ
range_check_gas_cost = 70

abbrev memory_hole_gas_cost : ℕ
memory_hole_gas_cost = 10

abbrev entry_point_initial_budget : ℕ
entry_point_initial_budget = 100 * step_gas_cost

abbrev entry_point_gas_cost : ℕ
entry_point_gas_cost = entry_point_initial_budget + 500 * step_gas_cost

abbrev pub call_contract_gas_cost : ℕ
call_contract_gas_cost = syscall_base_gas_cost + 10 * step_gas_cost + entry_point_gas_cost

abbrev pub deploy_gas_cost : ℕ
deploy_gas_cost = syscall_base_gas_cost + 200 * step_gas_cost + entry_point_gas_cost

abbrev pub emit_event_gas_cost : ℕ
emit_event_gas_cost = syscall_base_gas_cost + 10 * step_gas_cost

abbrev pub get_block_hash_gas_cost : ℕ
get_block_hash_gas_cost = syscall_base_gas_cost + 50 * step_gas_cost

abbrev pub get_execution_info_gas_cost : ℕ
get_execution_info_gas_cost = syscall_base_gas_cost + 10 * step_gas_cost

abbrev pub keccak_gas_cost : ℕ
keccak_gas_cost = syscall_base_gas_cost

abbrev pub library_call_gas_cost : ℕ
library_call_gas_cost = call_contract_gas_cost

abbrev pub replace_class_gas_cost : ℕ
replace_class_gas_cost = syscall_base_gas_cost + 50 * step_gas_cost

abbrev pub sha256_process_block_gas_cost : ℕ
sha256_process_block_gas_cost =
    1115 * bitwise_builtin_gas_cost
    + 65 * range_check_gas_cost
    + 1852 * step_gas_cost
    + syscall_base_gas_cost

abbrev pub secp256k1_add_gas_cost : ℕ
secp256k1_add_gas_cost = 406 * step_gas_cost + 29 * range_check_gas_cost

abbrev pub secp256k1_get_point_from_x_gas_cost : ℕ
secp256k1_get_point_from_x_gas_cost =
    391 * step_gas_cost + 30 * range_check_gas_cost + 20 * memory_hole_gas_cost

abbrev pub secp256k1_get_xy_gas_cost : ℕ
secp256k1_get_xy_gas_cost =
    239 * step_gas_cost + 11 * range_check_gas_cost + 40 * memory_hole_gas_cost

abbrev pub secp256k1_mul_gas_cost : ℕ
secp256k1_mul_gas_cost =
    76501 * step_gas_cost + 7045 * range_check_gas_cost + 2 * memory_hole_gas_cost

abbrev pub secp256k1_new_gas_cost : ℕ
secp256k1_new_gas_cost = 475 * step_gas_cost + 35 * range_check_gas_cost + 40 * memory_hole_gas_cost

abbrev pub secp256r1_add_gas_cost : ℕ
secp256r1_add_gas_cost = 589 * step_gas_cost + 57 * range_check_gas_cost

abbrev pub secp256r1_get_point_from_x_gas_cost : ℕ
secp256r1_get_point_from_x_gas_cost =
    510 * step_gas_cost + 44 * range_check_gas_cost + 20 * memory_hole_gas_cost

abbrev pub secp256r1_get_xy_gas_cost : ℕ
secp256r1_get_xy_gas_cost =
    241 * step_gas_cost + 11 * range_check_gas_cost + 40 * memory_hole_gas_cost

abbrev pub secp256r1_mul_gas_cost : ℕ
secp256r1_mul_gas_cost =
    125340 * step_gas_cost + 13961 * range_check_gas_cost + 2 * memory_hole_gas_cost

abbrev pub secp256r1_new_gas_cost : ℕ
secp256r1_new_gas_cost = 594 * step_gas_cost + 49 * range_check_gas_cost + 40 * memory_hole_gas_cost

abbrev pub send_message_to_l1_gas_cost : ℕ
send_message_to_l1_gas_cost = syscall_base_gas_cost + 50 * step_gas_cost

abbrev pub storage_read_gas_cost : ℕ
storage_read_gas_cost = syscall_base_gas_cost + 50 * step_gas_cost

abbrev pub storage_write_gas_cost : ℕ
storage_write_gas_cost = syscall_base_gas_cost + 50 * step_gas_cost
