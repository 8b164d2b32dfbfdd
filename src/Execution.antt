-- ===== src/Execution.antt =====
-- crates/starknet-os/src/execution: the calls of a transaction, and the execution helper, which
-- replays them, and
-- the selectors of the system calls.
pub mod Calls
pub mod Helper
pub mod Selector
pub mod Vm
pub mod Exec
pub mod Syscall
pub mod State
pub mod Requests
pub mod Handlers
pub mod Hashing
pub mod Secp
pub mod GasCosts
pub mod OsSyscallHandler
