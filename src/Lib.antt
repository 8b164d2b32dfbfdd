-- ===== src/Lib.antt =====
-- SNOS: running the Starknet OS in Rust. This library models, in the order of the program's layers:
--
--   * the OS output (crates/starknet-os/src/io/output.rs). Io/Reader holds the functions that take
--     felts from an iterator, Io/Output the readers of each section, Io/Output/Wire the format as a
--     printer, Io/Output/RoundTrip the proofs.
--   * the commitment tree (crates/starknet-os/src/starkware_utils/commitment_tree and
--     crates/starknet-os/src/storage). CommitmentTree/Bytes is hash.rs of
--     crates/starknet-os-types, CommitmentTree/Storage, DictStorage, CompositeStorage and DbObject
--     are storage.rs, dict_storage.rs, composite_storage.rs and objects in a store; BaseTypes and
--     Nodes are base_types.rs, errors.rs and patricia_tree/nodes.rs; Context is read_node_fact and
--     write_node_fact of binary_fact_tree_node.rs; SimpleLeaf is SimpleLeafFact of storage_utils.rs;
--     UpdateTree is build_update_tree and decode_node of update_tree.rs, and Update the rest of it with
--     merkle_tree/traverse_tree.rs: the queue of nodes to visit, the map of updated nodes, and the
--     writing of new facts. PatriciaTree is patricia_tree/patricia_tree.rs, GetLeaves the look-up of
--     leaves in binary_fact_tree_node.rs and patricia_tree/virtual_patricia_node.rs, and Descents
--     patricia_tree/patricia_guess_descents.rs. VirtualNode is
--     patricia_tree/virtual_patricia_node.rs; Calculation is calculation.rs and
--     patricia_tree/virtual_calculation_node.rs. CommitmentTree/Reading is the specification of the
--     trees: a reading of a store says which hashes are roots of subtrees and which hash is the
--     leaf under an index, consistently with the facts in the store.
--   * the replay of calls (crates/starknet-os/src/execution/helper.rs, with the iterators that
--     syscall_handler.rs reads). Execution/Calls is the order of the calls of a transaction,
--     Execution/Helper the helper with one function per method, Execution/Helper/Runs its step relation.
--     Execution/Helper/Order describes the order of the calls of a block as a relation.
--     Execution/Selector is SyscallSelector of syscall_handler_utils.rs, and Execution/Selector/Felts
--     the numbers that stand for the system calls.
--   * the system calls (syscall_handler.rs, syscall_handler_utils.rs, secp_handler.rs and constants.rs
--     of crates/starknet-os/src/execution). Execution/Vm is what they use of the Cairo VM and how its
--     memory behaves, Execution/Exec the memory, helper and gas that a handler may change,
--     Execution/Syscall the readers and writers of memory with write_failure and run_handler,
--     Execution/State the helper's fields for system calls, Execution/Requests the layouts of requests
--     and responses (crates/starknet-os/src/cairo_types/new_syscalls.rs), Execution/Handlers,
--     Execution/Hashing and Execution/Secp the handlers, Execution/GasCosts their gas, and
--     Execution/OsSyscallHandler the dispatch by selector with the pointer of the handler. A handler
--     is a record of its three functions, as the trait SyscallHandler is; the theorems on run_handler
--     hold for every handler that only adds to the memory and, unless an inner call consumed more gas
--     than there was, only spends gas, which each of these is shown to be.
--   * hints: crates/starknet-os/src/hints/find_element.rs in Hints/FindElement, and the blobs of
--     crates/starknet-os/src/hints/kzg.rs in Hints/Kzg, with the value of a polynomial at a point
--     (`evaluate` in Hints/Kzg/Halves) as the specification of the transform.
--
-- Base holds what they share: tests on numbers, lists measured by native numbers, `HashMap` as an
-- association list, `HashSet`, powers of two, and `Outcome`, which is Ok, Err or a panic. Examples
-- holds concrete instances of the parameters, and a run for each theorem that has hypotheses.
--
-- State is passed explicitly: a `&mut` argument is an argument and a result. An async function is
-- the calls that it makes, in order, and a lock is held by one call at a time. Felts, paths and
-- BigUints are natural numbers; shifts and masks are divisions by powers of two. A usize or u64 that
-- the code reads from a felt is tested against 2 ^ 64, and products of a usize and the gas wrap, as in
-- a release build. A length or height below zero, to which only an edge of length 0 in the store
-- leads, is a panic, as a build with overflow checks makes it; additions to heights and lengths are
-- not bounded, trees being at most 251 high.
-- A debug_assert! is no part of the model. Loops are structural recursions over their range or their
-- list where they can be. The others run on fuel, and a run out of fuel is a panic, which the
-- theorems on them exclude: the climb of an update takes its index (the index is halved each time),
-- the queue the number of nodes that the modifications make it visit, and the look-up of leaves and
-- the descents the height of the tree (each call is below its caller), and the transform of a blob
-- the number of coefficients (each call has half of them).
--
-- Parameters stand for what is not in the repository: the big-endian conversions of num_bigint
-- (`BigUintBytes`), felts and hash functions (`Crypto`), the Cairo VM with its memory and pointers
-- (`VirtualMachine`, and `get_integer` of a hint), keccak and sha2 (`Hashes`), blockifier's points of
-- elliptic curves (`SecpHintProcessor`), class formats (`ClassFormats`), and the storage of a contract
-- (`PerContractStorage`). That a memory cell is written once (`IsWriteOnce`) is a named hypothesis.
-- Of blockifier's call and transaction infos the fields that the program reads are modelled. A store
-- is any that is lawful.
--
-- Not modelled: the other hints, the deprecated system calls, the state over the tries, the
-- comparison of two trees, contract classes, RPC, and the command line programs.
pub mod Base
pub mod Io
pub mod CommitmentTree
pub mod Execution
pub mod Hints
pub mod Examples
