-- ===== src/CommitmentTree.antt =====
-- crates/starknet-os/src/starkware_utils/commitment_tree and crates/starknet-os/src/storage: the
-- Patricia tree, its facts, and the store that holds them.
pub mod Bytes
pub mod Storage
pub mod DictStorage
pub mod CompositeStorage
pub mod DbObject
pub mod BaseTypes
pub mod Nodes
pub mod UpdateTree
pub mod Context
pub mod SimpleLeaf
pub mod Reading
pub mod VirtualNode
pub mod Calculation
pub mod Update
pub mod PatriciaTree
pub mod Descents
pub mod GetLeaves
