-- ===== src/Examples.antt =====
-- Concrete instances of the packages that the program takes from elsewhere, and runs of the program
-- that the theorems apply to.
pub mod Packages
pub mod Memory
pub mod StoredEdge
pub mod OutputRuns
pub mod StorageRuns
pub mod TreeRuns
pub mod UpdateRuns
pub mod ExecutionRuns
pub mod KzgRuns
pub mod SyscallRuns
