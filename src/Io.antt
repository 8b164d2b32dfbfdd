-- ===== src/Io.antt =====
-- crates/starknet-os/src/io: the output of an OS run.
pub mod Reader
pub mod Output
