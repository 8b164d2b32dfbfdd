-- ===== src/Hints.antt =====
-- crates/starknet-os/src/hints: hints whose result the Cairo program relies on.
pub mod FindElement
pub mod Kzg
