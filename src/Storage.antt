-- ===== src/Storage.antt =====
-- The projection store: the contract of crates/engine-types/src/storage/mod.rs and the in-memory
-- implementation of crates/storage/src/memory.rs.
pub mod Fold
pub mod Contract
pub mod Simulates
pub mod View
pub mod Memory
