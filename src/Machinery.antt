-- ===== src/Machinery.antt =====
-- crates/machinery: the leaf crate, with names, instants and identities.
pub mod Decimal
pub mod Name
pub mod Timestamp
