-- ===== src/Types.antt =====
-- crates/fndr-types: what every crate shares.
pub mod Lifecycle
