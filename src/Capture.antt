-- ===== src/Capture.antt =====
-- The capture policy and pipeline of crates/fndr-capture.
pub mod Dedup
pub mod Sampling
pub mod Admission
pub mod Pipeline
