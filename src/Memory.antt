-- ===== src/Memory.antt =====
-- crates/fndr-memory: session identity, story continuity and the write path.
pub mod Anchor
pub mod Session
pub mod Score
pub mod Symmetry
pub mod Story
pub mod WritePath
