-- ===== src/TextSignal.antt =====
-- crates/fndr-textsignal: recognized text without the chrome around it.
pub mod App
pub mod Classes
pub mod Lines
pub mod Noise
pub mod Clean
pub mod Kept
pub mod Reduced
pub mod Counts
pub mod Built
pub mod Snippet
pub mod Snippets
pub mod Salience
pub mod Spans
