-- ===== src/Text.antt =====
-- Rust's `str` and `String` as lists of code points, with the standard library's operations that
-- the program uses.
mod Defs
pub mod Search
pub mod Lines
pub mod Split
pub mod Parts
pub mod Words
unfoldable pub use Defs.*
