-- ===== src/Tests.antt =====
-- The definitions and the theorems at concrete inputs.
pub mod Web
pub mod Privacy
pub mod Capture
pub mod Pipeline
pub mod Memory
pub mod Mcp
pub mod Flush
pub mod Signal
pub mod Worker
pub mod Vault
pub mod Tools
