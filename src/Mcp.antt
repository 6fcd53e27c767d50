-- ===== src/Mcp.antt =====
-- crates/fndr-mcp: who may reach the local server, and what its tools answer.
pub mod Auth
pub mod Rate
pub mod Released
pub mod Audited
pub mod Desk
pub mod Remembered
pub mod Search
pub mod Tools
