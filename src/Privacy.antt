-- ===== src/Privacy.antt =====
-- The privacy policy of crates/fndr-privacy.
pub mod Blocklist
pub mod SafetyGate
pub mod Redaction
pub mod Decisions
pub mod Hosts
pub mod Apps
pub mod Sanitize
pub mod Defaults
