-- ===== src/Shell.antt =====
-- crates/fndr-shell: the adapters that join the capture pipeline to the engine.
pub mod Adapters
pub mod Scheduler
pub mod Worker
pub mod Lifecycle
pub mod Tick
