-- ===== src/Sync.antt =====
-- The sync pipeline: crates/sync/pipeline/src/lib.rs.
pub mod Pipeline
pub mod Progress
pub mod Until
pub mod Tips
mod Tests
