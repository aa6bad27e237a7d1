-- ===== src/Producer.antt =====
-- Block production: crates/core/src/service/block_producer.rs and crates/core/src/service/mod.rs.
pub mod Backend
pub mod Interval
pub mod Instant
mod Held
mod Tasks
mod Rounds
mod Polls
mod Forced
mod Locked
pub mod Runs
mod Tests
