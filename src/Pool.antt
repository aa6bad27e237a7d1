-- ===== src/Pool.antt =====
-- The transaction pool: crates/pool/src.
pub mod Order
pub mod Set
pub mod Notify
pub mod Inner
pub mod Submission
pub mod Contents
pub mod Sender
pub mod Validate
pub mod Outcome
pub mod Nonces
pub mod Streams
pub mod Yield
mod Tests
mod ValidateTests
mod StreamTests
