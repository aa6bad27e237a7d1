-- ===== src/Events.antt =====
-- Event queries: crates/rpc/rpc/src/utils/events.rs. Indices, block numbers and felts are
-- natural numbers; the provider is the trait that the code is generic over.
pub mod Filter
pub mod Page
pub mod Fetch
pub mod Spec
pub mod Refine
pub mod Loops
pub mod Blocks
pub mod Pending
pub mod Within
mod Tests
