-- ===== src/Rpc.antt =====
-- What the RPC server answers to queries of events: crates/rpc/rpc/src/starknet/mod.rs and
-- crates/primitives/src/event.rs.
pub mod TokenRoundTrip
pub mod Token
pub mod Events
pub mod Paging
mod EventPages
mod Tests
mod EventTests
