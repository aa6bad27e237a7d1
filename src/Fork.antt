-- ===== src/Fork.antt =====
-- What a forked node fetches from the network it forks: crates/storage/fork/src/lib.rs.
pub mod Backend
mod Sums
mod Keys
mod Serves
mod Polls
pub mod Runs
pub mod Client
mod Tests
