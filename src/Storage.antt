-- ===== src/Storage.antt =====
-- The storage provider: crates/storage/provider/src/providers/db/{mod,state}.rs over the tables of
-- crates/storage/db. A table is the ordered map that the traits of crates/storage/db/src/abstraction
-- document; errors of the database itself are left out.
pub mod Table
pub mod BlockList
pub mod Db
pub mod Insert
pub mod Latest
pub mod Historical
pub mod Blocks
pub mod Transactions
pub mod Updates
pub mod History
pub mod Nonces
pub mod ClassHashes
pub mod Slots
pub mod Frame
pub mod Chain
pub mod AsOf
pub mod Rows
pub mod Written
pub mod Stored
pub mod Readback
pub mod Tip
mod Tests
