-- ===== src/Events/Fetch.antt =====
-- The queries over blocks and over the pending block: `fetch_events_at_blocks` and
-- `fetch_pending_events` of crates/rpc/rpc/src/utils/events.rs.
use katana.Base.{
  ℕ, zero, suc, ◌+◌, ◌-◌, Option, none, some, List, [], ◌∷◌, ltb, ◌==◌, ◌&&◌, if◌then◌else◌, length,
  drop, unwrap_or,
}
use katana.Events.Filter.{Event}
use katana.Events.Page.{
  EmittedEvent, PartialCursor, Cursor, new_block, into_full, missing_block_hash, missing_receipts,
  missing_body_index, QueryResult, ok, ◌>>=◌, context, enumerate, zip, Query, fetch_txs, next_event,
}

pub record BodyIndices : Type 0 where
  pub tx_offset : ℕ
  pub tx_count : ℕ

-- `BlockProvider + ReceiptProvider`, as far as the query reads it. A receipt is its events.
pub record Provider : Type 0 where
  pub block_hash_by_num : ℕ → QueryResult (Option ℕ)
  pub receipts_by_block : ℕ → QueryResult (Option (List (List Event)))
  pub block_body_indices : ℕ → QueryResult (Option BodyIndices)
  pub transaction_hashes_in_range : ℕ → ℕ → QueryResult (List ℕ)

-- One round of the loop over the blocks.
unfoldable pub fetch_block :
    Provider
    → Query
    → Cursor
    → ℕ
    → List EmittedEvent
    → QueryResult (Option PartialCursor × List EmittedEvent)
unfolding fetch_txs next_event
fetch_block p q cursor block_num buffer = do
  found_hash ← p.block_hash_by_num block_num
  block_hash ← context found_hash missing_block_hash
  found_receipts ← p.receipts_by_block block_num
  receipts ← context found_receipts missing_receipts
  found_index ← p.block_body_indices block_num
  body_index ← context found_index missing_body_index
  tx_hashes ←
      p.transaction_hashes_in_range body_index.tx_offset
        (body_index.tx_offset + body_index.tx_count)
  if block_num == cursor.block && ltb (length receipts) cursor.txn.idx
      then ok (none, buffer)
      else ok (
          fetch_txs q (next_event cursor block_num) (some block_num) (some block_hash)
            (drop (if block_num == cursor.block then cursor.txn.idx else 0)
              (enumerate 0 (zip tx_hashes receipts)))
            buffer)

-- The loop over the blocks, `rounds` of them from `block_num` on.
abbrev pub after_block :
    ℕ
    → (List EmittedEvent → QueryResult (Option Cursor × List EmittedEvent))
    → Option PartialCursor × List EmittedEvent
    → QueryResult (Option Cursor × List EmittedEvent)
after_block block_num rest (some c, buffer) = ok (some (into_full c block_num), buffer)
after_block block_num rest (none, buffer) = rest buffer

unfoldable pub fetch_blocks :
    Provider
    → Query
    → Cursor
    → ℕ
    → ℕ
    → List EmittedEvent
    → QueryResult (Option Cursor × List EmittedEvent)
fetch_blocks p q cursor block_num zero buffer = ok (none, buffer)
fetch_blocks p q cursor block_num (suc rounds) buffer =
    fetch_block p q cursor block_num buffer
    >>= after_block block_num (fetch_blocks p q cursor (suc block_num) rounds)

unfoldable pub fetch_events_at_blocks :
    Provider
    → ℕ
    → ℕ
    → Query
    → Option Cursor
    → List EmittedEvent
    → QueryResult (Option Cursor × List EmittedEvent)
unfolding fetch_blocks new_block
fetch_events_at_blocks p start end q cursor buffer =
    let from = unwrap_or (new_block start) cursor in
    fetch_blocks p q from from.block (end + 1 - from.block) buffer

-- `start` of `fetch_pending_events`: the cursor's transaction is passed over where it has fewer
-- events than the cursor says.
unfoldable pub next_pending_event : Cursor → ℕ → List Event → Option ℕ
next_pending_event cursor tx_idx events =
    if tx_idx == cursor.txn.idx
    then (if ltb (length events) cursor.txn.event then none else some cursor.txn.event)
    else some 0

-- A transaction of the pending block: its hash, and its events if it did not fail.
pub record PendingTx : Type 0 where
  pub hash : ℕ
  pub receipt : Option (List Event)

abbrev pub executed : List PendingTx → List (ℕ × List Event)
executed [] = []
executed (tx ∷ txs) =
    let rest = executed txs in
    elim tx.receipt [ none ↦ rest | some events ↦ (tx.hash, events) ∷ rest ]

abbrev pub pending_cursor :
    ℕ → ℕ → Option PartialCursor × List EmittedEvent → Cursor × List EmittedEvent
pending_cursor number next (some c, buffer) = (into_full c number, buffer)
pending_cursor number next (none, buffer) =
    (record { block = number; txn = record { idx = next; event = 0 } }, buffer)

unfoldable pub fetch_pending_events :
    ℕ → List PendingTx → Query → Option Cursor → List EmittedEvent → Cursor × List EmittedEvent
unfolding fetch_txs next_pending_event new_block
fetch_pending_events number txs q cursor buffer =
    let from = unwrap_or (new_block number) cursor in
    pending_cursor number (length txs) (
      fetch_txs q (next_pending_event from) none none
        (drop from.txn.idx (enumerate 0 (executed txs))) buffer)
