-- ===== src/Events/Page.antt =====
-- Cursors and the two fetch loops of crates/rpc/rpc/src/utils/events.rs. The buffer that the Rust
-- functions append to is passed in and returned.
use katana.Base.{
  ℕ, suc, ◌+◌, ◌-◌, Option, none, some, List, [], ◌∷◌, ◌++◌, map, ltb, leb, ◌==◌, ◌&&◌,
  if◌then◌else◌, length, take, drop, last?, unwrap_or,
}
use katana.Events.Filter.{Event, Filter, filtered_events}

pub record EmittedEvent : Type 0 where
  pub block_hash : Option ℕ
  pub block_number : Option ℕ
  pub keys : List ℕ
  pub payload : List ℕ
  pub transaction_hash : ℕ
  pub from_address : ℕ

pub record PartialCursor : Type 0 where
  pub idx : ℕ
  pub event : ℕ

pub record Cursor : Type 0 where
  pub block : ℕ
  pub txn : PartialCursor

unfoldable pub new : ℕ → ℕ → ℕ → Cursor
new block txn event = record { block = block; txn = record { idx = txn; event = event } }

unfoldable pub new_block : ℕ → Cursor
new_block block = record { block = block; txn = record { idx = 0; event = 0 } }

abbrev pub into_full : PartialCursor → ℕ → Cursor
into_full txn block = record { block = block; txn = txn }

pub data QueryError : Type 0 where
  invalid_cursor missing_block_hash missing_receipts missing_body_index : QueryError
  provider : ℕ → QueryError

pub data QueryResult {ℓ} (A : Type ℓ) : Type ℓ where
  ok : A → QueryResult A
  err : QueryError → QueryResult A

infixl 5 ◌>>=◌
abbrev pub ◌>>=◌ {ℓ κ} :
    {A : Type ℓ} {B : Type κ} → QueryResult A → (A → QueryResult B) → QueryResult B
ok a >>= f = f a
err e >>= f = err e

-- `Option::context` followed by `?`.
abbrev pub context {ℓ} : {A : Type ℓ} → Option A → QueryError → QueryResult A
context none e = err e
context (some a) e = ok a

-- `enumerate`, from an index.
abbrev pub enumerate {ℓ} : {A : Type ℓ} → ℕ → List A → List (ℕ × A)
enumerate i [] = []
enumerate i (x ∷ xs) = (i, x) ∷ enumerate (suc i) xs

abbrev pub zip {ℓ κ} : {A : Type ℓ} {B : Type κ} → List A → List B → List (A × B)
zip [] ys = []
zip (x ∷ xs) [] = []
zip (x ∷ xs) (y ∷ ys) = (x, y) ∷ zip xs ys

abbrev pub index_of {ℓ} : {A : Type ℓ} → ℕ × A → ℕ
index_of p = p.0

abbrev pub value_of {ℓ} : {A : Type ℓ} → ℕ × A → A
value_of p = p.1

abbrev pub emitted : Option ℕ → Option ℕ → ℕ → Event → EmittedEvent
emitted block_number block_hash tx_hash e = record {
  block_hash = block_hash;
  block_number = block_number;
  keys = e.keys;
  payload = e.payload;
  transaction_hash = tx_hash;
  from_address = e.from_address;
}

-- What every fetch has fixed: `filter` and `chunk_size`.
pub record Query : Type 0 where
  pub filter : Filter
  pub chunk_size : ℕ

-- The index of the next event to look at, after a transaction's events were taken.
unfoldable pub new_last_event : ℕ → ℕ → List (ℕ × EmittedEvent) → ℕ
new_last_event next_event_idx total_can_take filtered =
    let total_events_traversed = next_event_idx + total_can_take in
    let last_event_idx = unwrap_or total_events_traversed (last? (map index_of filtered)) in
    if total_can_take == 0 then last_event_idx else last_event_idx + 1

-- Takes what was filtered, and decides whether events are left.
unfoldable pub take_events :
    Query
    → ℕ
    → ℕ
    → List Event
    → List EmittedEvent
    → ℕ
    → List (ℕ × EmittedEvent)
    → Option PartialCursor × List EmittedEvent
take_events q next_event_idx tx_idx events buffer total_can_take filtered =
    let buffer' = buffer ++ map value_of filtered in
    let next = new_last_event next_event_idx total_can_take filtered in
    if leb q.chunk_size (length buffer') && ltb next (length events)
    then (some (record { idx = tx_idx; event = next }), buffer')
    else (none, buffer')

unfoldable pub fetch_tx_events :
    Query
    → ℕ
    → Option ℕ
    → Option ℕ
    → ℕ
    → ℕ
    → List Event
    → List EmittedEvent
    → Option PartialCursor × List EmittedEvent
fetch_tx_events q next_event_idx block_number block_hash tx_idx tx_hash events buffer =
    let total_can_take = q.chunk_size - length buffer in
    let filtered =
      map (emitted block_number block_hash tx_hash) (filtered_events q.filter events) in
    take_events q next_event_idx tx_idx events buffer total_can_take
      (take total_can_take (drop next_event_idx (enumerate 0 filtered)))

-- A transaction loop returns at once when a transaction gives a cursor.
abbrev pub or_continue :
    Option PartialCursor × List EmittedEvent
    → (List EmittedEvent → Option PartialCursor × List EmittedEvent)
    → Option PartialCursor × List EmittedEvent
or_continue (none, buffer) rest = rest buffer
or_continue (some c, buffer) rest = (some c, buffer)

-- The loop over the transactions of a block; `start` gives the first event to look at, or
-- `none` where the code continues with the next transaction.
unfoldable pub fetch_txs :
    Query
    → (ℕ → List Event → Option ℕ)
    → Option ℕ
    → Option ℕ
    → List (ℕ × (ℕ × List Event))
    → List EmittedEvent
    → Option PartialCursor × List EmittedEvent
fetch_txs q start block_number block_hash [] buffer = (none, buffer)
fetch_txs q start block_number block_hash ((tx_idx, (tx_hash, events)) ∷ txs) buffer =
    elim (start tx_idx events) [
      | none ↦ fetch_txs q start block_number block_hash txs buffer
      | some next_event ↦
          or_continue
            (fetch_tx_events q next_event block_number block_hash tx_idx tx_hash events buffer)
            (fetch_txs q start block_number block_hash txs)
    ]

-- `next_event` of `fetch_events_at_blocks`.
unfoldable pub next_event : Cursor → ℕ → ℕ → List Event → Option ℕ
next_event cursor block_num tx_idx events =
    if block_num == cursor.block && tx_idx == cursor.txn.idx
    then (if ltb cursor.txn.event (length events) then some cursor.txn.event else none)
    else some 0
