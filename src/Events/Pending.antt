-- ===== src/Events/Pending.antt =====
-- `fetch_pending_events` of crates/rpc/rpc/src/utils/events.rs: events of the pending block, which
-- has no hash and no number yet.
use katana.Base.{
  ℕ, ◌+◌, ◌-◌, ◌≤◌, ◌<◌, ◌≡◌, refl, ◌⊎◌, inl, inr, Option, none, some, List, [], ◌∷◌, ◌++◌, arith,
  ltb, length, drop, drop-append, drop_all, Bool-cases, unwrap_or,
}
use katana.Events.Filter.{Filter}
use katana.Events.Page.{EmittedEvent, PartialCursor, Cursor, Query, enumerate, fetch_txs, new_block}
use katana.Events.Fetch.{
  PendingTx, executed, pending_cursor, fetch_pending_events, next_pending_event,
}
use katana.Events.Spec.{txs_events, after_partial, IsPage, drop-enumerate}
use katana.Events.Loops.{StartsAt, fetch_txs-IsPage, from_event_zero}

-- The events of the pending block that a cursor has before it.
abbrev pub pending_events : Filter → List PendingTx → Cursor → List EmittedEvent
pending_events f txs c = after_partial f none none (executed txs) (some c.txn)

length-executed-le : (txs : List PendingTx) → length (executed txs) ≤ length txs
length-executed-le [] = omega arith
length-executed-le (tx ∷ txs) = ground (arith, length-executed-le txs)

executed-append :
    (txs more : List PendingTx) → executed (txs ++ more) ≡ executed txs ++ executed more
executed-append [] more = refl
executed-append (tx ∷ txs) more = ground (arith, executed-append txs more)

pub record IsPendingPage (chunk : ℕ) (buffer all : List EmittedEvent)
    (rest : Cursor → List EmittedEvent) (r : Cursor × List EmittedEvent) : Type 0 where
  pub page : List EmittedEvent
  pub buffer_eq : r.1 ≡ buffer ++ page
  pub all_eq : all ≡ page ++ rest r.0
  pub within : length r.1 ≤ chunk
  pub full : (rest r.0 ≡ []) ⊎ (length r.1 ≡ chunk)

module _ (q : Query) (number : ℕ) (txs : List PendingTx) (buffer : List EmittedEvent) where
  finish :
      (all : List EmittedEvent) (r : Option PartialCursor × List EmittedEvent)
      → IsPage q.chunk_size buffer all (after_partial q.filter none none (executed txs)) r
      → IsPendingPage q.chunk_size buffer all
          (pending_events q.filter txs)
          (pending_cursor number (length txs) r)
  finish all (some c, b) v = record {
    page = v.page;
    buffer_eq = v.buffer_eq;
    all_eq = v.all_eq;
    within = v.within;
    full = inr (v.full c refl);
  }
  finish all (none, b) v = record {
    page = v.page;
    buffer_eq = v.buffer_eq;
    all_eq = rw (drop_all (length txs) (executed txs) (length-executed-le txs)) v.all_eq;
    within = v.within;
    full = inl (rw (drop_all (length txs) (executed txs) (length-executed-le txs)));
  }

  scan : Cursor → Option PartialCursor × List EmittedEvent
  scan c =
      fetch_txs q (next_pending_event c) none none (drop c.txn.idx (enumerate 0 (executed txs)))
        buffer

  scan-IsPage :
      (c : Cursor)
      → length buffer ≤ q.chunk_size
      → IsPage q.chunk_size buffer
          (pending_events q.filter txs c)
          (after_partial q.filter none none (executed txs))
          (scan c)
  unfolding scan next_pending_event
  scan-IsPage c fits = rw (drop-enumerate c.txn.idx 0 (executed txs)) (
      let z : 0 + c.txn.idx ≡ c.txn.idx = omega arith in
      rw z (
        fetch_txs-IsPage q none none (executed txs) (next_pending_event c) c.txn.idx c.txn.event _
          buffer refl here (λ j es lt. ground arith) fits))
    where
      here : StartsAt (next_pending_event c) c.txn.idx c.txn.event
      here es = elim (Bool-cases (ltb (length es) c.txn.event)) [
        | inl e ↦ inr (ground arith, ground arith)
        | inr e ↦ inl (ground arith)
      ]

  skips :
      (more : List PendingTx) (all : List EmittedEvent)
      (r : Option PartialCursor × List EmittedEvent)
      → IsPage q.chunk_size buffer all (after_partial q.filter none none (executed txs)) r
      → length (pending_cursor number (length txs) r).1 < q.chunk_size
      → pending_events q.filter (txs ++ more) (pending_cursor number (length txs) r).0
        ≡ txs_events q.filter none none (drop (length txs - length (executed txs)) (executed more))
  skips more all (some c, b) v h = absurd (omega (arith, v.full c refl))
  skips more all (none, b) v h =
      rw
        (
          executed-append txs more,
          drop-append (length txs) (executed txs) (executed more) (length-executed-le txs),
        )
        (from_event_zero q none none [] (λ i es. none) _)

-- Over one state of the pending block, a query appends a page of the events that its cursor has
-- before it, and they are that page followed by the events before the new cursor. The buffer never
-- passes the chunk size, and is full unless nothing is left.
pub fetch_pending_events-IsPage :
    (number : ℕ) (txs : List PendingTx) (q : Query) (cursor : Option Cursor)
    (buffer : List EmittedEvent)
    → length buffer ≤ q.chunk_size
    → IsPendingPage q.chunk_size buffer
        (pending_events q.filter txs (unwrap_or (new_block number) cursor))
        (pending_events q.filter txs)
        (fetch_pending_events number txs q cursor buffer)
unfolding fetch_pending_events scan
fetch_pending_events-IsPage number txs q cursor buffer fits =
    finish q number txs buffer _ _
      (scan-IsPage q number txs buffer (unwrap_or (new_block number) cursor) fits)

-- Once a query has exhausted the pending block, its cursor counts every transaction, while the
-- next query counts those that did not fail: of the transactions that come in later, as many are
-- passed over as had failed before.
pub fetch_pending_events-skips :
    (number : ℕ) (txs more : List PendingTx) (q : Query)
    → length (fetch_pending_events number txs q none []).1 < q.chunk_size
    → pending_events q.filter (txs ++ more) (fetch_pending_events number txs q none []).0
      ≡ txs_events q.filter none none (drop (length txs - length (executed txs)) (executed more))
unfolding fetch_pending_events scan
fetch_pending_events-skips number txs more q h =
    skips q number txs [] more _ _ (scan-IsPage q number txs [] (new_block number) (omega arith)) h
