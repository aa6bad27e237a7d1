-- ===== src/Rpc/Paging.antt =====
-- A client that asks for page after page of events: crates/rpc/rpc/src/starknet/mod.rs, `events`.
use katana.Base.{
  ℕ, zero, suc, ◌+◌, ◌-◌, ◌^◌, ◌≤◌, ◌<◌, ◌≡◌, ◌∙◌, refl, sym, ap, Option, none, some, List, [], ◌∷◌,
  ◌++◌, arith, length, unwrap_or, append-nil, subst, length-append,
}
use katana.Events.Filter.{Event, Filter}
use katana.Events.Page.{EmittedEvent, Cursor, new_block, Query}
use katana.Events.Spec.{Block, IsPage, cursor_events, blocks_events, from_event, txs_events}
use katana.Events.Blocks.{Serves, fetch_events_at_blocks-IsPage}
use katana.Events.Within.{SmallBlock, Within, fetch_events_at_blocks-Within}
use katana.Rpc.Events.{
  Node, EventFilter, EventsPage, ApiResult, ok, err, too_big, local_token, blocks_page, events,
}
use katana.Rpc.EventPages.{CursorFits, blocks_filter, events-run}

-- The events of the pages, up to the one without a token. None stands for an error, or for more pages
-- than the fuel has.
abbrev pub then_pages :
    (List ℕ → Option (List EmittedEvent)) → ApiResult EventsPage → Option (List EmittedEvent)
then_pages rest (err e) = none
then_pages rest (ok page) = elim page.continuation_token [
  | none ↦ some page.events
  | some t ↦ elim (rest t) [ none ↦ none | some more ↦ some (page.events ++ more) ]
]

unfoldable pub all_pages : Node → EventFilter → ℕ → ℕ → Option (List ℕ) → Option (List EmittedEvent)
all_pages node f chunk zero t = none
all_pages node f chunk (suc fuel) t =
    then_pages (λ next. all_pages node f chunk fuel (some next))
      (events node f (record { token_text = t; chunk = chunk }))

module _ (node : Node) (chain : ℕ → Block) (from to : ℕ) (f : Filter) (chunk : ℕ)
    (local : node.forked_client ≡ none) (v : Serves node.blocks chain to)
    (allowed : too_big node.max_event_page_size chunk ≡ none) (some_events : 0 < chunk)
    (few : to < 2 ^ 64) (small : (n : ℕ) → n ≤ to → SmallBlock (2 ^ 64) (chain n)) where
  abbrev before : Option Cursor → List EmittedEvent
  before c = cursor_events f chain to (some (unwrap_or (new_block from) c))

  abbrev query : Query
  query = record { filter = f; chunk_size = chunk }

  fits : (c : Option Cursor) → Within (2 ^ 64) to c → CursorFits c
  fits none h = tt
  fits (some c) (le, idx, event) = (omega arith, idx, event)

  -- A page with a token, after which a client that follows it gets the events that are left.
  after_page :
      (fuel : ℕ) (c : Option Cursor) (r : Option Cursor × List EmittedEvent)
      → CursorFits r.0
      → IsPage chunk [] (before c) (cursor_events f chain to) r
      → length (before c) < suc fuel
      → ((c' : Cursor)
          → CursorFits (some c')
          → length (cursor_events f chain to (some c')) < fuel
          → all_pages node (blocks_filter from to f) chunk fuel (local_token (some c'))
            ≡ some (cursor_events f chain to (some c')))
      → then_pages
          (λ next. all_pages node (blocks_filter from to f) chunk fuel (some next))
          (ok (blocks_page r))
        ≡ some (before c)
  after_page fuel c (none, evs) h w lt rest =
      ap some (w.buffer_eq ∙ sym (append-nil w.page) ∙ sym w.all_eq)
  after_page fuel c (some c', evs) h w lt rest =
      rw (then_pages, rest c' h shorter)
        (ap (λ page. some (page ++ cursor_events f chain to (some c'))) w.buffer_eq
          ∙ ap some (sym w.all_eq))
    where
      shorter : length (cursor_events f chain to (some c')) < fuel
      shorter =
          let whole = ap length w.all_eq in
          let parts = length-append w.page (cursor_events f chain to (some c')) in
          let full = ap length w.buffer_eq in
          omega (arith, w.full c' refl, full, whole, parts, lt, some_events)

  all_pages-before :
      (fuel : ℕ) (c : Option Cursor)
      → CursorFits c
      → length (before c) < fuel
      → all_pages node (blocks_filter from to f) chunk fuel (local_token c) ≡ some (before c)
  unfolding all_pages
  all_pages-before zero c h lt = absurd (omega arith)
  all_pages-before (suc fuel) c h lt =
      let page =
        fetch_events_at_blocks-IsPage node.blocks chain from to query c [] v (omega arith) in
      ap (then_pages (λ next. all_pages node (blocks_filter from to f) chunk fuel (some next)))
        (events-run node from to f chunk c page.0 local allowed h page.1)
      ∙ after_page fuel c page.0
          (fits page.0.0 (
            fetch_events_at_blocks-Within node.blocks chain from to query c [] (2 ^ 64) page.0 v
              small page.1))
          page.2 lt (λ c' h' lt'. all_pages-before fuel (some c') h' lt')

from_event-zero :
    (f : Filter) (bn bh : Option ℕ) (txs : List (ℕ × List Event))
    → from_event f bn bh 0 txs ≡ txs_events f bn bh txs
from_event-zero f bn bh [] = refl
from_event-zero f bn bh (tx ∷ txs) = refl

-- A cursor at a block's start has all events from there on before it.
cursor_events-new_block :
    (f : Filter) (chain : ℕ → Block) (from to : ℕ)
    → cursor_events f chain to (some (new_block from)) ≡ blocks_events f chain from (to + 1 - from)
unfolding new_block
cursor_events-new_block f chain from to = go (to + 1 - from) refl
  where
    go :
        (k : ℕ)
        → to + 1 - from ≡ k
        → cursor_events f chain to (some (new_block from))
          ≡ blocks_events f chain from (to + 1 - from)
    go zero e = rw e refl
    go (suc k) e = rw e (
        ap (λ xs. xs ++ blocks_events f chain (suc from) k)
          (from_event-zero f (some from) (some (chain from).hash) (chain from).txs))

-- A client that follows the tokens of a node without a fork, which serves a chain of blocks with fewer than
-- 2^64 transactions and events each, and with a number below 2^64, gets all matching events of the
-- blocks from `from` to `to` in order, each once, in at most as many pages as there are events, plus
-- one, for any positive chunk size that the node allows.
pub all_pages-blocks_events :
    (node : Node) (chain : ℕ → Block) (from to : ℕ) (f : Filter) (chunk fuel : ℕ)
    → node.forked_client ≡ none
    → Serves node.blocks chain to
    → too_big node.max_event_page_size chunk ≡ none
    → 0 < chunk
    → to < 2 ^ 64
    → ((n : ℕ) → n ≤ to → SmallBlock (2 ^ 64) (chain n))
    → length (blocks_events f chain from (to + 1 - from)) < fuel
    → all_pages node (blocks_filter from to f) chunk fuel none
      ≡ some (blocks_events f chain from (to + 1 - from))
all_pages-blocks_events node chain from to f chunk fuel local v allowed pos few small lt =
    let e = cursor_events-new_block f chain from to in
    all_pages-before node chain from to f chunk local v allowed pos few small fuel none tt
      (subst (λ xs. length xs < fuel) (sym e) lt)
    ∙ ap some e
