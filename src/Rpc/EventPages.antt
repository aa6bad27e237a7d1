-- ===== src/Rpc/EventPages.antt =====
-- Paging through the events of local blocks by the tokens that the server hands out:
-- crates/rpc/rpc/src/starknet/mod.rs, `events`.
use katana.Base.{ℕ, ◌^◌, ◌<◌, ◌≡◌, refl, Option, none, some, List, [], arith, unwrap_or}
use katana.Events.Filter.{Filter}
use katana.Events.Page.{EmittedEvent, Cursor, new_block, Query}
use katana.Events.Page
use katana.Events.Fetch.{fetch_events_at_blocks}
use katana.Events.Spec.{Block, IsPage, cursor_events}
use katana.Events.Blocks.{Serves, fetch_events_at_blocks-IsPage}
use katana.Rpc.Token.{token, print_maybe_forked, to_token, MaybeForkedContinuationToken}
use katana.Rpc.TokenRoundTrip.{Fits, parse_maybe_forked-print_maybe_forked}
use katana.Rpc.Events.{
  Node, number_id, EventFilter, ResultPageRequest, ok, ◌>>=◌, kept_keys, too_big, of_parse,
  parse_token, local_token, blocks_page, cursor_of, into_cursor, into_rpc_cursor,
  from_after_forked_if_any, events_of_blocks, events_inner, events,
  resolve_event_block_id_if_forked, of_query,
}

-- Keys are never dropped: no list has one element and none.
kept_keys-id : (keys : Option (List (List ℕ))) → kept_keys keys ≡ keys
unfolding kept_keys
kept_keys-id none = refl
kept_keys-id (some keys) = ground arith

abbrev own_token : Option Cursor → Option MaybeForkedContinuationToken
own_token none = none
own_token (some c) = some (token (into_rpc_cursor c))

abbrev pub CursorFits : Option Cursor → Type 0
CursorFits none = Unit
CursorFits (some c) = (c.block < 2 ^ 64) × (c.txn.idx < 2 ^ 64) × (c.txn.event < 2 ^ 64)

parse_token-local_token :
    (c : Option Cursor) → CursorFits c → parse_token (local_token c) ≡ ok (own_token c)
unfolding Fits into_rpc_cursor print_maybe_forked parse_token of_parse
parse_token-local_token none h = refl
parse_token-local_token (some c) h =
    rw (parse_maybe_forked-print_maybe_forked (token (into_rpc_cursor c)) h) refl

cursor_of-own_token : (c : Option Cursor) → cursor_of (own_token c) ≡ c
unfolding to_token into_cursor into_rpc_cursor Page.new
cursor_of-own_token none = refl
cursor_of-own_token (some c) = refl

-- A request for the blocks from `from` to `to`.
abbrev pub blocks_filter : ℕ → ℕ → Filter → EventFilter
blocks_filter from to f = record {
  first = some (number_id from);
  last = some (number_id to);
  address = f.address;
  keys = f.keys;
}

abbrev pub page_request : Option Cursor → ℕ → ResultPageRequest
page_request c chunk = record { token_text = local_token c; chunk = chunk }

events_inner-local :
    (node : Node) (from to : ℕ) (q : Query) (c : Option Cursor)
    → node.forked_client ≡ none
    → events_inner node (number_id from) (number_id to) q (own_token c)
      ≡ (of_query (fetch_events_at_blocks node.blocks from to q c []) >>= λ r. ok (blocks_page r))
unfolding events_inner events_of_blocks from_after_forked_if_any resolve_event_block_id_if_forked
events_inner-local node from to q c e = rw (from_after_forked_if_any, e, cursor_of-own_token c) refl

-- The handler answers with the page of the query.
pub events-run :
    (node : Node) (from to : ℕ) (f : Filter) (chunk : ℕ) (c : Option Cursor)
    (r : Option Cursor × List EmittedEvent)
    → node.forked_client ≡ none
    → too_big node.max_event_page_size chunk ≡ none
    → CursorFits c
    → fetch_events_at_blocks node.blocks from to (record { filter = f; chunk_size = chunk }) c []
      ≡ Page.ok r
    → events node (blocks_filter from to f) (page_request c chunk) ≡ ok (blocks_page r)
unfolding events
events-run node from to f chunk c r local allowed fits e =
    rw
      (
        events,
        allowed,
        parse_token-local_token c fits,
        kept_keys-id f.keys,
        events_inner-local node from to (record { filter = f; chunk_size = chunk }) c local,
        e,
      )
      refl

-- A node without a fork that serves a chain answers a request for blocks by number, with no token or with
-- the text of a cursor of 64-bit numbers, and a chunk size that it allows, with a page of the
-- matching events that the cursor has before it. Its token, if it has one, is the text of a cursor
-- that has the others before it.
pub events-IsPage :
    (node : Node) (chain : ℕ → Block) (from to : ℕ) (f : Filter) (chunk : ℕ) (c : Option Cursor)
    → node.forked_client ≡ none
    → Serves node.blocks chain to
    → too_big node.max_event_page_size chunk ≡ none
    → CursorFits c
    → (r : Option Cursor × List EmittedEvent) × (events node
          (blocks_filter from to f)
          (page_request c chunk)
        ≡ ok (blocks_page r))
      × IsPage chunk []
          (cursor_events f chain to (some (unwrap_or (new_block from) c)))
          (cursor_events f chain to)
          r
events-IsPage node chain from to f chunk c local v allowed fits =
    let q : Query = record { filter = f; chunk_size = chunk } in
    let page = fetch_events_at_blocks-IsPage node.blocks chain from to q c [] v (omega arith) in
    (page.0, events-run node from to f chunk c page.0 local allowed fits page.1, page.2)
