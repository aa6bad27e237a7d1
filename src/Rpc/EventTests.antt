-- ===== src/Rpc/EventTests.antt =====
-- Requests for events at concrete nodes: crates/rpc/rpc/src/starknet/mod.rs.
use katana.Base.{ℕ, ◌+◌, ◌≡◌, refl, Option, none, some, List, [], ◌∷◌, arith}
use katana.Events.Filter.{Event, Filter, filtered_events, is_matched}
use katana.Events.Page.{
  EmittedEvent, Cursor, new, new_block, Query, emitted, fetch_txs, fetch_tx_events, take_events,
  new_last_event, next_event,
}
use katana.Events.Page
use katana.Events.Fetch.{
  Provider, fetch_block, fetch_blocks, fetch_events_at_blocks, fetch_pending_events,
  next_pending_event,
}
use katana.Events.Spec.{Block, blocks_events, tx_events, IsPage, cursor_events}
use katana.Events.Blocks.{Serves}
use katana.Rpc.Token.{token, to_token}
use katana.Rpc.Events.{
  Node, PendingBlock, ForkedClient, number_id, pending_tag, hash_id, ok, err, block_not_found,
  blocks_page, too_big, events, events_inner, resolve_event_block_id_if_forked, events_of_blocks,
  events_up_to_pending, from_after_forked_if_any, fetch_forked, get_block_number_by_hash,
  then_pending, into_rpc_cursor, into_cursor,
}
use katana.Rpc.Paging.{all_pages, all_pages-blocks_events}
use katana.Rpc.EventPages.{blocks_filter, page_request, events-IsPage}

-- An event of the contract 5 with a key.
abbrev event_of : ℕ → Event
event_of key = record { from_address = 5; keys = key ∷ []; payload = [] }

abbrev three : List Event
three = event_of 1 ∷ event_of 2 ∷ event_of 3 ∷ []

abbrev chain : ℕ → Block
chain n = record { hash = 100 + n; txs = (n, three) ∷ [] }

abbrev served : Provider
served = record {
  block_hash_by_num = λ n. Page.ok (some (100 + n));
  receipts_by_block = λ n. Page.ok (some (three ∷ []));
  block_body_indices = λ n. Page.ok (some (record { tx_offset = n; tx_count = 1 }));
  transaction_hashes_in_range = λ i j. Page.ok (i ∷ []);
}

abbrev served-Serves : Serves served chain 3
served-Serves = record {
  indices = λ n. record { tx_offset = n; tx_count = 1 };
  hash = λ n le. refl;
  receipts = λ n le. refl;
  index = λ n le. refl;
  hashes = λ n le. refl;
}

abbrev all_events : Filter
all_events = record { address = none; keys = none }

abbrev node_with : Option PendingBlock → Option ForkedClient → Node
node_with pending_block client = record {
  blocks = served;
  latest_number = Page.ok 3;
  block_number_by_hash = λ hash. Page.ok none;
  pending_executor = pending_block;
  forked_client = client;
  max_event_page_size = some 10;
}

events-IsPage_example :
    (r : Option Cursor × List EmittedEvent) × (events
        (node_with none none)
        (blocks_filter 1 3 all_events)
        (page_request (some (new 1 0 1)) 4)
      ≡ ok (blocks_page r))
    × IsPage 4 []
        (cursor_events all_events chain 3 (some (new 1 0 1)))
        (cursor_events all_events chain 3)
        r
unfolding new too_big
events-IsPage_example =
    events-IsPage (node_with none none) chain 1 3 all_events 4 (some (new 1 0 1)) refl served-Serves
      refl (omega arith, omega arith, omega arith)

abbrev ten_a_page : Query
ten_a_page = record { filter = all_events; chunk_size = 10 }

abbrev fork_at_0 : ForkedClient
fork_at_0 = record {
  network = record {
    block_number = λ hash. ok (some 7);
    events_page = λ from to f t chunk. ok (record { events = []; continuation_token = none });
  };
  block = 0;
}

-- With a fork, a query from a block after the forked one starts at the first local block.
events_inner-from_ignored :
    events_inner (node_with none (some fork_at_0)) (number_id 2) (number_id 2) ten_a_page none
    ≡ events_inner (node_with none none) (number_id 1) (number_id 2) ten_a_page none
unfolding events_inner resolve_event_block_id_if_forked events_of_blocks from_after_forked_if_any
    fetch_forked
events_inner-from_ignored = refl

abbrev pending_block : PendingBlock
pending_block = record {
  number_of = 4;
  transactions = record { hash = 9; receipt = some three } ∷ [];
}

-- A cursor into the last local block also passes over events of the pending block.
events_inner-pending_passed_over :
    events_inner
      (node_with (some pending_block) none)
      (number_id 0)
      pending_tag
      ten_a_page
      (some (token (into_rpc_cursor (new 3 0 2))))
    ≡ ok (
        blocks_page (
          some (new 4 1 0),
          emitted (some 3) (some 103) 3 (event_of 3) ∷ emitted none none 9 (event_of 3) ∷ [],
        ))
unfolding events_inner resolve_event_block_id_if_forked events_up_to_pending
    from_after_forked_if_any then_pending into_rpc_cursor into_cursor new new_block
    fetch_events_at_blocks fetch_blocks fetch_block fetch_txs fetch_tx_events take_events
    new_last_event next_event fetch_pending_events next_pending_event filtered_events is_matched
    to_token
events_inner-pending_passed_over = refl

-- The hash of a block that comes after the fork is not found.
resolve-after_fork :
    resolve_event_block_id_if_forked (node_with none (some fork_at_0)) (hash_id 100)
    ≡ err block_not_found
unfolding resolve_event_block_id_if_forked get_block_number_by_hash
resolve-after_fork = refl

-- Blocks 2 and 3 have six events, which are three pages of two, and a last page at most.
all_pages-blocks_events_example :
    all_pages (node_with none none) (blocks_filter 2 3 all_events) 2 7 none
    ≡ some (blocks_events all_events chain 2 2)
unfolding too_big filtered_events is_matched tx_events
all_pages-blocks_events_example =
    all_pages-blocks_events (node_with none none) chain 2 3 all_events 2 7 refl served-Serves refl
      (omega arith) (omega arith) (λ n le. record { few = omega arith; each = (omega arith, tt) })
      (omega arith)
