-- ===== src/Events/Tests.antt =====
-- Runs of the event queries, and instances of their theorems.
use katana.Base.{
  ℕ, ◌+◌, ◌<◌, ◌≡◌, ◌↔◌, refl, true, Option, none, some, List, [], ◌∷◌, ◌++◌, ◌*◌, arith, length,
}
use katana.Events.Filter.{
  Event, Filter, is_matched, is_matched_iff, IsFrom, OptKeysMatch, filtered_events,
}
use katana.Events.Page.{
  EmittedEvent, Cursor, new, new_block, Query, ok, emitted, new_last_event, take_events,
  fetch_tx_events,
}
use katana.Events.Fetch.{
  Provider, PendingTx, fetch_block, fetch_events_at_blocks, fetch_pending_events,
}
use katana.Events.Spec.{Block, IsPage, cursor_events}
use katana.Events.Blocks.{Serves, fetch_events_at_blocks-IsPage}
use katana.Events.Pending.{
  pending_events, IsPendingPage, fetch_pending_events-IsPage, fetch_pending_events-skips,
}

abbrev event_of : ℕ → ℕ → Event
event_of sender key = record { from_address = sender; keys = key ∷ []; payload = [] }

abbrev from_five : Filter
from_five = record { address = some 5; keys = some ((1 ∷ 2 ∷ []) ∷ []) }

is_matched_iff_example :
    (is_matched from_five (event_of 5 2) ≡ true)
    ↔ (IsFrom (some 5) 5 × OptKeysMatch from_five.keys (2 ∷ []))
is_matched_iff_example = is_matched_iff from_five (event_of 5 2)

abbrev chain : ℕ → Block
chain n = record {
  hash = 100 + n;
  txs = (1, event_of 5 1 ∷ event_of 6 1 ∷ event_of 5 2 ∷ []) ∷ (2, event_of 5 1 ∷ []) ∷ [];
}

abbrev served : Provider
served = record {
  block_hash_by_num = λ n. ok (some (100 + n));
  receipts_by_block =
      λ n. ok (some ((event_of 5 1 ∷ event_of 6 1 ∷ event_of 5 2 ∷ []) ∷ (event_of 5 1 ∷ []) ∷ []));
  block_body_indices = λ n. ok (some (record { tx_offset = 2 * n; tx_count = 2 }));
  transaction_hashes_in_range = λ i j. ok (1 ∷ 2 ∷ []);
}

served-Serves : Serves served chain 3
served-Serves = record {
  indices = λ n. record { tx_offset = 2 * n; tx_count = 2 };
  hash = λ n le. refl;
  receipts = λ n le. refl;
  index = λ n le. refl;
  hashes = λ n le. refl;
}

abbrev two_a_page : Query
two_a_page = record { filter = from_five; chunk_size = 2 }

fetch_events_at_blocks-IsPage_example :
    (r : Option Cursor × List EmittedEvent) × (fetch_events_at_blocks served 1 3 two_a_page
        (some (new 1 0 1))
        []
      ≡ ok r)
    × IsPage 2 []
        (cursor_events from_five chain 3 (some (new 1 0 1)))
        (cursor_events from_five chain 3)
        r
fetch_events_at_blocks-IsPage_example =
    fetch_events_at_blocks-IsPage served chain 1 3 two_a_page (some (new 1 0 1)) [] served-Serves
      (omega arith)

-- The chunk is full inside block 2: the cursor points behind the event that was taken last.
next_page :
    fetch_events_at_blocks served 1 2 two_a_page (some (new 1 1 0)) []
    ≡ ok (
      some (new 2 0 1),
      emitted (some 1) (some 101) 2 (event_of 5 1)
          ∷ emitted (some 2) (some 102) 1 (event_of 5 1)
          ∷ [],
    )
unfolding fetch_events_at_blocks fetch_block fetch_tx_events take_events new_last_event
    filtered_events is_matched new
next_page = refl

abbrev pending : List PendingTx
pending =
    record { hash = 1; receipt = some (event_of 5 1 ∷ []) }
    ∷ record { hash = 2; receipt = none }
    ∷ []

abbrev later : List PendingTx
later = record { hash = 3; receipt = some (event_of 5 2 ∷ []) } ∷ []

fetch_pending_events-IsPage_example :
    IsPendingPage 2 []
      (pending_events from_five pending (new_block 4))
      (pending_events from_five pending)
      (fetch_pending_events 4 pending two_a_page none [])
fetch_pending_events-IsPage_example =
    fetch_pending_events-IsPage 4 pending two_a_page none [] (omega arith)

one_event : length (fetch_pending_events 4 pending two_a_page none []).1 < 2
unfolding fetch_pending_events fetch_tx_events take_events new_last_event filtered_events is_matched
one_event = omega arith

-- One transaction had failed, so the one that comes in later is passed over.
fetch_pending_events-skips_example :
    pending_events from_five
      (pending ++ later)
      (fetch_pending_events 4 pending two_a_page none []).0
    ≡ []
fetch_pending_events-skips_example = fetch_pending_events-skips 4 pending later two_a_page one_event
