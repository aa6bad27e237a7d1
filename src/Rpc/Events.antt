-- ===== src/Rpc/Events.antt =====
-- The event queries of the RPC server: `events`, `events_inner` and `resolve_event_block_id_if_forked`
-- of crates/rpc/rpc/src/starknet/mod.rs, with the forked client of starknet/forking.rs.
use katana.Base.{
  ℕ, ◌+◌, ◌&&◌, ◌||◌, not, Option, none, some, List, [], length, ltb, leb, ◌==◌, if◌then◌else◌,
  unwrap_or,
}
use katana.Events.Filter.{Filter}
use katana.Events.Page.{
  EmittedEvent, Cursor, new, new_block, QueryError, invalid_cursor, missing_block_hash,
  missing_receipts, missing_body_index, provider, QueryResult, Query,
}
use katana.Events.Page
use katana.Events.Fetch.{Provider, PendingTx, fetch_events_at_blocks, fetch_pending_events}
use katana.Rpc.Token.{
  ContinuationToken, ParseIntError, ContinuationTokenError, invalid_token, parse_failed,
  ParseResult, print, MaybeForkedContinuationToken, forked, token, to_token, parse_maybe_forked,
  print_maybe_forked,
}
use katana.Rpc.Token

-- The variants of `StarknetApiError` that a query of events gives of itself, the reason of an
-- unexpected error before it is printed, and what the forked network's provider answers.
pub data Reason : Type 0 where
  invalid_block_range unexpected_pending_data : Reason
  query : QueryError → Reason
  number : ParseIntError → Reason

pub data StarknetApiError : Type 0 where
  block_not_found invalid_continuation_token : StarknetApiError
  page_size_too_big : ℕ → ℕ → StarknetApiError
  unexpected_error : Reason → StarknetApiError
  of_provider : ℕ → StarknetApiError

pub data ApiResult (A : Type 0) : Type 0 where
  ok : A → ApiResult A
  err : StarknetApiError → ApiResult A

module _ {A B : Type 0} where
  infixl 1 ◌>>=◌
  abbrev pub ◌>>=◌ : ApiResult A → (A → ApiResult B) → ApiResult B
  ok a >>= f = f a
  err e >>= f = err e

abbrev pub of_query_error : QueryError → StarknetApiError
of_query_error invalid_cursor = invalid_continuation_token
of_query_error e = unexpected_error (query e)

abbrev pub of_token_error : ContinuationTokenError → StarknetApiError
of_token_error invalid_token = invalid_continuation_token
of_token_error (parse_failed e) = unexpected_error (number e)

-- `?` on the results of the queries and of the parser.
abbrev pub of_query : {A : Type 0} → QueryResult A → ApiResult A
of_query (Page.ok a) = ok a
of_query (Page.err e) = err (of_query_error e)

unfoldable pub of_parse : {A : Type 0} → ParseResult A → ApiResult A
of_parse (Token.ok a) = ok a
of_parse (Token.err e) = err (of_token_error e)

abbrev pub ok_or : {A : Type 0} → Option A → StarknetApiError → ApiResult A
ok_or none e = err e
ok_or (some a) e = ok a

pub data BlockIdOrTag : Type 0 where
  number_id hash_id : ℕ → BlockIdOrTag
  latest_tag pending_tag : BlockIdOrTag

pub data EventBlockId : Type 0 where
  pending : EventBlockId
  num : ℕ → EventBlockId

pub record EventsPage : Type 0 where
  pub events : List EmittedEvent
  pub continuation_token : Option (List ℕ)

-- The provider of the forked network answers with the conversion of its errors. A pending block has no
-- number.
pub record ForkedProvider : Type 0 where
  pub block_number : ℕ → ApiResult (Option ℕ)
  pub events_page : ℕ → ℕ → Filter → Option (List ℕ) → ℕ → ApiResult EventsPage

pub record ForkedClient : Type 0 where
  pub network : ForkedProvider
  pub block : ℕ

pub record PendingBlock : Type 0 where
  pub number_of : ℕ
  pub transactions : List PendingTx

-- What a query of events reads of `StarknetApiInner`: the blocks, the pending block of an interval
-- block producer, the forked client and the configuration.
pub record Node : Type 0 where
  pub blocks : Provider
  pub latest_number : QueryResult ℕ
  pub block_number_by_hash : ℕ → QueryResult (Option ℕ)
  pub pending_executor : Option PendingBlock
  pub forked_client : Option ForkedClient
  pub max_event_page_size : Option ℕ

unfoldable pub get_block_number_by_hash : ForkedClient → ℕ → ApiResult ℕ
get_block_number_by_hash client hash = client.network.block_number hash >>= λ block. elim block [
  | none ↦ err (unexpected_error unexpected_pending_data)
  | some block_number ↦
      if ltb client.block block_number then err block_not_found else ok block_number
]

unfoldable pub get_events :
    ForkedClient → ℕ → ℕ → Filter → Option (List ℕ) → ℕ → ApiResult EventsPage
get_events client from to filter continuation_token chunk_size =
    if ltb client.block from || ltb client.block to
    then err block_not_found
    else client.network.events_page from to filter continuation_token chunk_size

unfoldable pub resolve_event_block_id_if_forked : Node → BlockIdOrTag → ApiResult EventBlockId
resolve_event_block_id_if_forked node pending_tag = ok pending
resolve_event_block_id_if_forked node (number_id n) = ok (num n)
resolve_event_block_id_if_forked node latest_tag = of_query node.latest_number >>= λ n. ok (num n)
resolve_event_block_id_if_forked node (hash_id hash) =
    of_query (node.block_number_by_hash hash) >>= λ local. elim local [
      | some n ↦ ok (num n)
      | none ↦ elim node.forked_client [
        | some client ↦ get_block_number_by_hash client hash >>= λ n. ok (num n)
        | none ↦ err block_not_found
      ]
    ]

unfoldable pub into_rpc_cursor : Cursor → ContinuationToken
into_rpc_cursor c = record { block_n = c.block; txn_n = c.txn.idx; event_n = c.txn.event }

unfoldable pub into_cursor : ContinuationToken → Cursor
into_cursor t = new t.block_n t.txn_n t.event_n

-- The cursor of a request, where its token is one of this node.
abbrev pub cursor_of : Option MaybeForkedContinuationToken → Option Cursor
cursor_of none = none
cursor_of (some t) = elim (to_token t) [ none ↦ none | some own ↦ some (into_cursor own) ]

-- The token for the forked network, or `none` where its blocks are passed over.
abbrev pub forked_token : Option MaybeForkedContinuationToken → Option (Option (List ℕ))
forked_token none = some none
forked_token (some (token t)) = none
forked_token (some (forked t)) = some (some t)

-- A query that ends in the forked network's blocks, or goes on from a local block.
pub data AfterFork : Type 0 where
  early : EventsPage → AfterFork
  local_from : ℕ → List EmittedEvent → AfterFork

abbrev pub after_forked_page : ForkedClient → EventsPage → AfterFork
after_forked_page client page = elim page.continuation_token [
  | none ↦ local_from (client.block + 1) page.events
  | some t ↦
      early
        (record { events = page.events; continuation_token = some (print_maybe_forked (forked t)) })
]

unfoldable pub fetch_forked :
    ForkedClient → ℕ → ℕ → Query → Option MaybeForkedContinuationToken → ApiResult AfterFork
fetch_forked client from to q continuation_token =
    if leb from client.block
    then elim (forked_token continuation_token) [
      | some t ↦ get_events client from to q.filter t q.chunk_size >>= λ page.
          ok (after_forked_page client page)
      | none ↦ ok (local_from (client.block + 1) [])
    ]
    else ok (local_from (client.block + 1) [])

-- `from_after_forked_if_any`, with the events of the forked network before it.
unfoldable pub from_after_forked_if_any :
    Node → ℕ → (ℕ → ℕ) → Query → Option MaybeForkedContinuationToken → ApiResult AfterFork
from_after_forked_if_any node from to q continuation_token = elim node.forked_client [
  | none ↦ ok (local_from from [])
  | some client ↦ fetch_forked client from (to client.block) q continuation_token
]

-- The page of a local query, with its cursor printed.
abbrev pub local_token : Option Cursor → Option (List ℕ)
local_token none = none
local_token (some c) = some (print (into_rpc_cursor c))

abbrev pub blocks_page : Option Cursor × List EmittedEvent → EventsPage
blocks_page (cursor, events) = record { events = events; continuation_token = local_token cursor }

unfoldable pub events_of_blocks :
    Node → ℕ → ℕ → Query → Option MaybeForkedContinuationToken → ApiResult EventsPage
events_of_blocks node from to q continuation_token =
    from_after_forked_if_any node from (λ fork. if leb to fork then to else fork) q
      continuation_token
    >>= λ forked_answer. elim forked_answer [
      | early page ↦ ok page
      | local_from start buffer ↦
          of_query
            (fetch_events_at_blocks node.blocks start to q (cursor_of continuation_token) buffer)
          >>= λ r. ok (blocks_page r)
    ]

abbrev pub pending_page : Cursor × List EmittedEvent → EventsPage
pending_page (cursor, events) = blocks_page (some cursor, events)

-- The pending block after local blocks up to `latest`; the cursor is the one of the request.
unfoldable pub then_pending :
    Node → ℕ → Query → Option Cursor → Option Cursor × List EmittedEvent → EventsPage
then_pending node latest q cursor (some c, events) = blocks_page (some c, events)
then_pending node latest q cursor (none, events) = elim node.pending_executor [
  | some block ↦
      pending_page (fetch_pending_events block.number_of block.transactions q cursor events)
  | none ↦ blocks_page (some (new_block (latest + 1)), events)
]

unfoldable pub events_up_to_pending :
    Node → ℕ → Query → Option MaybeForkedContinuationToken → ApiResult EventsPage
events_up_to_pending node from q continuation_token =
    from_after_forked_if_any node from (λ fork. fork) q continuation_token >>= λ forked_answer.
    elim forked_answer [
      | early page ↦ ok page
      | local_from start buffer ↦ of_query node.latest_number >>= λ latest.
          of_query (
            fetch_events_at_blocks node.blocks start latest q (cursor_of continuation_token) buffer)
          >>= λ r. ok (then_pending node latest q (cursor_of continuation_token) r)
    ]

unfoldable pub events_of_pending :
    Node → Query → Option MaybeForkedContinuationToken → ApiResult EventsPage
events_of_pending node q continuation_token = elim node.pending_executor [
  | some block ↦ ok (
      pending_page (
        fetch_pending_events block.number_of block.transactions q (cursor_of continuation_token)
          []))
  | none ↦ of_query node.latest_number >>= λ latest. ok (blocks_page (some (new_block latest), []))
]

abbrev pub events_between :
    Node
    → EventBlockId
    → EventBlockId
    → Query
    → Option MaybeForkedContinuationToken
    → ApiResult EventsPage
events_between node (num from) (num to) q continuation_token =
    events_of_blocks node from to q continuation_token
events_between node (num from) pending q continuation_token =
    events_up_to_pending node from q continuation_token
events_between node pending pending q continuation_token =
    events_of_pending node q continuation_token
events_between node pending (num to) q continuation_token =
    err (unexpected_error invalid_block_range)

unfoldable pub events_inner :
    Node
    → BlockIdOrTag
    → BlockIdOrTag
    → Query
    → Option MaybeForkedContinuationToken
    → ApiResult EventsPage
events_inner node from_block to_block q continuation_token =
    resolve_event_block_id_if_forked node from_block >>= λ from.
    resolve_event_block_id_if_forked node to_block >>= λ to.
    events_between node from to q continuation_token

-- The request: an absent block is the first one, or the pending one.
pub record EventFilter : Type 0 where
  pub first : Option BlockIdOrTag
  pub last : Option BlockIdOrTag
  pub address : Option ℕ
  pub keys : Option (List (List ℕ))

pub record ResultPageRequest : Type 0 where
  pub token_text : Option (List ℕ)
  pub chunk : ℕ

-- `Option::filter` on the keys.
unfoldable pub kept_keys : Option (List (List ℕ)) → Option (List (List ℕ))
kept_keys none = none
kept_keys (some keys) = if not ((length keys == 1) && (length keys == 0)) then some keys else none

unfoldable pub parse_token : Option (List ℕ) → ApiResult (Option MaybeForkedContinuationToken)
parse_token none = ok none
parse_token (some text) = of_parse (parse_maybe_forked text) >>= λ t. ok (some t)

unfoldable pub too_big : Option ℕ → ℕ → Option StarknetApiError
too_big none chunk_size = none
too_big (some max_size) chunk_size =
    if ltb max_size chunk_size then some (page_size_too_big chunk_size max_size) else none

unfoldable pub events : Node → EventFilter → ResultPageRequest → ApiResult EventsPage
events node event_filter request = elim (too_big node.max_event_page_size request.chunk) [
  | some e ↦ err e
  | none ↦ parse_token request.token_text >>= λ continuation_token.
      events_inner node (unwrap_or (number_id 0) event_filter.first)
        (unwrap_or pending_tag event_filter.last)
        (record {
          filter = record { address = event_filter.address; keys = kept_keys event_filter.keys };
          chunk_size = request.chunk;
        })
        continuation_token
]
