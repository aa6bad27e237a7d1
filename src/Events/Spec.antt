-- ===== src/Events/Spec.antt =====
-- The events that a cursor of an event query (crates/rpc/rpc/src/utils/events.rs) still has before
-- it, and pages of them.
use katana.Base.{
  ℕ, zero, suc, ◌+◌, ◌-◌, ◌≤◌, ◌≡◌, refl, ap, ◌∙◌, Option, none, some, List, [], ◌∷◌, ◌++◌, map,
  arith, length, take, drop, last?,
}
use katana.Events.Filter.{Event, Filter, filtered_events}
use katana.Events.Page.{EmittedEvent, PartialCursor, Cursor, emitted, enumerate, index_of, value_of}

-- A block as the provider serves it: its hash, and its transactions' hashes and events.
pub record Block : Type 0 where
  pub hash : ℕ
  pub txs : List (ℕ × List Event)

module _ (f : Filter) (block_number block_hash : Option ℕ) where
  unfoldable pub tx_events : ℕ × List Event → List EmittedEvent
  tx_events (tx_hash, events) =
      map (emitted block_number block_hash tx_hash) (filtered_events f events)

  -- All the matching events of transactions, in order.
  abbrev pub txs_events : List (ℕ × List Event) → List EmittedEvent
  txs_events [] = []
  txs_events (tx ∷ txs) = tx_events tx ++ txs_events txs

  -- Those from the `event`th matching event of the first transaction on.
  abbrev pub from_event : ℕ → List (ℕ × List Event) → List EmittedEvent
  from_event event [] = []
  from_event event (tx ∷ txs) = drop event (tx_events tx) ++ txs_events txs

  -- Those that a cursor has before it in a block.
  abbrev pub after_partial : List (ℕ × List Event) → Option PartialCursor → List EmittedEvent
  after_partial txs none = []
  after_partial txs (some c) = from_event c.event (drop c.idx txs)

abbrev pub block_events : Filter → (ℕ → Block) → ℕ → List EmittedEvent
block_events f chain n = txs_events f (some n) (some (chain n).hash) (chain n).txs

-- The matching events of `rounds` blocks from block `n` on.
abbrev pub blocks_events : Filter → (ℕ → Block) → ℕ → ℕ → List EmittedEvent
blocks_events f chain n zero = []
blocks_events f chain n (suc rounds) =
    block_events f chain n ++ blocks_events f chain (suc n) rounds

abbrev rest_events : Filter → (ℕ → Block) → Cursor → ℕ → List EmittedEvent
rest_events f chain c zero = []
rest_events f chain c (suc rounds) =
    after_partial f (some c.block) (some (chain c.block).hash) (chain c.block).txs (some c.txn)
    ++ blocks_events f chain (suc c.block) rounds

-- The matching events that a cursor has before it, up to block `end` inclusive.
abbrev pub cursor_events : Filter → (ℕ → Block) → ℕ → Option Cursor → List EmittedEvent
cursor_events f chain end none = []
cursor_events f chain end (some c) = rest_events f chain c (end + 1 - c.block)

-- `buffer` was extended by `page`; `page` and what comes after the next cursor make up `all`;
-- the chunk size is kept to, and a next cursor is given only with a full chunk.
pub record IsPage {C : Type 0} (chunk : ℕ) (buffer all : List EmittedEvent)
    (rest : Option C → List EmittedEvent) (r : Option C × List EmittedEvent) : Type 0 where
  pub page : List EmittedEvent
  pub buffer_eq : r.1 ≡ buffer ++ page
  pub all_eq : all ≡ page ++ rest r.0
  pub within : length r.1 ≤ chunk
  pub full : (c : C) → r.0 ≡ some c → length r.1 ≡ chunk

module _ {ℓ} {A : Type ℓ} where
  pub values-enumerate : (i : ℕ) (xs : List A) → map value_of (enumerate i xs) ≡ xs
  values-enumerate i [] = refl
  values-enumerate i (x ∷ xs) = ap (◌∷◌ x) (values-enumerate (suc i) xs)

  pub drop-enumerate :
      (n i : ℕ) (xs : List A) → drop n (enumerate i xs) ≡ enumerate (i + n) (drop n xs)
  drop-enumerate zero i xs = ap (λ k. enumerate k xs) (omega arith)
  drop-enumerate (suc n) i [] = refl
  drop-enumerate (suc n) i (x ∷ xs) =
      drop-enumerate n (suc i) xs ∙ ap (λ k. enumerate k (drop n xs)) (omega arith)

  pub take-enumerate : (n i : ℕ) (xs : List A) → take n (enumerate i xs) ≡ enumerate i (take n xs)
  take-enumerate zero i xs = refl
  take-enumerate (suc n) i [] = refl
  take-enumerate (suc n) i (x ∷ xs) = ap (◌∷◌ (i, x)) (take-enumerate n (suc i) xs)

  pub last-enumerate :
      (i : ℕ) (x : A) (xs : List A)
      → last? (map index_of (enumerate i (x ∷ xs))) ≡ some (i + length xs)
  last-enumerate i x [] = ap some (omega arith)
  last-enumerate i x (y ∷ ys) = last-enumerate (suc i) y ys ∙ ap some (omega arith)
