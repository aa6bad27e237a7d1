-- ===== src/Events/Blocks.antt =====
-- `fetch_events_at_blocks` of crates/rpc/rpc/src/utils/events.rs, against the events that a cursor
-- has before it.
use katana.Base.{
  ℕ, zero, suc, ◌+◌, ◌-◌, ◌≤◌, ◌<◌, ◌≡◌, refl, ap, ◌∙◌, sym, inl, inr, Bool, true, false, Option,
  none, some, List, [], ◌∷◌, ◌++◌, map, arith, ltb, ◌==◌, ◌&&◌, if◌then◌else◌, length, drop,
  append-nil, append_assoc, drop_all, Bool-cases, ==_refl, unwrap_or,
}
use katana.Events.Filter.{Event}
use katana.Events.Page.{
  EmittedEvent, PartialCursor, Cursor, Query, QueryResult, ok, enumerate, zip, fetch_txs,
  next_event, new_block, into_full,
}
use katana.Events.Fetch.{
  BodyIndices, Provider, fetch_block, fetch_blocks, fetch_events_at_blocks, after_block,
}
use katana.Events.Spec.{
  Block, after_partial, IsPage, block_events, blocks_events, cursor_events, drop-enumerate,
}
use katana.Events.Loops.{IsPage_empty, StartsAt, fetch_txs-IsPage, from_event_zero}

-- The provider serves the blocks of `chain` up to `end`: it knows each block's hash, and it has a
-- receipt and a hash for each of its transactions.
pub record Serves (p : Provider) (chain : ℕ → Block) (end : ℕ) : Type 0 where
  pub indices : ℕ → BodyIndices
  pub hash : (n : ℕ) → n ≤ end → p.block_hash_by_num n ≡ ok (some (chain n).hash)
  pub receipts :
      (n : ℕ) → n ≤ end → p.receipts_by_block n ≡ ok (some (map (λ tx. tx.1) (chain n).txs))
  pub index : (n : ℕ) → n ≤ end → p.block_body_indices n ≡ ok (some (indices n))
  pub hashes :
      (n : ℕ)
      → n ≤ end
      → p.transaction_hashes_in_range
          (indices n).tx_offset
          ((indices n).tx_offset + (indices n).tx_count)
        ≡ ok (map (λ tx. tx.0) (chain n).txs)

zip-unzip : (txs : List (ℕ × List Event)) → zip (map (λ tx. tx.0) txs) (map (λ tx. tx.1) txs) ≡ txs
zip-unzip [] = refl
zip-unzip (tx ∷ txs) = ap (◌∷◌ tx) (zip-unzip txs)

length-receipts : (txs : List (ℕ × List Event)) → length (map (λ tx. tx.1) txs) ≡ length txs
length-receipts [] = refl
length-receipts (tx ∷ txs) = ap suc (length-receipts txs)

if-ok {ℓ} : {A : Type ℓ} (b : Bool) (x y : A) → (if b then ok x else ok y) ≡ ok (if b then x else y)
if-ok true x y = refl
if-ok false x y = refl

module _ (p : Provider) (chain : ℕ → Block) (end : ℕ) (v : Serves p chain end) (q : Query)
    (c : Cursor) where
  abbrev rest_of : ℕ → Option PartialCursor → List EmittedEvent
  rest_of n = after_partial q.filter (some n) (some (chain n).hash) (chain n).txs

  abbrev pub scan : ℕ → List EmittedEvent → Option PartialCursor × List EmittedEvent
  scan n buffer =
      if n == c.block && ltb (length (chain n).txs) c.txn.idx
      then (none, buffer)
      else fetch_txs q (next_event c n) (some n) (some (chain n).hash)
          (drop (if n == c.block then c.txn.idx else 0) (enumerate 0 (chain n).txs)) buffer

  pub fetch_block-eq-scan :
      (n : ℕ) (buffer : List EmittedEvent)
      → n ≤ end
      → fetch_block p q c n buffer ≡ ok (scan n buffer)
  unfolding fetch_block
  fetch_block-eq-scan n buffer le =
      simp (v.hash n le, v.receipts n le, v.index n le, v.hashes n le, zip-unzip, length-receipts)
        (if-ok _ _ _)

  -- A run of the rest of the loop that gives a page of `all`.
  abbrev Runs :
      List EmittedEvent
      → List EmittedEvent
      → QueryResult (Option Cursor × List EmittedEvent)
      → Type 0
  Runs buffer all run =
      (r : Option Cursor × List EmittedEvent) × (run ≡ ok r)
      × IsPage q.chunk_size buffer all (cursor_events q.filter chain end) r

  after_block-Runs :
      (n rounds : ℕ) (buffer A : List EmittedEvent) (r : Option PartialCursor × List EmittedEvent)
      (k : List EmittedEvent → QueryResult (Option Cursor × List EmittedEvent))
      → end + 1 - n ≡ suc rounds
      → IsPage q.chunk_size buffer A (rest_of n) r
      → ((b : List EmittedEvent)
          → length b ≤ q.chunk_size
          → Runs b (blocks_events q.filter chain (suc n) rounds) (k b))
      → Runs buffer (A ++ blocks_events q.filter chain (suc n) rounds) (after_block n k r)
  after_block-Runs n rounds buffer A (some t, b) k e w next = (
    (some (into_full t n), b),
    refl,
    record {
      page = w.page;
      buffer_eq = w.buffer_eq;
      all_eq = rw (e, w.all_eq) (append_assoc w.page (rest_of n (some t)) _);
      within = w.within;
      full = λ t' p. w.full t refl;
    },
  )
  after_block-Runs n rounds buffer A (none, b) k e w next =
      let (r, e', w') = next b w.within in
      (
        r,
        e',
        record {
          page = w.page ++ w'.page;
          buffer_eq =
              w'.buffer_eq
              ∙ ap (λ x. x ++ w'.page) w.buffer_eq
              ∙ append_assoc buffer w.page w'.page;
          all_eq =
              rw (w.all_eq, append-nil w.page)
                (ap (◌++◌ w.page) w'.all_eq ∙ sym (append_assoc w.page w'.page _));
          within = w'.within;
          full = w'.full;
        },
      )

  -- A block behind the cursor's is scanned whole.
  scan_later-IsPage :
      (n : ℕ) (buffer : List EmittedEvent)
      → c.block < n
      → length buffer ≤ q.chunk_size
      → IsPage q.chunk_size buffer (block_events q.filter chain n) (rest_of n) (scan n buffer)
  unfolding next_event
  scan_later-IsPage n buffer lt fits =
      let other : (n == c.block) ≡ false = ground arith in
      rw
        (
          other,
          ← (
              from_event_zero q (some n) (some (chain n).hash) (chain n).txs (next_event c n)
                (chain n).txs),
        )
        (fetch_txs-IsPage q _ _ (chain n).txs (next_event c n) 0 0 (chain n).txs buffer refl
          (λ es. inl (ground arith)) (λ j es lt'. ground arith) fits)

  scan_first-IsPage :
      (buffer : List EmittedEvent)
      → length buffer ≤ q.chunk_size
      → IsPage q.chunk_size buffer
          (rest_of c.block (some c.txn))
          (rest_of c.block)
          (scan c.block buffer)
  unfolding next_event
  scan_first-IsPage buffer fits =
      rw (==_refl c.block) (elim (Bool-cases (ltb (length txs) c.txn.idx)) [
        | inl e ↦ rw (e, drop_all c.txn.idx txs (ground arith)) (IsPage_empty buffer _ fits refl)
        | inr e ↦
            rw (e, drop-enumerate c.txn.idx 0 txs)
              (let z : 0 + c.txn.idx ≡ c.txn.idx = omega arith in
                rw z (
                  fetch_txs-IsPage q _ _ txs (next_event c c.block) c.txn.idx c.txn.event _ buffer
                    refl here (λ j es lt. ground arith) fits))
      ])
    where
      txs : List (ℕ × List Event)
      txs = (chain c.block).txs

      here : StartsAt (next_event c c.block) c.txn.idx c.txn.event
      here es = elim (Bool-cases (ltb c.txn.event (length es))) [
        | inl e ↦ inl (ground arith)
        | inr e ↦ inr (ground arith, ground arith)
      ]

  scan_rest-Runs :
      (n rounds : ℕ) (buffer : List EmittedEvent)
      → c.block < n
      → end + 1 - n ≡ rounds
      → length buffer ≤ q.chunk_size
      → Runs buffer (blocks_events q.filter chain n rounds) (fetch_blocks p q c n rounds buffer)
  unfolding fetch_blocks
  scan_rest-Runs n zero buffer lt e fits = ((none, buffer), refl, IsPage_empty buffer _ fits refl)
  scan_rest-Runs n (suc rounds) buffer lt e fits = rw (fetch_block-eq-scan n buffer (omega arith)) (
      after_block-Runs n rounds buffer _ _ _ e (scan_later-IsPage n buffer lt fits)
        (λ b le. scan_rest-Runs (suc n) rounds b (omega arith) (omega arith) le))

  scan_all-Runs :
      (rounds : ℕ) (buffer : List EmittedEvent)
      → end + 1 - c.block ≡ rounds
      → length buffer ≤ q.chunk_size
      → Runs buffer
          (cursor_events q.filter chain end (some c))
          (fetch_blocks p q c c.block rounds buffer)
  unfolding fetch_blocks
  scan_all-Runs zero buffer e fits = rw e ((none, buffer), refl, IsPage_empty buffer _ fits refl)
  scan_all-Runs (suc rounds) buffer e fits =
      rw (e, fetch_block-eq-scan c.block buffer (omega arith))
        (after_block-Runs c.block rounds buffer _ _ _ e (scan_first-IsPage buffer fits)
          (λ b le. scan_rest-Runs (suc c.block) rounds b (omega arith) (omega arith) le))

-- A query from a given cursor (or from the first block, if none is given) over a served chain
-- succeeds: it appends a page of the matching events that the cursor has before it, and these are
-- that page followed by the ones that the returned cursor has before it. The buffer never passes
-- the chunk size, and a cursor is returned only with a buffer that is full.
pub fetch_events_at_blocks-IsPage :
    (p : Provider) (chain : ℕ → Block) (start end : ℕ) (q : Query) (cursor : Option Cursor)
    (buffer : List EmittedEvent)
    → Serves p chain end
    → length buffer ≤ q.chunk_size
    → (r : Option Cursor × List EmittedEvent) × (fetch_events_at_blocks p start end q cursor buffer
        ≡ ok r)
      × IsPage q.chunk_size buffer
          (cursor_events q.filter chain end (some (unwrap_or (new_block start) cursor)))
          (cursor_events q.filter chain end)
          r
unfolding fetch_events_at_blocks
fetch_events_at_blocks-IsPage p chain start end q cursor buffer v fits =
    scan_all-Runs p chain end v q (unwrap_or (new_block start) cursor) _ buffer refl fits
