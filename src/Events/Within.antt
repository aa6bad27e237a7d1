-- ===== src/Events/Within.antt =====
-- The cursors that queries of crates/rpc/rpc/src/utils/events.rs return point into the blocks they read.
use katana.Base.{
  ℕ, zero, suc, ◌+◌, ◌-◌, ◌≤◌, ◌<◌, ◌≡◌, ◌∙◌, ◌⊎◌, refl, ap, sym, inl, inr, Bool, true, false,
  Option, none, some, List, [], ◌∷◌, arith, ltb, ◌==◌, ◌&&◌, if◌then◌else◌, length, drop, All,
  subst, Bool-cases, unwrap_or,
}
use katana.Events.Filter.{Event}
use katana.Events.Page.{
  EmittedEvent, PartialCursor, Cursor, Query, QueryResult, ok, err, enumerate, fetch_txs,
  fetch_tx_events, take_events, new_last_event, or_continue, new_block, ◌>>=◌,
}
use katana.Events.Fetch.{Provider, fetch_blocks, after_block, fetch_events_at_blocks}
use katana.Events.Spec.{Block}
use katana.Events.Blocks.{Serves, scan, fetch_block-eq-scan}

Option-cases {ℓ} : {A : Type ℓ} (o : Option A) → (o ≡ none) ⊎ ((a : A) × (o ≡ some a))
Option-cases none = inl refl
Option-cases (some a) = inr (a, refl)

module _ (bound : ℕ) where
  -- A transaction with its index, and a cursor into a block.
  abbrev SmallTx : ℕ × (ℕ × List Event) → Type 0
  SmallTx x = (x.0 < bound) × (length x.1.1 ≤ bound)

  abbrev Inside : Option PartialCursor → Type 0
  Inside none = Unit
  Inside (some c) = (c.idx < bound) × (c.event < bound)

  if-Inside :
      (a b : Bool) (c : PartialCursor) (buffer : List EmittedEvent)
      → (b ≡ true → Inside (some c))
      → Inside
          (if◌then◌else◌ {A = Option PartialCursor × List EmittedEvent}
            (a && b)
            (some c, buffer)
            (none, buffer)).0
  if-Inside true true c buffer h = h refl
  if-Inside true false c buffer h = tt
  if-Inside false b c buffer h = tt

  take_events-Inside :
      (q : Query) (n i : ℕ) (es : List Event) (buffer : List EmittedEvent) (k : ℕ)
      (taken : List (ℕ × EmittedEvent))
      → i < bound
      → length es ≤ bound
      → Inside (take_events q n i es buffer k taken).0
  unfolding take_events
  take_events-Inside q n i es buffer k taken small few =
      if-Inside _ (ltb (new_last_event n k taken) (length es))
        (record { idx = i; event = new_last_event n k taken }) _ (λ e. (small, ground arith))

  or_continue-Inside :
      (r : Option PartialCursor × List EmittedEvent)
      (rest : List EmittedEvent → Option PartialCursor × List EmittedEvent)
      → Inside r.0
      → ((b : List EmittedEvent) → Inside (rest b).0)
      → Inside (or_continue r rest).0
  or_continue-Inside (none, b) rest h k = k b
  or_continue-Inside (some c, b) rest h k = h

  fetch_txs-Inside :
      (q : Query) (start : ℕ → List Event → Option ℕ) (bn bh : Option ℕ)
      (xs : List (ℕ × (ℕ × List Event))) (buffer : List EmittedEvent)
      → All SmallTx xs
      → Inside (fetch_txs q start bn bh xs buffer).0
  unfolding fetch_txs fetch_tx_events
  fetch_txs-Inside q start bn bh [] buffer h = tt
  fetch_txs-Inside q start bn bh ((i, (tx_hash, es)) ∷ xs) buffer h =
      elim (Option-cases (start i es)) [
        | inl e ↦ rw (Inside, fetch_txs, e) (fetch_txs-Inside q start bn bh xs buffer h.1)
        | inr (next, e) ↦
            rw (Inside, fetch_txs, e)
              (or_continue-Inside (fetch_tx_events q next bn bh i tx_hash es buffer)
                (fetch_txs q start bn bh xs) (take_events-Inside q next i es buffer _ _ h.0.0 h.0.1)
                (λ b. fetch_txs-Inside q start bn bh xs b h.1))
      ]

  All-enumerate :
      (i : ℕ) (txs : List (ℕ × List Event))
      → i + length txs ≤ bound
      → All (λ tx. length tx.1 ≤ bound) txs
      → All SmallTx (enumerate i txs)
  All-enumerate i [] le h = tt
  All-enumerate i (tx ∷ txs) le h =
      ((omega arith, h.0), All-enumerate (suc i) txs (omega arith) h.1)

All-drop {ℓ} : {A : Type ℓ} (P : A → Type 0) (n : ℕ) (xs : List A) → All P xs → All P (drop n xs)
All-drop P zero xs h = h
All-drop P (suc n) [] h = h
All-drop P (suc n) (x ∷ xs) h = All-drop P n xs h.1

-- A block with fewer than `bound` transactions, of at most as many events each.
pub record SmallBlock (bound : ℕ) (b : Block) : Type 0 where
  pub few : length b.txs < bound
  pub each : All (λ tx. length tx.1 ≤ bound) b.txs

-- A cursor at a block up to `end`, with indices below `bound`.
abbrev pub Within : ℕ → ℕ → Option Cursor → Type 0
Within bound end none = Unit
Within bound end (some c) = (c.block ≤ end) × (c.txn.idx < bound) × (c.txn.event < bound)

ok-value {ℓ} : {A : Type ℓ} (x y : A) → QueryResult.ok x ≡ ok y → x ≡ y
ok-value x y e = ap (λ r. elim r [ ok a ↦ a | err _ ↦ x ]) e

module _ (p : Provider) (chain : ℕ → Block) (end : ℕ) (v : Serves p chain end) (q : Query)
    (bound : ℕ) (small : (n : ℕ) → n ≤ end → SmallBlock bound (chain n)) (c : Cursor) where
  scan-Inside :
      (n : ℕ) (buffer : List EmittedEvent)
      → n ≤ end
      → Inside bound (scan p chain end v q c n buffer).0
  scan-Inside n buffer le =
      elim (Bool-cases (n == c.block && ltb (length (chain n).txs) c.txn.idx)) [
        | inl e ↦ rw e tt
        | inr e ↦ rw e (
            fetch_txs-Inside bound q _ _ _ _ buffer (
              All-drop (SmallTx bound) _ _ (
                All-enumerate bound 0 (chain n).txs (omega (arith, (small n le).few))
                  (small n le).each)))
      ]

  after_block-Within :
      (n : ℕ) (k : List EmittedEvent → QueryResult (Option Cursor × List EmittedEvent))
      (s : Option PartialCursor × List EmittedEvent) (r : Option Cursor × List EmittedEvent)
      → n ≤ end
      → Inside bound s.0
      → ((b : List EmittedEvent) → k b ≡ ok r → Within bound end r.0)
      → after_block n k s ≡ ok r
      → Within bound end r.0
  after_block-Within n k (none, b) r le h rest e = rest b e
  after_block-Within n k (some t, b) r le h rest e =
      subst (λ r. Within bound end r.0) (ok-value _ r e) (le, h.0, h.1)

  fetch_blocks-Within :
      (rounds n : ℕ) (buffer : List EmittedEvent) (r : Option Cursor × List EmittedEvent)
      → rounds ≡ end + 1 - n
      → fetch_blocks p q c n rounds buffer ≡ ok r
      → Within bound end r.0
  unfolding fetch_blocks
  fetch_blocks-Within zero n buffer r le e = subst (λ r. Within bound end r.0) (ok-value _ r e) tt
  fetch_blocks-Within (suc rounds) n buffer r le e =
      after_block-Within n (fetch_blocks p q c (suc n) rounds) (scan p chain end v q c n buffer) r
        (omega arith) (scan-Inside n buffer (omega arith))
        (λ b. fetch_blocks-Within rounds (suc n) b r (omega arith))
        (ap (λ x. x >>= after_block n (fetch_blocks p q c (suc n) rounds))
            (sym (fetch_block-eq-scan p chain end v q c n buffer (omega arith)))
          ∙ e)

-- A query over a served chain of small blocks returns, if it returns a cursor, one into these blocks.
pub fetch_events_at_blocks-Within :
    (p : Provider) (chain : ℕ → Block) (start end : ℕ) (q : Query) (c : Option Cursor)
    (buffer : List EmittedEvent) (bound : ℕ) (r : Option Cursor × List EmittedEvent)
    → Serves p chain end
    → ((n : ℕ) → n ≤ end → SmallBlock bound (chain n))
    → fetch_events_at_blocks p start end q c buffer ≡ ok r
    → Within bound end r.0
unfolding fetch_events_at_blocks
fetch_events_at_blocks-Within p chain start end q c buffer bound r v small e =
    let from = unwrap_or (new_block start) c in
    fetch_blocks-Within p chain end v q bound small from (end + 1 - from.block) from.block buffer r
      refl e
