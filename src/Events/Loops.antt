-- ===== src/Events/Loops.antt =====
-- The loops over transactions of crates/rpc/rpc/src/utils/events.rs, against pages of events.
use katana.Base.{
  ℕ, suc, ◌≤◌, ◌<◌, ◌≡◌, refl, ap, ◌∙◌, sym, subst, ◌⊎◌, inl, inr, Option, none, some, List, [],
  ◌∷◌, ◌++◌, arith, length, drop, append-nil, append_assoc, drop_all, drop-suc,
}
use katana.Events.Filter.{Event}
use katana.Events.Page.{
  EmittedEvent, PartialCursor, Query, enumerate, or_continue, fetch_txs, fetch_tx_events,
}
use katana.Events.Spec.{tx_events, txs_events, from_event, after_partial, IsPage}
use katana.Events.Refine.{left_of, At, fetch_tx_events-IsPage, length-filtered-le}

-- A page of nothing.
pub IsPage_empty :
    {C : Type 0} {chunk : ℕ} (buffer : List EmittedEvent) (rest : Option C → List EmittedEvent)
    → length buffer ≤ chunk
    → rest none ≡ []
    → IsPage chunk buffer [] rest (none, buffer)
IsPage_empty buffer rest fits e = record {
  page = [];
  buffer_eq = sym (append-nil buffer);
  all_eq = sym e;
  within = fits;
  full = λ c p. cc;
}

-- A page, followed by a page of what comes next if the first gives no cursor.
pub or_continue-IsPage :
    {chunk : ℕ} (buffer A B : List EmittedEvent)
    (first rest : Option PartialCursor → List EmittedEvent)
    (r : Option PartialCursor × List EmittedEvent)
    (k : List EmittedEvent → Option PartialCursor × List EmittedEvent)
    → IsPage chunk buffer A first r
    → first none ≡ []
    → ((c : PartialCursor) → r.0 ≡ some c → rest (some c) ≡ first (some c) ++ B)
    → ((b : List EmittedEvent) → length b ≤ chunk → IsPage chunk b B rest (k b))
    → IsPage chunk buffer (A ++ B) rest (or_continue r k)
or_continue-IsPage buffer A B first rest (some c, b) k v z s n = record {
  page = v.page;
  buffer_eq = v.buffer_eq;
  all_eq = rw (v.all_eq, s c refl) (append_assoc v.page (first (some c)) B);
  within = v.within;
  full = v.full;
}
or_continue-IsPage {chunk} buffer A B first rest (none, b) k v z s n =
    let w : IsPage chunk b B rest (k b) = n b v.within in
    record {
      page = v.page ++ w.page;
      buffer_eq =
          w.buffer_eq ∙ ap (λ x. x ++ w.page) v.buffer_eq ∙ append_assoc buffer v.page w.page;
      all_eq =
          rw (v.all_eq, z, append-nil v.page)
            (ap (◌++◌ v.page) w.all_eq ∙ sym (append_assoc v.page w.page (rest (k b).0)));
      within = w.within;
      full = w.full;
    }

-- Where a loop begins in the transaction with index `i`: at event `e`, or behind the transaction.
abbrev pub StartsAt : (ℕ → List Event → Option ℕ) → ℕ → ℕ → Type 0
StartsAt start i e =
    (es : List Event) → (start i es ≡ some e) ⊎ ((start i es ≡ none) × (length es ≤ e))

module _ (q : Query) (bn bh : Option ℕ) (whole : List (ℕ × List Event))
    (start : ℕ → List Event → Option ℕ) where
  pub from_event_zero :
      (txs : List (ℕ × List Event))
      → from_event q.filter bn bh 0 txs ≡ txs_events q.filter bn bh txs
  from_event_zero [] = refl
  from_event_zero (tx ∷ txs) = refl

  passed :
      (e h : ℕ) (es : List Event) → length es ≤ e → drop e (tx_events q.filter bn bh (h, es)) ≡ []
  passed e h es le = drop_all e _ (omega (arith, length-filtered-le q.filter bn bh h es))

  first :
      (e h : ℕ) (es : List Event) (i : ℕ) (txs : List (ℕ × List Event)) (buffer : List EmittedEvent)
      → drop i whole ≡ (h, es) ∷ txs
      → length buffer ≤ q.chunk_size
      → (k : List EmittedEvent → Option PartialCursor × List EmittedEvent)
      → ((b : List EmittedEvent)
          → length b ≤ q.chunk_size
          → IsPage q.chunk_size b
              (txs_events q.filter bn bh txs)
              (after_partial q.filter bn bh whole)
              (k b))
      → IsPage q.chunk_size buffer
          (from_event q.filter bn bh e ((h, es) ∷ txs))
          (after_partial q.filter bn bh whole)
          (or_continue (fetch_tx_events q e bn bh i h es buffer) k)
  first e h es i txs buffer d fits k others =
      let here = fetch_tx_events-IsPage q e bn bh i h es buffer fits in
      or_continue-IsPage buffer _ _ (left_of (tx_events q.filter bn bh (h, es))) _ _ k here.0 refl
        (λ c p. points c (subst (At i) p here.1)) others
    where
      points :
          (c : PartialCursor)
          → c.idx ≡ i
          → after_partial q.filter bn bh whole (some c)
            ≡ drop c.event (tx_events q.filter bn bh (h, es)) ++ txs_events q.filter bn bh txs
      points c p = rw (p, d)

  pub fetch_txs-IsPage :
      (i e : ℕ) (txs : List (ℕ × List Event)) (buffer : List EmittedEvent)
      → drop i whole ≡ txs
      → StartsAt start i e
      → ((j : ℕ) (es : List Event) → i < j → start j es ≡ some 0)
      → length buffer ≤ q.chunk_size
      → IsPage q.chunk_size buffer
          (from_event q.filter bn bh e txs)
          (after_partial q.filter bn bh whole)
          (fetch_txs q start bn bh (enumerate i txs) buffer)
  unfolding fetch_txs
  fetch_txs-IsPage i e [] buffer d s later fits = IsPage_empty buffer _ fits refl
  fetch_txs-IsPage i e ((h, es) ∷ txs) buffer d s later fits =
      let others : (b : List EmittedEvent)
          → length b ≤ q.chunk_size
          → IsPage q.chunk_size b (txs_events q.filter bn bh txs)
              (after_partial q.filter bn bh whole)
              (fetch_txs q start bn bh (enumerate (suc i) txs) b) =
        λ b le. rw (← (from_event_zero txs)) (
          fetch_txs-IsPage (suc i) 0 txs b (drop-suc i whole d)
            (λ es'. inl (later (suc i) es' (omega arith))) (λ j es' lt. later j es' (omega arith))
            le) in
      elim (s es) [
        | inl at ↦ rw at (first e h es i txs buffer d fits _ others)
        | inr (out, beyond) ↦ rw (out, passed e h es beyond) (others buffer fits)
      ]
