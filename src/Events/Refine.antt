-- ===== src/Events/Refine.antt =====
-- `fetch_tx_events` of crates/rpc/rpc/src/utils/events.rs, against pages of events.
use katana.Base.{
  ℕ, zero, suc, ◌+◌, ◌-◌, ◌≤◌, ◌<◌, ◌≡◌, refl, ap, ◌∙◌, sym, ◌⊎◌, inl, inr, Bool, false, Option,
  none, some, List, [], ◌∷◌, ◌++◌, arith, ltb, leb, ◌==◌, ◌&&◌, if◌then◌else◌, length, take, drop,
  length-append, length-take, take-append-drop, drop_all, length-retain-le, drop-drop,
  drop-length-take, drop_nil, drop_beyond, length-map, Bool-cases,
}
use katana.Events.Filter.{is_matched, Event, Filter, filtered_events}
use katana.Events.Page.{
  EmittedEvent, PartialCursor, Query, emitted, enumerate, fetch_tx_events, new_last_event,
  take_events,
}
use katana.Events.Spec.{
  tx_events, IsPage, values-enumerate, drop-enumerate, take-enumerate, last-enumerate,
}

new_last-nil : (n k : ℕ) → new_last_event n k [] ≡ (if k == 0 then n + k else n + k + 1)
unfolding new_last_event
new_last-nil n k = refl

new_last-cons :
    (n k : ℕ) (x : EmittedEvent) (xs : List EmittedEvent)
    → 0 < k
    → new_last_event n k (enumerate n (x ∷ xs)) ≡ n + suc (length xs)
unfolding new_last_event
new_last-cons n k x xs h = rw (last-enumerate n x xs) (ground arith)

take-drop-nil {ℓ} : {A : Type ℓ} (k : ℕ) (xs : List A) → take k xs ≡ [] → (k ≡ 0) ⊎ (xs ≡ [])
take-drop-nil zero xs h = inl refl
take-drop-nil (suc k) [] h = inr refl
take-drop-nil (suc k) (x ∷ xs) h = cc

-- Past the index of the next event stands just what was not taken.
drop-new_last :
    (n k : ℕ) (all xs : List EmittedEvent)
    → take k (drop n all) ≡ xs
    → drop (new_last_event n k (enumerate n xs)) all ≡ drop k (drop n all)
drop-new_last n k all [] h = elim (take-drop-nil k (drop n all) h) [
  | inl e ↦ rw (new_last-nil, e) (sym (drop-drop n 0 all))
  | inr e ↦
      rw (e, drop_nil k)
        (drop_beyond n (new_last_event n k []) all (rw new_last-nil (ground arith)) e)
]
drop-new_last zero zero all (x ∷ xs) h = cc
drop-new_last (suc n) zero all (x ∷ xs) h = cc
drop-new_last n (suc k) all (x ∷ xs) h = rw (new_last-cons n (suc k) x xs (omega arith)) (
    sym (drop-drop n (suc (length xs)) all)
    ∙ (rw (← (ap length h)) (drop-length-take (suc k) (drop n all))))

pub length-filtered-le :
    (f : Filter) (bn bh : Option ℕ) (h : ℕ) (es : List Event)
    → length (tx_events f bn bh (h, es)) ≤ length es
unfolding tx_events filtered_events
length-filtered-le f bn bh h es = omega (
  arith,
  length-map {0, 0} (filtered_events f es) (emitted bn bh h),
  length-retain-le {0} (λ e. is_matched f e) es,
)

-- The events that a transaction's cursor leaves.
abbrev pub left_of : List EmittedEvent → Option PartialCursor → List EmittedEvent
left_of all none = []
left_of all (some c) = drop c.event all

-- A cursor into the transactions points to this one.
abbrev pub At : ℕ → Option PartialCursor → Type 0
At i none = Unit
At i (some c) = c.idx ≡ i

module _ (q : Query) (n tx_idx : ℕ) (events : List Event) (buffer all : List EmittedEvent) where
  -- Nothing is left if the chunk is not full, or the next index is beyond the events.
  all_taken :
      (k : ℕ) (xs : List EmittedEvent)
      → k ≡ q.chunk_size - length buffer
      → length all ≤ length events
      → take k (drop n all) ≡ xs
      → (leb q.chunk_size (length (buffer ++ xs))
          && ltb (new_last_event n k (enumerate n xs)) (length events))
        ≡ false
      → drop k (drop n all) ≡ []
  all_taken k xs ek le h e = elim (Bool-cases (leb q.chunk_size (length (buffer ++ xs)))) [
    | inl f ↦ sym (drop-new_last n k all xs h) ∙ drop_all _ all (ground (arith, f, e, le))
    | inr f ↦ drop_all k (drop n all) (
        ground (
          arith,
          f,
          length-append buffer xs,
          length-take k (drop n all),
          ap (length {A = EmittedEvent}) h,
          ek,
        ))
  ]

  take_events-IsPage :
      (k : ℕ) (xs : List EmittedEvent)
      → k ≡ q.chunk_size - length buffer
      → length buffer ≤ q.chunk_size
      → length all ≤ length events
      → take k (drop n all) ≡ xs
      → let r = take_events q n tx_idx events buffer k (enumerate n xs) in
        IsPage q.chunk_size buffer (drop n all) (left_of all) r × At tx_idx r.0
  unfolding take_events
  take_events-IsPage k xs ek fits le h = rw values-enumerate (elim (Bool-cases more) [
    | inl e ↦ rw e (
      record {
        page = xs;
        buffer_eq = refl;
        all_eq = split ∙ ap (◌++◌ xs) (sym (drop-new_last n k all xs h));
        within = bound;
        full = λ c p. ground (arith, bound, e);
      },
      refl,
    )
    | inr e ↦ rw e (
      record {
        page = xs;
        buffer_eq = refl;
        all_eq = split ∙ ap (◌++◌ xs) (all_taken k xs ek le h e);
        within = bound;
        full = λ c p. cc;
      },
      tt,
    )
  ])
    where
      bound : length (buffer ++ xs) ≤ q.chunk_size
      bound =
          omega (arith, length-append {0} buffer xs, length-take {0} k (drop n all), ap length h)

      split : drop n all ≡ xs ++ drop k (drop n all)
      split = sym (take-append-drop k (drop n all)) ∙ ap (λ ys. ys ++ drop k (drop n all)) h

      more : Bool
      more =
          leb q.chunk_size (length (buffer ++ xs))
          && ltb (new_last_event n k (enumerate n xs)) (length events)

-- One transaction gives a page of its matching events from the `n`th on.
pub fetch_tx_events-IsPage :
    (q : Query) (n : ℕ) (bn bh : Option ℕ) (tx_idx tx_hash : ℕ) (events : List Event)
    (buffer : List EmittedEvent)
    → length buffer ≤ q.chunk_size
    → let all = tx_events q.filter bn bh (tx_hash, events) in
      let r = fetch_tx_events q n bn bh tx_idx tx_hash events buffer in
      IsPage q.chunk_size buffer (drop n all) (left_of all) r × At tx_idx r.0
unfolding fetch_tx_events tx_events
fetch_tx_events-IsPage q n bn bh tx_idx tx_hash events buffer fits =
    rw (drop-enumerate, take-enumerate)
      (let e : 0 + n ≡ n = omega arith in
        rw e (
          take_events-IsPage q n tx_idx events buffer all _ _ refl fits
            (length-filtered-le q.filter bn bh tx_hash events) refl))
  where
    all : List EmittedEvent
    all = tx_events q.filter bn bh (tx_hash, events)
