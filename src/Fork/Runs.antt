-- ===== src/Fork/Runs.antt =====
-- Runs of the backend of the forked provider: crates/storage/fork/src/lib.rs.
use katana.Base.{
  ℕ, ◌+◌, ◌≤◌, ◌≡◌, ◌≢◌, refl, sym, ap, subst, ◌∙◌, false, Option, none, some, List, [], ◌∷◌, ◌++◌,
  All, arith, length, Bool-cases, inl, inr, if◌then◌else◌,
}
use katana.Storage.Table.Contents.{some-value, none-some}
use katana.Fork.Backend.{
  Backend, BackendRequest, BackendRequestIdentifier, BackendRequestFuture, Network, RequestMap,
  Wake, Step, new_inner, handle_queued, poll_pending, after_polling, take_in, turn, resolves,
}
use katana.Fork.Sums.{sum_by, sum_by-append}
use katana.Fork.Keys.{hit, map_keys, waiting, same_refl}
use katana.Fork.Serves.{
  All-map, Weight, id_of, sender_of, answered, FromNetwork, pending_keys, Serves, asked,
  handle_queued-Serves,
}
use katana.Fork.Polls.{AnswersAll, poll_pending-Polled}

module _ {BlockId Class ProviderError : Type 0} where
  -- The rounds of the loop of `poll` of a new backend: what the channel gave, the provider's states in the
  -- rounds, the last one first, and the backend.
  pub data Runs (block : BlockId)
      : List BackendRequest
        → List (Network BlockId Class ProviderError)
        → Backend BlockId Class ProviderError
        → Type 0 where
    starts : Runs block [] [] (new_inner block)
    turns :
        {asked_for : List BackendRequest} {networks : List (Network BlockId Class ProviderError)}
        {b : Backend BlockId Class ProviderError}
        → Runs block asked_for networks b
        → (w : Wake BlockId Class ProviderError) (s : Step BlockId Class ProviderError)
          (b' : Backend BlockId Class ProviderError)
        → turn w b ≡ some (s, b')
        → Runs block (asked_for ++ w.incoming) (w.network ∷ networks) b'

  -- How often a request is answered, waits, or is queued.
  abbrev pub occurrences : Weight → Backend BlockId Class ProviderError → ℕ
  occurrences w b = answered w b.sent + waiting w b.request_dedup_map + asked w b.queued_requests

  abbrev pub Holds :
      List BackendRequest
      → List (Network BlockId Class ProviderError)
      → Backend BlockId Class ProviderError
      → BlockId
      → Type 0
  Holds rs networks b block =
      (taken : Weight → ℕ) × Serves networks taken block b
      × ((w : Weight) → taken w + asked w b.queued_requests ≡ asked w rs)

  -- A round of the loop does not panic, and answers what was asked before if every call has an answer.
  abbrev pub Turned :
      BlockId
      → Wake BlockId Class ProviderError
      → List BackendRequest
      → List (Network BlockId Class ProviderError)
      → Option (Step BlockId Class ProviderError × Backend BlockId Class ProviderError)
      → Type 0
  Turned block w rs networks o =
      (s : Step BlockId Class ProviderError) × (b' : Backend BlockId Class ProviderError) × (o
        ≡ some (s, b'))
      × Holds (rs ++ w.incoming) (w.network ∷ networks) b' block
      × (w.closed ≡ false
          → AnswersAll block w.network
          → (v : Weight) → answered v b'.sent ≡ asked v rs)

  no_waiting :
      (networks : List (Network BlockId Class ProviderError)) (total : Weight → ℕ) (block : BlockId)
      (b : Backend BlockId Class ProviderError)
      → Serves networks total block b
      → length b.pending_requests ≡ 0
      → (v : Weight) → waiting v b.request_dedup_map ≡ 0
  no_waiting networks total block b h none_left v =
      go b.request_dedup_map (λ k. sym (h.keys k) ∙ no_keys b.pending_requests none_left k)
    where
      no_keys :
          (l : List (BackendRequestIdentifier × BackendRequestFuture BlockId Class ProviderError))
          → length l ≡ 0
          → (k : BackendRequestIdentifier) → sum_by (λ e. hit k e.0) l ≡ 0
      no_keys [] q k = refl
      no_keys (e ∷ l) q k = absurd (omega arith)

      go : (m : RequestMap) → ((k : BackendRequestIdentifier) → map_keys k m ≡ 0) → waiting v m ≡ 0
      go [] q = refl
      go (e ∷ m) q =
          let z = q e.0 in
          let one : hit e.0 e.0 ≡ 1 = rw (same_refl e.0) refl in absurd (omega (arith, z, one))

  -- The next round brings a network and requests.
  requeue :
      (n : Network BlockId Class ProviderError)
      (networks : List (Network BlockId Class ProviderError)) (total : Weight → ℕ) (block : BlockId)
      (rs : List BackendRequest) (b : Backend BlockId Class ProviderError)
      → Serves networks total block b
      → Serves (n ∷ networks) total block (record b { queued_requests = rs })
  requeue n networks total block rs b h = record {
    pinned = h.pinned;
    calls = h.calls;
    keys = h.keys;
    once = h.once;
    conserved = h.conserved;
    genuine =
        All-map (FromNetwork networks block) (FromNetwork (n ∷ networks) block) b.sent (λ d. inr)
          h.genuine;
  }

  turn-Turned :
      (block : BlockId) (rs : List BackendRequest)
      (networks : List (Network BlockId Class ProviderError))
      (b : Backend BlockId Class ProviderError) (w : Wake BlockId Class ProviderError)
      → Holds rs networks b block
      → Turned block w rs networks (turn w b)
  turn-Turned block rs networks b w (taken, h, counts) =
      let b' = take_in w.incoming b in
      let total : Weight → ℕ = λ v. taken v + asked v b.queued_requests in
      let served : Serves (w.network ∷ networks) total block b' =
        requeue w.network networks total block w.incoming (handle_queued b.queued_requests b)
          (handle_queued-Serves networks taken block b.queued_requests b h) in
      let all : (v : Weight) → total v + asked v w.incoming ≡ asked v (rs ++ w.incoming) = λ v.
        let a = sum_by-append (λ r. v (id_of r) (sender_of r)) rs w.incoming in
        let c = counts v in omega (arith, a, c) in
      let polled = poll_pending w.network (length b'.pending_requests) b' in
      elim (Bool-cases w.closed) [
        | inl e ↦
            subst
              (λ c.
                Turned block w rs networks
                  (if c then some (resolves, b') else after_polling polled))
              (sym e)
              (
                resolves,
                b',
                refl,
                (total, served, all),
                λ open_yet. absurd (let x = sym e ∙ open_yet in cc),
              )
        | inr e ↦
            let (c, done, t, queue, less, more, drained) =
              poll_pending-Polled w.network networks total block (length b'.pending_requests) b'
                (omega arith) served in
            subst
              (λ x.
                Turned block w rs networks
                  (if x then some (resolves, b') else after_polling polled))
              (sym e)
              (subst (λ o. Turned block w rs networks (after_polling o)) (sym done)
                (
                  _,
                  c,
                  refl,
                  (total, t, λ v. ap (λ q. total v + asked v q) queue ∙ all v),
                  λ open_yet every v.
                      let left = drained every in
                      let idle =
                        no_waiting (w.network ∷ networks) total block c t (omega (arith, left)) v in
                      let kept = t.conserved v in
                      let counted = counts v in omega (arith, idle, kept, counted),
                ))
      ]

  Runs-Holds :
      {block : BlockId} {rs : List BackendRequest}
      {networks : List (Network BlockId Class ProviderError)}
      {b : Backend BlockId Class ProviderError}
      → Runs block rs networks b
      → Holds rs networks b block
  Runs-Holds {block} starts = (
    (λ v. 0),
    record {
      pinned = refl;
      calls = tt;
      keys = λ k. refl;
      once = λ k. omega arith;
      conserved = λ v. refl;
      genuine = tt;
    },
    λ v. refl,
  )
  Runs-Holds {block} (turns {asked_for} {networks} {b} r w s b' e) =
      let (s', c, q, held, answers) = turn-Turned block asked_for networks b w (Runs-Holds r) in
      subst (λ x. Holds (asked_for ++ w.incoming) (w.network ∷ networks) x block)
        (ap (λ z. z.1) (some-value _ _ (sym q ∙ e))) held

  -- In every state that the backend of a fork gets into, each request it got is answered, waits for a call,
  -- or is queued, once, by any way of counting; each key has at most one pending call; each answer
  -- sent is what the network gave, in one of the rounds so far, to the call of the request's key at the pinned block;
  -- and the next round of the loop does not panic, whatever it finds.
  pub Runs-conserve :
      (block : BlockId) (rs : List BackendRequest)
      (networks : List (Network BlockId Class ProviderError))
      (b : Backend BlockId Class ProviderError)
      → Runs block rs networks b
      → ((v : Weight) → occurrences v b ≡ asked v rs)
        × ((k : BackendRequestIdentifier) → pending_keys k b ≤ 1)
        × All (FromNetwork networks block) b.sent
        × ((w : Wake BlockId Class ProviderError) → turn w b ≢ none)
  Runs-conserve block rs networks b run =
      let held = Runs-Holds run in
      let (taken, h, counts) = held in
      (
        λ v. let c = counts v in let k = h.conserved v in omega (arith, c, k),
        h.once,
        h.genuine,
        λ w q.
            let turned = turn-Turned block rs networks b w held in none-some _ (sym q ∙ turned.2),
      )

  -- A round of the loop, with the channel open and an answer to every call, does not panic and leaves all the
  -- requests answered, once, that came in before it.
  pub turn-answers :
      (block : BlockId) (rs : List BackendRequest)
      (networks : List (Network BlockId Class ProviderError))
      (b : Backend BlockId Class ProviderError) (w : Wake BlockId Class ProviderError)
      → Runs block rs networks b
      → w.closed ≡ false
      → AnswersAll block w.network
      → (s : Step BlockId Class ProviderError) × (b' : Backend BlockId Class ProviderError) × (turn
            w b
          ≡ some (s, b'))
        × ((v : Weight) → answered v b'.sent ≡ asked v rs)
  turn-answers block rs networks b w run still every =
      let (s, b', e, held, answers) = turn-Turned block rs networks b w (Runs-Holds run) in
      (s, b', e, answers still every)
