-- ===== src/Fork/Polls.antt =====
-- The polling of the calls by the backend of the forked provider: crates/storage/fork/src/lib.rs.
use katana.Base.{
  ℕ, zero, suc, ◌+◌, ◌≤◌, ◌≡◌, refl, sym, ap, subst, ◌∙◌, Option, some, List, [], ◌∷◌, ◌++◌, All,
  All-append, arith, length, length-append, Option-cases, inl, inr,
}
use katana.Storage.Table.Contents.{none-some}
use katana.Fork.Backend.{
  Backend, BackendRequestIdentifier, answer_all, BackendRequestFuture, BackendResponse, Network,
  get_senders, remove_key, deliver, poll_one, poll_pending,
}
use katana.Fork.Sums.{sum_by, sum_by-append, sum_by-one, swap_remove-splits}
use katana.Fork.Keys.{
  hit, map_keys, waiting, get_senders-none, remove_key-splits, map_keys-remove_key, same_refl,
}
use katana.Fork.Serves.{Weight, answered, FromNetwork, IsCall, pending_keys, Serves, rpc_call}

module _ {BlockId Class ProviderError : Type 0} where
  answered-deliver :
      (w : Weight) (k : BackendRequestIdentifier) (r : BackendResponse BlockId Class ProviderError)
      (ss : List ℕ)
      → answered w (deliver k r ss) ≡ sum_by (w k) ss
  answered-deliver w k r [] = refl
  answered-deliver w k r (s ∷ ss) = ap (λ x. w k s + x) (answered-deliver w k r ss)

  -- Every call has an answer.
  abbrev pub AnswersAll : BlockId → Network BlockId Class ProviderError → Type 0
  AnswersAll block n =
      (k : BackendRequestIdentifier)
      → (r : BackendResponse BlockId Class ProviderError) × (rpc_call block k n ≡ some r)

  -- The network of this round comes on top of the earlier ones.
  module _ (n : Network BlockId Class ProviderError)
      (earlier : List (Network BlockId Class ProviderError)) where
    deliver-FromNetwork :
        (block : BlockId) (k : BackendRequestIdentifier)
        (r : BackendResponse BlockId Class ProviderError) (ss : List ℕ)
        → rpc_call block k n ≡ some r
        → All (FromNetwork (n ∷ earlier) block) (deliver k r ss)
    deliver-FromNetwork block k r [] h = tt
    deliver-FromNetwork block k r (s ∷ ss) h = (inl h, deliver-FromNetwork block k r ss h)

    -- A future that is taken out for polling, of the key `k`, and the others.
    record Taken (total : Weight → ℕ) (block : BlockId) (k : BackendRequestIdentifier)
        (b : Backend BlockId Class ProviderError) : Type 0 where
      pinned : b.block ≡ block
      calls : All (IsCall block) b.pending_requests
      keys :
          (j : BackendRequestIdentifier)
          → hit j k + pending_keys j b ≡ map_keys j b.request_dedup_map
      once : (j : BackendRequestIdentifier) → hit j k + pending_keys j b ≤ 1
      conserved : (w : Weight) → answered w b.sent + waiting w b.request_dedup_map ≡ total w
      genuine : All (FromNetwork (n ∷ earlier) block) b.sent

    put_back-Serves :
        (total : Weight → ℕ) (block : BlockId) (k : BackendRequestIdentifier)
        (fut : BackendRequestFuture BlockId Class ProviderError)
        (b : Backend BlockId Class ProviderError)
        → fut ≡ rpc_call block k
        → Taken total block k b
        → Serves
            (n ∷ earlier)
            total
            block
            (record b { pending_requests = b.pending_requests ++ (k, fut) ∷ [] })
    put_back-Serves total block k fut b call h = record {
      pinned = h.pinned;
      calls = All-append (IsCall block) b.pending_requests ((k, fut) ∷ []) h.calls (call, tt);
      keys = λ j.
          let a = sum_by-append (λ e. hit j e.0) b.pending_requests ((k, fut) ∷ []) in
          let q = h.keys j in omega (arith, a, q);
      once = λ j.
          let a = sum_by-append (λ e. hit j e.0) b.pending_requests ((k, fut) ∷ []) in
          let q = h.once j in omega (arith, a, q);
      conserved = h.conserved;
      genuine = h.genuine;
    }

    found :
        (total : Weight → ℕ) (block : BlockId) (k : BackendRequestIdentifier)
        (b : Backend BlockId Class ProviderError)
        → Taken total block k b
        → (ss : List ℕ) × (get_senders k b.request_dedup_map ≡ some ss)
    found total block k b h = elim (Option-cases (get_senders k b.request_dedup_map)) [
      | inl e ↦
          let empty = get_senders-none k b.request_dedup_map e in
          let q = h.keys k in
          let one : hit k k ≡ 1 = rw (same_refl k) refl in absurd (omega (arith, empty, q, one))
      | inr z ↦ z
    ]

    answer_all-Serves :
        (total : Weight → ℕ) (block : BlockId) (k : BackendRequestIdentifier)
        (r : BackendResponse BlockId Class ProviderError) (b : Backend BlockId Class ProviderError)
        (ss : List ℕ)
        → rpc_call block k n ≡ some r
        → Taken total block k b
        → get_senders k b.request_dedup_map ≡ some ss
        → Serves (n ∷ earlier) total block (record b {
          sent = b.sent ++ deliver k r ss;
          request_dedup_map = remove_key k b.request_dedup_map;
        })
    answer_all-Serves total block k r b ss q h e = record {
      pinned = h.pinned;
      calls = h.calls;
      keys = λ j.
          let m = map_keys-remove_key k j b.request_dedup_map ss e in
          let p = h.keys j in omega (arith, m, p);
      once = λ j. let p = h.once j in omega (arith, p);
      conserved = λ w.
          let a = sum_by-append (λ d. w d.key d.sender) b.sent (deliver k r ss) in
          let d = answered-deliver w k r ss in
          let m = remove_key-splits k w b.request_dedup_map ss e in
          let c = h.conserved w in omega (arith, a, d, m, c);
      genuine =
          All-append (FromNetwork (n ∷ earlier) block) b.sent (deliver k r ss) h.genuine
            (deliver-FromNetwork block k r ss q);
    }

    -- A result of polling `i` of the calls.
    abbrev pub Polled :
        (Weight → ℕ)
        → BlockId
        → ℕ
        → Backend BlockId Class ProviderError
        → Option (Backend BlockId Class ProviderError)
        → Type 0
    Polled total block i b o =
        (b' : Backend BlockId Class ProviderError) × (o ≡ some b')
        × Serves (n ∷ earlier) total block b'
        × (b'.queued_requests ≡ b.queued_requests)
        × (length b'.pending_requests ≤ length b.pending_requests)
        × (length b.pending_requests ≤ length b'.pending_requests + i)
        × (AnswersAll block n → length b'.pending_requests + i ≡ length b.pending_requests)

    poll_one-Polled :
        (total : Weight → ℕ) (block : BlockId)
        (e : BackendRequestIdentifier × BackendRequestFuture BlockId Class ProviderError)
        (rest : List (BackendRequestIdentifier × BackendRequestFuture BlockId Class ProviderError))
        (b : Backend BlockId Class ProviderError)
        → length b.pending_requests ≡ suc (length rest)
        → IsCall block e
        → Taken total block e.0 (record b { pending_requests = rest })
        → Polled total block 1 b (poll_one e.0 e.1 (e.1 n) (record b { pending_requests = rest }))
    poll_one-Polled total block e rest b size call h = elim (Option-cases (e.1 n)) [
      | inl q ↦
          let c = record b { pending_requests = rest } in
          let l = length-append rest (e ∷ []) in
          subst (λ o. Polled total block 1 b (poll_one e.0 e.1 o c)) (sym q)
            (
              record c { pending_requests = rest ++ e ∷ [] },
              refl,
              put_back-Serves total block e.0 e.1 c call h,
              refl,
              omega (arith, l, size),
              omega (arith, l, size),
              λ a. absurd (none-some (a e.0).0 (sym q ∙ ap (λ f. f n) call ∙ (a e.0).1)),
            )
      | inr (r, q) ↦
          let c = record b { pending_requests = rest } in
          let (ss, g) = found total block e.0 c h in
          subst (λ o. Polled total block 1 b (poll_one e.0 e.1 o c)) (sym q)
            (subst (λ o. Polled total block 1 b (answer_all o e.0 r c)) (sym g)
              (
                record c {
                  sent = b.sent ++ deliver e.0 r ss;
                  request_dedup_map = remove_key e.0 b.request_dedup_map;
                },
                refl,
                answer_all-Serves total block e.0 r c ss (sym (ap (λ f. f n) call) ∙ q) h g,
                refl,
                omega (arith, size),
                omega (arith, size),
                λ a. omega (arith, size),
              ))
    ]

    pub poll_pending-Polled :
        (total : Weight → ℕ) (block : BlockId) (i : ℕ) (b : Backend BlockId Class ProviderError)
        → i ≤ length b.pending_requests
        → Serves (n ∷ earlier) total block b
        → Polled total block i b (poll_pending n i b)
    unfolding poll_pending
    poll_pending-Polled total block zero b le h =
        (b, refl, h, refl, omega arith, omega arith, λ a. omega arith)
    poll_pending-Polled total block (suc i) b le h =
        let (e, rest, taken, sums, call, calls) =
          swap_remove-splits (IsCall block) i b.pending_requests (omega arith) h.calls in
        let size : length b.pending_requests ≡ suc (length rest) =
          let one = sum_by-one b.pending_requests in
          let others = sum_by-one rest in
          let split = sums (λ x. 1) in omega (arith, one, others, split) in
        let (c, polled, s, queue, less, more, all) =
          poll_one-Polled total block e rest b size call (record {
            pinned = h.pinned;
            calls = calls;
            keys = λ j. sym (sums (λ x. hit j x.0)) ∙ h.keys j;
            once = λ j. subst (λ x. x ≤ 1) (sums (λ x. hit j x.0)) (h.once j);
            conserved = h.conserved;
            genuine = h.genuine;
          }) in
        let (d, done, t, queue', less', more', all') =
          poll_pending-Polled total block i c (omega arith) s in
        (
          d,
          rw (taken, poll_pending) (rw polled done),
          t,
          queue' ∙ queue,
          omega arith,
          omega arith,
          λ a. let x = all a in let y = all' a in omega (arith, x, y),
        )
