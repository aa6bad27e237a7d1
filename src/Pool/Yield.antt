-- ===== src/Pool/Yield.antt =====
-- What the streams of crates/pool/src/{pending,subscription}.rs yield over any answers of their
-- channel.
use Prim.Native.Nat.{Ordering}
use mathlib.Core.List.{Perm, perm_middle}
use mathlib.Core.List.Perm
use katana.Base.{
  ℕ, zero, suc, ◌+◌, ◌-◌, ◌≤◌, ◌≡◌, refl, ap, subst, Option, none, some, List, [], ◌∷◌, ◌++◌, arith,
  length,
}
use katana.Pool.Order.{PoolOrd, cmp, cmp_ne_eq}
use katana.Pool.Set.{insert, insert-perm, pop_first}
use katana.Pool.Streams.{
  Poll, ready, pending, Receiver, poll_recv, Entry, Subscription, drain, on_first, poll_loop,
  poll_subscription, PendingTransactions, poll_next, poll_times,
}

-- The transactions among the channel's answers.
abbrev pub received : {A : Type 0} → Receiver A → List A
received [] = []
received (ready (some tx) ∷ answers) = tx ∷ received answers
received (ready none ∷ answers) = received answers
received (pending ∷ answers) = received answers

module _ {T : Type 0} (O : PoolOrd T) where
  abbrev waiting : Subscription O → List (Entry O)
  waiting s = s.txs ++ received s.receiver

  abbrev left_over : Subscription O → ℕ
  left_over s = length s.txs + length s.receiver

  insert-length :
      (x : Entry O) (l : List (Entry O)) → length (insert (cmp O.cmp) x l) ≤ suc (length l)
  unfolding insert
  insert-length x [] = omega arith
  insert-length x (y ∷ ys) = ground (arith, insert-length x ys)

  insert-some :
      (x : Entry O) (l : List (Entry O))
      → (y : Entry O) × (ys : List (Entry O)) × (insert (cmp O.cmp) x l ≡ y ∷ ys)
  unfolding insert
  insert-some x [] = (x, [], refl)
  insert-some x (y ∷ ys) = go (cmp O.cmp x y) refl
    where
      go :
          (o : Ordering)
          → cmp O.cmp x y ≡ o
          → (z : Entry O) × (zs : List (Entry O)) × (insert (cmp O.cmp) x (y ∷ ys) ≡ z ∷ zs)
      go Ordering.lt e = (x, y ∷ ys, rw (e, insert) refl)
      go Ordering.eq e = (y, ys, rw (e, insert) refl)
      go Ordering.gt e = (y, insert (cmp O.cmp) x ys, rw (e, insert) refl)

  drain-Perm :
      (txs : List (Entry O)) (answers : Receiver (Entry O))
      → Perm (txs ++ received answers) (waiting (drain O txs answers))
  unfolding drain
  drain-Perm txs [] = Perm.refl _
  drain-Perm txs (ready (some tx) ∷ answers) = Perm.trans (perm_middle txs (received answers)) (
      Perm.trans
        (Perm.append_right (received answers)
          (Perm.symm (insert-perm (cmp O.cmp) tx (cmp_ne_eq O.cmp tx) txs)))
        (drain-Perm (insert (cmp O.cmp) tx txs) answers))
  drain-Perm txs (ready none ∷ answers) = Perm.refl _
  drain-Perm txs (pending ∷ answers) = Perm.refl _

  drain-left_over :
      (txs : List (Entry O)) (answers : Receiver (Entry O))
      → left_over (drain O txs answers) ≤ length txs + length answers
  unfolding drain
  drain-left_over txs [] = omega arith
  drain-left_over txs (ready (some tx) ∷ answers) =
      omega (arith, drain-left_over (insert (cmp O.cmp) tx txs) answers, insert-length tx txs)
  drain-left_over txs (ready none ∷ answers) = omega arith
  drain-left_over txs (pending ∷ answers) = omega arith

  drain-some :
      (x : Entry O) (txs : List (Entry O)) (answers : Receiver (Entry O))
      → (y : Entry O) × (ys : List (Entry O)) × ((drain O (insert (cmp O.cmp) x txs) answers).txs
          ≡ y ∷ ys)
  unfolding drain
  drain-some x txs [] = insert-some x txs
  drain-some x txs (ready (some tx) ∷ answers) = drain-some tx (insert (cmp O.cmp) x txs) answers
  drain-some x txs (ready none ∷ answers) = insert-some x txs
  drain-some x txs (pending ∷ answers) = insert-some x txs

  -- A poll yields one of the waiting transactions, or there is none to yield for now.
  data Polled (s : Subscription O)
      : Option (Poll (Option (Entry O)) × Subscription O) → Type 0 where
    yields :
        {tx : Entry O} {s' : Subscription O}
        → Perm (waiting s) (tx ∷ waiting s')
        → left_over s' ≤ left_over s - 1
        → Polled s (some (ready (some tx), s'))
    ends :
        {s' : Subscription O}
        → waiting s ≡ waiting s'
        → left_over s' ≤ left_over s - 1
        → Polled s (some (ready none, s'))
    waits :
        {s' : Subscription O}
        → waiting s ≡ waiting s'
        → left_over s' ≤ left_over s - 1
        → Polled s (some (pending, s'))

  poll-Polled : (s : Subscription O) → Polled s (poll_subscription O s)
  unfolding poll_subscription poll_loop pop_first poll_recv insert
  poll-Polled s = go s.txs s.receiver
    where
      popped :
          (tx : Entry O) (answers : Receiver (Entry O))
          → Polled
              (record { txs = []; receiver = ready (some tx) ∷ answers })
              (poll_loop O 2 (record { txs = []; receiver = ready (some tx) ∷ answers }))
      popped tx answers =
          let d = drain O (insert (cmp O.cmp) tx []) answers in
          let (y, ys, e) = drain-some tx [] answers in
          rw (e, on_first)
            (yields
              (subst (λ l. Perm (tx ∷ received answers) (l ++ received d.receiver)) e
                (drain-Perm (tx ∷ []) answers))
              (omega (arith, drain-left_over (tx ∷ []) answers, ap length e)))

      go :
          (txs : List (Entry O)) (answers : Receiver (Entry O))
          → Polled
              (record { txs = txs; receiver = answers })
              (poll_loop O 2 (record { txs = txs; receiver = answers }))
      go (tx ∷ rest) answers = yields (Perm.refl _) (omega arith)
      go [] [] = waits refl (omega arith)
      go [] (pending ∷ answers) = waits refl (omega arith)
      go [] (ready none ∷ answers) = ends refl (omega arith)
      go [] (ready (some tx) ∷ answers) = popped tx answers

  -- What polls of the stream give: each transaction of `l` once.
  abbrev Yielded : ℕ → PendingTransactions O → List (Entry O) → Type 0
  Yielded n p l =
      (r : List (Entry O) × PendingTransactions O) × (poll_times O n p ≡ some r) × Perm l r.0

  abbrev exhausted : Subscription O → PendingTransactions O
  exhausted s = record { all = []; subscription = s }

  yield-Polled :
      (n : ℕ) (s : Subscription O) (o : Option (Poll (Option (Entry O)) × Subscription O))
      → left_over s ≤ suc n
      → ((s' : Subscription O) → left_over s' ≤ n → Yielded n (exhausted s') (waiting s'))
      → poll_subscription O s ≡ o
      → Polled s o
      → Yielded (suc n) (exhausted s) (waiting s)
  unfolding poll_times poll_next
  yield-Polled n s none h ih e x = elim x [ ]
  yield-Polled n s (some (ready (some tx), s')) h ih e (yields p l) =
      let r = ih s' (omega (arith, l, h)) in
      ((tx ∷ r.0.0, r.0.1), rw (e, r.1) refl, Perm.trans p (Perm.cons tx r.2))
  yield-Polled n s (some (ready none, s')) h ih e (ends p l) =
      let r = ih s' (omega (arith, l, h)) in (r.0, rw (e, r.1) refl, rw p r.2)
  yield-Polled n s (some (pending, s')) h ih e (waits p l) =
      let r = ih s' (omega (arith, l, h)) in (r.0, rw (e, r.1) refl, rw p r.2)

  -- The polls of the subscription, once the snapshot is used up.
  poll-waiting :
      (n : ℕ) (s : Subscription O) → left_over s ≤ n → Yielded n (exhausted s) (waiting s)
  unfolding poll_times
  poll-waiting zero s h = (([], exhausted s), refl, nothing s.txs s.receiver h)
    where
      nothing :
          (txs : List (Entry O)) (answers : Receiver (Entry O))
          → length txs + length answers ≤ 0
          → Perm (txs ++ received answers) []
      nothing [] [] h = Perm.refl _
      nothing (x ∷ xs) answers h = absurd (omega arith)
      nothing [] (x ∷ xs) h = absurd (omega arith)
  poll-waiting (suc n) s h =
      yield-Polled n s (poll_subscription O s) h (poll-waiting n) refl (poll-Polled s)

  -- Over any answers of the channel, as many polls of the stream as the snapshot, the subscription's
  -- set and the answers have elements never run out of rounds. They yield the snapshot in its order,
  -- and then each transaction that was waiting or that the channel gives, once.
  pub poll_times-yields :
      (n : ℕ) (all : List (Entry O)) (s : Subscription O)
      → length all + length s.txs + length s.receiver ≤ n
      → (l : List (Entry O)) × (p : PendingTransactions O) × (poll_times O n
            (record { all = all; subscription = s })
          ≡ some (all ++ l, p))
        × Perm (s.txs ++ received s.receiver) l
  unfolding poll_times poll_next
  poll_times-yields n [] s h = let r = poll-waiting n s (omega arith) in (r.0.0, r.0.1, r.1, r.2)
  poll_times-yields zero (tx ∷ all) s h = absurd (omega arith)
  poll_times-yields (suc n) (tx ∷ all) s h =
      let r = poll_times-yields n all s (omega arith) in (r.0, r.1, rw r.2 refl, r.3)
