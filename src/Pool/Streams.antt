-- ===== src/Pool/Streams.antt =====
-- The streams over the pool: `Subscription` of crates/pool/src/subscription.rs and
-- `PendingTransactions` of pending.rs. The receiver of the channel, from tokio, is the sequence of
-- the answers that it gives to `poll_recv`; it is pending after the last of them.
use mathlib.Core.Option
use katana.Base.{ℕ, zero, suc, Option, none, some, List, [], ◌∷◌}
use katana.Pool.Order.{PendingTx, PoolOrd, cmp}
use katana.Pool.Set.{insert, pop_first}

pub data Poll (A : Type 0) : Type 0 where
  ready : A → Poll A
  pending : Poll A

abbrev pub Receiver : Type 0 → Type 0
Receiver A = List (Poll (Option A))

module _ {A : Type 0} where
  unfoldable pub poll_recv : Receiver A → Poll (Option A) × Receiver A
  poll_recv [] = (pending, [])
  poll_recv (answer ∷ answers) = (answer, answers)

module _ {T : Type 0} (O : PoolOrd T) where
  abbrev pub Entry : Type 0
  Entry = PendingTx T O.Priority

  pub record Subscription : Type 0 where
    pub txs : List Entry
    pub receiver : Receiver Entry

  unfoldable pub new_subscription : Receiver Entry → Subscription
  new_subscription receiver = record { txs = []; receiver = receiver }

  -- The inner loop: it takes in what the channel has, up to the first other answer.
  unfoldable pub drain : List Entry → Receiver Entry → Subscription
  drain txs [] = record { txs = txs; receiver = [] }
  drain txs (ready (some tx) ∷ answers) = drain (insert (cmp O.cmp) tx txs) answers
  drain txs (ready none ∷ answers) = record { txs = txs; receiver = answers }
  drain txs (pending ∷ answers) = record { txs = txs; receiver = answers }

  -- What a round does with the channel's answer; `again` is the loop from its start.
  abbrev pub on_answer :
      Subscription
      → (Subscription → Option (Poll (Option Entry) × Subscription))
      → Poll (Option Entry) × Receiver Entry
      → Option (Poll (Option Entry) × Subscription)
  on_answer s again (ready (some tx), answers) = again (drain (insert (cmp O.cmp) tx s.txs) answers)
  on_answer s again (ready none, answers) = some (ready none, record s { receiver = answers })
  on_answer s again (pending, answers) = some (pending, record s { receiver = answers })

  abbrev pub on_first :
      Subscription
      → (Subscription → Option (Poll (Option Entry) × Subscription))
      → Option (Entry × List Entry)
      → Option (Poll (Option Entry) × Subscription)
  on_first s again (some (tx, rest)) = some (ready (some tx), record s { txs = rest })
  on_first s again none = on_answer s again (poll_recv s.receiver)

  -- The outer loop, for a number of rounds; `none` if these were not enough.
  unfoldable pub poll_loop : ℕ → Subscription → Option (Poll (Option Entry) × Subscription)
  poll_loop zero s = none
  poll_loop (suc rounds) s = on_first s (poll_loop rounds) (pop_first s.txs)

  -- Two rounds are enough: a round that returns to the loop's start leaves a transaction to pop.
  unfoldable pub poll_subscription : Subscription → Option (Poll (Option Entry) × Subscription)
  poll_subscription s = poll_loop 2 s

  pub record PendingTransactions : Type 0 where
    pub all : List Entry
    pub subscription : Subscription

  abbrev pub with_subscription :
      Option (Poll (Option Entry) × Subscription)
      → Option (Poll (Option Entry) × PendingTransactions)
  with_subscription none = none
  with_subscription (some (answer, s)) = some (answer, record { all = []; subscription = s })

  abbrev pub next_of :
      List Entry → Subscription → Option (Poll (Option Entry) × PendingTransactions)
  next_of (tx ∷ rest) s = some (ready (some tx), record { all = rest; subscription = s })
  next_of [] s = with_subscription (poll_subscription s)

  unfoldable pub poll_next :
      PendingTransactions → Option (Poll (Option Entry) × PendingTransactions)
  poll_next p = next_of p.all p.subscription

  -- As many polls one after another; the transactions that they yield.
  abbrev pub yield :
      Poll (Option Entry) → List Entry × PendingTransactions → List Entry × PendingTransactions
  yield (ready (some tx)) r = (tx ∷ r.0, r.1)
  yield (ready none) r = r
  yield pending r = r

  abbrev pub on_poll :
      (PendingTransactions → Option (List Entry × PendingTransactions))
      → Option (Poll (Option Entry) × PendingTransactions)
      → Option (List Entry × PendingTransactions)
  on_poll go none = none
  on_poll go (some (answer, p)) = Option.map (yield answer) (go p)

  unfoldable pub poll_times : ℕ → PendingTransactions → Option (List Entry × PendingTransactions)
  poll_times zero p = some ([], p)
  poll_times (suc n) p = on_poll (poll_times n) (poll_next p)
