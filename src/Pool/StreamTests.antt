-- ===== src/Pool/StreamTests.antt =====
-- A run of the stream over the pool: crates/pool/src/pending.rs.
use mathlib.Core.List.{Perm}
use katana.Base.{ℕ, ◌≡◌, some, List, [], ◌∷◌, arith}
use katana.Pool.Order.{PendingTx, fifo}
use katana.Pool.Streams.{ready, pending, Subscription, PendingTransactions, poll_times, Receiver}
use katana.Pool.Yield.{poll_times-yields}

abbrev entry_of : ℕ → PendingTx ℕ ℕ
entry_of n = record { id = record { sender = n; nonce = 0 }; tx = n; priority = n; added_at = 0 }

-- Two transactions come while the first poll waits, the third after the stream was pending.
abbrev answers : Receiver (PendingTx ℕ ℕ)
answers =
    ready (some (entry_of 3)) ∷ ready (some (entry_of 2)) ∷ pending ∷ ready (some (entry_of 4)) ∷ []

abbrev fresh : Subscription {T = ℕ} fifo
fresh = record { txs = []; receiver = answers }

poll_times_example :
    (l : List (PendingTx ℕ ℕ)) × (p : PendingTransactions {T = ℕ} fifo) × (poll_times fifo 5
        (record { all = entry_of 1 ∷ []; subscription = fresh })
      ≡ some (entry_of 1 ∷ l, p))
    × Perm (entry_of 3 ∷ entry_of 2 ∷ entry_of 4 ∷ []) l
poll_times_example = poll_times-yields fifo 5 (entry_of 1 ∷ []) fresh (omega arith)
