-- ===== src/Pool/Tests.antt =====
-- Runs of the pool, and instances of its theorems.
use Prim.Native.Nat.{Ordering}
use mathlib.Core.List.{Perm}
use katana.Base.{
  ℕ, ◌+◌, ◌≡◌, refl, true, ◌||◌, ◌==◌, none, some, List, [], ◌∷◌, arith, if◌then◌else◌,
}
use katana.Pool.Order.{
  PoolTransaction, PendingTx, parent, descendent, parent-descendent, cmp, cmp_submission, cmp_tip,
  cmp_cycle, fifo,
}
use katana.Pool.Set.{insert, Slot}
use katana.Pool.Notify.{swap_remove, notify}
use katana.Pool.Inner.{
  Channels, sent, disconnected, Pool, noop, err, Validator, added, refused, internal, new,
  add_transaction, get, contains, remove_transactions,
}
use katana.Pool.Contents.{
  entry, add_transaction_valid, add_transaction_refused, contains-add_transaction,
  get-remove_transactions,
}
use katana.Pool.Submission.{insert-at_end, submit_all, submit_all-order, txs_of}

-- A transaction with its hash, nonce, sender and tip.
record Simple : Type 0 where
  hash : ℕ
  nonce : ℕ
  sender : ℕ
  tip : ℕ

abbrev simple : PoolTransaction Simple
simple = record {
  hash = λ x. x.hash;
  nonce = λ x. x.nonce;
  sender = λ x. x.sender;
  max_fee = λ x. 0;
  tip = λ x. x.tip;
}

-- Channels that record what they were sent, and that are closed from hash 9 on.
abbrev logged : Channels Simple ℕ
logged = record {
  Listener = List ℕ;
  try_send = λ l h. (if h == 9 then disconnected else sent, h ∷ l);
  Subscriber = List ℕ;
  send = λ s p. (true, p.tx.hash ∷ s);
}

abbrev tx_of : ℕ → ℕ → ℕ → Simple
tx_of hash nonce sender = record { hash = hash; nonce = nonce; sender = sender; tip = 0 }

abbrev pending : ℕ → ℕ → ℕ → PendingTx Simple ℕ
pending sender nonce priority = record {
  id = record { sender = sender; nonce = nonce };
  tx = tx_of nonce nonce sender;
  priority = priority;
  added_at = 0;
}

abbrev listened : Pool Simple noop fifo logged
listened = record {
  transactions = pending 1 0 0 ∷ [];
  listeners = [] ∷ (7 ∷ []) ∷ [];
  subscribers = [] ∷ [];
  validator = tt;
  ordering = 1;
}

parent-fifth :
    parent (descendent (record { sender = 1; nonce = 4 })) ≡ some (record { sender = 1; nonce = 4 })
parent-fifth = parent-descendent (record { sender = 1; nonce = 4 }) (omega arith)

cmp_cycle_example :
    (cmp cmp_submission (pending 1 0 30) (pending 1 1 10) ≡ Ordering.lt)
    × (cmp cmp_submission (pending 1 1 10) (pending 2 0 20) ≡ Ordering.lt)
    × (cmp cmp_submission (pending 2 0 20) (pending 1 0 30) ≡ Ordering.lt)
cmp_cycle_example =
    cmp_cycle (pending 1 0 30) (pending 1 1 10) (pending 2 0 20) refl (omega arith) (omega arith)
      (omega arith) (omega arith)

add_transaction_valid_example :
    let r = add_transaction simple noop fifo logged 5 (tx_of 3 0 2) listened in
    (r.0 ≡ added 3)
    × Perm r.1.transactions (
        entry simple noop fifo logged 5 (tx_of 3 0 2) (tx_of 3 0 2) listened
        ∷ listened.transactions)
    × Perm r.1.listeners ((3 ∷ []) ∷ (3 ∷ 7 ∷ []) ∷ [])
    × Perm r.1.subscribers ((3 ∷ []) ∷ [])
    × (r.1.validator ≡ tt)
add_transaction_valid_example =
    add_transaction_valid simple noop fifo logged 5 (tx_of 3 0 2) (tx_of 3 0 2) listened tt refl

abbrev failing : Validator Simple
failing = record { St = ℕ; validate = λ s tx. (err tx.hash 44, s) }

abbrev unlistened : Pool Simple failing fifo logged
unlistened = record {
  transactions = pending 1 0 0 ∷ [];
  listeners = [];
  subscribers = [];
  validator = 0;
  ordering = 1;
}

fails :
    (add_transaction simple failing fifo logged 5 (tx_of 3 0 2) unlistened).0
    ≡ refused (internal 44)
unfolding add_transaction
fails = refl

add_transaction_refused_example :
    (add_transaction simple failing fifo logged 5 (tx_of 3 0 2) unlistened).1 ≡ unlistened
add_transaction_refused_example =
    add_transaction_refused simple failing fifo logged 5 (tx_of 3 0 2) unlistened (internal 44)
      fails

contains_after_add :
    contains simple noop fifo logged 3
      (add_transaction simple noop fifo logged 5 (tx_of 3 0 2) listened).1
    ≡ ((3 == 3) || contains simple noop fifo logged 3 listened)
contains_after_add =
    contains-add_transaction simple noop fifo logged 5 (tx_of 3 0 2) (tx_of 3 0 2) listened tt 3
      refl

removed_not_found :
    get simple noop fifo logged 0
      (remove_transactions simple noop fifo logged (0 ∷ 8 ∷ []) listened)
    ≡ none
removed_not_found = get-remove_transactions simple noop fifo logged 0 (0 ∷ 8 ∷ []) listened

insert-at_end_example :
    (insert (cmp cmp_submission) (pending 1 3 2) (pending 1 2 0 ∷ pending 2 8 1 ∷ [])
      ≡ pending 1 2 0 ∷ pending 2 8 1 ∷ pending 1 3 2 ∷ [])
    × ((l' : List (PendingTx Simple ℕ))
        → Slot (cmp cmp_submission) (pending 1 3 2) (pending 1 2 0 ∷ pending 2 8 1 ∷ []) l'
        → l' ≡ pending 1 2 0 ∷ pending 2 8 1 ∷ pending 1 3 2 ∷ [])
insert-at_end_example =
    insert-at_end (pending 1 3 2) (pending 1 2 0 ∷ pending 2 8 1 ∷ [])
      ((omega arith, λ e. omega arith), ((omega arith, λ e. absurd (omega arith)), tt))

-- Nonce 1 of sender 1 goes before nonce 0 of the same sender.
higher_nonce_first :
    insert (cmp cmp_tip) (pending 1 1 5) (pending 2 0 2 ∷ pending 1 0 1 ∷ [])
    ≡ pending 1 1 5 ∷ pending 2 0 2 ∷ pending 1 0 1 ∷ []
unfolding insert cmp
higher_nonce_first = refl

submit_all-order_example :
    txs_of simple logged
      (submit_all simple logged 5
        (tx_of 3 0 2 ∷ tx_of 4 0 1 ∷ tx_of 5 1 2 ∷ [])
        (new simple noop fifo logged tt 0)).transactions
    ≡ tx_of 3 0 2 ∷ tx_of 4 0 1 ∷ tx_of 5 1 2 ∷ []
submit_all-order_example =
    submit_all-order simple logged 5 (tx_of 3 0 2 ∷ tx_of 4 0 1 ∷ tx_of 5 1 2 ∷ []) (omega arith)
      (omega arith)

-- The loop runs backwards, so that what is kept ends up in another order.
notify_order : notify (λ l. some (l + 10)) 3 (1 ∷ 2 ∷ 3 ∷ []) ≡ 12 ∷ 13 ∷ 11 ∷ []
unfolding notify swap_remove
notify_order = refl
