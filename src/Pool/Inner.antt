-- ===== src/Pool/Inner.antt =====
-- The pool's state and its operations: crates/pool/src/pool.rs, validation/mod.rs. The shared
-- `Arc<Inner>` behind its locks is a record that each operation takes and returns.
use mathlib.Core.Option
use katana.Base.{
  ℕ, Bool, true, false, not, Option, none, some, List, [], ◌∷◌, ◌++◌, ◌==◌, any, is_some, length,
  retain,
}
use katana.Pool.Order.{PoolTransaction, PoolOrd, PendingTx, TxId, new_id, cmp}
use katana.Pool.Set.{insert}
use katana.Pool.Notify.{notify}

pub data InsufficientFunds : Type 0 where
  max_fee_exceeds_funds : ℕ → ℕ → InsufficientFunds
  l1_gas_bounds_exceed_funds : ℕ → ℕ → ℕ → ℕ → InsufficientFunds
  resource_bounds_exceed_funds : ℕ → InsufficientFunds

pub data InsufficientIntrinsicFee : Type 0 where
  insufficient_max_fee : ℕ → ℕ → InsufficientIntrinsicFee
  insufficient_resource_bounds : ℕ → InsufficientIntrinsicFee

-- The texts that errors carry are numbers.
pub data InvalidTransactionError : Type 0 where
  insufficient_funds : InsufficientFunds → InvalidTransactionError
  insufficient_intrinsic_fee : InsufficientIntrinsicFee → InvalidTransactionError
  validation_failure : ℕ → ℕ → ℕ → InvalidTransactionError
  non_account : ℕ → InvalidTransactionError
  invalid_nonce : ℕ → ℕ → ℕ → InvalidTransactionError
  class_already_declared : ℕ → InvalidTransactionError

pub data ValidationOutcome (T : Type 0) : Type 0 where
  valid : T → ValidationOutcome T
  invalid : T → InvalidTransactionError → ValidationOutcome T
  dependent : T → ℕ → ℕ → ValidationOutcome T

-- `Result<ValidationOutcome<T>, Error>`; an error has the transaction's hash and the cause.
pub data ValidationResult (T : Type 0) : Type 0 where
  ok : ValidationOutcome T → ValidationResult T
  err : ℕ → ℕ → ValidationResult T

-- The trait `Validator`, with what `validate` mutates.
pub record Validator (T : Type 0) : Type 1 where
  pub St : Type 0
  pub validate : St → T → ValidationResult T × St

pub data PoolError : Type 0 where
  invalid_transaction : InvalidTransactionError → PoolError
  internal : ℕ → PoolError

pub data PoolResult (A : Type 0) : Type 0 where
  added : A → PoolResult A
  refused : PoolError → PoolResult A

-- The channels of the crates `futures` and `tokio`: what a send answers, and the sender after it.
pub data SendResult : Type 0 where
  sent full disconnected : SendResult

pub record Channels (T P : Type 0) : Type 1 where
  pub Listener : Type 0
  pub try_send : Listener → ℕ → SendResult × Listener
  pub Subscriber : Type 0
  pub send : Subscriber → PendingTx T P → Bool × Subscriber

pub record Pool (T : Type 0) (V : Validator T) (O : PoolOrd T) (C : Channels T O.Priority)
    : Type 0 where
  pub transactions : List (PendingTx T O.Priority)
  pub listeners : List C.Listener
  pub subscribers : List C.Subscriber
  pub validator : V.St
  pub ordering : O.St

module _ {T : Type 0} (t : PoolTransaction T) (V : Validator T) (O : PoolOrd T)
    (C : Channels T O.Priority) where
  unfoldable pub new : V.St → O.St → Pool T V O C
  new validator ordering = record {
    transactions = [];
    listeners = [];
    subscribers = [];
    validator = validator;
    ordering = ordering;
  }

  -- Whether the loop pushes a listener back: a full channel is kept, a closed one is not.
  abbrev pub retain_listener : SendResult × C.Listener → Option C.Listener
  retain_listener (sent, l) = some l
  retain_listener (full, l) = some l
  retain_listener (disconnected, l) = none

  abbrev pub retain_subscriber : Bool × C.Subscriber → Option C.Subscriber
  retain_subscriber (true, s) = some s
  retain_subscriber (false, s) = none

  unfoldable pub notify_listener : ℕ → List C.Listener → List C.Listener
  notify_listener hash listeners =
      notify (λ l. retain_listener (C.try_send l hash)) (length listeners) listeners

  unfoldable pub notify_subscribers : PendingTx T O.Priority → List C.Subscriber → List C.Subscriber
  notify_subscribers tx subscribers =
      notify (λ s. retain_subscriber (C.send s tx)) (length subscribers) subscribers

  -- Stores a valid transaction under its priority, and tells listeners and subscribers of it. `now` is the clock's answer.
  unfoldable pub add_valid : ℕ → TxId → T → Pool T V O C → Pool T V O C
  add_valid now id tx pool =
      let (priority, ordering) = O.priority pool.ordering tx in
      let pending : PendingTx T O.Priority = record {
        id = id;
        tx = tx;
        priority = priority;
        added_at = now;
      } in
      record pool {
        transactions = insert (cmp O.cmp) pending pool.transactions;
        listeners = notify_listener (t.hash tx) pool.listeners;
        subscribers = notify_subscribers pending pool.subscribers;
        ordering = ordering;
      }

  abbrev pub on_outcome : ℕ → T → ValidationResult T → Pool T V O C → PoolResult ℕ × Pool T V O C
  on_outcome now tx (ok (valid tx')) pool =
      (added (t.hash tx), add_valid now (new_id (t.sender tx) (t.nonce tx)) tx' pool)
  on_outcome now tx (ok (invalid tx' error)) pool = (refused (invalid_transaction error), pool)
  on_outcome now tx (ok (dependent tx' tx_nonce current_nonce)) pool =
      (refused (invalid_transaction (invalid_nonce (t.sender tx') current_nonce tx_nonce)), pool)
  on_outcome now tx (err hash error) pool = (refused (internal error), pool)

  unfoldable pub add_transaction : ℕ → T → Pool T V O C → PoolResult ℕ × Pool T V O C
  add_transaction now tx pool =
      let (result, validator) = V.validate pool.validator tx in
      on_outcome now tx result (record pool { validator = validator })

  abbrev pub find_hash : ℕ → List (PendingTx T O.Priority) → Option (PendingTx T O.Priority)
  find_hash hash [] = none
  find_hash hash (tx ∷ txs) = elim (t.hash tx.tx == hash) [
    | true ↦ some tx
    | false ↦ find_hash hash txs
  ]

  unfoldable pub get : ℕ → Pool T V O C → Option T
  get hash pool = Option.map (λ tx. tx.tx) (find_hash hash pool.transactions)

  unfoldable pub contains : ℕ → Pool T V O C → Bool
  contains hash pool = is_some (get hash pool)

  unfoldable pub remove_transactions : List ℕ → Pool T V O C → Pool T V O C
  remove_transactions hashes pool = record pool {
    transactions = retain (λ tx. not (any (λ h. h == t.hash tx.tx) hashes)) pool.transactions;
  }

  unfoldable pub size : Pool T V O C → ℕ
  size pool = length pool.transactions

  -- A listener's or a subscriber's new channel is made by the caller.
  unfoldable pub add_listener : C.Listener → Pool T V O C → Pool T V O C
  add_listener sender pool = record pool { listeners = pool.listeners ++ sender ∷ [] }

  unfoldable pub subscribe : C.Subscriber → Pool T V O C → Pool T V O C
  subscribe sender pool = record pool { subscribers = pool.subscribers ++ sender ∷ [] }

  -- The snapshot that `PendingTransactions` iterates over, with the pool after the subscription.
  unfoldable pub pending_transactions :
      C.Subscriber → Pool T V O C → List (PendingTx T O.Priority) × Pool T V O C
  unfolding subscribe
  pending_transactions sender pool = (pool.transactions, subscribe sender pool)

-- `NoopValidator`: every transaction is valid.
abbrev pub noop : {T : Type 0} → Validator T
noop = record { St = Unit {0}; validate = λ s tx. (ok (valid tx), s) }
