-- ===== src/Pool/Contents.antt =====
-- What a pool (crates/pool/src/pool.rs) holds after its operations.
use mathlib.Core.Option
use mathlib.Core.List.{Perm}
use katana.Base.{
  ℕ, ◌≡◌, refl, Bool, true, not, ◌||◌, none, List, [], ◌∷◌, arith, ◌==◌, ==_iff, any, is_some,
  if◌then◌else◌, retain,
}
use katana.Pool.Order.{PoolTransaction, PoolOrd, PendingTx, new_id, cmp, cmp_ne_eq}
use katana.Pool.Set.{insert, insert-perm}
use katana.Pool.Notify.{kept, notify-perm}
use katana.Pool.Inner.{
  Validator, ValidationResult, ok, err, valid, invalid, dependent, PoolError, added, refused,
  Channels, Pool, retain_listener, retain_subscriber, notify_listener, notify_subscribers,
  add_valid, on_outcome, add_transaction, find_hash, get, contains, remove_transactions,
}

any_cong :
    (a b : ℕ) (hashes : List ℕ)
    → (a == b) ≡ true
    → any (λ h. h == a) hashes ≡ any (λ h. h == b) hashes
any_cong a b hashes e = let p : a ≡ b = (==_iff a b).0 e in rw p

module _ {T : Type 0} (t : PoolTransaction T) (V : Validator T) (O : PoolOrd T)
    (C : Channels T O.Priority) where
  -- The entry that the pool makes of a valid transaction.
  abbrev pub entry : ℕ → T → T → Pool T V O C → PendingTx T O.Priority
  entry now tx tx' pool = record {
    id = new_id (t.sender tx) (t.nonce tx);
    tx = tx';
    priority = (O.priority pool.ordering tx').0;
    added_at = now;
  }

  -- A transaction that the validator finds valid is answered with its hash; the pool gains just
  -- that entry; each listener is sent the hash and each subscriber the entry once, and those whose
  -- channel is closed are dropped.
  pub add_transaction_valid :
      (now : ℕ) (tx tx' : T) (pool : Pool T V O C) (v : V.St)
      → V.validate pool.validator tx ≡ (ok (valid tx'), v)
      → let r = add_transaction t V O C now tx pool in
        (r.0 ≡ added (t.hash tx))
        × Perm r.1.transactions (entry now tx tx' pool ∷ pool.transactions)
        × Perm r.1.listeners
            (kept (λ l. retain_listener t V O C (C.try_send l (t.hash tx'))) pool.listeners)
        × Perm r.1.subscribers (
            kept
              (λ s. retain_subscriber t V O C (C.send s (entry now tx tx' pool)))
              pool.subscribers)
        × (r.1.validator ≡ v)
  unfolding add_transaction add_valid notify_listener notify_subscribers
  add_transaction_valid now tx tx' pool v e =
      rw (e, on_outcome)
        (
          refl,
          insert-perm (cmp O.cmp) _ (cmp_ne_eq O.cmp _) pool.transactions,
          notify-perm _ _,
          notify-perm _ _,
          refl,
        )

  -- A transaction that is refused, for whatever reason, leaves everything but the validator's own
  -- state as it was.
  pub add_transaction_refused :
      (now : ℕ) (tx : T) (pool : Pool T V O C) (e : PoolError)
      → (add_transaction t V O C now tx pool).0 ≡ refused e
      → (add_transaction t V O C now tx pool).1
        ≡ record pool { validator = (V.validate pool.validator tx).1 }
  unfolding add_transaction
  add_transaction_refused now tx pool e h = go (V.validate pool.validator tx).0 h
    where
      pool' : Pool T V O C
      pool' = record pool { validator = (V.validate pool.validator tx).1 }

      go :
          (r : ValidationResult T)
          → (on_outcome t V O C now tx r pool').0 ≡ refused e
          → (on_outcome t V O C now tx r pool').1 ≡ pool'
      go (ok (valid tx')) h = cc
      go (ok (invalid tx' error)) h = refl
      go (ok (dependent tx' n c)) h = refl
      go (err hash error) h = refl

  abbrev holds : ℕ → List (PendingTx T O.Priority) → Bool
  holds hash l = is_some (Option.map (λ tx. tx.tx) (find_hash t V O C hash l))

  holds-insert :
      (hash : ℕ) (x : PendingTx T O.Priority) (l : List (PendingTx T O.Priority))
      → holds hash (insert (cmp O.cmp) x l) ≡ ((t.hash x.tx == hash) || holds hash l)
  unfolding insert
  holds-insert hash x [] = ground arith
  holds-insert hash x (y ∷ ys) = ground (arith, holds-insert hash x ys, cmp_ne_eq O.cmp x y)

  -- After a valid transaction the pool contains its hash, and every hash that it contained before.
  pub contains-add_transaction :
      (now : ℕ) (tx tx' : T) (pool : Pool T V O C) (v : V.St) (hash : ℕ)
      → V.validate pool.validator tx ≡ (ok (valid tx'), v)
      → contains t V O C hash (add_transaction t V O C now tx pool).1
        ≡ ((t.hash tx' == hash) || contains t V O C hash pool)
  unfolding add_transaction add_valid contains get
  contains-add_transaction now tx tx' pool v hash e =
      rw (e, on_outcome) (holds-insert hash _ pool.transactions)

  find-retain :
      (hash : ℕ) (hashes : List ℕ) (l : List (PendingTx T O.Priority))
      → find_hash t V O C hash (retain (λ tx. not (any (λ h. h == t.hash tx.tx) hashes)) l)
        ≡ (if any (λ h. h == hash) hashes then none else find_hash t V O C hash l)
  find-retain hash hashes [] = ground arith
  find-retain hash hashes (x ∷ xs) =
      ground (arith, any_cong (t.hash x.tx) hash hashes, find-retain hash hashes xs)

  -- Removal takes out the listed hashes, and what is found under any other hash stays.
  pub get-remove_transactions :
      (hash : ℕ) (hashes : List ℕ) (pool : Pool T V O C)
      → get t V O C hash (remove_transactions t V O C hashes pool)
        ≡ (if any (λ h. h == hash) hashes then none else get t V O C hash pool)
  unfolding get remove_transactions
  get-remove_transactions hash hashes pool =
      rw (find-retain hash hashes pool.transactions) (ground arith)
