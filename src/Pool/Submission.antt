-- ===== src/Pool/Submission.antt =====
-- The place of a new transaction in the pool: crates/pool/src/ordering.rs and the comparison of
-- crates/pool/src/tx.rs.
use Prim.Native.Nat.{Ordering}
use mathlib.Core.List.{map-append}
use katana.Base.{
  ℕ, ◌+◌, ◌^◌, ◌%◌, ◌≤◌, ◌<◌, ◌≡◌, refl, ap, ◌∙◌, sym, List, [], ◌∷◌, ◌++◌, map, subst, append-nil,
  arith, All, All-append, append_assoc, length, length-append,
}
use katana.Pool.Order.{PoolTransaction, PendingTx, new_id, cmp, cmp_submission, fifo, assign}
use katana.Pool.Set.{insert, Slot, insert_last, Slot-last}
use katana.Pool.Inner.{Channels, Pool, noop, new, add_transaction, add_valid}

module _ {T : Type 0} where
  -- The entries were numbered below `n`, and their senders' nonces are at most the new one.
  abbrev pub Precedes : ℕ → ℕ → ℕ → PendingTx T ℕ → Type 0
  Precedes n sender nonce p = (p.priority < n) × (p.id.sender ≡ sender → p.id.nonce ≤ nonce)

  Precedes-gt :
      (x p : PendingTx T ℕ)
      → Precedes x.priority x.id.sender x.id.nonce p
      → cmp cmp_submission x p ≡ Ordering.gt
  unfolding cmp
  Precedes-gt x p h = ground (arith, h.0, h.1)

  All-gt :
      (x : PendingTx T ℕ) (l : List (PendingTx T ℕ))
      → All (Precedes x.priority x.id.sender x.id.nonce) l
      → All (λ p. cmp cmp_submission x p ≡ Ordering.gt) l
  All-gt x [] h = tt
  All-gt x (p ∷ l) h = (Precedes-gt x p h.0, All-gt x l h.1)

  -- A transaction that is numbered after all that are pooled, with a nonce not below its sender's
  -- pooled ones, goes to the end of the pool: by the search of a single node, and in a search tree of any shape.
  pub insert-at_end :
      (x : PendingTx T ℕ) (l : List (PendingTx T ℕ))
      → All (Precedes x.priority x.id.sender x.id.nonce) l
      → (insert (cmp cmp_submission) x l ≡ l ++ x ∷ [])
        × ((l' : List (PendingTx T ℕ)) → Slot (cmp cmp_submission) x l l' → l' ≡ l ++ x ∷ [])
  insert-at_end x l h = (
    insert_last (cmp cmp_submission) x l (All-gt x l h),
    λ l' s. Slot-last (cmp cmp_submission) x l (All-gt x l h) s,
  )

module _ {T : Type 0} (t : PoolTransaction T) (C : Channels T ℕ) where
  abbrev pub NonceLe : T → T → Type 0
  NonceLe later earlier = t.sender earlier ≡ t.sender later → t.nonce earlier ≤ t.nonce later

  -- No sender submits a nonce below an earlier one of its own; `before` was submitted already.
  abbrev pub NoncesRise : List T → List T → Type 0
  NoncesRise before [] = Unit
  NoncesRise before (tx ∷ txs) = All (NonceLe tx) before × NoncesRise (before ++ tx ∷ []) txs

  unfoldable pub submit_all : ℕ → List T → Pool T noop fifo C → Pool T noop fifo C
  submit_all now [] pool = pool
  submit_all now (tx ∷ txs) pool = submit_all now txs (add_transaction t noop fifo C now tx pool).1

  abbrev pub txs_of : List (PendingTx T ℕ) → List T
  txs_of = map (λ p. p.tx)

  -- The pool has been fed in order so far.
  record IsFed (before : List T) (pool : Pool T noop fifo C) : Type 0 where
    order : txs_of pool.transactions ≡ before
    numbered :
        All
          (λ p. (p.priority < pool.ordering) × (p.id ≡ new_id (t.sender p.tx) (t.nonce p.tx)))
          pool.transactions
    count : pool.ordering ≡ length before

  precede :
      (tx : T) (n : ℕ) (l : List (PendingTx T ℕ))
      → All (λ p. (p.priority < n) × (p.id ≡ new_id (t.sender p.tx) (t.nonce p.tx))) l
      → All (NonceLe tx) (txs_of l)
      → All (Precedes n (t.sender tx) (t.nonce tx)) l
  unfolding new_id
  precede tx n [] h k = tt
  precede tx n (p ∷ l) h k = ((h.0.0, λ e. ground (arith, h.0.1, k.0)), precede tx n l h.1 k.1)

  grow :
      (n m : ℕ) (l : List (PendingTx T ℕ))
      → n ≤ m
      → All (λ p. (p.priority < n) × (p.id ≡ new_id (t.sender p.tx) (t.nonce p.tx))) l
      → All (λ p. (p.priority < m) × (p.id ≡ new_id (t.sender p.tx) (t.nonce p.tx))) l
  grow n m [] le h = tt
  grow n m (p ∷ l) le h = ((omega (arith, h.0.0), h.0.1), grow n m l le h.1)

  add-IsFed :
      (now : ℕ) (tx : T) (before : List T) (pool : Pool T noop fifo C)
      → length before + 1 < 2 ^ 64
      → All (NonceLe tx) before
      → IsFed before pool
      → IsFed (before ++ tx ∷ []) (add_transaction t noop fifo C now tx pool).1
  unfolding add_transaction add_valid assign new_id
  add-IsFed now tx before pool small rise fed = record {
    order =
        ap txs_of placed
        ∙ map-append _ pool.transactions (new_entry ∷ [])
        ∙ ap (λ l. l ++ tx ∷ []) fed.order;
    numbered = subst (All _) (sym placed) (
        All-append _ pool.transactions (new_entry ∷ [])
          (grow pool.ordering _ pool.transactions (omega (arith, next)) fed.numbered)
          ((omega (arith, next), refl), tt));
    count = omega (arith, next, fed.count, length-append {0} before (tx ∷ []));
  }
    where
      new_entry : PendingTx T ℕ
      new_entry = record {
        id = new_id (t.sender tx) (t.nonce tx);
        tx = tx;
        priority = pool.ordering;
        added_at = now;
      }

      next : (pool.ordering + 1) % 2 ^ 64 ≡ pool.ordering + 1
      next = omega (arith, fed.count)

      placed :
          insert (cmp cmp_submission) new_entry pool.transactions
          ≡ pool.transactions ++ new_entry ∷ []
      placed =
          (insert-at_end new_entry pool.transactions (
            precede tx pool.ordering pool.transactions fed.numbered
              (subst (All (NonceLe tx)) (sym fed.order) rise))).0

  submit_all-IsFed :
      (now : ℕ) (before txs : List T) (pool : Pool T noop fifo C)
      → length before + length txs < 2 ^ 64
      → NoncesRise before txs
      → IsFed before pool
      → IsFed (before ++ txs) (submit_all now txs pool)
  unfolding submit_all
  submit_all-IsFed now before [] pool small rise fed = rw (append-nil before) fed
  submit_all-IsFed now before (tx ∷ txs) pool small rise fed =
      rw (← (append_assoc before (tx ∷ []) txs)) (
        submit_all-IsFed now (before ++ tx ∷ []) txs _
          (omega (arith, length-append {0} before (tx ∷ []))) rise.1
          (add-IsFed now tx before pool (omega arith) rise.0 fed))

  -- A pool that starts empty, orders by submission and finds every transaction valid holds the
  -- transactions in the order in which they were submitted, if there are fewer than 2^64 of them
  -- and no sender submits a nonce below an earlier one of its own.
  pub submit_all-order :
      (now : ℕ) (txs : List T)
      → length txs < 2 ^ 64
      → NoncesRise [] txs
      → txs_of (submit_all now txs (new t noop fifo C tt 0)).transactions ≡ txs
  unfolding new
  submit_all-order now txs small rise =
      (submit_all-IsFed now [] txs _ (omega arith) rise
        (record { order = refl; numbered = tt; count = refl })).order
