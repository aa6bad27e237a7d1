-- ===== src/Pool/Order.antt =====
-- Priorities and the order of pooled transactions: crates/pool/src/ordering.rs and tx.rs.
-- Felts, addresses, hashes and the submission time are natural numbers.
use Prim.Native.Nat.{compare, Ordering}
use katana.Base.{
  ℕ, ◌+◌, ◌-◌, ◌%◌, ◌^◌, ◌<◌, ◌≡◌, ◌≢◌, Option, none, some, arith, ◌==◌, if◌then◌else◌,
}
use katana.Transaction.Encode.{prime}

-- The trait `PoolTransaction`, over the transactions that a pool holds.
pub record PoolTransaction (T : Type 0) : Type 0 where
  pub hash : T → ℕ
  pub nonce : T → ℕ
  pub sender : T → ℕ
  pub max_fee : T → ℕ
  pub tip : T → ℕ

-- The trait `PoolOrd`: a priority value with its `Ord`, and how one is given to a transaction.
-- `St` is what the ordering mutates.
pub record PoolOrd (T : Type 0) : Type 1 where
  pub Priority : Type 0
  pub St : Type 0
  pub cmp : Priority → Priority → Ordering
  pub priority : St → T → Priority × St

-- First come, first served: `fetch_add` on a u64 counter.
unfoldable pub assign : ℕ → ℕ × ℕ
assign nonce = (nonce, (nonce + 1) % 2 ^ 64)

-- `TxSubmissionNonce::cmp`.
abbrev pub cmp_submission : ℕ → ℕ → Ordering
cmp_submission a b = compare a b

abbrev pub fifo : {T : Type 0} → PoolOrd T
fifo = record { Priority = ℕ; St = ℕ; cmp = cmp_submission; priority = λ nonce tx. assign nonce }

-- `Tip::cmp`: the other way round.
abbrev pub cmp_tip : ℕ → ℕ → Ordering
cmp_tip a b = compare b a

abbrev pub tip_ordering : {T : Type 0} → PoolTransaction T → PoolOrd T
tip_ordering t = record {
  Priority = ℕ;
  St = Unit {0};
  cmp = cmp_tip;
  priority = λ s tx. (t.tip tx, s);
}

pub record TxId : Type 0 where
  pub sender : ℕ
  pub nonce : ℕ

unfoldable pub new_id : ℕ → ℕ → TxId
new_id sender nonce = record { sender = sender; nonce = nonce }

-- `none` if the nonce is zero, so that the subtraction is exact.
unfoldable pub parent : TxId → Option TxId
parent id = if id.nonce == 0 then none else some (record id { nonce = id.nonce - 1 })

unfoldable pub descendent : TxId → TxId
descendent id = record id { nonce = (id.nonce + 1) % prime }

-- The parent of an id's descendent is the id itself, unless the nonce is the field's last element.
pub parent-descendent : (id : TxId) → id.nonce + 1 < prime → parent (descendent id) ≡ some id
unfolding parent descendent
parent-descendent id h =
    let e : (id.nonce + 1) % prime ≡ id.nonce + 1 = omega (arith, h) in rw e (ground arith)

pub record PendingTx (T P : Type 0) : Type 0 where
  pub id : TxId
  pub tx : T
  pub priority : P
  pub added_at : ℕ

abbrev or_greater : Ordering → Ordering
or_greater Ordering.eq = Ordering.gt
or_greater Ordering.lt = Ordering.lt
or_greater Ordering.gt = Ordering.gt

-- `PendingTx::cmp`: by nonce among the transactions of one sender, and by priority otherwise; what
-- compares equal is greater.
unfoldable pub cmp : {T P : Type 0} → (P → P → Ordering) → PendingTx T P → PendingTx T P → Ordering
cmp cmp_priority a b =
    if a.id.sender == b.id.sender
    then or_greater (compare a.id.nonce b.id.nonce)
    else or_greater (cmp_priority a.priority b.priority)

-- A transaction is greater than itself.
pub cmp_self : {T : Type 0} (a : PendingTx T ℕ) → cmp cmp_submission a a ≡ Ordering.gt
unfolding cmp
cmp_self a = ground arith

-- The order is not transitive: two transactions of one sender, and one of another whose
-- priority lies between theirs the other way round, form a cycle.
pub cmp_cycle :
    {T : Type 0} (a b c : PendingTx T ℕ)
    → a.id.sender ≡ b.id.sender
    → a.id.sender ≢ c.id.sender
    → a.id.nonce < b.id.nonce
    → b.priority < c.priority
    → c.priority < a.priority
    → (cmp cmp_submission a b ≡ Ordering.lt)
      × (cmp cmp_submission b c ≡ Ordering.lt)
      × (cmp cmp_submission c a ≡ Ordering.lt)
unfolding cmp
cmp_cycle a b c s d n p r = (ground arith, ground arith, ground arith)

-- No two transactions compare equal, so that a set drops none.
pub cmp_ne_eq :
    {T P : Type 0} (cmp_priority : P → P → Ordering) (a b : PendingTx T P)
    → cmp cmp_priority a b ≢ Ordering.eq
unfolding cmp
cmp_ne_eq cmp_priority a b h = ground arith
