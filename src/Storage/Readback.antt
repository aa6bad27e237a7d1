-- ===== src/Storage/Readback.antt =====
-- Blocks read back by their numbers from a database that blocks were stored in, and transactions by
-- their hashes: the readers of crates/storage/provider/src/providers/db/mod.rs.
use mathlib.Core.Option.{some-injective}
use katana.Base.{
  ℕ, zero, suc, ◌+◌, ◌≡◌, refl, ◌∙◌, sym, ap, subst, inl, inr, Option, none, some, List, [], ◌∷◌,
  ◌++◌, arith, All, ◌==◌, ==_iff, Bool-cases, length, length-append, length-map, map, append_assoc,
  append-nil, get_elem?, if◌then◌else◌,
}
use katana.Storage.Table.{nat_key, Table, get, put, entries}
use katana.Storage.Table.Laws.{get-put}
use katana.Storage.Rows.{put_all, Holds, Holds-put_all, Holds-keep}
use katana.Storage.Db.{Content, Db, empty, TxWithHash, ok, num, ◌>>=◌, ok_or, missing_tx}
use katana.Storage.Insert.{for_enumerated}
use katana.Storage.Blocks.{block, block_status, block_hash_by_num}
use katana.Storage.Transactions.{
  numbered, transaction_by_hash, receipts_by_block, transaction_executions_by_block,
}
use katana.Storage.Chain.{Insertion, number, insert_one, insert_all, IsChain}
use katana.Storage.Written.{body, offset, transactions-insert_one, tx_numbers-insert_one}
use katana.Storage.Stored.{
  IsComplete, IsPacked, insert_one-IsPacked, entries-insert_one, insert_all-IsStored,
  block-IsStored, block_status-IsStored, block_hash_by_num-IsStored, receipts_by_block-IsStored,
  executions_by_block-IsStored,
}

-- The transactions of all blocks in their order.
abbrev pub all_transactions : {c : Content} → List (Insertion c) → List (TxWithHash c)
all_transactions [] = []
all_transactions (i ∷ is) = body i ++ all_transactions is

-- The last transaction of a hash, and its index counted from `o`; otherwise what was before.
abbrev pub last_with :
    {c : Content} → ℕ → List (TxWithHash c) → Option (TxWithHash c) → Option (TxWithHash c)
last_with h [] before = before
last_with h (t ∷ txs) before = last_with h txs (if h == t.hash then some t else before)

abbrev last_index : {c : Content} → ℕ → ℕ → List (TxWithHash c) → Option ℕ → Option ℕ
last_index h o [] before = before
last_index h o (t ∷ txs) before = last_index h (suc o) txs (if h == t.hash then some o else before)

All-get_elem :
    {A : Type 0} (P : A → Type 0) (l : List A) (j : ℕ) (x : A)
    → get_elem? l j ≡ some x
    → All P l
    → P x
All-get_elem P [] j x e a = cc
All-get_elem P (y ∷ l) zero x e a = subst P (some-injective _ _ e) a.0
All-get_elem P (y ∷ l) (suc j) x e a = All-get_elem P l j x e a.1

map-append : {A B : Type 0} (f : A → B) (xs ys : List A) → map f (xs ++ ys) ≡ map f xs ++ map f ys
map-append f [] ys = refl
map-append f (x ∷ xs) ys = ap (◌∷◌ (f x)) (map-append f xs ys)

Holds-append :
    {V : Type 0} (o : ℕ) (xs ys : List V) (t : Table ℕ V)
    → Holds o xs t
    → Holds (o + length xs) ys t
    → Holds o (xs ++ ys) t
Holds-append o [] ys t h g = subst (λ n. Holds n ys t) (omega arith) g
Holds-append o (x ∷ xs) ys t h g =
    (h.0, Holds-append (suc o) xs ys t h.1 (subst (λ n. Holds n ys t) (omega arith) g))

module _ {c : Content} where
  -- Blocks numbered from 0 on, each with a receipt and a trace for each transaction, are stored into
  -- an empty database. Then each of them is read back by its number: its header and transactions, its
  -- status, its hash, its receipts and its traces, also after all later blocks.
  pub block-insert_all :
      (is : List (Insertion c)) (j : ℕ) (i : Insertion c)
      → IsChain 0 is
      → All IsComplete is
      → get_elem? is j ≡ some i
      → (block (num (number i)) (insert_all is empty)
          ≡ ok (some (record { header = i.block.block.header; body = i.block.block.body })))
        × (block_status (num (number i)) (insert_all is empty) ≡ ok (some i.block.status))
        × (block_hash_by_num (number i) (insert_all is empty) ≡ ok (some i.block.block.hash))
        × (receipts_by_block (num (number i)) (insert_all is empty) ≡ ok (some i.receipts))
        × (transaction_executions_by_block (num (number i)) (insert_all is empty)
            ≡ ok (some i.executions))
  block-insert_all is j i ch all e =
      let k = All-get_elem IsComplete is j i e all in
      let s = insert_all-IsStored i 0 j is empty e all ch tt in
      let db = insert_all is empty in
      (
        block-IsStored i db s,
        block_status-IsStored i db s,
        block_hash_by_num-IsStored i db s,
        receipts_by_block-IsStored i db s k,
        executions_by_block-IsStored i db s k,
      )

  -- The database holds the transactions `l`, and knows the number of each hash.
  record IsIndexed (l : List (TxWithHash c)) (db : Db c) : Type 0 where
    packed : IsPacked db
    counted : entries db.transactions ≡ length l
    rows : Holds 0 (map (λ t. t.transaction) l) db.transactions
    numbers : (h : ℕ) → get h db.tx_numbers ≡ last_index h 0 l none

  get-for_enumerated :
      (h o : ℕ) (txs : List (TxWithHash c)) (m : Table ℕ ℕ)
      → get h (for_enumerated (λ j t n. put t.hash j n) o txs m) ≡ last_index h o txs (get h m)
  get-for_enumerated h o [] m = refl
  get-for_enumerated h o (t ∷ txs) m =
      get-for_enumerated h (suc o) txs (put t.hash o m)
      ∙ ap (last_index h (suc o) txs) (get-put t.hash h o m)

  last_index-append :
      (h o : ℕ) (xs ys : List (TxWithHash c)) (before : Option ℕ)
      → last_index h o (xs ++ ys) before
        ≡ last_index h (o + length xs) ys (last_index h o xs before)
  last_index-append h o [] ys before = ap (λ n. last_index h n ys before) (omega arith)
  last_index-append h o (x ∷ xs) ys before =
      last_index-append h (suc o) xs ys _
      ∙ ap (λ n. last_index h n ys (last_index h o (x ∷ xs) before)) (omega arith)

  insert_one-IsIndexed :
      (i : Insertion c) (l : List (TxWithHash c)) (db : Db c)
      → IsIndexed l db
      → IsIndexed (l ++ body i) (insert_one i db)
  insert_one-IsIndexed i l db x =
      let added = map (λ t. t.transaction) (body i) in
      record {
        packed = insert_one-IsPacked i db x.packed;
        counted =
            entries-insert_one i db x.packed
            ∙ ap (λ n. n + length (body i)) x.counted
            ∙ sym (length-append l (body i));
        rows =
            rw (map-append (λ t. t.transaction) l (body i), transactions-insert_one i db)
              (Holds-append 0 (map (λ t. t.transaction) l) added _
                (Holds-keep 0 (offset i db) _ added db.transactions
                  (omega (arith, x.counted, length-map l (λ t. t.transaction))) x.rows)
                (subst (λ n. Holds n added (put_all (offset i db) added db.transactions))
                  (omega (arith, x.counted, length-map l (λ t. t.transaction)))
                  (Holds-put_all (offset i db) added db.transactions)));
        numbers = λ h.
            ap (get h) (tx_numbers-insert_one i db)
            ∙ get-for_enumerated h (offset i db) (body i) db.tx_numbers
            ∙ ap (last_index h (offset i db) (body i)) (x.numbers h)
            ∙ ap (λ n. last_index h n (body i) (last_index h 0 l none))
                (let e : entries db.transactions ≡ 0 + length l = omega (arith, x.counted) in e)
            ∙ sym (last_index-append h 0 l (body i) none);
      }

  insert_all-IsIndexed :
      (is : List (Insertion c)) (l : List (TxWithHash c)) (db : Db c)
      → IsIndexed l db
      → IsIndexed (l ++ all_transactions is) (insert_all is db)
  insert_all-IsIndexed [] l db x = subst (λ m. IsIndexed m db) (sym (append-nil l)) x
  insert_all-IsIndexed (i ∷ is) l db x =
      subst (λ m. IsIndexed m (insert_all is (insert_one i db)))
        (append_assoc l (body i) (all_transactions is))
        (insert_all-IsIndexed is (l ++ body i) (insert_one i db) (insert_one-IsIndexed i l db x))

  -- The row of a transaction's number is the transaction.
  data Found (db : Db c) (h : ℕ) : Option ℕ → Option (TxWithHash c) → Type 0 where
    absent : Found db h none none
    found :
        (n : ℕ) (t : TxWithHash c)
        → get n db.transactions ≡ some t.transaction
        → h ≡ t.hash
        → Found db h (some n) (some t)

  last-Found :
      (db : Db c) (h o : ℕ) (l : List (TxWithHash c)) (n : Option ℕ) (t : Option (TxWithHash c))
      → Holds o (map (λ t. t.transaction) l) db.transactions
      → Found db h n t
      → Found db h (last_index h o l n) (last_with h l t)
  last-Found db h o [] n t r f = f
  last-Found db h o (x ∷ l) n t r f =
      last-Found db h (suc o) l _ _ r.1 (elim (Bool-cases (h == x.hash)) [
        | inl q ↦ rw q (found o x r.0 ((==_iff h x.hash).0 q))
        | inr q ↦ rw q f
      ])

  Found-read :
      (db : Db c) (h : ℕ) (n : Option ℕ) (t : Option (TxWithHash c))
      → Found db h n t
      → numbered
          (λ n. ok_or (missing_tx n) (get n db.transactions) >>= λ transaction.
            ok (record { hash = h; transaction = transaction }))
          n
        ≡ ok t
  Found-read db h none none absent = refl
  Found-read db h none (some t) x = elim x [ ]
  Found-read db h (some n) none x = elim x [ ]
  Found-read db h (some n) (some t) (found _ _ r e) = rw (r, e) refl

  empty-IsIndexed : IsIndexed [] (empty {c = c})
  unfolding get
  empty-IsIndexed = record { packed = tt; counted = refl; rows = tt; numbers = λ h. refl }

  -- A transaction is read back by its hash, after any blocks were stored into an empty database: the
  -- last one stored under that hash, and none if there is none.
  pub transaction_by_hash-insert_all :
      (is : List (Insertion c)) (h : ℕ)
      → transaction_by_hash h (insert_all is empty) ≡ ok (last_with h (all_transactions is) none)
  unfolding transaction_by_hash
  transaction_by_hash-insert_all is h =
      let x = insert_all-IsIndexed is [] empty empty-IsIndexed in
      ap (numbered _) (x.numbers h)
      ∙ Found-read (insert_all is empty) h _ _
          (last-Found (insert_all is empty) h 0 (all_transactions is) none none x.rows absent)
