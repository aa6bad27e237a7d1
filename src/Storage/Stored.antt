-- ===== src/Storage/Stored.antt =====
-- What the readers of crates/storage/provider/src/providers/db/mod.rs find of a block that was
-- stored, also after later ones.
use mathlib.Core.Option.{some-injective}
use katana.Base.{
  ℕ, zero, suc, ◌+◌, ◌≤◌, ◌<◌, ◌≡◌, refl, ◌∙◌, ap, subst, false, some, List, [], ◌∷◌, arith, All,
  ◌==◌, length, length-map, map, get_elem?,
}
use katana.Storage.Table.{nat_key, get, entries}
use katana.Storage.Table.Laws.{get-put_self, get-put_other}
use katana.Storage.Rows.{
  put_all, Holds, KeysBelow, Holds-put_all, Holds-keep, KeysBelow-put_all, entries-put_all,
  collect-Holds,
}
use katana.Storage.Db.{Content, Db, TxWithHash, num, ok}
use katana.Storage.Blocks.{
  collect, transaction_at, block, header, block_number_by_id, block_body_indices, block_status,
  transactions_by_block, transaction_in_range, block_hash_by_num,
}
use katana.Storage.Transactions.{
  receipts_by_block, transaction_executions_by_block, transaction_executions_in_range,
}
use katana.Storage.Chain.{Insertion, number, insert_one, insert_all, IsChain}
use katana.Storage.Written.{
  body, offset, headers-insert_one, block_body_indices-insert_one, block_statusses-insert_one,
  block_hashes-insert_one, transactions-insert_one, tx_hashes-insert_one, receipts-insert_one,
  tx_traces-insert_one,
}

map_id : {A : Type 0} (xs : List A) → map (λ x. x) xs ≡ xs
map_id [] = refl
map_id (x ∷ xs) = ap (◌∷◌ x) (map_id xs)

module _ {c : Content} where
  -- A block comes with a receipt and a trace for each of its transactions.
  abbrev pub IsComplete : Insertion c → Type 0
  IsComplete i = (length i.receipts ≡ length (body i)) × (length i.executions ≡ length (body i))

  -- The tables have the block's rows.
  pub record IsStored (i : Insertion c) (db : Db c) : Type 0 where
    pub start : ℕ
    pub within : start + length (body i) ≤ entries db.transactions
    pub has_header : get (number i) db.headers ≡ some i.block.block.header
    pub has_indices :
        get (number i) db.block_body_indices
        ≡ some (record { tx_offset = start; tx_count = length (body i) })
    pub has_status : get (number i) db.block_statusses ≡ some i.block.status
    pub has_hash : get (number i) db.block_hashes ≡ some i.block.block.hash
    pub has_transactions : Holds start (map (λ t. t.transaction) (body i)) db.transactions
    pub has_hashes : Holds start (map (λ t. t.hash) (body i)) db.tx_hashes
    pub has_receipts : Holds start i.receipts db.receipts
    pub has_traces : Holds start i.executions db.tx_traces

  -- The transactions' keys are those below their number.
  abbrev pub IsPacked : Db c → Type 0
  IsPacked db = KeysBelow (entries db.transactions) db.transactions

  pub entries-insert_one :
      (i : Insertion c) (db : Db c)
      → IsPacked db
      → entries (insert_one i db).transactions ≡ entries db.transactions + length (body i)
  entries-insert_one i db p =
      ap entries (transactions-insert_one i db)
      ∙ entries-put_all (offset i db) (map (λ t. t.transaction) (body i)) db.transactions p
      ∙ ap (◌+◌ (entries db.transactions)) (length-map (body i) (λ t. t.transaction))

  pub insert_one-IsPacked : (i : Insertion c) (db : Db c) → IsPacked db → IsPacked (insert_one i db)
  insert_one-IsPacked i db p =
      rw (entries-insert_one i db p, transactions-insert_one i db)
        (subst
          (λ n.
            KeysBelow (offset i db + n)
              (put_all (offset i db) (map (λ t. t.transaction) (body i)) db.transactions))
          (length-map (body i) (λ t. t.transaction))
          (KeysBelow-put_all (offset i db) (map (λ t. t.transaction) (body i)) db.transactions p))

  pub insert_one-IsStored :
      (i : Insertion c) (db : Db c) → IsPacked db → IsStored i (insert_one i db)
  insert_one-IsStored i db p = record {
    start = offset i db;
    within = omega (arith, entries-insert_one i db p);
    has_header = rw (headers-insert_one i db) (get-put_self (number i) _ db.headers);
    has_indices =
        rw (block_body_indices-insert_one i db) (get-put_self (number i) _ db.block_body_indices);
    has_status =
        rw (block_statusses-insert_one i db) (get-put_self (number i) _ db.block_statusses);
    has_hash = rw (block_hashes-insert_one i db) (get-put_self (number i) _ db.block_hashes);
    has_transactions = rw (transactions-insert_one i db) (Holds-put_all (offset i db) _ _);
    has_hashes = rw (tx_hashes-insert_one i db) (Holds-put_all (offset i db) _ _);
    has_receipts =
        rw (receipts-insert_one i db, map_id i.receipts) (Holds-put_all (offset i db) _ _);
    has_traces =
        rw (tx_traces-insert_one i db, map_id i.executions) (Holds-put_all (offset i db) _ _);
  }

  -- A later block leaves the rows of an earlier one.
  pub insert_one-keeps :
      (i j : Insertion c) (db : Db c)
      → IsComplete i
      → (number i == number j) ≡ false
      → IsPacked db
      → IsStored i db
      → IsStored i (insert_one j db)
  insert_one-keeps i j db k ne p s = record {
    start = s.start;
    within = omega (arith, entries-insert_one j db p, s.within);
    has_header =
        rw (headers-insert_one j db)
          (get-put_other (number j) (number i) _ db.headers ne ∙ s.has_header);
    has_indices =
        rw (block_body_indices-insert_one j db)
          (get-put_other (number j) (number i) _ db.block_body_indices ne ∙ s.has_indices);
    has_status =
        rw (block_statusses-insert_one j db)
          (get-put_other (number j) (number i) _ db.block_statusses ne ∙ s.has_status);
    has_hash =
        rw (block_hashes-insert_one j db)
          (get-put_other (number j) (number i) _ db.block_hashes ne ∙ s.has_hash);
    has_transactions = rw (transactions-insert_one j db) (
        Holds-keep s.start (offset j db) _ (map (λ t. t.transaction) (body j)) db.transactions
          (omega (arith, s.within, length-map (body i) (λ t. t.transaction))) s.has_transactions);
    has_hashes = rw (tx_hashes-insert_one j db) (
        Holds-keep s.start (offset j db) _ (map (λ t. t.hash) (body j)) db.tx_hashes
          (omega (arith, s.within, length-map (body i) (λ t. t.hash))) s.has_hashes);
    has_receipts = rw (receipts-insert_one j db) (
        Holds-keep s.start (offset j db) _ (map (λ r. r) j.receipts) db.receipts
          (omega (arith, s.within, k.0)) s.has_receipts);
    has_traces = rw (tx_traces-insert_one j db) (
        Holds-keep s.start (offset j db) _ (map (λ r. r) j.executions) db.tx_traces
          (omega (arith, s.within, k.1)) s.has_traces);
  }

  read_transaction :
      (db : Db c) (o : ℕ) (t : TxWithHash c)
      → get o db.transactions ≡ some t.transaction
      → get o db.tx_hashes ≡ some t.hash
      → transaction_at db o ≡ ok (some t)
  read_transaction db o t h g = rw (h, transaction_at, g) refl

  -- The readers find a block whose rows are there.
  collect-transactions :
      (db : Db c) (o : ℕ) (txs : List (TxWithHash c))
      → Holds o (map (λ t. t.transaction) txs) db.transactions
      → Holds o (map (λ t. t.hash) txs) db.tx_hashes
      → collect (transaction_at db) o (length txs) ≡ ok txs
  collect-transactions db o [] h g = refl
  collect-transactions db o (t ∷ txs) h g =
      rw (read_transaction db o t h.0 g.0, collect-transactions db (suc o) txs h.1 g.1) refl

  module _ (i : Insertion c) (db : Db c) (s : IsStored i db) where
    pub block-IsStored :
        block (num (number i)) db
        ≡ ok (some (record { header = i.block.block.header; body = body i }))
    unfolding block header block_number_by_id transactions_by_block block_body_indices
        transaction_in_range
    block-IsStored =
        rw
          (
            s.has_header,
            s.has_indices,
            collect-transactions db s.start (body i) s.has_transactions s.has_hashes,
          )
          refl

    pub block_status-IsStored : block_status (num (number i)) db ≡ ok (some i.block.status)
    unfolding block_status block_number_by_id
    block_status-IsStored = rw s.has_status refl

    pub block_hash_by_num-IsStored : block_hash_by_num (number i) db ≡ ok (some i.block.block.hash)
    unfolding block_hash_by_num
    block_hash_by_num-IsStored = rw s.has_hash refl

    pub receipts_by_block-IsStored :
        IsComplete i → receipts_by_block (num (number i)) db ≡ ok (some i.receipts)
    unfolding receipts_by_block block_body_indices block_number_by_id
    receipts_by_block-IsStored k =
        rw
          (
            s.has_indices,
            ← k.0,
            collect-Holds (λ j. ok (get j db.receipts)) (λ r. r) db.receipts s.start i.receipts
                (λ j x e. ap ok e) s.has_receipts,
            map_id i.receipts,
          )
          refl

    pub executions_by_block-IsStored :
        IsComplete i → transaction_executions_by_block (num (number i)) db ≡ ok (some i.executions)
    unfolding transaction_executions_by_block transaction_executions_in_range block_body_indices
        block_number_by_id
    executions_by_block-IsStored k =
        rw
          (
            s.has_indices,
            ← k.1,
            collect-Holds (λ j. ok (get j db.tx_traces)) (λ r. r) db.tx_traces s.start i.executions
                (λ j x e. ap ok e) s.has_traces,
            map_id i.executions,
          )
          refl

  insert_all-keeps :
      (i : Insertion c) (n : ℕ) (is : List (Insertion c)) (db : Db c)
      → IsComplete i
      → number i < n
      → IsChain n is
      → IsPacked db
      → IsStored i db
      → IsStored i (insert_all is db)
  insert_all-keeps i n [] db k lt ch p s = s
  insert_all-keeps i n (j ∷ js) db k lt ch p s =
      insert_all-keeps i (suc n) js (insert_one j db) k (omega arith) ch.2
        (insert_one-IsPacked j db p) (insert_one-keeps i j db k (ground (arith, ch.0)) p s)

  -- Each block of a chain is stored in the end.
  pub insert_all-IsStored :
      (i : Insertion c) (n j : ℕ) (is : List (Insertion c)) (db : Db c)
      → get_elem? is j ≡ some i
      → All IsComplete is
      → IsChain n is
      → IsPacked db
      → IsStored i (insert_all is db)
  insert_all-IsStored i n j [] db e k ch p = cc
  insert_all-IsStored i n zero (x ∷ is) db e k ch p =
      let q : x ≡ i = some-injective _ _ e in
      subst (λ y. IsStored y (insert_all is (insert_one x db))) q
        (insert_all-keeps x (suc n) is (insert_one x db) k.0 (omega (arith, ch.0)) ch.2
          (insert_one-IsPacked x db p) (insert_one-IsStored x db p))
  insert_all-IsStored i n (suc j) (x ∷ is) db e k ch p =
      insert_all-IsStored i (suc n) j is (insert_one x db) e k.1 ch.2 (insert_one-IsPacked x db p)
