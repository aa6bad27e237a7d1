-- ===== src/Storage/Transactions.antt =====
-- Reading transactions, their statuses, execution traces and receipts: the providers of
-- crates/storage/provider/src/providers/db/mod.rs.
use katana.Base.{ℕ, ◌+◌, Option, none, some, List, ltb, if◌then◌else◌}
use katana.Storage.Table.{nat_key, get}
use katana.Storage.Blocks.{collect, over_range, block_body_indices}
use katana.Storage.Db.{
  Content, Db, BlockHashOrNumber, TxWithHash, FinalityStatus, StoredBlockBodyIndices,
  ProviderResult, ok, ◌>>=◌, ok_or, missing_tx, missing_tx_block, missing_tx_hash,
  missing_block_hash, missing_block_status, missing_tx_execution, missing_tx_receipt,
}

-- The answer for the number of a transaction, if its hash has one.
abbrev pub numbered : {A : Type 0} → (ℕ → ProviderResult A) → Option ℕ → ProviderResult (Option A)
numbered read none = ok none
numbered read (some n) = read n >>= λ a. ok (some a)

module _ {c : Content} where
  unfoldable pub transaction_by_hash : ℕ → Db c → ProviderResult (Option (TxWithHash c))
  transaction_by_hash hash db =
      numbered
        (λ n. ok_or (missing_tx n) (get n db.transactions) >>= λ transaction.
          ok (record { hash = hash; transaction = transaction }))
        (get hash db.tx_numbers)

  -- The error for a missing block hash names the transaction, not the block.
  unfoldable pub transaction_block_num_and_hash : ℕ → Db c → ProviderResult (Option (ℕ × ℕ))
  transaction_block_num_and_hash hash db =
      numbered
        (λ n. ok_or (missing_tx_block n) (get n db.tx_blocks) >>= λ block_num.
          ok_or (missing_block_hash n) (get block_num db.block_hashes) >>= λ block_hash.
          ok (block_num, block_hash))
        (get hash db.tx_numbers)

  abbrev pub at_index :
      ℕ → Db c → Option StoredBlockBodyIndices → ProviderResult (Option (TxWithHash c))
  at_index idx db none = ok none
  at_index idx db (some indices) =
      let n = indices.tx_offset + idx in
      let found = ok_or (missing_tx_hash n) (get n db.tx_hashes) >>= λ hash.
      ok_or (missing_tx n) (get n db.transactions) >>= λ transaction.
      ok (some (record { hash = hash; transaction = transaction })) in
      if ltb idx indices.tx_count then found else ok none

  unfoldable pub transaction_by_block_and_idx :
      BlockHashOrNumber → ℕ → Db c → ProviderResult (Option (TxWithHash c))
  transaction_by_block_and_idx block_id idx db = block_body_indices block_id db >>= at_index idx db

  unfoldable pub transaction_count_by_block : BlockHashOrNumber → Db c → ProviderResult (Option ℕ)
  transaction_count_by_block block_id db =
      block_body_indices block_id db >>= over_range (λ start count. ok count)

  unfoldable pub transaction_status : ℕ → Db c → ProviderResult (Option FinalityStatus)
  transaction_status hash db =
      numbered
        (λ n. ok_or (missing_tx_block n) (get n db.tx_blocks) >>= λ block_num.
          ok_or (missing_block_status block_num) (get block_num db.block_statusses))
        (get hash db.tx_numbers)

  unfoldable pub transaction_execution : ℕ → Db c → ProviderResult (Option c.Execution)
  transaction_execution hash db =
      numbered (λ n. ok_or (missing_tx_execution n) (get n db.tx_traces)) (get hash db.tx_numbers)

  unfoldable pub transaction_executions_in_range : ℕ → ℕ → Db c → ProviderResult (List c.Execution)
  transaction_executions_in_range start count db =
      collect (λ i. ok (get i db.tx_traces)) start count

  unfoldable pub transaction_executions_by_block :
      BlockHashOrNumber → Db c → ProviderResult (Option (List c.Execution))
  transaction_executions_by_block block_id db =
      block_body_indices block_id db
      >>= over_range (λ start count. transaction_executions_in_range start count db)

  unfoldable pub receipt_by_hash : ℕ → Db c → ProviderResult (Option c.Receipt)
  receipt_by_hash hash db =
      numbered (λ n. ok_or (missing_tx_receipt n) (get n db.receipts)) (get hash db.tx_numbers)

  unfoldable pub receipts_by_block :
      BlockHashOrNumber → Db c → ProviderResult (Option (List c.Receipt))
  receipts_by_block block_id db =
      block_body_indices block_id db
      >>= over_range (λ start count. collect (λ i. ok (get i db.receipts)) start count)
