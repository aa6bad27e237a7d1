-- ===== src/Storage/Written.antt =====
-- The tables of blocks and transactions after `insert_block_with_states_and_receipts` of
-- crates/storage/provider/src/providers/db/mod.rs.
use katana.Base.{ℕ, suc, ◌≡◌, refl, ◌∙◌, ap, List, [], ◌∷◌, length, map}
use katana.Storage.Table.{nat_key, put, entries}
use katana.Storage.Rows.{put_all, for_enumerated-put_all}
use katana.Storage.Chain.{Insertion, number, updates, insert_one}
use katana.Storage.Frame.{
  for_each-keeps, for_enumerated-keeps, insert_body-keeps, insert_classes-keeps,
  insert_storage-keeps,
}
use katana.Storage.Db.{Content, Db, TxWithHash, StoredBlockBodyIndices}
use katana.Storage.Insert.{
  for_enumerated, insert_block_with_states_and_receipts, insert_transaction, insert_receipt,
  insert_execution, insert_body, insert_declared_class, insert_deprecated_class, insert_class,
  insert_block_data, insert_storage_entry, insert_storage, insert_deployed_contract, insert_nonce,
  insert_state,
}

module _ {c : Content} where
  abbrev pub body : Insertion c → List (TxWithHash c)
  body i = i.block.block.body

  -- The database with the tables of blocks and transactions alone.
  abbrev block_tables : Db c → Db c
  block_tables db = record db {
    compiled_class_hashes = [];
    classes = [];
    contract_info = [];
    contract_storage = [];
    class_declaration_block = [];
    class_declarations = [];
    contract_info_change_set = [];
    nonce_change_history = [];
    class_change_history = [];
    storage_change_history = [];
    storage_change_set = [];
  }

  module _ (i : Insertion c) (db : Db c) where
    abbrev pub offset : ℕ
    offset = entries db.transactions

    abbrev pub indices : StoredBlockBodyIndices
    indices = record { tx_offset = offset; tx_count = length (body i) }

    abbrev with_data : Db c
    with_data = insert_block_data (number i) i.block indices db

    abbrev with_body : Db c
    with_body = insert_body (number i) offset (body i) i.receipts i.executions with_data

    insert_one-block_tables : block_tables (insert_one i db) ≡ block_tables with_body
    unfolding insert_block_with_states_and_receipts insert_state insert_nonce
        insert_deployed_contract insert_storage_entry insert_class insert_deprecated_class
        insert_declared_class
    insert_one-block_tables =
        for_each-keeps block_tables (insert_nonce (number i)) (updates i).nonce_updates _
          (λ x s. refl)
        ∙ for_each-keeps block_tables (insert_deployed_contract (number i))
            (updates i).deployed_contracts _ (λ x s. refl)
        ∙ for_each-keeps block_tables (insert_storage (number i)) (updates i).storage_updates _
            (insert_storage-keeps (number i) block_tables (λ a x s. refl))
        ∙ insert_classes-keeps block_tables (number i) i.states with_body (λ x s. refl)
            (λ x s. refl) (λ x s. refl)

    -- The loop over the transactions.
    abbrev with_transactions : Db c
    with_transactions = for_enumerated (insert_transaction (number i)) offset (body i) with_data

    abbrev with_receipts : Db c
    with_receipts = for_enumerated insert_receipt offset i.receipts with_transactions

    body_after :
        {X : Type 0} (p : Db c → X)
        → ((j : ℕ) (x : c.Receipt) (s : Db c) → p (insert_receipt j x s) ≡ p s)
        → ((j : ℕ) (x : c.Execution) (s : Db c) → p (insert_execution j x s) ≡ p s)
        → p with_body ≡ p with_transactions
    unfolding insert_body
    body_after p a b =
        for_enumerated-keeps p insert_execution offset i.executions with_receipts b
        ∙ for_enumerated-keeps p insert_receipt offset i.receipts with_transactions a

    pub headers-insert_one :
        (insert_one i db).headers ≡ put (number i) i.block.block.header db.headers
    unfolding insert_transaction insert_receipt insert_execution insert_block_data
    headers-insert_one =
        ap (λ d. d.headers) insert_one-block_tables
        ∙ insert_body-keeps (λ d. d.headers) (number i) offset (body i) i.receipts i.executions
            with_data (λ j x s. refl) (λ j x s. refl) (λ j x s. refl)

    pub block_body_indices-insert_one :
        (insert_one i db).block_body_indices ≡ put (number i) indices db.block_body_indices
    unfolding insert_transaction insert_receipt insert_execution insert_block_data
    block_body_indices-insert_one =
        ap (λ d. d.block_body_indices) insert_one-block_tables
        ∙ insert_body-keeps (λ d. d.block_body_indices) (number i) offset (body i) i.receipts
            i.executions with_data (λ j x s. refl) (λ j x s. refl) (λ j x s. refl)

    pub block_statusses-insert_one :
        (insert_one i db).block_statusses ≡ put (number i) i.block.status db.block_statusses
    unfolding insert_transaction insert_receipt insert_execution insert_block_data
    block_statusses-insert_one =
        ap (λ d. d.block_statusses) insert_one-block_tables
        ∙ insert_body-keeps (λ d. d.block_statusses) (number i) offset (body i) i.receipts
            i.executions with_data (λ j x s. refl) (λ j x s. refl) (λ j x s. refl)

    pub block_hashes-insert_one :
        (insert_one i db).block_hashes ≡ put (number i) i.block.block.hash db.block_hashes
    unfolding insert_transaction insert_receipt insert_execution insert_block_data
    block_hashes-insert_one =
        ap (λ d. d.block_hashes) insert_one-block_tables
        ∙ insert_body-keeps (λ d. d.block_hashes) (number i) offset (body i) i.receipts i.executions
            with_data (λ j x s. refl) (λ j x s. refl) (λ j x s. refl)

    pub transactions-insert_one :
        (insert_one i db).transactions
        ≡ put_all offset (map (λ t. t.transaction) (body i)) db.transactions
    unfolding insert_transaction insert_receipt insert_execution insert_block_data
    transactions-insert_one =
        ap (λ d. d.transactions) insert_one-block_tables
        ∙ body_after (λ d. d.transactions) (λ j x s. refl) (λ j x s. refl)
        ∙ for_enumerated-put_all (λ d. d.transactions) (λ t. t.transaction)
            (insert_transaction (number i)) offset (body i) with_data (λ j x s. refl)

    pub tx_hashes-insert_one :
        (insert_one i db).tx_hashes ≡ put_all offset (map (λ t. t.hash) (body i)) db.tx_hashes
    unfolding insert_transaction insert_receipt insert_execution insert_block_data
    tx_hashes-insert_one =
        ap (λ d. d.tx_hashes) insert_one-block_tables
        ∙ body_after (λ d. d.tx_hashes) (λ j x s. refl) (λ j x s. refl)
        ∙ for_enumerated-put_all (λ d. d.tx_hashes) (λ t. t.hash) (insert_transaction (number i))
            offset (body i) with_data (λ j x s. refl)

    pub receipts-insert_one :
        (insert_one i db).receipts ≡ put_all offset (map (λ r. r) i.receipts) db.receipts
    unfolding insert_transaction insert_receipt insert_execution insert_block_data insert_body
    receipts-insert_one =
        ap (λ d. d.receipts) insert_one-block_tables
        ∙ for_enumerated-keeps (λ d. d.receipts) insert_execution offset i.executions with_receipts
            (λ j x s. refl)
        ∙ for_enumerated-put_all (λ d. d.receipts) (λ r. r) insert_receipt offset i.receipts
            with_transactions (λ j x s. refl)
        ∙ ap (put_all offset (map (λ r. r) i.receipts)) (
            for_enumerated-keeps (λ d. d.receipts) (insert_transaction (number i)) offset (body i)
              with_data (λ j x s. refl))

    pub tx_traces-insert_one :
        (insert_one i db).tx_traces ≡ put_all offset (map (λ r. r) i.executions) db.tx_traces
    unfolding insert_transaction insert_receipt insert_execution insert_block_data insert_body
    tx_traces-insert_one =
        ap (λ d. d.tx_traces) insert_one-block_tables
        ∙ for_enumerated-put_all (λ d. d.tx_traces) (λ r. r) insert_execution offset i.executions
            with_receipts (λ j x s. refl)
        ∙ ap (put_all offset (map (λ r. r) i.executions)) (
            for_enumerated-keeps (λ d. d.tx_traces) insert_receipt offset i.receipts
              with_transactions (λ j x s. refl)
            ∙ for_enumerated-keeps (λ d. d.tx_traces) (insert_transaction (number i)) offset
                (body i) with_data (λ j x s. refl))

    pub tx_numbers-insert_one :
        (insert_one i db).tx_numbers
        ≡ for_enumerated (λ j t m. put t.hash j m) offset (body i) db.tx_numbers
    unfolding insert_transaction insert_receipt insert_execution insert_block_data
    tx_numbers-insert_one =
        ap (λ d. d.tx_numbers) insert_one-block_tables
        ∙ body_after (λ d. d.tx_numbers) (λ j x s. refl) (λ j x s. refl)
        ∙ go offset (body i) with_data
      where
        go :
            (o : ℕ) (txs : List (TxWithHash c)) (s : Db c)
            → (for_enumerated (insert_transaction (number i)) o txs s).tx_numbers
              ≡ for_enumerated (λ j t m. put t.hash j m) o txs s.tx_numbers
        go o [] s = refl
        go o (t ∷ txs) s = go (suc o) txs (insert_transaction (number i) o t s)
