-- ===== src/Storage/Insert.antt =====
-- The writer of blocks: `insert_block_with_states_and_receipts` of
-- crates/storage/provider/src/providers/db/mod.rs, loop by loop.
use katana.Base.{ℕ, suc, true, false, Option, none, some, List, [], ◌∷◌, length, ◌==◌}
use katana.Storage.Table.{
  nat_key, pair_key, Table, DupTable, get, put, entries, put_dup, seek_by_key_subkey,
  delete_current,
}
use katana.Storage.BlockList.{BlockList, insert}
use katana.Storage.Db.{
  Content, Db, TxWithHash, SealedBlockWithStatus, StateUpdates, StateUpdatesWithClasses,
  StoredBlockBodyIndices, GenericContractInfo, ContractInfoChangeList, ContractStorageKey,
}

module _ {A S : Type 0} where
  -- A `for` loop over the elements in order.
  abbrev pub for_each : (A → S → S) → List A → S → S
  for_each f [] s = s
  for_each f (x ∷ xs) s = for_each f xs (f x s)

  -- A `for` loop over `enumerate`, with the index counted from `i`.
  abbrev pub for_enumerated : (ℕ → A → S → S) → ℕ → List A → S → S
  for_enumerated f i [] s = s
  for_enumerated f i (x ∷ xs) s = for_enumerated f (suc i) xs (f i x s)

-- The list of blocks with one more; `BlockList::from` makes a new one.
abbrev pub with_block : ℕ → Option BlockList → BlockList
with_block block_number none = insert block_number []
with_block block_number (some list) = insert block_number list

-- `ContractStorage` with an entry: an entry of the same key is deleted first.
unfoldable pub upsert_storage : ℕ → ℕ → ℕ → DupTable ℕ ℕ ℕ → DupTable ℕ ℕ ℕ
upsert_storage addr key value t =
    let cleared : DupTable ℕ ℕ ℕ = elim (seek_by_key_subkey addr key t) [
      | none ↦ t
      | some current ↦ elim (current.0 == key) [ true ↦ delete_current addr key t | false ↦ t ]
    ] in
    put_dup addr (key, value) cleared

-- The contract's information with its class hash or its nonce set; a new one is all zero.
abbrev pub info_with_class_hash : ℕ → Option GenericContractInfo → GenericContractInfo
info_with_class_hash class_hash none = record { nonce = 0; class_hash = class_hash }
info_with_class_hash class_hash (some info) = record info { class_hash = class_hash }

abbrev pub info_with_nonce : ℕ → Option GenericContractInfo → GenericContractInfo
info_with_nonce nonce none = record { nonce = nonce; class_hash = 0 }
info_with_nonce nonce (some info) = record info { nonce = nonce }

abbrev pub with_class_change : ℕ → Option ContractInfoChangeList → ContractInfoChangeList
with_class_change block_number none = record {
  class_change_list = insert block_number [];
  nonce_change_list = [];
}
with_class_change block_number (some change_set) = record change_set {
  class_change_list = insert block_number change_set.class_change_list;
}

abbrev pub with_nonce_change : ℕ → Option ContractInfoChangeList → ContractInfoChangeList
with_nonce_change block_number none = record {
  class_change_list = [];
  nonce_change_list = insert block_number [];
}
with_nonce_change block_number (some change_set) = record change_set {
  nonce_change_list = insert block_number change_set.nonce_change_list;
}

module _ {c : Content} where
  unfoldable pub insert_block_data :
      ℕ → SealedBlockWithStatus c → StoredBlockBodyIndices → Db c → Db c
  insert_block_data block_number b indices db = record db {
    block_hashes = put block_number b.block.hash db.block_hashes;
    block_numbers = put b.block.hash block_number db.block_numbers;
    block_statusses = put block_number b.status db.block_statusses;
    headers = put block_number b.block.header db.headers;
    block_body_indices = put block_number indices db.block_body_indices;
  }

  unfoldable pub insert_transaction : ℕ → ℕ → TxWithHash c → Db c → Db c
  insert_transaction block_number tx_number transaction db = record db {
    tx_hashes = put tx_number transaction.hash db.tx_hashes;
    tx_numbers = put transaction.hash tx_number db.tx_numbers;
    tx_blocks = put tx_number block_number db.tx_blocks;
    transactions = put tx_number transaction.transaction db.transactions;
  }

  unfoldable pub insert_receipt : ℕ → c.Receipt → Db c → Db c
  insert_receipt tx_number receipt db = record db { receipts = put tx_number receipt db.receipts }

  unfoldable pub insert_execution : ℕ → c.Execution → Db c → Db c
  insert_execution tx_number execution db = record db {
    tx_traces = put tx_number execution db.tx_traces;
  }

  unfoldable pub insert_declared_class : ℕ → ℕ × ℕ → Db c → Db c
  insert_declared_class block_number class db = record db {
    compiled_class_hashes = put class.0 class.1 db.compiled_class_hashes;
    class_declaration_block = put class.0 block_number db.class_declaration_block;
    class_declarations = put_dup block_number class.0 db.class_declarations;
  }

  unfoldable pub insert_deprecated_class : ℕ → ℕ → Db c → Db c
  insert_deprecated_class block_number class_hash db = record db {
    class_declaration_block = put class_hash block_number db.class_declaration_block;
    class_declarations = put_dup block_number class_hash db.class_declarations;
  }

  unfoldable pub insert_class : ℕ × c.ContractClass → Db c → Db c
  insert_class class db = record db { classes = put class.0 class.1 db.classes }

  unfoldable pub insert_storage_entry : ℕ → ℕ → ℕ × ℕ → Db c → Db c
  insert_storage_entry block_number addr entry db =
      let changeset_key : ContractStorageKey = (addr, entry.0) in
      let list = get changeset_key db.storage_change_set in
      record db {
        storage_change_set = put changeset_key (with_block block_number list) db.storage_change_set;
        contract_storage = upsert_storage addr entry.0 entry.1 db.contract_storage;
        storage_change_history =
            put_dup block_number (changeset_key, entry.1) db.storage_change_history;
      }

  unfoldable pub insert_storage : ℕ → ℕ × Table ℕ ℕ → Db c → Db c
  insert_storage block_number update db =
      for_each (insert_storage_entry block_number update.0) update.1 db

  unfoldable pub insert_deployed_contract : ℕ → ℕ × ℕ → Db c → Db c
  insert_deployed_contract block_number contract db =
      let (addr, class_hash) = contract in
      record db {
        contract_info =
            put addr (info_with_class_hash class_hash (get addr db.contract_info)) db.contract_info;
        class_change_history = put_dup block_number (addr, class_hash) db.class_change_history;
        contract_info_change_set =
            put addr (with_class_change block_number (get addr db.contract_info_change_set))
              db.contract_info_change_set;
      }

  unfoldable pub insert_nonce : ℕ → ℕ × ℕ → Db c → Db c
  insert_nonce block_number update db =
      let (addr, nonce) = update in
      record db {
        contract_info =
            put addr (info_with_nonce nonce (get addr db.contract_info)) db.contract_info;
        nonce_change_history = put_dup block_number (addr, nonce) db.nonce_change_history;
        contract_info_change_set =
            put addr (with_nonce_change block_number (get addr db.contract_info_change_set))
              db.contract_info_change_set;
      }

  -- The loops over the block's transactions, receipts and traces.
  unfoldable pub insert_body :
      ℕ → ℕ → List (TxWithHash c) → List c.Receipt → List c.Execution → Db c → Db c
  insert_body block_number tx_offset transactions receipts executions db =
      for_enumerated insert_execution tx_offset executions (
        for_enumerated insert_receipt tx_offset receipts
          (for_enumerated (insert_transaction block_number) tx_offset transactions db))

  -- The loops over the declared classes and their artifacts.
  unfoldable pub insert_classes : ℕ → StateUpdatesWithClasses c → Db c → Db c
  insert_classes block_number states db = for_each insert_class states.classes (
      for_each (insert_deprecated_class block_number)
        states.state_updates.deprecated_declared_classes
        (for_each (insert_declared_class block_number) states.state_updates.declared_classes db))

  -- The loops over the changes of storage, class hashes and nonces.
  unfoldable pub insert_state : ℕ → StateUpdates → Db c → Db c
  insert_state block_number updates db =
      for_each (insert_nonce block_number) updates.nonce_updates (
        for_each (insert_deployed_contract block_number) updates.deployed_contracts
          (for_each (insert_storage block_number) updates.storage_updates db))

  unfoldable pub insert_block_with_states_and_receipts :
      SealedBlockWithStatus c
      → StateUpdatesWithClasses c
      → List c.Receipt
      → List c.Execution
      → Db c
      → Db c
  insert_block_with_states_and_receipts b states receipts executions db =
      let block_number = b.block.header.number in
      let transactions = b.block.body in
      let tx_count = length transactions in
      let tx_offset = entries db.transactions in
      let indices : StoredBlockBodyIndices = record {
        tx_offset = tx_offset;
        tx_count = tx_count;
      } in
      insert_state block_number states.state_updates (
        insert_classes block_number states (
          insert_body block_number tx_offset transactions receipts executions
            (insert_block_data block_number b indices db)))
