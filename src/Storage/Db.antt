-- ===== src/Storage/Db.antt =====
-- What the provider stores: the tables of crates/storage/db/src/tables.rs with the data of
-- crates/storage/db/src/models, and the blocks and state updates of crates/primitives/src/{block,
-- state,contract}.rs. Hashes and felts are numbers. Transactions, receipts, execution traces and
-- classes are only stored, so they are types that come from outside.
use katana.Base.{ℕ, Option, none, some, List, []}
use katana.Transaction.{DataAvailabilityMode}
use katana.Pool.Validate.{GasPrice}
use katana.Storage.Table.{Table, DupTable}
use katana.Storage.BlockList.{BlockList}

pub record Content : Type 1 where
  pub Tx : Type 0
  pub Receipt : Type 0
  pub Execution : Type 0
  pub ContractClass : Type 0

pub data BlockHashOrNumber : Type 0 where
  hash : ℕ → BlockHashOrNumber
  num : ℕ → BlockHashOrNumber

pub data FinalityStatus : Type 0 where
  accepted_on_l2 accepted_on_l1 : FinalityStatus

-- The protocol version is known by a number.
pub record Header : Type 0 where
  pub parent_hash : ℕ
  pub number : ℕ
  pub state_diff_commitment : ℕ
  pub transactions_commitment : ℕ
  pub receipts_commitment : ℕ
  pub events_commitment : ℕ
  pub state_root : ℕ
  pub transaction_count : ℕ
  pub events_count : ℕ
  pub state_diff_length : ℕ
  pub timestamp : ℕ
  pub sequencer_address : ℕ
  pub l1_gas_prices : GasPrice
  pub l1_data_gas_prices : GasPrice
  pub l2_gas_prices : GasPrice
  pub l1_da_mode : DataAvailabilityMode
  pub protocol_version : ℕ

pub record TxWithHash (c : Content) : Type 0 where
  pub hash : ℕ
  pub transaction : c.Tx

pub record Block (c : Content) : Type 0 where
  pub header : Header
  pub body : List (TxWithHash c)

pub record BlockWithTxHashes : Type 0 where
  pub header : Header
  pub body : List ℕ

pub record SealedBlock (c : Content) : Type 0 where
  pub hash : ℕ
  pub header : Header
  pub body : List (TxWithHash c)

pub record SealedBlockWithStatus (c : Content) : Type 0 where
  pub block : SealedBlock c
  pub status : FinalityStatus

-- A `BTreeMap` is a table, and a `BTreeSet` the list of its members.
pub record StateUpdates : Type 0 where
  pub nonce_updates : Table ℕ ℕ
  pub storage_updates : Table ℕ (Table ℕ ℕ)
  pub deployed_contracts : Table ℕ ℕ
  pub declared_classes : Table ℕ ℕ
  pub deprecated_declared_classes : List ℕ
  pub replaced_classes : Table ℕ ℕ

pub record StateUpdatesWithClasses (c : Content) : Type 0 where
  pub state_updates : StateUpdates
  pub classes : Table ℕ c.ContractClass

pub record StoredBlockBodyIndices : Type 0 where
  pub tx_offset : ℕ
  pub tx_count : ℕ

pub record GenericContractInfo : Type 0 where
  pub nonce : ℕ
  pub class_hash : ℕ

pub record ContractInfoChangeList : Type 0 where
  pub class_change_list : BlockList
  pub nonce_change_list : BlockList

-- `ContractStorageKey`: a contract's address with a storage key.
abbrev pub ContractStorageKey : Type 0
ContractStorageKey = ℕ × ℕ

-- The tables that the provider reads and writes; those of the tries are left out. `ContractStorage`
-- and the three histories are dupsort tables: a data item of `ContractStorage` is a storage key with
-- its value, one of a history an address (a storage key of a contract) with its new value, and one
-- of `ClassDeclarations` a class hash.
pub record Db (c : Content) : Type 0 where
  pub headers : Table ℕ Header
  pub block_hashes : Table ℕ ℕ
  pub block_numbers : Table ℕ ℕ
  pub block_body_indices : Table ℕ StoredBlockBodyIndices
  pub block_statusses : Table ℕ FinalityStatus
  pub tx_numbers : Table ℕ ℕ
  pub tx_blocks : Table ℕ ℕ
  pub tx_hashes : Table ℕ ℕ
  pub tx_traces : Table ℕ c.Execution
  pub transactions : Table ℕ c.Tx
  pub receipts : Table ℕ c.Receipt
  pub compiled_class_hashes : Table ℕ ℕ
  pub classes : Table ℕ c.ContractClass
  pub contract_info : Table ℕ GenericContractInfo
  pub contract_storage : DupTable ℕ ℕ ℕ
  pub class_declaration_block : Table ℕ ℕ
  pub class_declarations : Table ℕ (List ℕ)
  pub contract_info_change_set : Table ℕ ContractInfoChangeList
  pub nonce_change_history : DupTable ℕ ℕ ℕ
  pub class_change_history : DupTable ℕ ℕ ℕ
  pub storage_change_history : DupTable ℕ ContractStorageKey ℕ
  pub storage_change_set : Table ContractStorageKey BlockList
  pub stage_checkpoints : Table ℕ ℕ

abbrev pub empty : {c : Content} → Db c
empty = record {
  headers = [];
  block_hashes = [];
  block_numbers = [];
  block_body_indices = [];
  block_statusses = [];
  tx_numbers = [];
  tx_blocks = [];
  tx_hashes = [];
  tx_traces = [];
  transactions = [];
  receipts = [];
  compiled_class_hashes = [];
  classes = [];
  contract_info = [];
  contract_storage = [];
  class_declaration_block = [];
  class_declarations = [];
  contract_info_change_set = [];
  nonce_change_history = [];
  class_change_history = [];
  storage_change_history = [];
  storage_change_set = [];
  stage_checkpoints = [];
}

-- `ProviderError`, as far as the provider raises it.
pub data ProviderError : Type 0 where
  missing_latest_block_hash missing_latest_block_number : ProviderError
  missing_block_hash missing_block_header missing_block_txs missing_block_body_indices
        missing_block_status missing_tx missing_tx_block missing_tx_hash missing_tx_receipt
        missing_tx_execution :
      ℕ → ProviderError
  missing_contract_class_change_entry missing_contract_nonce_change_entry : ℕ → ℕ → ProviderError
  missing_storage_change_entry : ℕ → ℕ → ℕ → ProviderError

-- An overflow panics.
pub data ProviderResult (A : Type 0) : Type 0 where
  ok : A → ProviderResult A
  err : ProviderError → ProviderResult A
  panicked : ProviderResult A

module _ {A B : Type 0} where
  -- The operator `?`.
  infixl 1 ◌>>=◌
  abbrev pub ◌>>=◌ : ProviderResult A → (A → ProviderResult B) → ProviderResult B
  ok a >>= f = f a
  err e >>= f = err e
  panicked >>= f = panicked

-- `Option::ok_or`
abbrev pub ok_or : {A : Type 0} → ProviderError → Option A → ProviderResult A
ok_or e none = err e
ok_or e (some a) = ok a
