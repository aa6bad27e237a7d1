-- ===== src/Storage/Tests.antt =====
-- The storage provider on two small blocks: crates/storage/provider/src/providers/db.
use katana.Base.{ℕ, ◌+◌, ◌≡◌, refl, none, some, List, [], ◌∷◌, All, arith, length}
use katana.Transaction.{DataAvailabilityMode}
use katana.Pool.Validate.{GasPrice}
use katana.Storage.Table.{nat_key, Table, get, put}
use katana.Storage.BlockList.{
  BlockList, IsMostRecent, recent_change_from_block, recent_change_from_block-IsMostRecent,
}
use katana.Storage.Db.{
  Content, empty, Header, StateUpdates, accepted_on_l2, accepted_on_l1, ok, num,
}
use katana.Storage.Chain.{
  Insertion, IsChain, IsConsistent, insert_all, insert_all-IsConsistent, empty-IsConsistent,
}
use katana.Storage.Stored.{IsComplete}
use katana.Storage.Insert
use katana.Storage.Historical
use katana.Storage.Latest
use katana.Storage.AsOf.{nonce-insert_all, storage-insert_all, class_hash_of_contract-insert_all}
use katana.Storage.Readback.{block-insert_all, transaction_by_hash-insert_all}
use katana.Storage.Tip.{storage-latest_eq}
use katana.Storage.Blocks.{block, block_status, block_hash_by_num}
use katana.Storage.Transactions.{
  transaction_by_hash, receipts_by_block, transaction_executions_by_block,
}

abbrev numbers : Content
numbers = record { Tx = ℕ; Receipt = ℕ; Execution = ℕ; ContractClass = ℕ }

abbrev price : GasPrice
price = record { eth = 1; strk = 1 }

abbrev header_of : ℕ → Header
header_of n = record {
  parent_hash = 0;
  number = n;
  state_diff_commitment = 0;
  transactions_commitment = 0;
  receipts_commitment = 0;
  events_commitment = 0;
  state_root = 0;
  transaction_count = 0;
  events_count = 0;
  state_diff_length = 0;
  timestamp = 10 + n;
  sequencer_address = 1;
  l1_gas_prices = price;
  l1_data_gas_prices = price;
  l2_gas_prices = price;
  l1_da_mode = DataAvailabilityMode.l1;
  protocol_version = 0;
}

abbrev updates_of : Table ℕ ℕ → Table ℕ (Table ℕ ℕ) → Table ℕ ℕ → StateUpdates
updates_of nonces storage contracts = record {
  nonce_updates = nonces;
  storage_updates = storage;
  deployed_contracts = contracts;
  declared_classes = [];
  deprecated_declared_classes = [];
  replaced_classes = [];
}

-- Contract 5 is deployed and set up in the first block; the second changes one storage key and the
-- nonce, and deploys contract 4.
abbrev first : Insertion numbers
first = record {
  block = record {
    block = record {
      hash = 100;
      header = header_of 0;
      body = record { hash = 11; transaction = 21 } ∷ record { hash = 12; transaction = 22 } ∷ [];
    };
    status = accepted_on_l2;
  };
  states = record {
    state_updates = updates_of ((5, 1) ∷ []) ((5, (7, 70) ∷ (8, 80) ∷ []) ∷ []) ((5, 55) ∷ []);
    classes = [];
  };
  receipts = 31 ∷ 32 ∷ [];
  executions = 41 ∷ 42 ∷ [];
}

abbrev second : Insertion numbers
second = record {
  block = record {
    block = record {
      hash = 101;
      header = header_of 1;
      body = record { hash = 13; transaction = 23 } ∷ [];
    };
    status = accepted_on_l1;
  };
  states = record {
    state_updates =
        updates_of ((5, 2) ∷ []) ((4, (7, 40) ∷ []) ∷ (5, (7, 71) ∷ []) ∷ []) ((4, 44) ∷ []);
    classes = [];
  };
  receipts = 33 ∷ [];
  executions = 43 ∷ [];
}

abbrev blocks : List (Insertion numbers)
blocks = first ∷ second ∷ []

blocks-IsChain : IsChain 0 blocks
blocks-IsChain = (
  refl,
  record {
    nonces = (tt, tt);
    contracts = (tt, tt);
    storage = ((tt, tt), (((refl, tt), (tt, tt)), tt));
  },
  (
    refl,
    record {
      nonces = (tt, tt);
      contracts = (tt, tt);
      storage = (((refl, tt), (tt, tt)), ((tt, tt), ((tt, tt), tt)));
    },
    tt,
  ),
)

blocks-IsComplete : All IsComplete blocks
blocks-IsComplete = ((refl, refl), ((refl, refl), tt))

nonce_example :
    Historical.nonce 5 (record { tx = insert_all blocks empty; block_number = 0 }) ≡ ok (some 1)
unfolding get
nonce_example = nonce-insert_all blocks 0 5 blocks-IsChain

storage_example :
    Historical.storage 5 7 (record { tx = insert_all blocks empty; block_number = 1 })
    ≡ ok (some 71)
unfolding get
storage_example = storage-insert_all blocks 1 5 7 blocks-IsChain

class_hash_example :
    Historical.class_hash_of_contract 4 (record { tx = insert_all blocks empty; block_number = 0 })
    ≡ ok none
unfolding get
class_hash_example = class_hash_of_contract-insert_all blocks 0 4 blocks-IsChain

block_example :
    (block (num 0) (insert_all blocks empty)
      ≡ ok (some (record { header = header_of 0; body = first.block.block.body })))
    × (block_status (num 0) (insert_all blocks empty) ≡ ok (some accepted_on_l2))
    × (block_hash_by_num 0 (insert_all blocks empty) ≡ ok (some 100))
    × (receipts_by_block (num 0) (insert_all blocks empty) ≡ ok (some (31 ∷ 32 ∷ [])))
    × (transaction_executions_by_block (num 0) (insert_all blocks empty) ≡ ok (some (41 ∷ 42 ∷ [])))
block_example = block-insert_all blocks 0 first blocks-IsChain blocks-IsComplete refl

transaction_example :
    transaction_by_hash 12 (insert_all blocks empty)
    ≡ ok (some (record { hash = 12; transaction = 22 }))
transaction_example = transaction_by_hash-insert_all blocks 12

storage_latest_example :
    Latest.storage 5 8 (insert_all blocks empty)
    ≡ Historical.storage 5 8 (record { tx = insert_all blocks empty; block_number = 1 })
storage_latest_example = storage-latest_eq blocks 1 5 8 blocks-IsChain (omega arith)

insert_all_example : IsConsistent (0 + length blocks) (insert_all blocks empty)
insert_all_example = insert_all-IsConsistent 0 blocks empty blocks-IsChain empty-IsConsistent

abbrev changes : BlockList
changes = 2 ∷ 5 ∷ 9 ∷ []

recent_change_example : IsMostRecent 7 changes (recent_change_from_block 7 changes)
recent_change_example =
    recent_change_from_block-IsMostRecent 7 changes
      ((omega arith, (omega arith, tt)), ((omega arith, tt), (tt, tt)))

-- The provider of the latest state answers a nonce for a contract that was only deployed, and that
-- of its block does not.
deployed_latest : Latest.nonce 4 (insert_all blocks empty) ≡ ok (some 0)
unfolding Latest.nonce get put Insert.insert_block_with_states_and_receipts Insert.insert_state
    Insert.insert_nonce Insert.insert_deployed_contract Insert.insert_storage
    Insert.insert_storage_entry Insert.insert_classes Insert.insert_body Insert.insert_block_data
    Insert.insert_transaction Insert.insert_receipt Insert.insert_execution
deployed_latest = refl

deployed_historical :
    Historical.nonce 4 (record { tx = insert_all blocks empty; block_number = 1 }) ≡ ok none
unfolding get
deployed_historical = nonce-insert_all blocks 1 4 blocks-IsChain
