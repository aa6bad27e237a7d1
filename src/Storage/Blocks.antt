-- ===== src/Storage/Blocks.antt =====
-- Reading blocks: the providers of block numbers, hashes, headers, bodies, statuses and
-- environments of crates/storage/provider/src/providers/db/mod.rs, the stage checkpoints, and the
-- choice of a state provider.
use mathlib.Core.Option
use katana.Base.{
  ℕ, zero, suc, ◌+◌, ◌-◌, Option, none, some, List, [], ◌∷◌, ltb, ◌==◌, if◌then◌else◌,
}
use katana.Pool.Validate.{BlockEnv}
use katana.Storage.Table.{nat_key, get, put, last}
use katana.Storage.Historical.{HistoricalStateProvider}
use katana.Storage.Db.{
  Content, Db, BlockHashOrNumber, hash, num, Header, Block, BlockWithTxHashes, TxWithHash,
  FinalityStatus, StoredBlockBodyIndices, ProviderResult, ok, panicked, ◌>>=◌, ok_or,
  missing_latest_block_hash, missing_latest_block_number, missing_block_header, missing_block_txs,
  missing_block_body_indices, missing_block_status, missing_tx_hash,
}

-- The two implementations of `StateProvider`; `LatestStateProvider` holds only the database.
pub data StateProvider (c : Content) : Type 0 where
  latest_state : Db c → StateProvider c
  historical_state : HistoricalStateProvider c → StateProvider c

-- The answers of `read` at the `count` keys from `i` on, without those that are none.
abbrev pub collect :
    {A : Type 0} → (ℕ → ProviderResult (Option A)) → ℕ → ℕ → ProviderResult (List A)
collect read i zero = ok []
collect read i (suc count) = read i >>= λ a.
    collect read (suc i) count >>= λ rest. ok (elim a [ none ↦ rest | some x ↦ x ∷ rest ])

abbrev pub over_range :
    {A : Type 0}
    → (ℕ → ℕ → ProviderResult A)
    → Option StoredBlockBodyIndices
    → ProviderResult (Option A)
over_range read none = ok none
over_range read (some indices) = read indices.tx_offset indices.tx_count >>= λ a. ok (some a)

abbrev pub env_of : Option Header → Option BlockEnv
env_of none = none
env_of (some h) = some (record {
  number = h.number;
  timestamp = h.timestamp;
  l2_gas_prices = h.l2_gas_prices;
  l1_gas_prices = h.l1_gas_prices;
  l1_data_gas_prices = h.l1_data_gas_prices;
  sequencer_address = h.sequencer_address;
})

module _ {c : Content} where
  unfoldable pub block_number_by_hash : ℕ → Db c → ProviderResult (Option ℕ)
  block_number_by_hash h db = ok (get h db.block_numbers)

  unfoldable pub latest_number : Db c → ProviderResult ℕ
  latest_number db =
      ok_or missing_latest_block_number (Option.map (λ e. e.0) (last db.block_hashes))

  unfoldable pub latest_hash : Db c → ProviderResult ℕ
  latest_hash db = latest_number db >>= λ n. ok_or missing_latest_block_hash (get n db.block_hashes)

  unfoldable pub block_hash_by_num : ℕ → Db c → ProviderResult (Option ℕ)
  block_hash_by_num n db = ok (get n db.block_hashes)

  -- The number of a block that an id names, of the trait `BlockNumberProvider`.
  unfoldable pub block_number_by_id : BlockHashOrNumber → Db c → ProviderResult (Option ℕ)
  block_number_by_id (num n) db = ok (some n)
  block_number_by_id (hash h) db = block_number_by_hash h db

  unfoldable pub latest : Db c → ProviderResult (StateProvider c)
  latest db = ok (latest_state db)

  abbrev pub historical_at : Option ℕ → Db c → ProviderResult (Option (StateProvider c))
  historical_at none db = ok none
  historical_at (some n) db = ok (some (historical_state (record { tx = db; block_number = n })))

  unfoldable pub historical : BlockHashOrNumber → Db c → ProviderResult (Option (StateProvider c))
  historical (num n) db = latest_number db >>= λ latest_num.
      if ltb n latest_num
      then historical_at (some n) db
      else if n == latest_num
      then ok (some (latest_state db))
      else ok none
  historical (hash h) db = block_number_by_hash h db >>= λ n. historical_at n db

  abbrev pub header_at : Option ℕ → Db c → ProviderResult (Option Header)
  header_at none db = ok none
  header_at (some n) db = ok_or (missing_block_header n) (get n db.headers) >>= λ h. ok (some h)

  unfoldable pub header : BlockHashOrNumber → Db c → ProviderResult (Option Header)
  header id db = block_number_by_id id db >>= λ n. header_at n db

  abbrev pub indices_at : Option ℕ → Db c → Option StoredBlockBodyIndices
  indices_at none db = none
  indices_at (some n) db = get n db.block_body_indices

  unfoldable pub block_body_indices :
      BlockHashOrNumber → Db c → ProviderResult (Option StoredBlockBodyIndices)
  block_body_indices id db = block_number_by_id id db >>= λ n. ok (indices_at n db)

  -- One round of `transaction_in_range`: a number without a transaction is passed over.
  abbrev pub transaction_at : Db c → ℕ → ProviderResult (Option (TxWithHash c))
  transaction_at db i = elim (get i db.transactions) [
    | none ↦ ok none
    | some transaction ↦ ok_or (missing_tx_hash i) (get i db.tx_hashes) >>= λ h.
        ok (some (record { hash = h; transaction = transaction }))
  ]

  -- The range is given by its start and its length.
  unfoldable pub transaction_in_range : ℕ → ℕ → Db c → ProviderResult (List (TxWithHash c))
  transaction_in_range start count db = collect (transaction_at db) start count

  unfoldable pub transaction_hashes_in_range : ℕ → ℕ → Db c → ProviderResult (List ℕ)
  transaction_hashes_in_range start count db = collect (λ i. ok (get i db.tx_hashes)) start count

  unfoldable pub transactions_by_block :
      BlockHashOrNumber → Db c → ProviderResult (Option (List (TxWithHash c)))
  transactions_by_block id db =
      block_body_indices id db >>= over_range (λ start count. transaction_in_range start count db)

  abbrev pub block_with_header :
      BlockHashOrNumber → Db c → Option Header → ProviderResult (Option (Block c))
  block_with_header id db none = ok none
  block_with_header id db (some h) = transactions_by_block id db >>= λ res.
      ok_or (missing_block_txs h.number) res >>= λ body.
      ok (some (record { header = h; body = body }))

  unfoldable pub block : BlockHashOrNumber → Db c → ProviderResult (Option (Block c))
  block id db = header id db >>= block_with_header id db

  abbrev pub hashes_of : ℕ → Db c → Option Header → ProviderResult (Option BlockWithTxHashes)
  hashes_of n db none = ok none
  hashes_of n db (some h) =
      ok_or (missing_block_txs n) (get n db.block_body_indices) >>= λ body_indices.
      transaction_hashes_in_range body_indices.tx_offset body_indices.tx_count db >>= λ body.
      ok (some (record { header = h; body = body }))

  abbrev pub block_with_tx_hashes_at : Option ℕ → Db c → ProviderResult (Option BlockWithTxHashes)
  block_with_tx_hashes_at none db = ok none
  block_with_tx_hashes_at (some n) db = hashes_of n db (get n db.headers)

  unfoldable pub block_with_tx_hashes :
      BlockHashOrNumber → Db c → ProviderResult (Option BlockWithTxHashes)
  block_with_tx_hashes id db = block_number_by_id id db >>= λ n. block_with_tx_hashes_at n db

  -- One round of `blocks_in_range`: a number without a header is passed over.
  abbrev pub block_at : Db c → ℕ → ProviderResult (Option (Block c))
  block_at db n = elim (get n db.headers) [
    | none ↦ ok none
    | some h ↦
        ok_or (missing_block_body_indices n) (get n db.block_body_indices) >>= λ body_indices.
        transaction_in_range body_indices.tx_offset body_indices.tx_count db >>= λ body.
        ok (some (record { header = h; body = body }))
  ]

  -- The range has both ends. The capacity `end - start + 1` overflows if it ends before it starts.
  unfoldable pub blocks_in_range : ℕ → ℕ → Db c → ProviderResult (List (Block c))
  blocks_in_range start end db =
      if ltb end start then panicked else collect (block_at db) start (end - start + 1)

  abbrev pub status_at : Option ℕ → Db c → ProviderResult (Option FinalityStatus)
  status_at none db = ok none
  status_at (some n) db =
      ok_or (missing_block_status n) (get n db.block_statusses) >>= λ status. ok (some status)

  unfoldable pub block_status : BlockHashOrNumber → Db c → ProviderResult (Option FinalityStatus)
  block_status id db = block_number_by_id id db >>= λ n. status_at n db

  unfoldable pub block_env_at : BlockHashOrNumber → Db c → ProviderResult (Option BlockEnv)
  block_env_at id db = header id db >>= λ h. ok (env_of h)

  -- A stage's name is known by a number.
  unfoldable pub checkpoint : ℕ → Db c → ProviderResult (Option ℕ)
  checkpoint id db = ok (get id db.stage_checkpoints)

  unfoldable pub set_checkpoint : ℕ → ℕ → Db c → Db c
  set_checkpoint id block_number db = record db {
    stage_checkpoints = put id block_number db.stage_checkpoints;
  }
