-- ===== src/Storage/Historical.antt =====
-- The state of contracts and classes as of a block: `HistoricalStateProvider` of
-- crates/storage/provider/src/providers/db/state.rs. The proofs and roots of the tries are left out.
use katana.Base.{ℕ, Bool, false, ◌&&◌, Option, none, some, leb, ◌==◌, if◌then◌else◌}
use katana.Storage.Table.{nat_key, pair_key, get, seek_by_key_subkey}
use katana.Storage.BlockList.{BlockList, recent_change_from_block}
use katana.Storage.Db.{
  Content, Db, ContractStorageKey, ProviderResult, ok, err, ProviderError,
  missing_contract_nonce_change_entry, missing_contract_class_change_entry,
  missing_storage_change_entry,
}

pub record HistoricalStateProvider (c : Content) : Type 0 where
  pub tx : Db c
  pub block_number : ℕ

-- The block in which a value last changed, if there is an entry and the value has changed by then.
abbrev pub last_change : {A : Type 0} → ℕ → (A → BlockList) → Option A → Option ℕ
last_change block_number list none = none
last_change block_number list (some entry) = recent_change_from_block block_number (list entry)

-- What the cursor's entry says: no entry at all is an error, and another's entry is not used.
abbrev pub entry_value :
    {S : Type 0} → ProviderError → (S → Bool) → Option (S × ℕ) → ProviderResult (Option ℕ)
entry_value error is_key none = err error
entry_value error is_key (some entry) = ok (if is_key entry.0 then some entry.1 else none)

abbrev pub declared_by : ℕ → Option ℕ → Bool
declared_by block_number none = false
declared_by block_number (some num) = leb num block_number

module _ {c : Content} where
  unfoldable pub is_class_declared_before_block : ℕ → HistoricalStateProvider c → Bool
  is_class_declared_before_block hash s =
      declared_by s.block_number (get hash s.tx.class_declaration_block)

  unfoldable pub class : ℕ → HistoricalStateProvider c → ProviderResult (Option c.ContractClass)
  class hash s =
      if is_class_declared_before_block hash s then ok (get hash s.tx.classes) else ok none

  unfoldable pub compiled_class_hash_of_class_hash :
      ℕ → HistoricalStateProvider c → ProviderResult (Option ℕ)
  compiled_class_hash_of_class_hash hash s =
      if is_class_declared_before_block hash s
      then ok (get hash s.tx.compiled_class_hashes)
      else ok none

  unfoldable pub nonce : ℕ → HistoricalStateProvider c → ProviderResult (Option ℕ)
  nonce address s =
      let change_list = get address s.tx.contract_info_change_set in
      elim (last_change s.block_number (λ entry. entry.nonce_change_list) change_list) [
        | none ↦ ok none
        | some num ↦
            entry_value (missing_contract_nonce_change_entry num address) (λ a. a == address)
              (seek_by_key_subkey num address s.tx.nonce_change_history)
      ]

  unfoldable pub class_hash_of_contract : ℕ → HistoricalStateProvider c → ProviderResult (Option ℕ)
  class_hash_of_contract address s =
      let change_list = get address s.tx.contract_info_change_set in
      elim (last_change s.block_number (λ entry. entry.class_change_list) change_list) [
        | none ↦ ok none
        | some num ↦
            entry_value (missing_contract_class_change_entry num address) (λ a. a == address)
              (seek_by_key_subkey num address s.tx.class_change_history)
      ]

  unfoldable pub storage : ℕ → ℕ → HistoricalStateProvider c → ProviderResult (Option ℕ)
  storage address storage_key s =
      let key : ContractStorageKey = (address, storage_key) in
      let block_list = get key s.tx.storage_change_set in
      elim (last_change s.block_number (λ list. list) block_list) [
        | none ↦ ok none
        | some num ↦
            entry_value (missing_storage_change_entry num storage_key address)
              (λ k. (k.0 == address) && (k.1 == storage_key))
              (seek_by_key_subkey num key s.tx.storage_change_history)
      ]
