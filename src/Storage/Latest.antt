-- ===== src/Storage/Latest.antt =====
-- The latest state of contracts and classes, and the writers of single values: `LatestStateProvider`,
-- `StateWriter` and `ContractClassWriter` of crates/storage/provider/src/providers/db/state.rs. The
-- proofs and roots of the tries are left out.
use mathlib.Core.Option
use katana.Base.{ℕ, true, false, Option, none, some, ◌==◌}
use katana.Storage.Table.{nat_key, get, put, seek_by_key_subkey}
use katana.Storage.Insert.{upsert_storage, info_with_nonce, info_with_class_hash}
use katana.Storage.Db.{Content, Db, ProviderResult, ok}

-- The value of a data item that a cursor found, if it is that of the subkey.
abbrev pub value_of_key : ℕ → Option (ℕ × ℕ) → Option ℕ
value_of_key key none = none
value_of_key key (some entry) = elim (entry.0 == key) [ true ↦ some entry.1 | false ↦ none ]

module _ {c : Content} where
  unfoldable pub class : ℕ → Db c → ProviderResult (Option c.ContractClass)
  class hash db = ok (get hash db.classes)

  unfoldable pub compiled_class_hash_of_class_hash : ℕ → Db c → ProviderResult (Option ℕ)
  compiled_class_hash_of_class_hash hash db = ok (get hash db.compiled_class_hashes)

  unfoldable pub nonce : ℕ → Db c → ProviderResult (Option ℕ)
  nonce address db = ok (Option.map (λ info. info.nonce) (get address db.contract_info))

  unfoldable pub class_hash_of_contract : ℕ → Db c → ProviderResult (Option ℕ)
  class_hash_of_contract address db =
      ok (Option.map (λ info. info.class_hash) (get address db.contract_info))

  unfoldable pub storage : ℕ → ℕ → Db c → ProviderResult (Option ℕ)
  storage address storage_key db =
      ok (value_of_key storage_key (seek_by_key_subkey address storage_key db.contract_storage))

  unfoldable pub set_nonce : ℕ → ℕ → Db c → Db c
  set_nonce address nonce db = record db {
    contract_info =
        put address (info_with_nonce nonce (get address db.contract_info)) db.contract_info;
  }

  unfoldable pub set_storage : ℕ → ℕ → ℕ → Db c → Db c
  set_storage address storage_key storage_value db = record db {
    contract_storage = upsert_storage address storage_key storage_value db.contract_storage;
  }

  unfoldable pub set_class_hash_of_contract : ℕ → ℕ → Db c → Db c
  set_class_hash_of_contract address class_hash db = record db {
    contract_info =
        put address (info_with_class_hash class_hash (get address db.contract_info))
          db.contract_info;
  }

  unfoldable pub set_class : ℕ → c.ContractClass → Db c → Db c
  set_class hash class db = record db { classes = put hash class db.classes }

  unfoldable pub set_compiled_class_hash_of_class_hash : ℕ → ℕ → Db c → Db c
  set_compiled_class_hash_of_class_hash hash compiled_hash db = record db {
    compiled_class_hashes = put hash compiled_hash db.compiled_class_hashes;
  }
