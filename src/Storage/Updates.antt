-- ===== src/Storage/Updates.antt =====
-- Reading back the state updates of a block: `StateUpdateProvider` of
-- crates/storage/provider/src/providers/db/mod.rs.
use katana.Base.{ℕ, Option, none, some, List, [], ◌∷◌, unwrap_or}
use katana.Storage.Table.{nat_key, pair_key, Table, get, put, walk_dup, insert_item}
use katana.Storage.Insert.{for_each}
use katana.Storage.Blocks.{block_number_by_id}
use katana.Storage.Db.{
  Content, Db, BlockHashOrNumber, StateUpdates, ContractStorageKey, ProviderResult, ok, ◌>>=◌,
}

-- `BTreeMap::from_iter`
unfoldable pub from_iter : List (ℕ × ℕ) → Table ℕ ℕ
from_iter entries = for_each (λ e m. put e.0 e.1 m) entries []

-- The entries of a block's classes that have a compiled class hash, and the hashes of the others.
unfoldable pub with_compiled : Table ℕ ℕ → List ℕ → List (ℕ × ℕ)
with_compiled compiled [] = []
with_compiled compiled (class_hash ∷ hashes) = elim (get class_hash compiled) [
  | some compiled_hash ↦ (class_hash, compiled_hash) ∷ with_compiled compiled hashes
  | none ↦ with_compiled compiled hashes
]

unfoldable pub without_compiled : Table ℕ ℕ → List ℕ → List ℕ
without_compiled compiled [] = []
without_compiled compiled (class_hash ∷ hashes) = elim (get class_hash compiled) [
  | some compiled_hash ↦ without_compiled compiled hashes
  | none ↦ class_hash ∷ without_compiled compiled hashes
]

-- A storage entry enters the map of its contract.
abbrev pub add_entry : ContractStorageKey × ℕ → Table ℕ (Table ℕ ℕ) → Table ℕ (Table ℕ ℕ)
add_entry e m = let (addr, key) = e.0 in put addr (put key e.1 (unwrap_or [] (get addr m))) m

unfoldable pub group_entries : List (ContractStorageKey × ℕ) → Table ℕ (Table ℕ ℕ)
group_entries entries = for_each add_entry entries []

abbrev pub for_block : {A : Type 0} → (ℕ → A) → Option ℕ → Option A
for_block read none = none
for_block read (some n) = some (read n)

module _ {c : Content} where
  unfoldable pub declared_classes_at : Db c → ℕ → Table ℕ ℕ
  declared_classes_at db n =
      from_iter (with_compiled db.compiled_class_hashes (walk_dup n db.class_declarations))

  unfoldable pub deployed_contracts_at : Db c → ℕ → Table ℕ ℕ
  deployed_contracts_at db n = from_iter (walk_dup n db.class_change_history)

  unfoldable pub state_update_at : Db c → ℕ → StateUpdates
  state_update_at db n = record {
    nonce_updates = from_iter (walk_dup n db.nonce_change_history);
    storage_updates = group_entries (walk_dup n db.storage_change_history);
    deployed_contracts = deployed_contracts_at db n;
    declared_classes = declared_classes_at db n;
    deprecated_declared_classes =
        for_each insert_item
          (without_compiled db.compiled_class_hashes (walk_dup n db.class_declarations)) [];
    replaced_classes = [];
  }

  unfoldable pub state_update : BlockHashOrNumber → Db c → ProviderResult (Option StateUpdates)
  state_update block_id db =
      block_number_by_id block_id db >>= λ n. ok (for_block (state_update_at db) n)

  unfoldable pub declared_classes : BlockHashOrNumber → Db c → ProviderResult (Option (Table ℕ ℕ))
  declared_classes block_id db =
      block_number_by_id block_id db >>= λ n. ok (for_block (declared_classes_at db) n)

  unfoldable pub deployed_contracts : BlockHashOrNumber → Db c → ProviderResult (Option (Table ℕ ℕ))
  deployed_contracts block_id db =
      block_number_by_id block_id db >>= λ n. ok (for_block (deployed_contracts_at db) n)
