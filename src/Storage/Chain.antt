-- ===== src/Storage/Chain.antt =====
-- Blocks stored one after another by the writer of
-- crates/storage/provider/src/providers/db/mod.rs, each with the number after the last one.
use katana.Base.{
  ℕ, suc, ◌+◌, ◌≡◌, refl, ◌∙◌, sym, ap, subst, none, List, [], ◌∷◌, length, arith, unwrap_or,
}
use katana.Storage.Table.{nat_key, pair_key, get, entries}
use katana.Storage.Table.Laws.{IsAscending, IsOrdered, get_dup}
use katana.Storage.Db.{
  Content, Db, empty, SealedBlockWithStatus, StateUpdatesWithClasses, StateUpdates,
  ContractStorageKey,
}
use katana.Storage.Insert.{
  for_each, insert_block_with_states_and_receipts, insert_state, insert_deployed_contract,
  insert_storage,
}
use katana.Storage.History.{IsHistory, Records, Records-IsHistory}
use katana.Storage.Nonces.{nonce_blocks, nonce_history, NoncesOk, nonces-Ok, nonces-Records}
use katana.Storage.ClassHashes.{
  class_blocks, class_history, ClassHashesOk, class_hashes-Ok, class_hashes-Records,
}
use katana.Storage.Slots.{
  slot_history, SlotsOk, slots-Ok, slots-Records, get_nested, IsAscendingNested,
}
use katana.Storage.Frame.{
  contract_tables, storage_tables, front, contract_tables-front, storage_tables-front,
  contract_tables-storage, storage_tables-deployed, storage_tables-nonces, nonce_history-deployed,
  class_history-nonces, nonce_change_history-deployed, class_change_history-nonces,
}

-- What the writer is given for one block.
pub record Insertion (c : Content) : Type 0 where
  pub block : SealedBlockWithStatus c
  pub states : StateUpdatesWithClasses c
  pub receipts : List c.Receipt
  pub executions : List c.Execution

-- The maps of the state updates are maps.
pub record IsMaps (u : StateUpdates) : Type 0 where
  pub nonces : IsAscending u.nonce_updates
  pub contracts : IsAscending u.deployed_contracts
  pub storage : IsAscendingNested u.storage_updates

module _ {c : Content} where
  abbrev pub number : Insertion c → ℕ
  number i = i.block.block.header.number

  abbrev pub updates : Insertion c → StateUpdates
  updates i = i.states.state_updates

  abbrev pub insert_one : Insertion c → Db c → Db c
  insert_one i db =
      insert_block_with_states_and_receipts i.block i.states i.receipts i.executions db

  -- The database after blocks stored one after another.
  abbrev pub insert_all : List (Insertion c) → Db c → Db c
  insert_all is db = for_each insert_one is db

  -- The blocks are numbered from `n` on, and their updates are maps.
  abbrev pub IsChain : ℕ → List (Insertion c) → Type 0
  IsChain n [] = Unit
  IsChain n (i ∷ is) = (number i ≡ n) × IsMaps (updates i) × IsChain (suc n) is

  -- The database keeps the histories of blocks below `n` in order.
  pub record IsConsistent (n : ℕ) (db : Db c) : Type 0 where
    pub nonces_ok : NoncesOk db
    pub class_hashes_ok : ClassHashesOk db
    pub slots_ok : SlotsOk db
    pub nonces : (k : ℕ) → IsHistory n (nonce_history k db)
    pub class_hashes : (k : ℕ) → IsHistory n (class_history k db)
    pub slots : (k : ContractStorageKey) → IsHistory n (slot_history k db)

  pub empty-IsConsistent : IsConsistent 0 (empty {c = c})
  unfolding get
  empty-IsConsistent = record {
    nonces_ok = λ k. tt;
    class_hashes_ok = λ k. tt;
    slots_ok = λ k. tt;
    nonces = λ k. record { sorted = tt; below = tt; recorded = tt; fresh = λ b l. refl };
    class_hashes = λ k. record { sorted = tt; below = tt; recorded = tt; fresh = λ b l. refl };
    slots = λ k. record { sorted = tt; below = tt; recorded = tt; fresh = λ b l. refl };
  }

  -- What one block records.
  pub record IsRecorded (n : ℕ) (u : StateUpdates) (db db' : Db c) : Type 0 where
    pub nonces_ok : NoncesOk db'
    pub class_hashes_ok : ClassHashesOk db'
    pub slots_ok : SlotsOk db'
    pub nonces :
        (k : ℕ) → Records n (nonce_history k db) (nonce_history k db') (get k u.nonce_updates)
    pub class_hashes :
        (k : ℕ) → Records n (class_history k db) (class_history k db') (get k u.deployed_contracts)
    pub slots :
        (k : ContractStorageKey)
        → Records n
            (slot_history k db)
            (slot_history k db')
            (get_nested k (get k.0 u.storage_updates))

  module _ (n : ℕ) (u : StateUpdates) (m : IsMaps u) (db : Db c) (ok : IsConsistent n db) where
    open ok use {nonces_ok, class_hashes_ok, slots_ok, nonces, class_hashes, slots}

    abbrev db_storage : Db c
    db_storage = for_each (insert_storage n) u.storage_updates db

    abbrev db_contracts : Db c
    db_contracts = for_each (insert_deployed_contract n) u.deployed_contracts db_storage

    nonce_history-before : (k : ℕ) → nonce_history k db_contracts ≡ nonce_history k db
    nonce_history-before k =
        nonce_history-deployed n k u.deployed_contracts db_storage
        ∙ ap (λ t. record { blocks = nonce_blocks (get k t.1); value_in = λ b. get_dup b k t.2 })
            (contract_tables-storage n u.storage_updates db)

    class_history-before : (k : ℕ) → class_history k db_storage ≡ class_history k db
    class_history-before k =
        ap (λ t. record { blocks = class_blocks (get k t.1); value_in = λ b. get_dup b k t.3 })
          (contract_tables-storage n u.storage_updates db)

    slot_history-after :
        (k : ContractStorageKey) → slot_history k (insert_state n u db) ≡ slot_history k db_storage
    unfolding insert_state
    slot_history-after k =
        ap (λ t. record { blocks = unwrap_or [] (get k t.0); value_in = λ b. get_dup b k t.1 })
          (storage_tables-nonces n u.nonce_updates db_contracts
            ∙ storage_tables-deployed n u.deployed_contracts db_storage)

    NoncesOk-before : NoncesOk db_contracts
    NoncesOk-before =
        subst IsOrdered
          (sym (
            nonce_change_history-deployed n u.deployed_contracts db_storage
            ∙ ap (λ t. t.2) (contract_tables-storage n u.storage_updates db)))
          nonces_ok

    ClassHashesOk-before : ClassHashesOk db_storage
    ClassHashesOk-before =
        subst IsOrdered (sym (ap (λ t. t.3) (contract_tables-storage n u.storage_updates db)))
          class_hashes_ok

    free_nonces : (k : ℕ) → (nonce_history k db_contracts).value_in n ≡ none
    free_nonces k =
        ap (λ h. h.value_in n) (nonce_history-before k) ∙ (nonces k).fresh n (omega arith)

    free_classes : (k : ℕ) → (class_history k db_storage).value_in n ≡ none
    free_classes k =
        ap (λ h. h.value_in n) (class_history-before k) ∙ (class_hashes k).fresh n (omega arith)

    free_slots : (k : ContractStorageKey) → (slot_history k db).value_in n ≡ none
    free_slots k = (slots k).fresh n (omega arith)

    -- The loops over the state's changes record them.
    insert_state-IsRecorded : IsRecorded n u db (insert_state n u db)
    unfolding insert_state
    insert_state-IsRecorded = record {
      nonces_ok = nonces-Ok n u.nonce_updates db_contracts m.nonces NoncesOk-before free_nonces;
      class_hashes_ok =
          subst IsOrdered (sym (class_change_history-nonces n u.nonce_updates db_contracts)) (
            class_hashes-Ok n u.deployed_contracts db_storage m.contracts ClassHashesOk-before
              free_classes);
      slots_ok =
          subst IsOrdered
            (sym (
              ap (λ t. t.1)
                (storage_tables-nonces n u.nonce_updates db_contracts
                  ∙ storage_tables-deployed n u.deployed_contracts db_storage)))
            (slots-Ok n u.storage_updates db m.storage slots_ok free_slots);
      nonces = λ k.
          subst (λ h. Records n h (nonce_history k (insert_state n u db)) (get k u.nonce_updates))
            (nonce_history-before k)
            (nonces-Records n u.nonce_updates db_contracts k m.nonces NoncesOk-before free_nonces);
      class_hashes = λ k.
          rw (class_history-nonces n k u.nonce_updates db_contracts, ← class_history-before k)
            (class_hashes-Records n u.deployed_contracts db_storage k m.contracts
              ClassHashesOk-before free_classes);
      slots = λ k.
          subst (λ h. Records n (slot_history k db) h (get_nested k (get k.0 u.storage_updates)))
            (sym (slot_history-after k))
            (slots-Records n u.storage_updates db k m.storage slots_ok free_slots);
    }

  -- Databases with the same tables of state are consistent alike.
  module _ (n : ℕ) (db db' : Db c) (e : contract_tables db' ≡ contract_tables db)
      (f : storage_tables db' ≡ storage_tables db) where
    nonce_history-tables : (k : ℕ) → nonce_history k db' ≡ nonce_history k db
    nonce_history-tables k =
        ap (λ t. record { blocks = nonce_blocks (get k t.1); value_in = λ b. get_dup b k t.2 }) e

    class_history-tables : (k : ℕ) → class_history k db' ≡ class_history k db
    class_history-tables k =
        ap (λ t. record { blocks = class_blocks (get k t.1); value_in = λ b. get_dup b k t.3 }) e

    slot_history-tables : (k : ContractStorageKey) → slot_history k db' ≡ slot_history k db
    slot_history-tables k =
        ap (λ t. record { blocks = unwrap_or [] (get k t.0); value_in = λ b. get_dup b k t.1 }) f

    IsConsistent-tables : IsConsistent n db → IsConsistent n db'
    IsConsistent-tables i = record {
      nonces_ok = subst IsOrdered (sym (ap (λ t. t.2) e)) i.nonces_ok;
      class_hashes_ok = subst IsOrdered (sym (ap (λ t. t.3) e)) i.class_hashes_ok;
      slots_ok = subst IsOrdered (sym (ap (λ t. t.1) f)) i.slots_ok;
      nonces = λ k. subst (IsHistory n) (sym (nonce_history-tables k)) (i.nonces k);
      class_hashes = λ k. subst (IsHistory n) (sym (class_history-tables k)) (i.class_hashes k);
      slots = λ k. subst (IsHistory n) (sym (slot_history-tables k)) (i.slots k);
    }

    IsRecorded-tables :
        (u : StateUpdates) (db'' : Db c) → IsRecorded n u db' db'' → IsRecorded n u db db''
    IsRecorded-tables u db'' r = record {
      nonces_ok = r.nonces_ok;
      class_hashes_ok = r.class_hashes_ok;
      slots_ok = r.slots_ok;
      nonces = λ k.
          subst (λ h. Records n h (nonce_history k db'') (get k u.nonce_updates))
            (nonce_history-tables k) (r.nonces k);
      class_hashes = λ k.
          subst (λ h. Records n h (class_history k db'') (get k u.deployed_contracts))
            (class_history-tables k) (r.class_hashes k);
      slots = λ k.
          subst (λ h. Records n h (slot_history k db'') (get_nested k (get k.0 u.storage_updates)))
            (slot_history-tables k) (r.slots k);
    }

  -- The database as the loops over the state's changes find it.
  abbrev pub before : Insertion c → Db c → Db c
  before i db =
      front (number i) (entries db.transactions) i.block
        (record { tx_offset = entries db.transactions; tx_count = length i.block.block.body })
        i.states i.receipts i.executions db

  pub insert_one-IsRecorded :
      (n : ℕ) (i : Insertion c) (db : Db c)
      → number i ≡ n
      → IsMaps (updates i)
      → IsConsistent n db
      → IsRecorded n (updates i) db (insert_one i db)
  unfolding insert_block_with_states_and_receipts
  insert_one-IsRecorded n i db e m ok =
      subst (λ x. IsRecorded x (updates i) db (insert_one i db)) e
        (IsRecorded-tables (number i) db (before i db) (contract_tables-front _ _ _ _ _ _ _ _)
          (storage_tables-front _ _ _ _ _ _ _ _) (updates i) (insert_one i db)
          (insert_state-IsRecorded (number i) (updates i) m (before i db) (
            IsConsistent-tables (number i) db (before i db) (contract_tables-front _ _ _ _ _ _ _ _)
              (storage_tables-front _ _ _ _ _ _ _ _) (subst (λ x. IsConsistent x db) (sym e) ok))))

  pub IsRecorded-IsConsistent :
      (n : ℕ) (u : StateUpdates) (db db' : Db c)
      → IsConsistent n db
      → IsRecorded n u db db'
      → IsConsistent (suc n) db'
  IsRecorded-IsConsistent n u db db' i r = record {
    nonces_ok = r.nonces_ok;
    class_hashes_ok = r.class_hashes_ok;
    slots_ok = r.slots_ok;
    nonces = λ k. Records-IsHistory n _ _ _ (i.nonces k) (r.nonces k);
    class_hashes = λ k. Records-IsHistory n _ _ _ (i.class_hashes k) (r.class_hashes k);
    slots = λ k. Records-IsHistory n _ _ _ (i.slots k) (r.slots k);
  }

  -- Blocks in sequence keep the database consistent.
  pub insert_all-IsConsistent :
      (n : ℕ) (is : List (Insertion c)) (db : Db c)
      → IsChain n is
      → IsConsistent n db
      → IsConsistent (n + length is) (insert_all is db)
  insert_all-IsConsistent n [] db ch ok = subst (λ x. IsConsistent x db) (omega arith) ok
  insert_all-IsConsistent n (i ∷ is) db ch ok =
      subst (λ x. IsConsistent x (insert_all is (insert_one i db))) (omega arith)
        (insert_all-IsConsistent (suc n) is (insert_one i db) ch.2 (
          IsRecorded-IsConsistent n (updates i) db (insert_one i db) ok
            (insert_one-IsRecorded n i db ch.0 ch.1 ok)))
