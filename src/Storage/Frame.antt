-- ===== src/Storage/Frame.antt =====
-- What the loops of the writer (`insert_block_with_states_and_receipts` of
-- crates/storage/provider/src/providers/db/mod.rs) leave alone.
use katana.Base.{
  ℕ, suc, ◌≡◌, refl, ◌∙◌, ap, inl, inr, Option, none, some, List, [], ◌∷◌, ◌==◌, ==_iff, Bool-cases,
}
use katana.Storage.Table.{nat_key, Table, DupTable, get, put}
use katana.Storage.Table.Laws.{get-put_self, get-put_other}
use katana.Storage.BlockList.{BlockList}
use katana.Storage.Nonces.{nonce_blocks, nonce_history}
use katana.Storage.ClassHashes.{class_blocks, class_history}
use katana.Storage.Db.{
  Content, Db, TxWithHash, StateUpdatesWithClasses, ContractInfoChangeList, GenericContractInfo,
  ContractStorageKey, SealedBlockWithStatus, StoredBlockBodyIndices,
}
use katana.Storage.Insert.{
  for_each, for_enumerated, insert_transaction, insert_receipt, insert_execution, insert_body,
  insert_declared_class, insert_deprecated_class, insert_class, insert_classes, insert_block_data,
  insert_storage_entry, insert_storage, insert_deployed_contract, insert_nonce, with_nonce_change,
  with_class_change,
}

module _ {A S X : Type 0} (p : S → X) where
  pub for_each-keeps :
      (f : A → S → S) (xs : List A) (s : S)
      → ((x : A) (s : S) → p (f x s) ≡ p s)
      → p (for_each f xs s) ≡ p s
  for_each-keeps f [] s k = refl
  for_each-keeps f (x ∷ xs) s k = for_each-keeps f xs (f x s) k ∙ k x s

  pub for_enumerated-keeps :
      (f : ℕ → A → S → S) (i : ℕ) (xs : List A) (s : S)
      → ((i : ℕ) (x : A) (s : S) → p (f i x s) ≡ p s)
      → p (for_enumerated f i xs s) ≡ p s
  for_enumerated-keeps f i [] s k = refl
  for_enumerated-keeps f i (x ∷ xs) s k = for_enumerated-keeps f (suc i) xs (f i x s) k ∙ k i x s

-- A table reads the same at a key if the value there reads the same.
get-put_keeps :
    {V X : Type 0} (r : Option V → X) (addr k : ℕ) (v : V) (t : Table ℕ V)
    → r (some v) ≡ r (get addr t)
    → r (get k (put addr v t)) ≡ r (get k t)
get-put_keeps r addr k v t e = elim (Bool-cases (k == addr)) [
  | inl q ↦ let p : k ≡ addr = (==_iff k addr).0 q in rw p (ap r (get-put_self addr v t) ∙ e)
  | inr q ↦ ap r (get-put_other addr k v t q)
]

class_blocks-with_nonce_change :
    (n : ℕ) (o : Option ContractInfoChangeList)
    → class_blocks (some (with_nonce_change n o)) ≡ class_blocks o
class_blocks-with_nonce_change n none = refl
class_blocks-with_nonce_change n (some entry) = refl

nonce_blocks-with_class_change :
    (n : ℕ) (o : Option ContractInfoChangeList)
    → nonce_blocks (some (with_class_change n o)) ≡ nonce_blocks o
nonce_blocks-with_class_change n none = refl
nonce_blocks-with_class_change n (some entry) = refl

module _ {c : Content} where
  -- The tables of the change of contracts, and those of the change of storage.
  abbrev pub contract_tables :
      Db c
      → Table ℕ GenericContractInfo
        × Table ℕ ContractInfoChangeList
        × DupTable ℕ ℕ ℕ
        × DupTable ℕ ℕ ℕ
  contract_tables db = (
    db.contract_info, db.contract_info_change_set, db.nonce_change_history, db.class_change_history,
  )

  abbrev pub storage_tables :
      Db c → Table ContractStorageKey BlockList × DupTable ℕ ContractStorageKey ℕ × DupTable ℕ ℕ ℕ
  storage_tables db = (db.storage_change_set, db.storage_change_history, db.contract_storage)

  pub insert_body-keeps :
      {X : Type 0} (p : Db c → X) (n i : ℕ) (txs : List (TxWithHash c)) (rs : List c.Receipt)
      (es : List c.Execution) (db : Db c)
      → ((i : ℕ) (x : TxWithHash c) (s : Db c) → p (insert_transaction n i x s) ≡ p s)
      → ((i : ℕ) (x : c.Receipt) (s : Db c) → p (insert_receipt i x s) ≡ p s)
      → ((i : ℕ) (x : c.Execution) (s : Db c) → p (insert_execution i x s) ≡ p s)
      → p (insert_body n i txs rs es db) ≡ p db
  unfolding insert_body
  insert_body-keeps p n i txs rs es db a b d =
      for_enumerated-keeps p insert_execution i es _ d
      ∙ for_enumerated-keeps p insert_receipt i rs _ b
      ∙ for_enumerated-keeps p (insert_transaction n) i txs db a

  pub insert_classes-keeps :
      {X : Type 0} (p : Db c → X) (n : ℕ) (states : StateUpdatesWithClasses c) (db : Db c)
      → ((x : ℕ × c.ContractClass) (s : Db c) → p (insert_class x s) ≡ p s)
      → ((x : ℕ) (s : Db c) → p (insert_deprecated_class n x s) ≡ p s)
      → ((x : ℕ × ℕ) (s : Db c) → p (insert_declared_class n x s) ≡ p s)
      → p (insert_classes n states db) ≡ p db
  unfolding insert_classes
  insert_classes-keeps p n states db a b d =
      for_each-keeps p insert_class states.classes _ a
      ∙ for_each-keeps p (insert_deprecated_class n)
          states.state_updates.deprecated_declared_classes _ b
      ∙ for_each-keeps p (insert_declared_class n) states.state_updates.declared_classes db d

  -- The database before the loops over the state's changes.
  abbrev pub front :
      ℕ
      → ℕ
      → SealedBlockWithStatus c
      → StoredBlockBodyIndices
      → StateUpdatesWithClasses c
      → List c.Receipt
      → List c.Execution
      → Db c
      → Db c
  front n i b indices states rs es db =
      insert_classes n states
        (insert_body n i b.block.body rs es (insert_block_data n b indices db))

  module _ (n i : ℕ) (b : SealedBlockWithStatus c) (indices : StoredBlockBodyIndices)
      (states : StateUpdatesWithClasses c) (rs : List c.Receipt) (es : List c.Execution)
      (db : Db c) where
    pub contract_tables-front :
        contract_tables (front n i b indices states rs es db) ≡ contract_tables db
    unfolding insert_class insert_deprecated_class insert_declared_class insert_transaction
        insert_receipt insert_execution insert_block_data
    contract_tables-front =
        insert_classes-keeps contract_tables n states _ (λ x s. refl) (λ x s. refl) (λ x s. refl)
        ∙ insert_body-keeps contract_tables n i b.block.body rs es _ (λ j x s. refl) (λ j x s. refl)
            (λ j x s. refl)

    pub storage_tables-front :
        storage_tables (front n i b indices states rs es db) ≡ storage_tables db
    unfolding insert_class insert_deprecated_class insert_declared_class insert_transaction
        insert_receipt insert_execution insert_block_data
    storage_tables-front =
        insert_classes-keeps storage_tables n states _ (λ x s. refl) (λ x s. refl) (λ x s. refl)
        ∙ insert_body-keeps storage_tables n i b.block.body rs es _ (λ j x s. refl) (λ j x s. refl)
            (λ j x s. refl)

  module _ (n : ℕ) where
    pub insert_storage-keeps :
        {X : Type 0} (p : Db c → X)
        → ((a : ℕ) (x : ℕ × ℕ) (s : Db c) → p (insert_storage_entry n a x s) ≡ p s)
        → (u : ℕ × Table ℕ ℕ) (db : Db c) → p (insert_storage n u db) ≡ p db
    unfolding insert_storage
    insert_storage-keeps p k u db = for_each-keeps p (insert_storage_entry n u.0) u.1 db (k u.0)

    pub contract_tables-storage :
        (us : Table ℕ (Table ℕ ℕ)) (db : Db c)
        → contract_tables (for_each (insert_storage n) us db) ≡ contract_tables db
    unfolding insert_storage_entry
    contract_tables-storage us db =
        for_each-keeps contract_tables (insert_storage n) us db
          (insert_storage-keeps contract_tables (λ a x s. refl))

    pub storage_tables-deployed :
        (us : Table ℕ ℕ) (db : Db c)
        → storage_tables (for_each (insert_deployed_contract n) us db) ≡ storage_tables db
    unfolding insert_deployed_contract
    storage_tables-deployed us db =
        for_each-keeps storage_tables (insert_deployed_contract n) us db (λ x s. refl)

    pub storage_tables-nonces :
        (us : Table ℕ ℕ) (db : Db c)
        → storage_tables (for_each (insert_nonce n) us db) ≡ storage_tables db
    unfolding insert_nonce
    storage_tables-nonces us db = for_each-keeps storage_tables (insert_nonce n) us db (λ x s. refl)

    pub nonce_history-deployed :
        (k : ℕ) (us : Table ℕ ℕ) (db : Db c)
        → nonce_history k (for_each (insert_deployed_contract n) us db) ≡ nonce_history k db
    unfolding insert_deployed_contract
    nonce_history-deployed k us db =
        for_each-keeps (nonce_history k) (insert_deployed_contract n) us db λ x s.
          ap (λ l. record { blocks = l; value_in = (nonce_history k s).value_in })
            (get-put_keeps nonce_blocks x.0 k _ s.contract_info_change_set
              (nonce_blocks-with_class_change n (get x.0 s.contract_info_change_set)))

    pub class_history-nonces :
        (k : ℕ) (us : Table ℕ ℕ) (db : Db c)
        → class_history k (for_each (insert_nonce n) us db) ≡ class_history k db
    unfolding insert_nonce
    class_history-nonces k us db = for_each-keeps (class_history k) (insert_nonce n) us db λ x s.
        ap (λ l. record { blocks = l; value_in = (class_history k s).value_in })
          (get-put_keeps class_blocks x.0 k _ s.contract_info_change_set
            (class_blocks-with_nonce_change n (get x.0 s.contract_info_change_set)))

    pub nonce_change_history-deployed :
        (us : Table ℕ ℕ) (db : Db c)
        → (for_each (insert_deployed_contract n) us db).nonce_change_history
          ≡ db.nonce_change_history
    unfolding insert_deployed_contract
    nonce_change_history-deployed us db =
        for_each-keeps (λ s. s.nonce_change_history) (insert_deployed_contract n) us db
          (λ x s. refl)

    pub class_change_history-nonces :
        (us : Table ℕ ℕ) (db : Db c)
        → (for_each (insert_nonce n) us db).class_change_history ≡ db.class_change_history
    unfolding insert_nonce
    class_change_history-nonces us db =
        for_each-keeps (λ s. s.class_change_history) (insert_nonce n) us db (λ x s. refl)
