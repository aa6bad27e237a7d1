-- ===== src/Storage/ClassHashes.antt =====
-- The class hashes of contracts over the blocks: `insert_deployed_contract` of the writer against
-- `class_hash_of_contract` of
-- `HistoricalStateProvider`, crates/storage/provider/src/providers/db/{mod,state}.rs.
use katana.Base.{ℕ, ◌≡◌, refl, ◌∙◌, ap, false, Option, none, some, [], arith, ◌==◌, ==_refl}
use katana.Storage.Table.{nat_key, Table, get}
use katana.Storage.Table.Laws.{
  get-put_self, get-put_other, IsAscending, IsOrdered, get_dup, get-put_dup, put_dup-IsOrdered,
}
use katana.Storage.BlockList.{BlockList, insert}
use katana.Storage.Db.{Content, Db, ContractInfoChangeList}
use katana.Storage.Insert.{insert_deployed_contract, for_each, with_class_change}
use katana.Storage.History.{History, Records, same, changed, loop-IsOk, loop-Records, all_keys}

abbrev pub class_blocks : Option ContractInfoChangeList → BlockList
class_blocks none = []
class_blocks (some entry) = entry.class_change_list

blocks-with_class_change :
    (n : ℕ) (o : Option ContractInfoChangeList)
    → class_blocks (some (with_class_change n o)) ≡ insert n (class_blocks o)
blocks-with_class_change n none = refl
blocks-with_class_change n (some entry) = refl

module _ {c : Content} where
  abbrev pub class_history : ℕ → Db c → History
  class_history addr db = record {
    blocks = class_blocks (get addr db.contract_info_change_set);
    value_in = λ b. get_dup b addr db.class_change_history;
  }

  abbrev pub ClassHashesOk : Db c → Type 0
  ClassHashesOk db = IsOrdered db.class_change_history

  module _ (n : ℕ) where
    step-ClassHashesOk :
        (e : ℕ × ℕ) (db : Db c)
        → ClassHashesOk db
        → (class_history e.0 db).value_in n ≡ none
        → ClassHashesOk (insert_deployed_contract n e db)
    unfolding insert_deployed_contract
    step-ClassHashesOk (addr, class_hash) db i f =
        put_dup-IsOrdered n addr class_hash db.class_change_history f i

    step-Records :
        (e : ℕ × ℕ) (db : Db c)
        → ClassHashesOk db
        → (class_history e.0 db).value_in n ≡ none
        → Records n
            (class_history e.0 db)
            (class_history e.0 (insert_deployed_contract n e db))
            (some e.1)
    unfolding insert_deployed_contract
    step-Records (addr, class_hash) db i f =
        changed
          (ap class_blocks (get-put_self addr _ db.contract_info_change_set)
            ∙ blocks-with_class_change n (get addr db.contract_info_change_set))
          (λ b.
            get-put_dup n b addr addr class_hash db.class_change_history f
            ∙ ground (arith, ==_refl addr))

    step_other :
        (e : ℕ × ℕ) (db : Db c) (k : ℕ)
        → ClassHashesOk db
        → (class_history e.0 db).value_in n ≡ none
        → (k == e.0) ≡ false
        → Records n (class_history k db) (class_history k (insert_deployed_contract n e db)) none
    unfolding insert_deployed_contract
    step_other (addr, class_hash) db k i f ne =
        same (ap class_blocks (get-put_other addr k _ db.contract_info_change_set ne))
          (λ b. get-put_dup n b addr k class_hash db.class_change_history f ∙ ground (arith, ne))

    -- The loop over a map of class hashes keeps the histories in order,
    pub class_hashes-Ok :
        (us : Table ℕ ℕ) (db : Db c)
        → IsAscending us
        → ClassHashesOk db
        → ((k : ℕ) → (class_history k db).value_in n ≡ none)
        → ClassHashesOk (for_each (insert_deployed_contract n) us db)
    class_hashes-Ok us db a i f =
        loop-IsOk class_history ClassHashesOk n (insert_deployed_contract n) step-ClassHashesOk
          step-Records step_other us db a i (all_keys us f)

    -- and records each class hash of the map, and nothing else.
    pub class_hashes-Records :
        (us : Table ℕ ℕ) (db : Db c) (k : ℕ)
        → IsAscending us
        → ClassHashesOk db
        → ((k : ℕ) → (class_history k db).value_in n ≡ none)
        → Records n
            (class_history k db)
            (class_history k (for_each (insert_deployed_contract n) us db))
            (get k us)
    class_hashes-Records us db k a i f =
        loop-Records class_history ClassHashesOk n (insert_deployed_contract n) step-ClassHashesOk
          step-Records step_other us db k a i (all_keys us f)
