-- ===== src/Storage/Nonces.antt =====
-- The nonces of contracts over the blocks: `insert_nonce` of the writer against `nonce` of
-- `HistoricalStateProvider`, crates/storage/provider/src/providers/db/{mod,state}.rs.
use katana.Base.{ℕ, ◌≡◌, refl, ◌∙◌, ap, false, Option, none, some, [], arith, ◌==◌, ==_refl}
use katana.Storage.Table.{nat_key, Table, get}
use katana.Storage.Table.Laws.{
  get-put_self, get-put_other, IsAscending, IsOrdered, get_dup, get-put_dup, put_dup-IsOrdered,
}
use katana.Storage.BlockList.{BlockList, insert}
use katana.Storage.Db.{Content, Db, ContractInfoChangeList}
use katana.Storage.Insert.{insert_nonce, for_each, with_nonce_change}
use katana.Storage.History.{History, Records, same, changed, loop-IsOk, loop-Records, all_keys}

abbrev pub nonce_blocks : Option ContractInfoChangeList → BlockList
nonce_blocks none = []
nonce_blocks (some entry) = entry.nonce_change_list

blocks-with_nonce_change :
    (n : ℕ) (o : Option ContractInfoChangeList)
    → nonce_blocks (some (with_nonce_change n o)) ≡ insert n (nonce_blocks o)
blocks-with_nonce_change n none = refl
blocks-with_nonce_change n (some entry) = refl

module _ {c : Content} where
  abbrev pub nonce_history : ℕ → Db c → History
  nonce_history addr db = record {
    blocks = nonce_blocks (get addr db.contract_info_change_set);
    value_in = λ b. get_dup b addr db.nonce_change_history;
  }

  abbrev pub NoncesOk : Db c → Type 0
  NoncesOk db = IsOrdered db.nonce_change_history

  module _ (n : ℕ) where
    step-NoncesOk :
        (e : ℕ × ℕ) (db : Db c)
        → NoncesOk db
        → (nonce_history e.0 db).value_in n ≡ none
        → NoncesOk (insert_nonce n e db)
    unfolding insert_nonce
    step-NoncesOk (addr, nonce) db i f = put_dup-IsOrdered n addr nonce db.nonce_change_history f i

    step-Records :
        (e : ℕ × ℕ) (db : Db c)
        → NoncesOk db
        → (nonce_history e.0 db).value_in n ≡ none
        → Records n (nonce_history e.0 db) (nonce_history e.0 (insert_nonce n e db)) (some e.1)
    unfolding insert_nonce
    step-Records (addr, nonce) db i f =
        changed
          (ap nonce_blocks (get-put_self addr _ db.contract_info_change_set)
            ∙ blocks-with_nonce_change n (get addr db.contract_info_change_set))
          (λ b.
            get-put_dup n b addr addr nonce db.nonce_change_history f
            ∙ ground (arith, ==_refl addr))

    step_other :
        (e : ℕ × ℕ) (db : Db c) (k : ℕ)
        → NoncesOk db
        → (nonce_history e.0 db).value_in n ≡ none
        → (k == e.0) ≡ false
        → Records n (nonce_history k db) (nonce_history k (insert_nonce n e db)) none
    unfolding insert_nonce
    step_other (addr, nonce) db k i f ne =
        same (ap nonce_blocks (get-put_other addr k _ db.contract_info_change_set ne))
          (λ b. get-put_dup n b addr k nonce db.nonce_change_history f ∙ ground (arith, ne))

    -- The loop over a map of nonces keeps the histories in order,
    pub nonces-Ok :
        (us : Table ℕ ℕ) (db : Db c)
        → IsAscending us
        → NoncesOk db
        → ((k : ℕ) → (nonce_history k db).value_in n ≡ none)
        → NoncesOk (for_each (insert_nonce n) us db)
    nonces-Ok us db a i f =
        loop-IsOk nonce_history NoncesOk n (insert_nonce n) step-NoncesOk step-Records step_other us
          db a i (all_keys us f)

    -- and records each nonce of the map, and nothing else.
    pub nonces-Records :
        (us : Table ℕ ℕ) (db : Db c) (k : ℕ)
        → IsAscending us
        → NoncesOk db
        → ((k : ℕ) → (nonce_history k db).value_in n ≡ none)
        → Records n
            (nonce_history k db)
            (nonce_history k (for_each (insert_nonce n) us db))
            (get k us)
    nonces-Records us db k a i f =
        loop-Records nonce_history NoncesOk n (insert_nonce n) step-NoncesOk step-Records step_other
          us db k a i (all_keys us f)
