-- ===== src/Storage/AsOf.antt =====
-- The state as of a block: `HistoricalStateProvider` of
-- crates/storage/provider/src/providers/db/state.rs after blocks were stored one after another.
use katana.Base.{
  ℕ, suc, ◌+◌, ◌≡◌, refl, ◌∙◌, sym, ap, subst, Bool, true, ◌&&◌, inl, inr, Option, none, some, List,
  [], ◌∷◌, leb, ◌==◌, ==_iff, Bool-cases, if◌then◌else◌, length, unwrap_or, arith, is_some, All,
  any,
}
use katana.Storage.Table.{nat_key, pair_key, Key, DupTable, get, seek_by_key_subkey, walk_dup}
use katana.Storage.Table.Laws.{IsOrdered, get_dup, seek-get, eq_refl}
use katana.Storage.BlockList.{
  BlockList, rank, IsMostRecent, recent_change_from_block, recent_change_from_block-IsMostRecent,
}
use katana.Storage.Db.{
  Content, Db, empty, ContractStorageKey, ok, ProviderResult, ProviderError, ContractInfoChangeList,
}
use katana.Storage.Historical.{
  HistoricalStateProvider, last_change, entry_value, nonce, class_hash_of_contract, storage,
}
use katana.Storage.History.{
  History, IsHistory, Records, value_at, value_at-Records, or_before, look,
}
use katana.Storage.Nonces.{nonce_history, nonce_blocks}
use katana.Storage.ClassHashes.{class_history, class_blocks}
use katana.Storage.Slots.{slot_history, get_nested}
use katana.Storage.Chain.{
  Insertion, IsMaps, number, updates, insert_one, insert_all, IsChain, IsConsistent,
  empty-IsConsistent, insert_one-IsRecorded, IsRecorded-IsConsistent, insert_all-IsConsistent,
}

-- What a map of each block's updates says last, up to block `k`; `before` is what held before.
abbrev pub last_update :
    {c : Content} → (Insertion c → Option ℕ) → ℕ → List (Insertion c) → Option ℕ → Option ℕ
last_update of k [] before = before
last_update of k (i ∷ is) before =
    last_update of k is (if leb (number i) k then or_before (of i) before else before)

member-All : (P : ℕ → Type 0) (m : ℕ) (l : BlockList) → any (λ x. x == m) l ≡ true → All P l → P m
member-All P m [] e a = cc
member-All P m (x ∷ xs) e a = elim (Bool-cases (x == m)) [
  | inl q ↦ subst P ((==_iff x m).0 q) a.0
  | inr q ↦ let e' : any (λ y. y == m) xs ≡ true = ground (arith, e, q) in member-All P m xs e' a.1
]

recent-nil : (k : ℕ) → recent_change_from_block k [] ≡ none
unfolding recent_change_from_block rank
recent-nil k = refl

-- A database of histories: what the cursor finds in the block of the last change is the value.
entry_value-value_at :
    {S : Type 0} ⦃s : Key S⦄ (k : ℕ) (x : S) (t : DupTable ℕ S ℕ) (blocks : BlockList)
    (error : ℕ → ProviderError) (is_key : S → Bool)
    → is_key x ≡ true
    → IsOrdered t
    → (o : Option ℕ) → ((m : ℕ) → o ≡ some m → is_some (get_dup m x t) ≡ true)
    → (elim o as (λ _. ProviderResult (Option ℕ)) [
      | none ↦ ok none
      | some num ↦ entry_value (error num) is_key (seek_by_key_subkey num x t)
    ])
      ≡ ok (look (λ b. get_dup b x t) o)
entry_value-value_at k x t blocks error is_key e i none r = refl
entry_value-value_at k x t blocks error is_key e i (some m) r = go (get_dup m x t) refl (r m refl)
  where
    go :
        (g : Option ℕ)
        → get_dup m x t ≡ g
        → is_some g ≡ true
        → entry_value (error m) is_key (seek_by_key_subkey m x t) ≡ ok (get_dup m x t)
    go none eq z = cc
    go (some v) eq z = rw (seek-get x v (walk_dup m t) (i m) eq, e, eq) refl

-- Before the first block nothing has a value.
value_at-empty : (k : ℕ) (h : History) → h.blocks ≡ [] → value_at k h ≡ none
value_at-empty k h e = ap (look h.value_in) (ap (recent_change_from_block k) e ∙ recent-nil k)

get-nil : {K : Type 0} (V : Type 0) ⦃o : Key K⦄ (k : K) → get {V = V} k [] ≡ none
unfolding get
get-nil V k = refl

-- The block of the last change has a value.
recorded_at :
    (n k : ℕ) (h : History)
    → IsHistory n h
    → (m : ℕ) → recent_change_from_block k h.blocks ≡ some m
    → is_some (h.value_in m) ≡ true
recorded_at n k h i m e =
    member-All (λ b. is_some (h.value_in b) ≡ true) m h.blocks
      (subst (IsMostRecent k h.blocks) e
        (recent_change_from_block-IsMostRecent k h.blocks i.sorted)).0
      i.recorded

module _ {c : Content} where
  module _ (n k : ℕ) (db : Db c) (i : IsConsistent n db) where
    -- The provider as of block `k`.
    abbrev as_of : HistoricalStateProvider c
    as_of = record { tx = db; block_number = k }

    nonce-value_at : (addr : ℕ) → nonce addr as_of ≡ ok (value_at k (nonce_history addr db))
    unfolding nonce get recent_change_from_block
    nonce-value_at addr = rw (same_change (get addr db.contract_info_change_set)) (
        entry_value-value_at k addr db.nonce_change_history (nonce_history addr db).blocks _
          (λ a. a == addr) (eq_refl addr) i.nonces_ok _
          (recorded_at n k (nonce_history addr db) (i.nonces addr)))
      where
        same_change :
            (o : Option ContractInfoChangeList)
            → last_change k (λ entry. entry.nonce_change_list) o
              ≡ recent_change_from_block k (nonce_blocks o)
        same_change none = sym (recent-nil k)
        same_change (some entry) = refl

    class_hash-value_at :
        (addr : ℕ) → class_hash_of_contract addr as_of ≡ ok (value_at k (class_history addr db))
    unfolding class_hash_of_contract get recent_change_from_block
    class_hash-value_at addr = rw (same_change (get addr db.contract_info_change_set)) (
        entry_value-value_at k addr db.class_change_history (class_history addr db).blocks _
          (λ a. a == addr) (eq_refl addr) i.class_hashes_ok _
          (recorded_at n k (class_history addr db) (i.class_hashes addr)))
      where
        same_change :
            (o : Option ContractInfoChangeList)
            → last_change k (λ entry. entry.class_change_list) o
              ≡ recent_change_from_block k (class_blocks o)
        same_change none = sym (recent-nil k)
        same_change (some entry) = refl

    storage-value_at :
        (addr key : ℕ) → storage addr key as_of ≡ ok (value_at k (slot_history (addr, key) db))
    unfolding storage get recent_change_from_block
    storage-value_at addr key =
        rw (same_change (get (let x : ContractStorageKey = (addr, key) in x) db.storage_change_set))
          (entry_value-value_at k (let x : ContractStorageKey = (addr, key) in x)
            db.storage_change_history (slot_history (addr, key) db).blocks _
            (λ x. (x.0 == addr) && (x.1 == key))
            (eq_refl (let x : ContractStorageKey = (addr, key) in x)) i.slots_ok _
            (recorded_at n k (slot_history (addr, key) db) (i.slots (addr, key))))
      where
        same_change :
            (o : Option BlockList)
            → last_change k (λ list. list) o ≡ recent_change_from_block k (unwrap_or [] o)
        same_change none = sym (recent-nil k)
        same_change (some list) = refl

  -- A value that every block records becomes the last update.
  value_at-last_update :
      (hist : Db c → History) (of : Insertion c → Option ℕ)
      → ((n : ℕ) (i : Insertion c) (db : Db c)
          → number i ≡ n
          → IsMaps (updates i)
          → IsConsistent n db
          → Records n (hist db) (hist (insert_one i db)) (of i))
      → ((n : ℕ) (db : Db c) → IsConsistent n db → IsHistory n (hist db))
      → (k n : ℕ) (is : List (Insertion c)) (db : Db c) → IsChain n is
      → IsConsistent n db
      → value_at k (hist (insert_all is db)) ≡ last_update of k is (value_at k (hist db))
  value_at-last_update hist of rec his k n [] db ch good = refl
  value_at-last_update hist of rec his k n (i ∷ is) db ch good =
      value_at-last_update hist of rec his k (suc n) is (insert_one i db) ch.2 (
        IsRecorded-IsConsistent n (updates i) db (insert_one i db) good
          (insert_one-IsRecorded n i db ch.0 ch.1 good))
      ∙ ap (last_update of k is) (
          value_at-Records n k (hist db) (hist (insert_one i db)) (of i) (his n db good)
            (rec n i db ch.0 ch.1 good)
          ∙ ap
              (λ m.
                if leb m k then or_before (of i) (value_at k (hist db)) else value_at k (hist db))
              (sym ch.0))

  module _ (is : List (Insertion c)) (k : ℕ) (ch : IsChain 0 is) where
    abbrev stored : Db c
    stored = insert_all is empty

    stored-IsConsistent : IsConsistent (0 + length is) stored
    stored-IsConsistent = insert_all-IsConsistent 0 is empty ch empty-IsConsistent

  -- After blocks numbered from 0 on are stored into an empty database, the nonce of a contract as of
  -- block `k` is the last one that the updates of the blocks up to `k` give it, and none if they give
  -- it none; the reader does not fail.
  pub nonce-insert_all :
      (is : List (Insertion c)) (k addr : ℕ)
      → IsChain 0 is
      → nonce addr (record { tx = insert_all is empty; block_number = k })
        ≡ ok (last_update (λ i. get addr (updates i).nonce_updates) k is none)
  nonce-insert_all is k addr ch =
      nonce-value_at (0 + length is) k (stored is k ch) (stored-IsConsistent is k ch) addr
      ∙ ap ok (
          value_at-last_update (nonce_history addr) (λ i. get addr (updates i).nonce_updates)
            (λ n i db e m good. (insert_one-IsRecorded n i db e m good).nonces addr)
            (λ n db good. good.nonces addr) k 0 is empty ch empty-IsConsistent
          ∙ ap (last_update (λ i. get addr (updates i).nonce_updates) k is)
              (value_at-empty k _ (ap nonce_blocks (get-nil _ addr))))

  -- The class hash of a contract as of block `k` is the last one that the deployed contracts of the
  -- blocks up to `k` give it, under the same conditions; replaced classes do not count.
  pub class_hash_of_contract-insert_all :
      (is : List (Insertion c)) (k addr : ℕ)
      → IsChain 0 is
      → class_hash_of_contract addr (record { tx = insert_all is empty; block_number = k })
        ≡ ok (last_update (λ i. get addr (updates i).deployed_contracts) k is none)
  class_hash_of_contract-insert_all is k addr ch =
      class_hash-value_at (0 + length is) k (stored is k ch) (stored-IsConsistent is k ch) addr
      ∙ ap ok (
          value_at-last_update (class_history addr) (λ i. get addr (updates i).deployed_contracts)
            (λ n i db e m good. (insert_one-IsRecorded n i db e m good).class_hashes addr)
            (λ n db good. good.class_hashes addr) k 0 is empty ch empty-IsConsistent
          ∙ ap (last_update (λ i. get addr (updates i).deployed_contracts) k is)
              (value_at-empty k _ (ap class_blocks (get-nil _ addr))))

  -- A contract's storage as of block `k` holds under each key the last value that the storage updates
  -- of the blocks up to `k` give it, under the same conditions.
  pub storage-insert_all :
      (is : List (Insertion c)) (k addr key : ℕ)
      → IsChain 0 is
      → storage addr key (record { tx = insert_all is empty; block_number = k })
        ≡ ok (
            last_update
              (λ i. get_nested (addr, key) (get addr (updates i).storage_updates))
              k
              is
              none)
  storage-insert_all is k addr key ch =
      storage-value_at (0 + length is) k (stored is k ch) (stored-IsConsistent is k ch) addr key
      ∙ ap ok (
          value_at-last_update (slot_history (addr, key))
            (λ i. get_nested (addr, key) (get addr (updates i).storage_updates))
            (λ n i db e m good. (insert_one-IsRecorded n i db e m good).slots (addr, key))
            (λ n db good. good.slots (addr, key)) k 0 is empty ch empty-IsConsistent
          ∙ ap
              (last_update (λ i. get_nested (addr, key) (get addr (updates i).storage_updates)) k
                is)
              (value_at-empty k _ (ap (unwrap_or []) (get-nil _ (addr, key)))))
