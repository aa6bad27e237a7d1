-- ===== src/Storage/Tip.antt =====
-- The latest storage of contracts: `LatestStateProvider` of
-- crates/storage/provider/src/providers/db/state.rs after blocks were stored one after another.
use katana.Base.{
  ℕ, suc, ◌+◌, ◌≤◌, ◌≡◌, refl, ◌∙◌, sym, ap, ap₂, subst, true, ◌&&◌, inl, inr, Option, none, some,
  List, [], ◌∷◌, arith, leb, ◌==◌, ==_iff, ==_refl, Bool-cases, Option-cases, if◌then◌else◌, length,
}
use katana.Storage.Table.{
  nat_key, pair_key, pair_eq, pair-IsLawful, Table, DupTable, get, put, walk_dup, seek_item,
  delete_item,
}
use katana.Storage.Table.Laws.{
  IsAscending, IsOrdered, get_dup, get-put, walk-put, put-IsAscending, seek-get, seek-other,
  insert_item-put, insert_item-delete_item, get-Above,
}
use katana.Storage.Db.{Content, Db, empty, ContractStorageKey, ok}
use katana.Storage.Insert.{
  for_each, upsert_storage, insert_storage_entry, insert_state,
  insert_block_with_states_and_receipts,
}
use katana.Storage.Latest.{storage, value_of_key}
use katana.Storage.Historical
use katana.Storage.History.{or_before}
use katana.Storage.Slots.{
  flatten, flatten-IsAscending, get-flatten, insert_slot, insert_storage-flatten, get_nested,
}
use katana.Storage.Chain.{
  Insertion, number, updates, insert_one, insert_all, IsChain, IsMaps, before,
}
use katana.Storage.Frame.{storage_tables-nonces, storage_tables-deployed, storage_tables-front}
use katana.Storage.AsOf.{last_update, storage-insert_all}

-- An entry of a contract's storage is set, and no other changes.
walk-upsert_storage :
    (a addr key v : ℕ) (t : DupTable ℕ ℕ ℕ)
    → IsOrdered t
    → walk_dup a (upsert_storage addr key v t)
      ≡ (if a == addr then put key v (walk_dup addr t) else walk_dup a t)
unfolding upsert_storage
walk-upsert_storage a addr key v t i = elim (Option-cases (get_dup addr key t)) [
  | inl e ↦ absent (seek_item key (walk_dup addr t)) refl e
  | inr w ↦ present w.0 w.1
]
  where
    absent :
        (o : Option (ℕ × ℕ))
        → seek_item key (walk_dup addr t) ≡ o
        → get_dup addr key t ≡ none
        → walk_dup a (upsert_storage addr key v t)
          ≡ (if a == addr then put key v (walk_dup addr t) else walk_dup a t)
    absent none s e = rw (s, insert_item-put key v (walk_dup addr t) e) (walk-put addr a _ t)
    absent (some x) s e =
        rw (s, seek-other key x (walk_dup addr t) e s, insert_item-put key v (walk_dup addr t) e)
          (walk-put addr a _ t)

    rest : DupTable ℕ ℕ ℕ
    rest = put addr (delete_item key (walk_dup addr t)) t

    walk-rest : walk_dup addr rest ≡ delete_item key (walk_dup addr t)
    walk-rest = walk-put addr addr (delete_item key (walk_dup addr t)) t ∙ rw (==_refl addr) refl

    replaced :
        walk_dup a (put addr (put key v (walk_dup addr t)) rest)
        ≡ (if a == addr then put key v (walk_dup addr t) else walk_dup a t)
    replaced = elim (Bool-cases (a == addr)) [
      | inl q ↦ walk-put addr a _ rest ∙ rw q refl
      | inr q ↦ walk-put addr a _ rest ∙ rw q (walk-put addr a _ t ∙ rw q refl)
    ]

    present :
        (v' : ℕ)
        → get_dup addr key t ≡ some v'
        → walk_dup a (upsert_storage addr key v t)
          ≡ (if a == addr then put key v (walk_dup addr t) else walk_dup a t)
    present v' e =
        rw
          (
            seek-get key v' (walk_dup addr t) (i addr) e,
            ==_refl key,
            walk-rest,
            insert_item-delete_item key v (walk_dup addr t) v' (i addr) e,
          )
          replaced

get-upsert_storage :
    (a x addr key v : ℕ) (t : DupTable ℕ ℕ ℕ)
    → IsOrdered t
    → get_dup a x (upsert_storage addr key v t)
      ≡ (if (a == addr) && (x == key) then some v else get_dup a x t)
get-upsert_storage a x addr key v t i =
    rw (walk-upsert_storage a addr key v t i) (elim (Bool-cases (a == addr)) [
      | inl q ↦
          let p : addr ≡ a = sym ((==_iff a addr).0 q) in
          rw q (
            get-put key x v (walk_dup addr t)
            ∙ ap (λ y. if x == key then some v else get_dup y x t) p)
      | inr q ↦ rw q refl
    ])

upsert_storage-IsOrdered :
    (addr key v : ℕ) (t : DupTable ℕ ℕ ℕ) → IsOrdered t → IsOrdered (upsert_storage addr key v t)
upsert_storage-IsOrdered addr key v t i a =
    rw (walk-upsert_storage a addr key v t i) (elim (Bool-cases (a == addr)) [
      | inl q ↦ rw q (put-IsAscending key v (walk_dup addr t) (i addr))
      | inr q ↦ rw q (i a)
    ])

value_of_key-seek_item :
    (key : ℕ) (l : Table ℕ ℕ) → IsAscending l → value_of_key key (seek_item key l) ≡ get key l
value_of_key-seek_item key l i = elim (Option-cases (get key l)) [
  | inl e ↦ absent (seek_item key l) refl e
  | inr w ↦ rw (seek-get key w.0 l i w.1, value_of_key, ==_refl key, w.1) refl
]
  where
    absent :
        (o : Option (ℕ × ℕ))
        → seek_item key l ≡ o
        → get key l ≡ none
        → value_of_key key o ≡ get key l
    absent none s e = sym e
    absent (some x) s e = rw (seek-other key x l e s, value_of_key, e) refl

module _ {c : Content} where
  abbrev slot : ContractStorageKey → Db c → Option ℕ
  slot k db = get_dup k.0 k.1 db.contract_storage

  abbrev IsTidy : Db c → Type 0
  IsTidy db = IsOrdered db.contract_storage

  module _ (n : ℕ) where
    slot-insert_slot :
        (e : ContractStorageKey × ℕ) (db : Db c) (k : ContractStorageKey)
        → IsTidy db
        → slot k (insert_slot n e db) ≡ (if pair_eq k e.0 then some e.1 else slot k db)
    unfolding insert_storage_entry
    slot-insert_slot (x, v) db k i = get-upsert_storage k.0 k.1 x.0 x.1 v db.contract_storage i

    insert_slot-IsTidy :
        (e : ContractStorageKey × ℕ) (db : Db c) → IsTidy db → IsTidy (insert_slot n e db)
    unfolding insert_storage_entry
    insert_slot-IsTidy (x, v) db i = upsert_storage-IsOrdered x.0 x.1 v db.contract_storage i

    for_each-IsTidy :
        (us : Table ContractStorageKey ℕ) (db : Db c)
        → IsTidy db
        → IsTidy (for_each (insert_slot n) us db)
    for_each-IsTidy [] db i = i
    for_each-IsTidy (e ∷ us) db i =
        for_each-IsTidy us (insert_slot n e db) (insert_slot-IsTidy e db i)

    slot-for_each :
        (us : Table ContractStorageKey ℕ) (db : Db c) (k : ContractStorageKey)
        → IsAscending us
        → IsTidy db
        → slot k (for_each (insert_slot n) us db) ≡ or_before (get k us) (slot k db)
    unfolding get
    slot-for_each [] db k a i = refl
    slot-for_each (e ∷ us) db k a i =
        slot-for_each us (insert_slot n e db) k a.1 (insert_slot-IsTidy e db i)
        ∙ ap (or_before (get k us)) (slot-insert_slot e db k i)
        ∙ elim (Bool-cases (pair_eq k e.0)) [
          | inl q ↦
              let p : e.0 ≡ k = sym ((pair-IsLawful.eq_iff k e.0).0 q) in
              rw (q, get, subst (λ x. get x us ≡ none) p (get-Above e.0 us a.0)) refl
          | inr q ↦ rw (q, get) refl
        ]

  storage-slot :
      (db : Db c) (addr key : ℕ) → IsTidy db → storage addr key db ≡ ok (slot (addr, key) db)
  unfolding storage
  storage-slot db addr key t =
      ap ok (value_of_key-seek_item key (walk_dup addr db.contract_storage) (t addr))

  insert_one-contract_storage :
      (i : Insertion c) (db : Db c)
      → (insert_one i db).contract_storage
        ≡ (for_each
            (insert_slot (number i))
            (flatten (updates i).storage_updates)
            (before i db)).contract_storage
  unfolding insert_block_with_states_and_receipts insert_state
  insert_one-contract_storage i db =
      ap (λ t. t.2)
        (storage_tables-nonces (number i) (updates i).nonce_updates _
          ∙ storage_tables-deployed (number i) (updates i).deployed_contracts _)
      ∙ ap (λ d. d.contract_storage)
          (insert_storage-flatten (number i) (updates i).storage_updates (before i db))

  before-contract_storage :
      (i : Insertion c) (db : Db c) → (before i db).contract_storage ≡ db.contract_storage
  before-contract_storage i db = ap (λ t. t.2) (storage_tables-front _ _ _ _ _ _ _ db)

  insert_one-IsTidy : (i : Insertion c) (db : Db c) → IsTidy db → IsTidy (insert_one i db)
  insert_one-IsTidy i db t = subst IsOrdered (sym (insert_one-contract_storage i db)) (
      for_each-IsTidy (number i) (flatten (updates i).storage_updates) (before i db)
        (subst IsOrdered (sym (before-contract_storage i db)) t))

  slot-insert_one :
      (i : Insertion c) (db : Db c) (k : ContractStorageKey)
      → IsMaps (updates i)
      → IsTidy db
      → slot k (insert_one i db)
        ≡ or_before (get_nested k (get k.0 (updates i).storage_updates)) (slot k db)
  slot-insert_one i db k m t =
      ap (get_dup k.0 k.1) (insert_one-contract_storage i db)
      ∙ slot-for_each (number i) (flatten (updates i).storage_updates) (before i db) k
          (flatten-IsAscending (updates i).storage_updates m.storage)
          (subst IsOrdered (sym (before-contract_storage i db)) t)
      ∙ ap₂ or_before (get-flatten k (updates i).storage_updates m.storage)
          (ap (get_dup k.0 k.1) (before-contract_storage i db))

  slot-insert_all :
      (n top : ℕ) (is : List (Insertion c)) (db : Db c) (k : ContractStorageKey)
      → IsChain n is
      → IsTidy db
      → n + length is ≤ suc top
      → (slot k (insert_all is db)
          ≡ last_update
              (λ i. get_nested k (get k.0 (updates i).storage_updates))
              top
              is
              (slot k db))
        × IsTidy (insert_all is db)
  slot-insert_all n top [] db k ch t le = (refl, t)
  slot-insert_all n top (i ∷ is) db k ch t le =
      let rest =
        slot-insert_all (suc n) top is (insert_one i db) k ch.2 (insert_one-IsTidy i db t)
          (omega arith) in
      let e : leb (number i) top ≡ true = ground (arith, ch.0) in
      (
        rest.0
            ∙ ap (last_update (λ i. get_nested k (get k.0 (updates i).storage_updates)) top is)
                (slot-insert_one i db k ch.1 t ∙ rw e refl),
        rest.1,
      )

  -- After blocks numbered from 0 on are stored into an empty database, the latest state and the state
  -- as of a block `k` that is not before the last one hold the same value under each storage key.
  pub storage-latest_eq :
      (is : List (Insertion c)) (k addr key : ℕ)
      → IsChain 0 is
      → length is ≤ suc k
      → storage addr key (insert_all is empty)
        ≡ Historical.storage addr key (record { tx = insert_all is empty; block_number = k })
  unfolding get
  storage-latest_eq is k addr key ch le =
      let r = slot-insert_all 0 k is empty (addr, key) ch (λ a. tt) (omega arith) in
      storage-slot (insert_all is empty) addr key r.1
      ∙ ap ok r.0
      ∙ sym (storage-insert_all is k addr key ch)
