-- ===== src/Storage/Slots.antt =====
-- The storage of contracts over the blocks: `insert_storage` of the writer against `storage` of
-- `HistoricalStateProvider`, crates/storage/provider/src/providers/db/{mod,state}.rs.
use mathlib.Core.Option
use katana.Base.{
  ℕ, ◌≡◌, refl, subst, ◌∙◌, sym, ap, false, inl, inr, Option, none, some, List, [], ◌∷◌, ◌++◌,
  arith, if◌then◌else◌, ◌==◌, ==_iff, Bool-cases, All, unwrap_or,
}
use katana.Storage.Table.{nat_key, pair_key, pair_eq, Key, Table, get}
use katana.Storage.Table.Laws.{
  get-put_self, get-put_other, IsAscending, Above, IsOrdered, get_dup, get-put_dup,
  put_dup-IsOrdered, eq_refl, get-Above,
}
use katana.Storage.BlockList.{BlockList, insert}
use katana.Storage.Db.{Content, Db, ContractStorageKey}
use katana.Storage.Insert.{insert_storage, insert_storage_entry, for_each, with_block}
use katana.Storage.History.{History, Records, same, changed, loop-IsOk, loop-Records, all_keys}

-- The entries of one contract, and of all of them, under their whole keys.
unfoldable pub entries_of : ℕ → Table ℕ ℕ → Table ContractStorageKey ℕ
entries_of addr [] = []
entries_of addr (e ∷ es) = ((addr, e.0), e.1) ∷ entries_of addr es

unfoldable pub flatten : Table ℕ (Table ℕ ℕ) → Table ContractStorageKey ℕ
flatten [] = []
flatten (u ∷ us) = entries_of u.0 u.1 ++ flatten us

-- The maps of the contracts are in order, and so is the map that holds them.
abbrev pub IsAscendingNested : Table ℕ (Table ℕ ℕ) → Type 0
IsAscendingNested us = IsAscending us × All (λ u. IsAscending u.1) us

-- The value of a key in the maps.
abbrev pub get_nested : ContractStorageKey → Option (Table ℕ ℕ) → Option ℕ
get_nested k none = none
get_nested k (some entries) = get k.1 entries

with_block-insert : (n : ℕ) (o : Option BlockList) → with_block n o ≡ insert n (unwrap_or [] o)
with_block-insert n none = refl
with_block-insert n (some l) = refl

entries_of-Above :
    (addr k : ℕ) (es : Table ℕ ℕ)
    → Above k es
    → Above (let x : ℕ × ℕ = (addr, k) in x) (entries_of addr es)
unfolding entries_of
entries_of-Above addr k [] a = tt
entries_of-Above addr k (e ∷ es) a = ground (arith, a.0, entries_of-Above addr k es a.1)

Above-append :
    {K V : Type 0} ⦃o : Key K⦄ (k : K) (xs ys : Table K V)
    → Above k xs
    → Above k ys
    → Above k (xs ++ ys)
Above-append k [] ys a b = b
Above-append k (x ∷ xs) ys a b = (a.0, Above-append k xs ys a.1 b)

get-append :
    {K V : Type 0} ⦃o : Key K⦄ (k : K) (xs ys : Table K V)
    → get k (xs ++ ys) ≡ unwrap_or (get k ys) (Option.map some (get k xs))
unfolding get
get-append k [] ys = refl
get-append k (x ∷ xs) ys = ground (arith, get-append k xs ys)

-- The keys of the contracts above `addr` are above each key of `addr`.
flatten-Above :
    (addr k : ℕ) (us : Table ℕ (Table ℕ ℕ))
    → Above addr us
    → Above (let x : ℕ × ℕ = (addr, k) in x) (flatten us)
unfolding flatten entries_of
flatten-Above addr k [] a = tt
flatten-Above addr k (u ∷ us) a =
    Above-append (addr, k) (entries_of u.0 u.1) (flatten us) (go u.1) (flatten-Above addr k us a.1)
  where
    go : (es : Table ℕ ℕ) → Above (let x : ℕ × ℕ = (addr, k) in x) (entries_of u.0 es)
    go [] = tt
    go (e ∷ es) = (ground (arith, a.0), go es)

pub flatten-IsAscending :
    (us : Table ℕ (Table ℕ ℕ)) → IsAscendingNested us → IsAscending (flatten us)
unfolding flatten entries_of
flatten-IsAscending [] a = tt
flatten-IsAscending (u ∷ us) a = go (flatten-IsAscending us (a.0.1, a.1.1)) u.1 a.1.0
  where
    go :
        IsAscending (flatten us)
        → (es : Table ℕ ℕ) → IsAscending es
        → IsAscending (entries_of u.0 es ++ flatten us)
    go rest [] i = rest
    go rest (e ∷ es) i = (
      Above-append (u.0, e.0) (entries_of u.0 es) (flatten us) (entries_of-Above u.0 e.0 es i.0)
          (flatten-Above u.0 e.0 us a.0.0),
      go rest es i.1,
    )

get-entries_of :
    (addr : ℕ) (k : ContractStorageKey) (es : Table ℕ ℕ)
    → get k (entries_of addr es) ≡ (if k.0 == addr then get k.1 es else none)
unfolding get entries_of
get-entries_of addr k [] = ground arith
get-entries_of addr k (e ∷ es) = ground (arith, get-entries_of addr k es)

-- The flat map has the values of the nested one.
pub get-flatten :
    (k : ContractStorageKey) (us : Table ℕ (Table ℕ ℕ))
    → IsAscendingNested us
    → get k (flatten us) ≡ get_nested k (get k.0 us)
unfolding get flatten
get-flatten k [] a = refl
get-flatten k (u ∷ us) a =
    rw (get-append k (entries_of u.0 u.1) (flatten us), get-entries_of u.0 k u.1)
      (elim (Bool-cases (k.0 == u.0)) [
        | inl q ↦
            let p : k.0 ≡ u.0 = (==_iff k.0 u.0).0 q in
            rw (q, get)
              (if_none (get k.1 u.1) (get k (flatten us)) (
                get-Above k (flatten us) (
                  subst (λ x. Above (let y : ℕ × ℕ = (x, k.1) in y) (flatten us)) (sym p)
                    (flatten-Above u.0 k.1 us a.0.0))))
        | inr q ↦ rw (q, get) (get-flatten k us (a.0.1, a.1.1))
      ])
  where
    if_none : (o o' : Option ℕ) → o' ≡ none → unwrap_or o' (Option.map some o) ≡ o
    if_none none o' e = e
    if_none (some v) o' e = refl

for_each-append :
    {A S : Type 0} (f : A → S → S) (xs ys : List A) (s : S)
    → for_each f (xs ++ ys) s ≡ for_each f ys (for_each f xs s)
for_each-append f [] ys s = refl
for_each-append f (x ∷ xs) ys s = for_each-append f xs ys (f x s)

module _ {c : Content} where
  abbrev pub slot_history : ContractStorageKey → Db c → History
  slot_history k db = record {
    blocks = unwrap_or [] (get k db.storage_change_set);
    value_in = λ b. get_dup b k db.storage_change_history;
  }

  abbrev pub SlotsOk : Db c → Type 0
  SlotsOk db = IsOrdered db.storage_change_history

  module _ (n : ℕ) where
    -- The loop's body at a whole key.
    abbrev pub insert_slot : ContractStorageKey × ℕ → Db c → Db c
    insert_slot e db = insert_storage_entry n e.0.0 (e.0.1, e.1) db

    step-SlotsOk :
        (e : ContractStorageKey × ℕ) (db : Db c)
        → SlotsOk db
        → (slot_history e.0 db).value_in n ≡ none
        → SlotsOk (insert_slot e db)
    unfolding insert_storage_entry
    step-SlotsOk (k, v) db i f = put_dup-IsOrdered n k v db.storage_change_history f i

    step-Records :
        (e : ContractStorageKey × ℕ) (db : Db c)
        → SlotsOk db
        → (slot_history e.0 db).value_in n ≡ none
        → Records n (slot_history e.0 db) (slot_history e.0 (insert_slot e db)) (some e.1)
    unfolding insert_storage_entry
    step-Records (k, v) db i f =
        changed
          (ap (unwrap_or []) (get-put_self k _ db.storage_change_set)
            ∙ with_block-insert n (get k db.storage_change_set))
          (λ b. get-put_dup n b k k v db.storage_change_history f ∙ ground (arith, eq_refl k))

    step_other :
        (e : ContractStorageKey × ℕ) (db : Db c) (k : ContractStorageKey)
        → SlotsOk db
        → (slot_history e.0 db).value_in n ≡ none
        → pair_eq k e.0 ≡ false
        → Records n (slot_history k db) (slot_history k (insert_slot e db)) none
    unfolding insert_storage_entry
    step_other (k', v) db k i f ne =
        same (ap (unwrap_or []) (get-put_other k' k _ db.storage_change_set ne))
          (λ b. get-put_dup n b k' k v db.storage_change_history f ∙ ground (arith, ne))

    pub insert_storage-flatten :
        (us : Table ℕ (Table ℕ ℕ)) (db : Db c)
        → for_each (insert_storage n) us db ≡ for_each insert_slot (flatten us) db
    unfolding insert_storage flatten entries_of
    insert_storage-flatten [] db = refl
    insert_storage-flatten (u ∷ us) db =
        insert_storage-flatten us (insert_storage n u db)
        ∙ ap (for_each insert_slot (flatten us)) (go u.1 db)
        ∙ sym (for_each-append insert_slot (entries_of u.0 u.1) (flatten us) db)
      where
        go :
            (es : Table ℕ ℕ) (db : Db c)
            → for_each (insert_storage_entry n u.0) es db
              ≡ for_each insert_slot (entries_of u.0 es) db
        go [] db = refl
        go (e ∷ es) db = go es (insert_storage_entry n u.0 e db)

    -- The loop over the maps of storage keeps the histories in order,
    pub slots-Ok :
        (us : Table ℕ (Table ℕ ℕ)) (db : Db c)
        → IsAscendingNested us
        → SlotsOk db
        → ((k : ContractStorageKey) → (slot_history k db).value_in n ≡ none)
        → SlotsOk (for_each (insert_storage n) us db)
    slots-Ok us db a i f = subst SlotsOk (sym (insert_storage-flatten us db)) (
        loop-IsOk slot_history SlotsOk n insert_slot step-SlotsOk step-Records step_other
          (flatten us) db (flatten-IsAscending us a) i (all_keys (flatten us) f))

    -- and records each value of the maps, and nothing else.
    pub slots-Records :
        (us : Table ℕ (Table ℕ ℕ)) (db : Db c) (k : ContractStorageKey)
        → IsAscendingNested us
        → SlotsOk db
        → ((k : ContractStorageKey) → (slot_history k db).value_in n ≡ none)
        → Records n
            (slot_history k db)
            (slot_history k (for_each (insert_storage n) us db))
            (get_nested k (get k.0 us))
    slots-Records us db k a i f =
        rw (insert_storage-flatten us db, ← get-flatten k us a)
          (loop-Records slot_history SlotsOk n insert_slot step-SlotsOk step-Records step_other
            (flatten us) db k (flatten-IsAscending us a) i (all_keys (flatten us) f))
