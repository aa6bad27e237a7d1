-- ===== src/Storage/Rows.antt =====
-- Rows at consecutive keys of a table, as the loops over a block's transactions, receipts and traces
-- of crates/storage/provider/src/providers/db/mod.rs write and read them.
use katana.Base.{
  ℕ, suc, ◌+◌, ◌≤◌, ◌<◌, ◌≡◌, refl, ◌∙◌, ap, subst, Option, some, List, [], ◌∷◌, ◌++◌, arith, All,
  All-append, length-append, length, map,
}
use katana.Storage.Table.{nat_key, Table, get, put, entries}
use katana.Storage.Table.Laws.{get-put_self, get-put_other}
use katana.Storage.Insert.{for_enumerated}
use katana.Storage.Db.{ProviderResult, ok}
use katana.Storage.Blocks.{collect}

module _ {V : Type 0} where
  -- The values at the keys from `i` on.
  abbrev pub put_all : ℕ → List V → Table ℕ V → Table ℕ V
  put_all i xs t = for_enumerated put i xs t

  -- The table has the values at the keys from `i` on.
  abbrev pub Holds : ℕ → List V → Table ℕ V → Type 0
  Holds i [] t = Unit
  Holds i (x ∷ xs) t = (get i t ≡ some x) × Holds (suc i) xs t

  abbrev pub KeysBelow : ℕ → Table ℕ V → Type 0
  KeysBelow n t = All (λ e. e.0 < n) t

  pub get-put_all :
      (k i : ℕ) (xs : List V) (t : Table ℕ V) → k < i → get k (put_all i xs t) ≡ get k t
  get-put_all k i [] t h = refl
  get-put_all k i (x ∷ xs) t h =
      get-put_all k (suc i) xs (put i x t) (omega arith) ∙ get-put_other i k x t (ground arith)

  pub Holds-put_all : (i : ℕ) (xs : List V) (t : Table ℕ V) → Holds i xs (put_all i xs t)
  Holds-put_all i [] t = tt
  Holds-put_all i (x ∷ xs) t = (
    get-put_all i (suc i) xs (put i x t) (omega arith) ∙ get-put_self i x t,
    Holds-put_all (suc i) xs (put i x t),
  )

  -- Rows below the new keys stay.
  pub Holds-keep :
      (o i : ℕ) (xs ys : List V) (t : Table ℕ V)
      → o + length xs ≤ i
      → Holds o xs t
      → Holds o xs (put_all i ys t)
  Holds-keep o i [] ys t le h = tt
  Holds-keep o i (x ∷ xs) ys t le h =
      (get-put_all o i ys t (omega arith) ∙ h.0, Holds-keep (suc o) i xs ys t (omega arith) h.1)

  put-append : (k : ℕ) (v : V) (t : Table ℕ V) → KeysBelow k t → put k v t ≡ t ++ (k, v) ∷ []
  unfolding put
  put-append k v [] b = refl
  put-append k v (e ∷ t) b = ground (arith, put-append k v t b.1, b.0)

  KeysBelow-le : (m n : ℕ) (t : Table ℕ V) → m ≤ n → KeysBelow m t → KeysBelow n t
  KeysBelow-le m n [] le b = tt
  KeysBelow-le m n (e ∷ t) le b = (omega (arith, b.0), KeysBelow-le m n t le b.1)

  pub KeysBelow-put :
      (k : ℕ) (v : V) (t : Table ℕ V) → KeysBelow k t → KeysBelow (suc k) (put k v t)
  KeysBelow-put k v t b = rw (put-append k v t b) (
      All-append (λ e. e.0 < suc k) t ((k, v) ∷ []) (KeysBelow-le k (suc k) t (omega arith) b)
        (omega arith, tt))

  entries-put :
      (k : ℕ) (v : V) (t : Table ℕ V) → KeysBelow k t → entries (put k v t) ≡ suc (entries t)
  entries-put k v t b = rw (put-append k v t b) (length-append t ((k, v) ∷ []) ∙ omega arith)

  -- Rows written after all others count, and stay below the next key.
  pub KeysBelow-put_all :
      (i : ℕ) (xs : List V) (t : Table ℕ V)
      → KeysBelow i t
      → KeysBelow (i + length xs) (put_all i xs t)
  KeysBelow-put_all i [] t b = subst (λ n. KeysBelow n t) (omega arith) b
  KeysBelow-put_all i (x ∷ xs) t b =
      subst (λ n. KeysBelow n (put_all i (x ∷ xs) t)) (omega arith)
        (KeysBelow-put_all (suc i) xs (put i x t) (KeysBelow-put i x t b))

  pub entries-put_all :
      (i : ℕ) (xs : List V) (t : Table ℕ V)
      → KeysBelow i t
      → entries (put_all i xs t) ≡ entries t + length xs
  entries-put_all i [] t b = omega arith
  entries-put_all i (x ∷ xs) t b =
      entries-put_all (suc i) xs (put i x t) (KeysBelow-put i x t b)
      ∙ omega (arith, entries-put i x t b)

  -- A loop over a range reads the rows back.
  pub collect-Holds :
      {A : Type 0} (read : ℕ → ProviderResult (Option A)) (f : V → A) (t : Table ℕ V) (i : ℕ)
      (xs : List V)
      → ((j : ℕ) (x : V) → get j t ≡ some x → read j ≡ ok (some (f x)))
      → Holds i xs t
      → collect read i (length xs) ≡ ok (map f xs)
  collect-Holds read f t i [] r h = refl
  collect-Holds read f t i (x ∷ xs) r h =
      rw (r i x h.0, collect-Holds read f t (suc i) xs r h.1) refl

-- A loop that puts a row of a table in each round.
pub for_enumerated-put_all :
    {A S V : Type 0} (p : S → Table ℕ V) (g : A → V) (f : ℕ → A → S → S) (i : ℕ) (xs : List A)
    (s : S)
    → ((i : ℕ) (x : A) (s : S) → p (f i x s) ≡ put i (g x) (p s))
    → p (for_enumerated f i xs s) ≡ put_all i (map g xs) (p s)
for_enumerated-put_all p g f i [] s k = refl
for_enumerated-put_all p g f i (x ∷ xs) s k =
    for_enumerated-put_all p g f (suc i) xs (f i x s) k ∙ ap (put_all (suc i) (map g xs)) (k i x s)
