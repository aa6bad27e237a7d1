-- ===== src/Storage/Table.antt =====
-- The tables of the database, as crates/storage/db/src/abstraction/{transaction,cursor}.rs document
-- them: a table is a map kept in the order of its keys, and a dupsort table holds under each key the
-- data items in their order.
pub mod Laws
pub mod Contents
use katana.Base.{
  ℕ, ◌≡◌, refl, ◌↔◌, Bool, true, false, ◌&&◌, ◌||◌, Option, none, some, List, [], ◌∷◌, arith, ltb,
  ◌==◌, length, unwrap_or, last?,
}

-- Keys compare as their encodings do: numbers by value, pairs part by part.
pub record IsLawful {K : Type 0} (lt eq : K → K → Bool) : Type 0 where
  pub eq_iff : (a b : K) → (eq a b ≡ true) ↔ (a ≡ b)
  pub lt_irrefl : (a : K) → lt a a ≡ false
  pub lt_trans : (a b c : K) → lt a b ≡ true → lt b c ≡ true → lt a c ≡ true
  pub lt_total : (a b : K) → lt a b ≡ false → eq a b ≡ false → lt b a ≡ true

pub record Key (K : Type 0) : Type 0 where
  pub lt : K → K → Bool
  pub eq : K → K → Bool
  pub lawful : IsLawful lt eq
  pub open lawful use *

pub nat-IsLawful : IsLawful ltb ◌==◌
nat-IsLawful = record {
  eq_iff = λ a b. ground arith;
  lt_irrefl = λ a. ground arith;
  lt_trans = λ a b c h k. ground arith;
  lt_total = λ a b h k. ground arith;
}

instance abbrev pub nat_key : Key ℕ
nat_key = record { lt = ltb; eq = ◌==◌; lawful = nat-IsLawful }

module _ {A B : Type 0} ⦃a : Key A⦄ ⦃b : Key B⦄ where
  abbrev pub pair_lt : A × B → A × B → Bool
  pair_lt x y = a.lt x.0 y.0 || (a.eq x.0 y.0 && b.lt x.1 y.1)

  abbrev pub pair_eq : A × B → A × B → Bool
  pair_eq x y = a.eq x.0 y.0 && b.eq x.1 y.1

  pub pair-IsLawful : IsLawful {K = A × B} pair_lt pair_eq
  pair-IsLawful = record {
    eq_iff = λ x y. ground (arith, a.eq_iff x.0 y.0, b.eq_iff x.1 y.1);
    lt_irrefl = λ x. ground (arith, a.lt_irrefl x.0, b.lt_irrefl x.1);
    lt_trans = λ x y z. ground (
      arith,
      a.lt_trans x.0 y.0 z.0,
      b.lt_trans x.1 y.1 z.1,
      a.eq_iff x.0 y.0,
      a.eq_iff y.0 z.0,
      a.eq_iff x.0 z.0,
    );
    lt_total = λ x y.
        ground (arith, a.lt_total x.0 y.0, b.lt_total x.1 y.1, a.eq_iff x.0 y.0, a.eq_iff y.0 x.0);
  }

  instance abbrev pub pair_key : Key (A × B)
  pair_key = record { lt = pair_lt; eq = pair_eq; lawful = pair-IsLawful }

abbrev pub Table : Type 0 → Type 0 → Type 0
Table K V = List (K × V)

-- A dupsort table: the data items of a key are a subkey with a value.
abbrev pub DupTable : Type 0 → Type 0 → Type 0 → Type 0
DupTable K S V = Table K (List (S × V))

module _ {K V : Type 0} ⦃o : Key K⦄ where
  unfoldable pub get : K → Table K V → Option V
  get k [] = none
  get k ((k', v) ∷ t) = elim (o.eq k k') [ true ↦ some v | false ↦ get k t ]

  -- `put` on a table without duplicates: it replaces the value of an existing key.
  unfoldable pub put : K → V → Table K V → Table K V
  put k v [] = (k, v) ∷ []
  put k v ((k', v') ∷ t) = elim (o.lt k k') [
    | true ↦ (k, v) ∷ (k', v') ∷ t
    | false ↦ elim (o.eq k k') [ true ↦ (k, v) ∷ t | false ↦ (k', v') ∷ put k v t ]
  ]

  abbrev pub entries : Table K V → ℕ
  entries t = length t

  -- `last` of a cursor: the entry with the greatest key.
  abbrev pub last : Table K V → Option (K × V)
  last t = last? t

-- The data items under a key, in their order; it is what a walk from that key yields.
abbrev pub walk_dup : {K D : Type 0} → ⦃o : Key K⦄ → K → Table K (List D) → List D
walk_dup k t = unwrap_or [] (get k t)

-- A data item enters at its place, once.
unfoldable pub insert_item : {D : Type 0} → ⦃d : Key D⦄ → D → List D → List D
insert_item x [] = x ∷ []
insert_item ⦃d⦄ x (y ∷ ys) = elim (d.lt x y) [
  | true ↦ x ∷ y ∷ ys
  | false ↦ elim (d.eq x y) [ true ↦ y ∷ ys | false ↦ y ∷ insert_item x ys ]
]

-- `put` and `upsert` on a dupsort table: they add a data item.
abbrev pub put_dup :
    {K D : Type 0} → ⦃o : Key K⦄ → ⦃d : Key D⦄ → K → D → Table K (List D) → Table K (List D)
put_dup k x t = put k (insert_item x (walk_dup k t)) t

module _ {S V : Type 0} ⦃s : Key S⦄ where
  -- The first data item whose subkey is not below the given one.
  unfoldable pub seek_item : S → List (S × V) → Option (S × V)
  seek_item k [] = none
  seek_item k (e ∷ es) = elim (s.lt e.0 k) [ true ↦ seek_item k es | false ↦ some e ]

  -- `delete_current` where a cursor that sought the subkey stands.
  unfoldable pub delete_item : S → List (S × V) → List (S × V)
  delete_item k [] = []
  delete_item k (e ∷ es) = elim (s.lt e.0 k) [ true ↦ e ∷ delete_item k es | false ↦ es ]

abbrev pub seek_by_key_subkey :
    {K S V : Type 0} → ⦃o : Key K⦄ → ⦃s : Key S⦄ → K → S → DupTable K S V → Option (S × V)
seek_by_key_subkey k s t = seek_item s (walk_dup k t)

abbrev pub delete_current :
    {K S V : Type 0} → ⦃o : Key K⦄ → ⦃s : Key S⦄ → K → S → DupTable K S V → DupTable K S V
delete_current k s t = put k (delete_item s (walk_dup k t)) t
