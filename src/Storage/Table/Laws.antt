-- ===== src/Storage/Table/Laws.antt =====
-- Maps kept in order, and data items kept in order: crates/storage/db/src/abstraction.
use katana.Base.{
  ◌≡◌, refl, subst, ◌∙◌, ap, sym, inl, inr, true, false, Option, none, some, List, [], ◌∷◌, arith,
  All, Bool-cases, if◌then◌else◌, ◌&&◌,
}
use katana.Storage.Table.{
  Key, Table, get, put, insert_item, seek_item, delete_item, walk_dup, put_dup, DupTable, pair_key,
}

pub eq_refl : {K : Type 0} ⦃o : Key K⦄ (k : K) → o.eq k k ≡ true
eq_refl ⦃o⦄ k = (o.eq_iff k k).1 refl

pub lt-ne : {K : Type 0} ⦃o : Key K⦄ (a b : K) → o.lt a b ≡ true → o.eq a b ≡ false
lt-ne ⦃o⦄ a b h = ground (arith, o.eq_iff a b, o.lt_irrefl a)

pub gt-ne : {K : Type 0} ⦃o : Key K⦄ (a b : K) → o.lt a b ≡ true → o.eq b a ≡ false
gt-ne ⦃o⦄ a b h = ground (arith, o.eq_iff b a, o.lt_irrefl a)

module _ {K V : Type 0} ⦃o : Key K⦄ where
  pub get-put :
      (k k' : K) (v : V) (t : Table K V)
      → get k' (put k v t) ≡ (if o.eq k' k then some v else get k' t)
  unfolding get put
  get-put k k' v [] = ground arith
  get-put k k' v (e ∷ t) =
      ground (arith, get-put k k' v t, o.eq_iff k e.0, o.eq_iff k' e.0, o.eq_iff k' k)

  pub get-put_self : (k : K) (v : V) (t : Table K V) → get k (put k v t) ≡ some v
  get-put_self k v t = rw (get-put k k v t, eq_refl k) refl

  pub get-put_other :
      (k k' : K) (v : V) (t : Table K V) → o.eq k' k ≡ false → get k' (put k v t) ≡ get k' t
  get-put_other k k' v t e = rw (get-put k k' v t, e) refl

  -- Every key of `t` is above `k`.
  abbrev pub Above : K → Table K V → Type 0
  Above k t = All (λ e. o.lt k e.0 ≡ true) t

  abbrev pub IsAscending : Table K V → Type 0
  IsAscending [] = Unit
  IsAscending (e ∷ t) = Above e.0 t × IsAscending t

  pub Above-trans : (j k : K) (t : Table K V) → o.lt j k ≡ true → Above k t → Above j t
  Above-trans j k [] h a = tt
  Above-trans j k (e ∷ t) h a = (o.lt_trans j k e.0 h a.0, Above-trans j k t h a.1)

  Above-put : (j k : K) (v : V) (t : Table K V) → o.lt j k ≡ true → Above j t → Above j (put k v t)
  unfolding put
  Above-put j k v [] h a = (h, tt)
  Above-put j k v (e ∷ t) h a = ground (arith, Above-put j k v t h a.1)

  pub put-IsAscending : (k : K) (v : V) (t : Table K V) → IsAscending t → IsAscending (put k v t)
  unfolding put
  put-IsAscending k v [] s = (tt, tt)
  put-IsAscending k v (e ∷ t) s = elim (Bool-cases (o.lt k e.0)) [
    | inl l ↦ rw (l, IsAscending) ((l, Above-trans k e.0 t l s.0), s)
    | inr g ↦ elim (Bool-cases (o.eq k e.0)) [
      | inl q ↦
          let p : e.0 ≡ k = sym ((o.eq_iff k e.0).0 q) in
          rw (g, q, IsAscending) (subst (λ x. Above x t) p s.0, s.1)
      | inr n ↦
          rw (g, n, IsAscending)
            (Above-put e.0 k v t (o.lt_total k e.0 g n) s.0, put-IsAscending k v t s.1)
    ]
  ]

  pub get-Above : (k : K) (t : Table K V) → Above k t → get k t ≡ none
  unfolding get
  get-Above k [] a = refl
  get-Above k (e ∷ t) a = ground (arith, get-Above k t a.1, lt-ne k e.0 a.0)

  -- A seek finds the item of a subkey that is there,
  pub seek-get :
      (k : K) (v : V) (t : Table K V)
      → IsAscending t
      → get k t ≡ some v
      → seek_item k t ≡ some (k, v)
  unfolding get seek_item
  seek-get k v [] s h = cc
  seek-get k v ((k', v') ∷ t) s h = elim (Bool-cases (o.eq k k')) [
    | inl q ↦ ground (arith, o.eq_iff k k', o.lt_irrefl k)
    | inr n ↦ ground (
      arith,
      seek-get k v t s.1,
      o.lt_total k k',
      (λ (l : o.lt k k' ≡ true). get-Above k t (Above-trans k k' t l s.0)),
    )
  ]

  -- and otherwise none or another subkey's.
  pub seek-other :
      (k : K) (e : K × V) (t : Table K V)
      → get k t ≡ none
      → seek_item k t ≡ some e
      → o.eq e.0 k ≡ false
  unfolding get seek_item
  seek-other k e [] h i = cc
  seek-other k e ((k', v') ∷ t) h i =
      ground (arith, seek-other k e t, o.eq_iff k k', o.eq_iff e.0 k)

  module _ ⦃w : Key V⦄ where
    -- A subkey that is not there enters as into a map,
    pub insert_item-put :
        (k : K) (v : V) (t : Table K V) → get k t ≡ none → insert_item (k, v) t ≡ put k v t
    unfolding get put insert_item
    insert_item-put k v [] h = refl
    insert_item-put k v (e ∷ t) h = ground (arith, insert_item-put k v t)

    insert_item-Above :
        (k : K) (v : V) (t : Table K V) → Above k t → insert_item (k, v) t ≡ (k, v) ∷ t
    unfolding insert_item
    insert_item-Above k v [] a = refl
    insert_item-Above k v (e ∷ t) a = ground (arith, a.0)

    -- and so does one whose item is first deleted.
    pub insert_item-delete_item :
        (k : K) (v : V) (t : Table K V) (v' : V)
        → IsAscending t
        → get k t ≡ some v'
        → insert_item (k, v) (delete_item k t) ≡ put k v t
    unfolding get put insert_item delete_item
    insert_item-delete_item k v [] v' s h = cc
    insert_item-delete_item k v ((k', w') ∷ t) v' s h = ground (
      arith,
      insert_item-delete_item k v t v' s.1,
      o.lt_total k k',
      o.eq_iff k k',
      o.lt_irrefl k,
      o.lt_trans k k' k,
      insert_item-Above k v t,
      (λ (q : k ≡ k'). insert_item-Above k v t (subst (λ x. Above x t) (sym q) s.0)),
      (λ (l : o.lt k k' ≡ true). get-Above k t (Above-trans k k' t l s.0)),
    )

-- The dupsort tables.
module _ {K S V : Type 0} ⦃o : Key K⦄ ⦃s : Key S⦄ ⦃w : Key V⦄ where
  abbrev pub IsOrdered : DupTable K S V → Type 0
  IsOrdered t = (k : K) → IsAscending (walk_dup k t)

  abbrev pub get_dup : K → S → DupTable K S V → Option V
  get_dup k x t = get x (walk_dup k t)

  pub walk-put :
      (k k' : K) (l : List (S × V)) (t : DupTable K S V)
      → walk_dup k' (put k l t) ≡ (if o.eq k' k then l else walk_dup k' t)
  walk-put k k' l t = rw (get-put k k' l t) (ground (arith))

  -- A subkey that a key does not have yet enters with its value.
  pub get-put_dup :
      (k k' : K) (x x' : S) (v : V) (t : DupTable K S V)
      → get_dup k x t ≡ none
      → get_dup k' x' (put_dup k (x, v) t)
        ≡ (if o.eq k' k && s.eq x' x then some v else get_dup k' x' t)
  get-put_dup k k' x x' v t e =
      rw (insert_item-put x v (walk_dup k t) e, walk-put k k' (put x v (walk_dup k t)) t)
        (elim (Bool-cases (o.eq k' k)) [
          | inl q ↦
              let p = (o.eq_iff k' k).0 q in
              rw q (
                get-put x x' v (walk_dup k t)
                ∙ ap (λ y. if s.eq x' x then some v else get_dup y x' t) (sym p))
          | inr q ↦ rw q refl
        ])

  pub put_dup-IsOrdered :
      (k : K) (x : S) (v : V) (t : DupTable K S V)
      → get_dup k x t ≡ none
      → IsOrdered t
      → IsOrdered (put_dup k (x, v) t)
  put_dup-IsOrdered k x v t e i k' =
      rw (insert_item-put x v (walk_dup k t) e, walk-put k k' (put x v (walk_dup k t)) t)
        (elim (Bool-cases (o.eq k' k)) [
          | inl q ↦ rw q (put-IsAscending x v (walk_dup k t) (i k))
          | inr q ↦ rw q (i k')
        ])
