-- ===== src/Storage/Table/Contents.antt =====
-- A table in order is told by what it answers to each key: crates/storage/db/src/abstraction.
use katana.Base.{
  ◌+◌, ◌≤◌, ◌≡◌, refl, subst, ◌∙◌, ap, sym, inl, inr, true, false, Option, none, some, [], ◌∷◌,
  arith, All, Bool-cases, length,
}
use katana.Storage.Table.{Key, Table, get, put}
use katana.Storage.Table.Laws.{
  IsAscending, Above, Above-trans, get-Above, get-put_other, get-put_self, put-IsAscending, eq_refl,
  lt-ne,
}

pub some-value : {A : Type 0} (x y : A) → some x ≡ some y → x ≡ y
some-value x y h = ap (λ z. elim z [ none ↦ x | some w ↦ w ]) h

pub none-some : {A : Type 0} (x : A) → ◌≡◌ {A = Option A} none (some x) → ⊥
none-some x h = cc

module _ {K V : Type 0} ⦃o : Key K⦄ where
  pub length-put-le : (k : K) (v : V) (t : Table K V) → length (put k v t) ≤ length t + 1
  unfolding put
  length-put-le k v [] = omega arith
  length-put-le k v (e ∷ t) = ground (arith, length-put-le k v t)

  pub get_cons_self : (k : K) (v : V) (t : Table K V) → get k ((k, v) ∷ t) ≡ some v
  unfolding get
  get_cons_self k v t = rw (get, eq_refl k) refl

  pub get_cons_other :
      (k : K) (e : K × V) (t : Table K V) → o.eq k e.0 ≡ false → get k (e ∷ t) ≡ get k t
  unfolding get
  get_cons_other k e t h = rw (get, h) refl

  behind :
      (j k : K) (y : V) (u : Table K V) → o.lt j k ≡ true → Above k u → get j ((k, y) ∷ u) ≡ none
  behind j k y u l a =
      get_cons_other j (k, y) u (lt-ne j k l) ∙ get-Above j u (Above-trans j k u l a)

  -- Tables with one first key that answer alike agree there and in the rest.
  same_first :
      (j : K) (x y : V) (t u : Table K V)
      → Above j t
      → Above j u
      → ((k : K) → get k ((j, x) ∷ t) ≡ get k ((j, y) ∷ u))
      → (x ≡ y) × ((k : K) → get k t ≡ get k u)
  same_first j x y t u a b h = (
    some-value x y (sym (get_cons_self j x t) ∙ h j ∙ get_cons_self j y u),
    λ k. elim (Bool-cases (o.eq k j)) [
      | inl q ↦
          subst (λ i. get i t ≡ get i u) (sym ((o.eq_iff k j).0 q))
            (get-Above j t a ∙ sym (get-Above j u b))
      | inr n ↦ sym (get_cons_other k (j, x) t n) ∙ h k ∙ get_cons_other k (j, y) u n
    ],
  )

  -- Two tables in order that answer alike are the same.
  pub get-ext :
      (t u : Table K V) → IsAscending t → IsAscending u → ((k : K) → get k t ≡ get k u) → t ≡ u
  unfolding get
  get-ext [] [] a b h = refl
  get-ext [] ((k, v) ∷ u) a b h = absurd (none-some v (h k ∙ get_cons_self k v u))
  get-ext ((k, v) ∷ t) [] a b h = absurd (none-some v (sym (h k) ∙ get_cons_self k v t))
  get-ext ((j, x) ∷ t) ((k, y) ∷ u) a b h = elim (Bool-cases (o.eq j k)) [
    | inl q ↦
        let p : j ≡ k = (o.eq_iff j k).0 q in
        let r =
          same_first j x y t u a.0 (subst (λ i. Above i u) (sym p) b.0)
            (λ i. h i ∙ ap (λ c. get i ((c, y) ∷ u)) (sym p)) in
        ap (λ z. (j, z) ∷ t) r.0
        ∙ ap (λ z. (j, y) ∷ z) (get-ext t u a.1 b.1 r.1)
        ∙ ap (λ c. (c, y) ∷ u) p
    | inr n ↦ elim (Bool-cases (o.lt j k)) [
      | inl l ↦ absurd (none-some x (sym (behind j k y u l b.0) ∙ sym (h j) ∙ get_cons_self j x t))
      | inr g ↦
          absurd (
            none-some y (sym (behind k j x t (o.lt_total j k g n) a.0) ∙ h k ∙ get_cons_self k y u))
    ]
  ]

  -- What every entry satisfies is what every answer satisfies.
  pub All-get :
      (P : K → V → Type 0) (t : Table K V) (k : K) (v : V)
      → All (λ e. P e.0 e.1) t
      → get k t ≡ some v
      → P k v
  unfolding get
  All-get P [] k v a h = absurd (none-some v h)
  All-get P (e ∷ t) k v a h = elim (Bool-cases (o.eq k e.0)) [
    | inl q ↦
        subst (λ x. P x v) (sym ((o.eq_iff k e.0).0 q))
          (subst (P e.0) (some-value e.1 v (rw (get, q) at h)) a.0)
    | inr n ↦ All-get P t k v a.1 (sym (get_cons_other k e t n) ∙ h)
  ]

  pub get-All :
      (P : K → V → Type 0) (t : Table K V)
      → IsAscending t
      → ((k : K) (v : V) → get k t ≡ some v → P k v)
      → All (λ e. P e.0 e.1) t
  get-All P [] a h = tt
  get-All P (e ∷ t) a h = (
    h e.0 e.1 (get_cons_self e.0 e.1 t),
    get-All P t a.1 (λ k v g. h k v (elim (Bool-cases (o.eq k e.0)) [
      | inl q ↦ absurd (
          none-some v
            (sym (get-Above e.0 t a.0) ∙ subst (λ x. get x t ≡ some v) ((o.eq_iff k e.0).0 q) g))
      | inr n ↦ get_cons_other k e t n ∙ g
    ])),
  )

abbrev pub or_get : {V : Type 0} → Option V → Option V → Option V
or_get none o = o
or_get (some v) o = some v

or_get-none : {V : Type 0} (o : Option V) → or_get o none ≡ o
or_get-none none = refl
or_get-none (some v) = refl

abbrev pub and_then : {E V : Type 0} → (E → Option V) → Option E → Option V
and_then f none = none
and_then f (some e) = f e

and_then-some : {V : Type 0} (o : Option V) → and_then some o ≡ o
and_then-some none = refl
and_then-some (some v) = refl

module _ {K V : Type 0} ⦃o : Key K⦄ where
  abbrev pub insert_some : K → Option V → Table K V → Table K V
  insert_some k none t = t
  insert_some k (some v) t = put k v t

  get-insert_some_self :
      (k : K) (x : Option V) (t : Table K V) → get k (insert_some k x t) ≡ or_get x (get k t)
  get-insert_some_self k none t = refl
  get-insert_some_self k (some v) t = get-put_self k v t

  get-insert_some_other :
      (k a : K) (x : Option V) (t : Table K V)
      → o.eq a k ≡ false
      → get a (insert_some k x t) ≡ get a t
  get-insert_some_other k a none t n = refl
  get-insert_some_other k a (some v) t n = get-put_other k a v t n

  insert_some-IsAscending :
      (k : K) (x : Option V) (t : Table K V) → IsAscending t → IsAscending (insert_some k x t)
  insert_some-IsAscending k none t s = s
  insert_some-IsAscending k (some v) t s = put-IsAscending k v t s

module _ {K E V : Type 0} ⦃o : Key K⦄ (f : E → Option V) where
  -- What a table's entries have, put into another one.
  unfoldable pub collect_some : Table K E → Table K V → Table K V
  collect_some [] t = t
  collect_some (e ∷ es) t = collect_some es (insert_some e.0 (f e.1) t)

  pub get-collect_some :
      (es : Table K E) (t : Table K V) (k : K)
      → IsAscending es
      → get k (collect_some es t) ≡ or_get (and_then f (get k es)) (get k t)
  unfolding collect_some get
  get-collect_some [] t k s = refl
  get-collect_some (e ∷ es) t k s = elim (Bool-cases (o.eq k e.0)) [
    | inl q ↦
        subst
          (λ i.
            get i (collect_some es (insert_some e.0 (f e.1) t))
            ≡ or_get (and_then f (get i (e ∷ es))) (get i t))
          (sym ((o.eq_iff k e.0).0 q))
          (get-collect_some es (insert_some e.0 (f e.1) t) e.0 s.1
            ∙ ap (λ x. or_get (and_then f x) (get e.0 (insert_some e.0 (f e.1) t)))
                (get-Above e.0 es s.0)
            ∙ get-insert_some_self e.0 (f e.1) t
            ∙ ap (λ x. or_get (and_then f x) (get e.0 t)) (sym (get_cons_self e.0 e.1 es)))
    | inr n ↦
        get-collect_some es (insert_some e.0 (f e.1) t) k s.1
        ∙ ap (or_get (and_then f (get k es))) (get-insert_some_other e.0 k (f e.1) t n)
        ∙ ap (λ x. or_get (and_then f x) (get k t)) (sym (get_cons_other k e es n))
  ]

  collect_some-IsAscending :
      (es : Table K E) (t : Table K V) → IsAscending t → IsAscending (collect_some es t)
  unfolding collect_some
  collect_some-IsAscending [] t s = s
  collect_some-IsAscending (e ∷ es) t s =
      collect_some-IsAscending es (insert_some e.0 (f e.1) t)
        (insert_some-IsAscending e.0 (f e.1) t s)

  -- A table in order that answers as the collected one does is the collected one.
  pub collect_some-eq :
      (es : Table K E) (t : Table K V)
      → IsAscending es
      → IsAscending t
      → ((k : K) → and_then f (get k es) ≡ get k t)
      → collect_some es [] ≡ t
  unfolding get
  collect_some-eq es t s a h =
      get-ext (collect_some es []) t (collect_some-IsAscending es [] tt) a
        (λ k. get-collect_some es [] k s ∙ or_get-none (and_then f (get k es)) ∙ h k)

-- Put into an empty table, a table in order is there again.
pub collect_some_all :
    {K V : Type 0} ⦃o : Key K⦄ (es : Table K V) → IsAscending es → collect_some some es [] ≡ es
collect_some_all es s = collect_some-eq some es es s s (λ k. and_then-some (get k es))
