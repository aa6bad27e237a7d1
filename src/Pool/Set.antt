-- ===== src/Pool/Set.antt =====
-- The standard library's `BTreeSet`, as the list of its elements in order, over a comparison that
-- need not be an order. `insert` searches from the least element on, as the tree does in a node.
use Prim.Native.Nat.{Ordering}
use mathlib.Core.List.Perm
use mathlib.Core.List.{Perm}
use katana.Base.{
  ◌≡◌, refl, ap, subst, ◌≢◌, Option, none, some, List, [], ◌∷◌, ◌++◌, last?, All, append-nil,
}

module _ {A : Type 0} (cmp : A → A → Ordering) where
  unfoldable pub insert : A → List A → List A
  insert x [] = x ∷ []
  insert x (y ∷ ys) = elim (cmp x y) [
    | Ordering.lt ↦ x ∷ y ∷ ys
    | Ordering.eq ↦ y ∷ ys
    | Ordering.gt ↦ y ∷ insert x ys
  ]

  -- Where a search tree over the elements `l`, of any shape, may put `x`: its last comparison to the left found
  -- `x` greater, its last comparison to the right found it less.
  pub record Slot (x : A) (l l' : List A) : Type 0 where
    pub before : List A
    pub after : List A
    pub split : l ≡ before ++ after
    pub result : l' ≡ before ++ x ∷ after
    pub left : (y : A) → last? before ≡ some y → cmp x y ≡ Ordering.gt
    pub right : (y : A) (ys : List A) → after ≡ y ∷ ys → cmp x y ≡ Ordering.lt

module _ {A : Type 0} (cmp : A → A → Ordering) (x : A) where
  -- An element that equals none of the others is added.
  pub insert-perm : ((y : A) → cmp x y ≢ Ordering.eq) → (l : List A) → Perm (insert cmp x l) (x ∷ l)
  unfolding insert
  insert-perm ne [] = Perm.refl _
  insert-perm ne (y ∷ ys) = go (cmp x y) refl (insert-perm ne ys)
    where
      go :
          (o : Ordering)
          → cmp x y ≡ o
          → Perm (insert cmp x ys) (x ∷ ys)
          → Perm (insert cmp x (y ∷ ys)) (x ∷ y ∷ ys)
      go Ordering.lt e ih = rw (e, insert) (Perm.refl _)
      go Ordering.eq e ih = absurd (ne y e)
      go Ordering.gt e ih = rw (e, insert) (Perm.trans (Perm.cons y ih) (Perm.swap _ _ _))

  -- What is greater than all the elements goes to the end.
  pub insert_last : (l : List A) → All (λ y. cmp x y ≡ Ordering.gt) l → insert cmp x l ≡ l ++ x ∷ []
  unfolding insert
  insert_last [] h = refl
  insert_last (y ∷ ys) h = rw (h.0, insert) (ap (◌∷◌ y) (insert_last ys h.1))

  -- So it does in a search tree of any shape.
  pub Slot-last :
      (l : List A) {l' : List A}
      → All (λ y. cmp x y ≡ Ordering.gt) l
      → Slot cmp x l l'
      → l' ≡ l ++ x ∷ []
  Slot-last l h s = go s.before s.after s.split s.result s.right h
    where
      none_right :
          (before : List A) (y : A) (ys : List A)
          → All (λ z. cmp x z ≡ Ordering.gt) (before ++ y ∷ ys)
          → cmp x y ≡ Ordering.gt
      none_right [] y ys h = h.0
      none_right (b ∷ bs) y ys h = none_right bs y ys h.1

      go :
          {l l' : List A} (before after : List A)
          → l ≡ before ++ after
          → l' ≡ before ++ x ∷ after
          → ((y : A) (ys : List A) → after ≡ y ∷ ys → cmp x y ≡ Ordering.lt)
          → All (λ y. cmp x y ≡ Ordering.gt) l
          → l' ≡ l ++ x ∷ []
      go before [] e e' r h = rw (e, append-nil before) e'
      go before (y ∷ ys) e e' r h =
          let g : cmp x y ≡ Ordering.gt =
            none_right before y ys (subst (All (λ z. cmp x z ≡ Ordering.gt)) e h) in
          cc (r y ys refl)

unfoldable pub pop_first : {A : Type 0} → List A → Option (A × List A)
pop_first [] = none
pop_first (x ∷ xs) = some (x, xs)
