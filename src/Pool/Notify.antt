-- ===== src/Pool/Notify.antt =====
-- The notification loops of crates/pool/src/pool.rs: `notify_listener` and `notify_subscribers` run
-- over the vector backwards, take each sender out by `swap_remove`, and push it back if it is kept.
use mathlib.Core.Option
use mathlib.Core.List.{Perm, perm_append_singleton}
use mathlib.Core.List.Perm
use mathlib.Core.Path.{subst₂}
use katana.Base.{
  ℕ, zero, suc, ◌≡◌, refl, ap, Option, none, some, List, [], ◌∷◌, ◌++◌, arith, length, last?,
  append-nil, append_assoc, Option-cases, inl, inr, length-append,
}

module _ {A : Type 0} where
  abbrev pub init : List A → List A
  init [] = []
  init (x ∷ []) = []
  init (x ∷ y ∷ xs) = x ∷ init (y ∷ xs)

  -- The element that is taken out, with the last one moved to its place; `none` stands for the
  -- panic on an index out of range.
  unfoldable pub swap_remove : ℕ → List A → Option (A × List A)
  swap_remove n [] = none
  swap_remove zero (x ∷ xs) = elim (last? xs) [
    | none ↦ some (x, [])
    | some y ↦ some (x, y ∷ init xs)
  ]
  swap_remove (suc n) (x ∷ xs) = Option.map (λ r. (r.0, x ∷ r.1)) (swap_remove n xs)

  abbrev pub push_kept : Option A → List A → List A
  push_kept none l = l
  push_kept (some x) l = l ++ x ∷ []

  -- The rounds of the loop that are left, down to index 0; `send` gives the sender back if it is kept.
  unfoldable pub notify : (A → Option A) → ℕ → List A → List A
  notify send zero l = l
  notify send (suc n) l = elim (swap_remove n l) [
    | none ↦ l
    | some (x, rest) ↦ notify send n (push_kept (send x) rest)
  ]

  abbrev pub kept : (A → Option A) → List A → List A
  kept send [] = []
  kept send (x ∷ xs) = elim (send x) [ none ↦ kept send xs | some y ↦ y ∷ kept send xs ]

  init-last :
      (x : A) (xs : List A)
      → (y : A) × (last? (x ∷ xs) ≡ some y) × (x ∷ xs ≡ init (x ∷ xs) ++ y ∷ [])
  init-last x [] = (x, refl, refl)
  init-last x (z ∷ zs) = let (y, e, p) = init-last z zs in (y, e, ap (◌∷◌ x) p)

  -- Taking out of the processed part's left neighbour leaves the part before it as it was.
  swap_remove-perm :
      (before : List A) (x : A) (done : List A)
      → (rest : List A) × (swap_remove (length before) (before ++ x ∷ done)
          ≡ some (x, before ++ rest))
        × Perm rest done
  unfolding swap_remove
  swap_remove-perm [] x [] = ([], refl, Perm.refl [])
  swap_remove-perm [] x (d ∷ ds) =
      let (y, e, p) = init-last d ds in
      (y ∷ init (d ∷ ds), rw (e, swap_remove), rw p (Perm.symm (perm_append_singleton y _)))
  swap_remove-perm (b ∷ bs) x done =
      let (rest, e, p) = swap_remove-perm bs x done in (rest, rw e, p)

  -- A list, from its last element on.
  data Snoc : List A → Type 0 where
    nil : Snoc []
    snoc : (xs : List A) (x : A) → Snoc xs → Snoc (xs ++ x ∷ [])

  Snoc-cons : (x : A) {xs : List A} → Snoc xs → Snoc (x ∷ xs)
  Snoc-cons x nil = snoc [] x nil
  Snoc-cons x (snoc ys y v) = snoc (x ∷ ys) y (Snoc-cons x v)

  last_view : (xs : List A) → Snoc xs
  last_view [] = nil
  last_view (x ∷ xs) = Snoc-cons x (last_view xs)

  kept-append :
      (send : A → Option A) (xs ys : List A) → kept send (xs ++ ys) ≡ kept send xs ++ kept send ys
  kept-append send [] ys = refl
  kept-append send (x ∷ xs) ys = ground (arith, kept-append send xs ys)

  push_kept-append :
      (send : A → Option A) (x : A) (bs rest : List A)
      → push_kept (send x) (bs ++ rest) ≡ bs ++ push_kept (send x) rest
  push_kept-append send x bs rest = elim (Option-cases (send x)) [
    | inl e ↦ rw e
    | inr (y, e) ↦ rw e (append_assoc bs rest (y ∷ []))
  ]

  push_kept-perm :
      (send : A → Option A) (x : A) (rest done : List A)
      → Perm rest done
      → Perm (push_kept (send x) rest) (kept send (x ∷ []) ++ done)
  push_kept-perm send x rest done h = elim (Option-cases (send x)) [
    | inl e ↦ rw (e, kept) h
    | inr (y, e) ↦ rw (e, kept) (Perm.trans (perm_append_singleton y rest) (Perm.cons y h))
  ]

  notify_from-perm :
      (send : A → Option A) (before : List A)
      → Snoc before
      → (done : List A)
      → Perm (notify send (length before) (before ++ done)) (kept send before ++ done)
  unfolding notify
  notify_from-perm send before nil done = Perm.refl done
  notify_from-perm send before (snoc bs x v) done =
      let (rest, e, p) = swap_remove-perm bs x done in
      let n : length (bs ++ x ∷ []) ≡ suc (length bs) =
        omega (arith, length-append {0} bs (x ∷ [])) in
      rw
        (
          n,
          append_assoc bs (x ∷ []) done,
          e,
          notify,
          push_kept-append send x bs rest,
          kept-append send bs (x ∷ []),
          append_assoc (kept send bs) (kept send (x ∷ [])) done,
        )
        (Perm.trans (notify_from-perm send bs v (push_kept (send x) rest))
          (Perm.append (Perm.refl (kept send bs)) (push_kept-perm send x rest done p)))

  -- The whole loop sends to every element once, and keeps those that are to be kept.
  pub notify-perm :
      (send : A → Option A) (l : List A) → Perm (notify send (length l) l) (kept send l)
  notify-perm send l =
      subst₂ (λ a b. Perm (notify send (length l) a) b) (append-nil l) (append-nil (kept send l))
        (notify_from-perm send l (last_view l) [])
