-- ===== src/Fork/Sums.antt =====
-- What the list operations of the fork backend keep: sums over the elements, and what holds of all.
use katana.Base.{
  ℕ, zero, suc, ◌+◌, ◌<◌, ◌≡◌, refl, sym, some, List, [], ◌∷◌, ◌++◌, length, last?, All, arith,
}
use katana.Pool.Notify.{swap_remove, init}

module _ {A : Type 0} where
  abbrev pub sum_by : (A → ℕ) → List A → ℕ
  sum_by w [] = 0
  sum_by w (x ∷ xs) = w x + sum_by w xs

  pub sum_by-append : (w : A → ℕ) (xs ys : List A) → sum_by w (xs ++ ys) ≡ sum_by w xs + sum_by w ys
  sum_by-append w [] ys = omega arith
  sum_by-append w (x ∷ xs) ys = omega (arith, sum_by-append w xs ys)

  pub sum_by-one : (xs : List A) → sum_by (λ x. 1) xs ≡ length xs
  sum_by-one [] = refl
  sum_by-one (x ∷ xs) = omega (arith, sum_by-one xs)

  last_some : (x : A) (xs : List A) → (y : A) × (last? (x ∷ xs) ≡ some y)
  last_some x [] = (x, refl)
  last_some x (y ∷ xs) = last_some y xs

  sum_by-init :
      (w : A → ℕ) (xs : List A) (y : A) → last? xs ≡ some y → sum_by w xs ≡ w y + sum_by w (init xs)
  sum_by-init w [] y h = cc
  sum_by-init w (x ∷ []) y h = let e : x ≡ y = cc in rw e (omega arith)
  sum_by-init w (x ∷ z ∷ xs) y h = omega (arith, sum_by-init w (z ∷ xs) y h)

  All-init :
      (P : A → Type 0) (xs : List A) (y : A) → last? xs ≡ some y → All P xs → P y × All P (init xs)
  All-init P [] y h a = cc
  All-init P (x ∷ []) y h a = let e : x ≡ y = cc in (rw (sym e) a.0, tt)
  All-init P (x ∷ z ∷ xs) y h a = let r = All-init P (z ∷ xs) y h a.1 in (r.0, (a.0, r.1))

  -- Within the list, an element is taken out; every sum and what holds of all are split.
  pub swap_remove-splits :
      (P : A → Type 0) (i : ℕ) (xs : List A)
      → i < length xs
      → All P xs
      → (x : A) × (rest : List A) × (swap_remove i xs ≡ some (x, rest))
        × ((w : A → ℕ) → sum_by w xs ≡ w x + sum_by w rest)
        × P x
        × All P rest
  unfolding swap_remove
  swap_remove-splits P i [] h a = absurd (omega arith)
  swap_remove-splits P zero (x ∷ []) h a = (x, [], refl, (λ w. refl), a.0, tt)
  swap_remove-splits P zero (x ∷ z ∷ xs) h a =
      let (y, e) = last_some z xs in
      let (py, all) = All-init P (z ∷ xs) y e a.1 in
      (
        x,
        y ∷ init (z ∷ xs),
        rw (e, swap_remove) refl,
        (λ w. let s = sum_by-init w (z ∷ xs) y e in omega (arith, s)),
        a.0,
        (py, all),
      )
  swap_remove-splits P (suc i) (x ∷ xs) h a =
      let (y, rest, e, s, py, all) = swap_remove-splits P i xs (omega arith) a.1 in
      (y, x ∷ rest, rw e refl, (λ w. let t = s w in omega (arith, t)), py, (a.0, all))
