-- ===== src/Storage/History.antt =====
-- A value that changes from block to block, as crates/storage/provider/src/providers/db keeps it:
-- the list of the blocks in which it changed, and in each of these its new value.
use katana.Base.{
  ℕ, ◌≡◌, refl, ◌∙◌, sym, ap, Bool, true, false, inl, inr, Option, none, some, [], ◌∷◌, arith, ◌≤◌,
  suc, if◌then◌else◌, leb, ◌==◌, ==_refl, is_some, Bool-cases, All, any, subst, All-append,
}
use katana.Storage.Table.{Key, Table, get}
use katana.Storage.Table.Laws.{Above, IsAscending, get-Above, gt-ne}
use katana.Storage.Insert.{for_each}
use katana.Storage.BlockList.{
  BlockList, insert, recent_change_from_block, IsSorted, Below, IsMostRecent, recent-append,
  insert-append, insert-IsSorted, insert-Below, Below-le, recent_change_from_block-IsMostRecent,
}

-- `Option::or`
abbrev pub or_before : Option ℕ → Option ℕ → Option ℕ
or_before none b = b
or_before (some a) b = some a

-- The list of blocks with the value that each of them has.
pub record History : Type 0 where
  pub blocks : BlockList
  pub value_in : ℕ → Option ℕ

-- The blocks of the list are below `n` and have values, and blocks from `n` on have none.
pub record IsHistory (n : ℕ) (h : History) : Type 0 where
  pub sorted : IsSorted h.blocks
  pub below : Below n h.blocks
  pub recorded : All (λ b. is_some (h.value_in b) ≡ true) h.blocks
  pub fresh : (b : ℕ) → n ≤ b → h.value_in b ≡ none

abbrev pub look : (ℕ → Option ℕ) → Option ℕ → Option ℕ
look value_in none = none
look value_in (some b) = value_in b

-- The value as of block `k`.
abbrev pub value_at : ℕ → History → Option ℕ
value_at k h = look h.value_in (recent_change_from_block k h.blocks)

-- `h'` is `h` with the value `v` for block `n`, if there is one.
pub data Records (n : ℕ) (h h' : History) : Option ℕ → Type 0 where
  same : h'.blocks ≡ h.blocks → ((b : ℕ) → h'.value_in b ≡ h.value_in b) → Records n h h' none
  changed :
      {v : ℕ}
      → h'.blocks ≡ insert n h.blocks
      → ((b : ℕ) → h'.value_in b ≡ (if b == n then some v else h.value_in b))
      → Records n h h' (some v)

recorded-imp :
    (f g : ℕ → Option ℕ) (l : BlockList)
    → ((b : ℕ) → is_some (f b) ≡ true → is_some (g b) ≡ true)
    → All (λ b. is_some (f b) ≡ true) l
    → All (λ b. is_some (g b) ≡ true) l
recorded-imp f g [] i a = tt
recorded-imp f g (b ∷ l) i a = (i b a.0, recorded-imp f g l i a.1)

pub Records-IsHistory :
    (n : ℕ) (h h' : History) (v : Option ℕ)
    → IsHistory n h
    → Records n h h' v
    → IsHistory (suc n) h'
Records-IsHistory n h h' none i (same p q) = record {
  sorted = subst IsSorted (sym p) i.sorted;
  below = subst (Below (suc n)) (sym p) (Below-le n (suc n) h.blocks (omega arith) i.below);
  recorded =
      subst (All (λ b. is_some (h'.value_in b) ≡ true)) (sym p)
        (recorded-imp h.value_in h'.value_in h.blocks (λ b e. rw (q b) e) i.recorded);
  fresh = λ b le. q b ∙ i.fresh b (omega arith);
}
Records-IsHistory n h h' (some v) i (changed p q) =
    let e = p ∙ insert-append n h.blocks i.below in
    record {
      sorted = subst IsSorted (sym p) (insert-IsSorted n h.blocks i.sorted);
      below = subst (Below (suc n)) (sym p) (
          insert-Below (suc n) n h.blocks (omega arith)
            (Below-le n (suc n) h.blocks (omega arith) i.below));
      recorded = subst (All (λ b. is_some (h'.value_in b) ≡ true)) (sym e) (
          All-append (λ b. is_some (h'.value_in b) ≡ true) h.blocks (n ∷ [])
            (recorded-imp h.value_in h'.value_in h.blocks (λ b j. rw (q b) (ground arith))
              i.recorded)
            (rw (q n, ==_refl n) refl, tt));
      fresh = λ b le. q b ∙ ground (arith, i.fresh b);
    }

member-Below : (n m : ℕ) (l : BlockList) → any (λ x. x == m) l ≡ true → Below n l → (m == n) ≡ false
member-Below n m [] e b = cc
member-Below n m (x ∷ xs) e b = ground (arith, member-Below n m xs, b.0, b.1)

-- A recorded value is the value as of its block and every later one; earlier ones do not change.
pub value_at-Records :
    (n k : ℕ) (h h' : History) (v : Option ℕ)
    → IsHistory n h
    → Records n h h' v
    → value_at k h' ≡ (if leb n k then or_before v (value_at k h) else value_at k h)
value_at-Records n k h h' none i (same p q) =
    rw p (look-same (recent_change_from_block k h.blocks)) ∙ sym (if-same (leb n k) _)
  where
    look-same : (o : Option ℕ) → look h'.value_in o ≡ look h.value_in o
    look-same none = refl
    look-same (some b) = q b

    if-same : (b : Bool) (o : Option ℕ) → (if b then o else o) ≡ o
    if-same true o = refl
    if-same false o = refl
value_at-Records n k h h' (some v) i (changed p q) =
    rw (p, insert-append n h.blocks i.below, recent-append k n h.blocks i.sorted i.below)
      (go (leb n k) (recent_change_from_block k h.blocks)
        (recent_change_from_block-IsMostRecent k h.blocks i.sorted))
  where
    go :
        (b : Bool) (o : Option ℕ)
        → IsMostRecent k h.blocks o
        → look h'.value_in (if b then some n else o) ≡ (if b then some v else look h.value_in o)
    go true o m = rw (q n, ==_refl n) refl
    go false none m = refl
    go false (some b) m = rw (q b, member-Below n b h.blocks m.0 i.below) refl

pub Records-then :
    {n : ℕ} {h h' h'' : History} {v : Option ℕ}
    → Records n h h' v
    → Records n h' h'' none
    → Records n h h'' v
Records-then (same p q) (same p' q') = same (p' ∙ p) (λ b. q' b ∙ q b)
Records-then (changed p q) (same p' q') = changed (p' ∙ p) (λ b. q' b ∙ q b)

pub then-Records :
    {n : ℕ} {h h' h'' : History} {v : Option ℕ}
    → Records n h h' none
    → Records n h' h'' v
    → Records n h h'' v
then-Records (same p q) (same p' q') = same (p' ∙ p) (λ b. q' b ∙ q b)
then-Records (same p q) (changed p' q') = changed (p' ∙ ap (insert _) p) (λ b. rw (← q b) (q' b))

-- What holds at every key holds at the keys of a map.
pub all_keys :
    {K : Type 0} {P : K → Type 0} (us : Table K ℕ) → ((k : K) → P k) → All (λ e. P e.0) us
all_keys [] f = tt
all_keys (e ∷ us) f = (f e.0, all_keys us f)

-- A step of a loop that records the values of a map, one key after another.
module _ {S K : Type 0} ⦃o : Key K⦄ (hist : K → S → History) (IsOk : S → Type 0) (n : ℕ)
    (step : K × ℕ → S → S)
    (step-IsOk : (e : K × ℕ) (s : S) → IsOk s → (hist e.0 s).value_in n ≡ none → IsOk (step e s))
    (step-Records : (e : K × ℕ) (s : S)
      → IsOk s
      → (hist e.0 s).value_in n ≡ none
      → Records n (hist e.0 s) (hist e.0 (step e s)) (some e.1))
    (step_other : (e : K × ℕ) (s : S) (k : K)
      → IsOk s
      → (hist e.0 s).value_in n ≡ none
      → o.eq k e.0 ≡ false
      → Records n (hist k s) (hist k (step e s)) none) where
  abbrev IsFree : Table K ℕ → S → Type 0
  IsFree us s = All (λ e. (hist e.0 s).value_in n ≡ none) us

  Records-none :
      (k : K) (s t : S)
      → Records n (hist k s) (hist k t) none
      → (hist k s).value_in n ≡ none
      → (hist k t).value_in n ≡ none
  Records-none k s t (same p q) f = q n ∙ f

  step-IsFree :
      (e : K × ℕ) (us : Table K ℕ) (s : S)
      → IsOk s
      → (hist e.0 s).value_in n ≡ none
      → Above e.0 us
      → IsFree us s
      → IsFree us (step e s)
  step-IsFree e [] s ok f a free = tt
  step-IsFree e (x ∷ us) s ok f a free = (
    Records-none x.0 s (step e s) (step_other e s x.0 ok f (gt-ne e.0 x.0 a.0)) free.0,
    step-IsFree e us s ok f a.1 free.1,
  )

  pub loop-IsOk :
      (us : Table K ℕ) (s : S) → IsAscending us → IsOk s → IsFree us s → IsOk (for_each step us s)
  loop-IsOk [] s a ok free = ok
  loop-IsOk (e ∷ us) s a ok free =
      loop-IsOk us (step e s) a.1 (step-IsOk e s ok free.0)
        (step-IsFree e us s ok free.0 a.0 free.1)

  pub loop-Records :
      (us : Table K ℕ) (s : S) (k : K)
      → IsAscending us
      → IsOk s
      → IsFree us s
      → Records n (hist k s) (hist k (for_each step us s)) (get k us)
  unfolding get
  loop-Records [] s k a ok free = same refl (λ b. refl)
  loop-Records (e ∷ us) s k a ok free =
      let rest =
        loop-Records us (step e s) k a.1 (step-IsOk e s ok free.0)
          (step-IsFree e us s ok free.0 a.0 free.1) in
      elim (Bool-cases (o.eq k e.0)) [
        | inl q ↦
            let p : e.0 ≡ k = sym ((o.eq_iff k e.0).0 q) in
            rw (q, get)
              (Records-then
                (subst (λ x. Records n (hist x s) (hist x (step e s)) (some e.1)) p
                  (step-Records e s ok free.0))
                (subst (Records n (hist k (step e s)) (hist k (for_each step us (step e s))))
                  (subst (λ x. get x us ≡ none) p (get-Above e.0 us a.0)) rest))
        | inr q ↦ rw (q, get) (then-Records (step_other e s k ok free.0 q) rest)
      ]
