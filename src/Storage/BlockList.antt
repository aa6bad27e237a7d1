-- ===== src/Storage/BlockList.antt =====
-- Sets of block numbers: crates/storage/db/src/models/list.rs, with the most recent change of
-- crates/storage/provider/src/providers/db/state.rs. The bitmap of the crate `roaring` is the list of
-- its members, which its iterator yields in order.
use katana.Base.{
  ℕ, zero, suc, ◌-◌, ◌≤◌, ◌<◌, ◌≡◌, refl, inl, inr, leb→le, true, false, Option, none, some, List,
  [], ◌∷◌, ◌++◌, arith, All, All-append, Bool-cases, if◌then◌else◌, ltb, leb, ◌==◌, length,
  get_elem?, unwrap_or, length-retain-le, retain, any,
}

abbrev pub BlockList : Type 0
BlockList = List ℕ

unfoldable pub insert : ℕ → BlockList → BlockList
insert num [] = num ∷ []
insert num (x ∷ xs) =
    let rest = insert num xs in
    if ltb num x then num ∷ x ∷ xs else if num == x then x ∷ xs else x ∷ rest

-- The number of members that are at most `value`.
unfoldable pub rank : ℕ → BlockList → ℕ
rank value list = length (retain (λ x. leb x value) list)

-- The `n`th member.
abbrev pub select : ℕ → BlockList → Option ℕ
select n list = get_elem? list n

unfoldable pub recent_change_from_block : ℕ → BlockList → Option ℕ
recent_change_from_block block_number block_list =
    let rank = rank block_number block_list in
    if rank == 0 then none else select (rank - 1) block_list

-- The members are in order, each once.
abbrev pub IsSorted : BlockList → Type 0
IsSorted [] = Unit
IsSorted (x ∷ xs) = All (λ y. x < y) xs × IsSorted xs

abbrev pub Below : ℕ → BlockList → Type 0
Below n list = All (λ x. x < n) list

-- A number above all others enters at the end.
pub insert-append : (n : ℕ) (list : BlockList) → Below n list → insert n list ≡ list ++ n ∷ []
unfolding insert
insert-append n [] b = refl
insert-append n (x ∷ xs) b = ground (arith, insert-append n xs b.1, b.0)

pub insert-Below : (n m : ℕ) (list : BlockList) → m < n → Below n list → Below n (insert m list)
unfolding insert
insert-Below n m [] h b = (h, tt)
insert-Below n m (x ∷ xs) h b = ground (arith, insert-Below n m xs h b.1, b.0, b.1)

pub Below-le : (m n : ℕ) (list : BlockList) → m ≤ n → Below m list → Below n list
Below-le m n [] h b = tt
Below-le m n (x ∷ xs) h b = (omega (arith, b.0), Below-le m n xs h b.1)

Above-le : (k x : ℕ) (xs : BlockList) → k ≤ x → All (λ y. x < y) xs → All (λ y. k < y) xs
Above-le k x [] h a = tt
Above-le k x (y ∷ ys) h a = (omega (arith, a.0), Above-le k x ys h a.1)

Above-insert :
    (x n : ℕ) (xs : BlockList) → x < n → All (λ y. x < y) xs → All (λ y. x < y) (insert n xs)
unfolding insert
Above-insert x n [] h a = (h, tt)
Above-insert x n (y ∷ ys) h a = ground (arith, Above-insert x n ys h a.1, a.0, a.1)

pub insert-IsSorted : (n : ℕ) (list : BlockList) → IsSorted list → IsSorted (insert n list)
unfolding insert
insert-IsSorted n [] s = (tt, tt)
insert-IsSorted n (x ∷ xs) s =
    ground (arith, insert-IsSorted n xs s.1, s.0, s.1, Above-insert x n xs, Above-le n x xs)

rank-Above : (k : ℕ) (list : BlockList) → All (λ x. k < x) list → rank k list ≡ 0
unfolding rank
rank-Above k [] a = refl
rank-Above k (x ∷ xs) a = ground (arith, rank-Above k xs a.1, a.0)

rank-suc : (k x : ℕ) (xs : BlockList) → x ≤ k → rank k (x ∷ xs) ≡ suc (rank k xs)
unfolding rank
rank-suc k x xs h = ground arith

rank-le : (k : ℕ) (xs : BlockList) → rank k xs ≤ length xs
unfolding rank
rank-le k xs = length-retain-le (λ y. leb y k) xs

recent-Above :
    (k : ℕ) (list : BlockList) → All (λ x. k < x) list → recent_change_from_block k list ≡ none
unfolding recent_change_from_block
recent-Above k list a = rw (rank-Above k list a) refl

get_elem-lt : (i : ℕ) (l : List ℕ) → i < length l → (m : ℕ) × (get_elem? l i ≡ some m)
get_elem-lt i [] h = absurd (omega arith)
get_elem-lt zero (x ∷ xs) h = (x, refl)
get_elem-lt (suc i) (x ∷ xs) h = get_elem-lt i xs (omega arith)

pick : ℕ → BlockList → Option ℕ
pick zero list = none
pick (suc r) list = get_elem? list r

pick-suc :
    (r x : ℕ) (xs : List ℕ) → r ≤ length xs → pick (suc r) (x ∷ xs) ≡ some (unwrap_or x (pick r xs))
unfolding pick
pick-suc zero x xs h = refl
pick-suc (suc r) x xs h = let m = get_elem-lt r xs (omega arith) in rw m.1 refl

recent-pick : (k : ℕ) (list : BlockList) → recent_change_from_block k list ≡ pick (rank k list) list
unfolding recent_change_from_block pick
recent-pick k list = go (rank k list)
  where
    go : (r : ℕ) → (if r == 0 then none else get_elem? list (r - 1)) ≡ pick r list
    go zero = refl
    go (suc r) = ground arith

-- A member that is at most `k` is the answer if no later member is.
recent-cons :
    (k x : ℕ) (xs : BlockList)
    → x ≤ k
    → recent_change_from_block k (x ∷ xs) ≡ some (unwrap_or x (recent_change_from_block k xs))
recent-cons k x xs h =
    let e : rank k (x ∷ xs) ≡ suc (rank k xs) = rank-suc k x xs h in
    rw (recent-pick k (x ∷ xs), recent-pick k xs, e) (pick-suc (rank k xs) x xs (rank-le k xs))

leb_not : (x k : ℕ) → leb x k ≡ false → k < x
leb_not x k h = ground arith

-- A number entered after all others is the most recent change from its block on.
pub recent-append :
    (k n : ℕ) (list : BlockList)
    → IsSorted list
    → Below n list
    → recent_change_from_block k (list ++ n ∷ [])
      ≡ (if leb n k then some n else recent_change_from_block k list)
recent-append k n [] s b = elim (Bool-cases (leb n k)) [
  | inl e ↦ rw (e, recent-cons k n [] (leb→le n k e), recent-Above k [] tt) refl
  | inr e ↦ rw (e, recent-Above k (n ∷ []) (ground arith, tt), recent-Above k [] tt) refl
]
recent-append k n (x ∷ xs) s b = elim (Bool-cases (leb x k)) [
  | inl e ↦
      let h = leb→le x k e in
      rw (recent-cons k x xs h, recent-cons k x (xs ++ n ∷ []) h, recent-append k n xs s.1 b.1)
        (ground arith)
  | inr e ↦
      let a = Above-le k x xs (ground arith) s.0 in
      let c : All (λ y. k < y) (xs ++ n ∷ []) =
        All-append (λ y. k < y) xs (n ∷ []) a (omega (arith, b.0, leb_not x k e), tt) in
      let f : leb n k ≡ false = ground (arith, b.0, leb_not x k e) in
      rw
        (
          f,
          recent-Above k (x ∷ xs ++ n ∷ []) (leb_not x k e, c),
          recent-Above k (x ∷ xs) (leb_not x k e, a),
        )
        refl
]

-- `o` is the greatest member that is at most `k`, if there is one.
abbrev pub IsMostRecent : ℕ → BlockList → Option ℕ → Type 0
IsMostRecent k list none = All (λ x. k < x) list
IsMostRecent k list (some m) =
    (any (λ x. x == m) list ≡ true) × (m ≤ k) × All (λ x. x ≤ k → x ≤ m) list

member_above :
    (x m : ℕ) (xs : BlockList) → any (λ y. y == m) xs ≡ true → All (λ y. x < y) xs → x ≤ m
member_above x m [] h a = cc
member_above x m (y ∷ ys) h a = ground (arith, member_above x m ys, a.0, a.1)

any-cons :
    (x m : ℕ) (xs : BlockList) → any (λ y. y == m) xs ≡ true → any (λ y. y == m) (x ∷ xs) ≡ true
any-cons x m xs h = ground arith

-- On the members in order
pub recent_change_from_block-IsMostRecent :
    (k : ℕ) (list : BlockList)
    → IsSorted list
    → IsMostRecent k list (recent_change_from_block k list)
recent_change_from_block-IsMostRecent k [] s = rw (recent-Above k [] tt) tt
recent_change_from_block-IsMostRecent k (x ∷ xs) s = elim (Bool-cases (leb x k)) [
  | inl e ↦
      let h = leb→le x k e in
      rw (recent-cons k x xs h) (
        step k x xs h s.0 (recent_change_from_block k xs)
          (recent_change_from_block-IsMostRecent k xs s.1))
  | inr e ↦
      let a = Above-le k x xs (ground arith) s.0 in
      rw (recent-Above k (x ∷ xs) (ground arith, a)) (ground arith, a)
]
  where
    all_small : (k x : ℕ) (xs : BlockList) → All (λ y. k < y) xs → All (λ y. y ≤ k → y ≤ x) xs
    all_small k x [] a = tt
    all_small k x (y ∷ ys) a = (λ h. absurd (omega (arith, a.0)), all_small k x ys a.1)

    step :
        (k x : ℕ) (xs : BlockList)
        → x ≤ k
        → All (λ y. x < y) xs
        → (o : Option ℕ) → IsMostRecent k xs o
        → IsMostRecent k (x ∷ xs) (some (unwrap_or x o))
    step k x xs h a none i = (ground arith, h, ((λ _. omega arith), all_small k x xs i))
    step k x xs h a (some m) i = (any-cons x m xs i.0, i.1, ((λ _. member_above x m xs i.0 a), i.2))
