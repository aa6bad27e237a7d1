-- ===== src/Sync/Tips.antt =====
-- The pipeline's loop over tips: `run` of crates/sync/pipeline/src/lib.rs.
use katana.Base.{
  Bool, ◌≢◌, ◌⊎◌, ◌<◌, ◌+◌, ℕ, zero, suc, ◌≤◌, ◌≡◌, refl, sym, subst, ap, ◌∙◌, true, false, Option,
  none, some, List, [], ◌∷◌, arith, leb, ◌==◌, if◌then◌else◌, min, any, inl, inr, last?, All,
}
use katana.Sync.Pipeline.{
  Outcome, ok, err, panicked, Machine, Pipeline, run_once_until, run_until, after_round, after_tip,
  run,
}
use katana.Sync.Progress.{IsSound, reached, raised, run_once_until-raises}
use katana.Sync.Until.{IsBehind, still_behind, listed_raised, run_until-reaches, run_until-halts}

raised-ge : (to x y : ℕ) → y ≡ raised to x → x ≤ y
raised-ge to x y h = ground arith

-- A tip, if the watcher had one, is reached.
abbrev pub Reached : ℕ → Option ℕ → Type 0
Reached n none = Unit
Reached n (some tip) = tip ≤ n

module _ (m : Machine) (v : IsSound m) (l : ℕ) where
  -- Nothing of what a stage has reached is lost, and the last stage is still the one furthest behind.
  record Goes (p p' : Pipeline m) : Type 0 where
    stages : p'.stages ≡ p.stages
    behind : IsBehind m v l p'
    further :
        (j : ℕ) → any (λ id. id == j) p.stages ≡ true → reached m j p.state ≤ reached m j p'.state

  round-Goes :
      (to n : ℕ) (p p' : Pipeline m)
      → last? p.stages ≡ some l
      → IsBehind m v l p
      → run_once_until m to p.stages p.state ≡ (ok n, p'.state)
      → p'.stages ≡ p.stages
      → Goes p p'
  round-Goes to n p p' last behind h same = record {
    stages = same;
    behind = λ j k.
        let at : n ≡ reached m l p'.state =
          (run_once_until-raises m v to l n p.stages p.state p'.state last h).1 in
        let listed : any (λ id. id == j) p.stages ≡ true =
          subst (λ ids. any (λ id. id == j) ids ≡ true) same k in
        subst (λ x. x ≤ reached m j p'.state) at
          (still_behind m v l to n j p.stages p.state p'.state last listed (behind j listed) h);
    further = λ j k.
        let raises = (run_once_until-raises m v to l n p.stages p.state p'.state last h).0 in
        raised-ge to _ _ (listed_raised to _ _ _ k (raises j));
  }

  Goes-trans : {p q r : Pipeline m} → Goes p q → Goes q r → Goes p r
  Goes-trans a b = record {
    stages = b.stages ∙ a.stages;
    behind = b.behind;
    further = λ j k.
        let x = a.further j k in
        let y = b.further j (subst (λ ids. any (λ id. id == j) ids ≡ true) (sym a.stages) k) in
        omega (arith, x, y);
  }

  abbrev GoodEnd : Pipeline m → Option (Outcome (Unit {0}) × Pipeline m) → Type 0
  GoodEnd p none = Unit
  GoodEnd p (some (ok u, p')) = Goes p p'
  GoodEnd p (some (err e, p')) = Unit
  GoodEnd p (some (panicked, p')) = Unit

  GoodEnd-trans :
      {p q : Pipeline m}
      → Goes p q
      → (o : Option (Outcome (Unit {0}) × Pipeline m)) → GoodEnd q o
      → GoodEnd p o
  GoodEnd-trans a none b = tt
  GoodEnd-trans a (some (ok u, r)) b = Goes-trans a b
  GoodEnd-trans a (some (err e, r)) b = tt
  GoodEnd-trans a (some (panicked, r)) b = tt

  run_until-Goes :
      (fuel tip : ℕ) (p : Pipeline m)
      → last? p.stages ≡ some l
      → IsBehind m v l p
      → GoodEnd p (run_until m fuel tip p)
  unfolding run_until
  run_until-Goes zero tip p last behind = tt
  run_until-Goes (suc fuel) tip p last behind = round _ refl (run_until-Goes fuel tip)
    where
      to : ℕ
      to = min p.current_chunk_tip tip

      round :
          (r : Outcome ℕ × m.St)
          → run_once_until m to p.stages p.state ≡ r
          → ((q : Pipeline m)
              → last? q.stages ≡ some l
              → IsBehind m v l q
              → GoodEnd q (run_until m fuel tip q))
          → GoodEnd p (after_round m tip r p (run_until m fuel tip))
      round (err e, s) h rest = tt
      round (panicked, s) h rest = tt
      round (ok n, s) h rest = on_test (leb tip n)
        where
          next : Pipeline m
          next = record p { current_chunk_tip = min (n + p.chunk_size) tip; state = s }

          on_test :
              (b : Bool)
              → GoodEnd p
                  (if b then some (ok tt, record p { state = s }) else run_until m fuel tip next)
          on_test true = round-Goes to n p (record p { state = s }) last behind h refl
          on_test false =
              let g = round-Goes to n p next last behind h refl in
              GoodEnd-trans g (run_until m fuel tip next) (rest next last g.behind)

  -- After the tips that are still to come, a stage is as far as it was.
  abbrev RunGood :
      List (Option ℕ) → Pipeline m → Option (Option (Outcome (Unit {0})) × Pipeline m) → Type 0
  RunGood tips p none = Unit
  RunGood tips p (some (some o, p')) = o ≢ ok tt
  RunGood tips p (some (none, p')) =
      Goes p p'
      × ((j : ℕ) → any (λ id. id == j) p.stages ≡ true → All (Reached (reached m j p'.state)) tips)

  run-RunGood :
      (tips : List (Option ℕ)) (p : Pipeline m)
      → last? p.stages ≡ some l
      → IsBehind m v l p
      → RunGood tips p (run m tips p)
  unfolding run
  run-RunGood [] p last behind =
      (record { stages = refl; behind = behind; further = λ j k. omega arith }, λ j k. tt)
  run-RunGood (none ∷ tips) p last behind = no_tip (run m tips p) (run-RunGood tips p last behind)
    where
      no_tip :
          (o : Option (Option (Outcome (Unit {0})) × Pipeline m))
          → RunGood tips p o
          → RunGood (none ∷ tips) p o
      no_tip none g = tt
      no_tip (some (some o, q)) g = g
      no_tip (some (none, q)) g = (g.0, λ j k. (tt, g.1 j k))
  run-RunGood (some tip ∷ tips) p last behind =
      after _ refl (run_until-Goes (suc tip) tip p last behind) (run-RunGood tips)
    where
      after :
          (r : Option (Outcome (Unit {0}) × Pipeline m))
          → run_until m (suc tip) tip p ≡ r
          → GoodEnd p r
          → ((q : Pipeline m)
              → last? q.stages ≡ some l
              → IsBehind m v l q
              → RunGood tips q (run m tips q))
          → RunGood (some tip ∷ tips) p (after_tip m r (run m tips))
      after none h g rest = tt
      after (some (err e, q)) h g rest = λ x. cc
      after (some (panicked, q)) h g rest = λ x. cc
      after (some (ok tt, q)) h g rest =
          more (run m tips q) (rest q (ap last? g.stages ∙ last) g.behind)
        where
          more :
              (o : Option (Option (Outcome (Unit {0})) × Pipeline m))
              → RunGood tips q o
              → RunGood (some tip ∷ tips) p o
          more none b = tt
          more (some (some o, r)) b = b
          more (some (none, r)) b = (
            Goes-trans g b.0,
            λ j k.
                let listed = subst (λ ids. any (λ id. id == j) ids ≡ true) (sym g.stages) k in
                let there = run_until-reaches m v l (suc tip) tip p q last behind h j k in
                let kept = b.0.further j listed in (omega (arith, there, kept), b.1 j listed),
          )

  after_tip-total :
      (tips : List (Option ℕ)) (r : Option (Outcome (Unit {0}) × Pipeline m))
      (o : Outcome (Unit {0})) (p : Pipeline m)
      → r ≡ some (o, p)
      → (a : Option (Outcome (Unit {0}))) × (p' : Pipeline m) × (run m tips p ≡ some (a, p'))
      → (a : Option (Outcome (Unit {0}))) × (p' : Pipeline m) × (after_tip m r (run m tips)
          ≡ some (a, p'))
  after_tip-total tips r (ok tt) p e rest = rw e rest
  after_tip-total tips r (err x) p e rest = rw e (_, _, refl)
  after_tip-total tips r panicked p e rest = rw e (_, _, refl)

  run-total :
      (tips : List (Option ℕ)) (p : Pipeline m)
      → 0 < p.chunk_size
      → last? p.stages ≡ some l
      → (a : Option (Outcome (Unit {0}))) × (p' : Pipeline m) × (run m tips p ≡ some (a, p'))
  unfolding run
  run-total [] p pos last = (_, _, refl)
  run-total (none ∷ tips) p pos last = run-total tips p pos last
  run-total (some tip ∷ tips) p pos last =
      let (o, p', e, kept) = run_until-halts m v l (suc tip) tip p pos (omega arith) last in
      after_tip-total tips _ o p' e (run-total tips p' (rw (kept.0) pos) (ap last? kept.1 ∙ last))

  -- With a positive chunk size and at least one stage, of which the last is at first at least as far behind as every
  -- other one, a run over any tips either stops with an error or a panic, or comes to wait for
  -- another tip, and then each of the stages has reached every tip that was seen.
  pub run-reaches :
      (tips : List (Option ℕ)) (p : Pipeline m) (j : ℕ)
      → 0 < p.chunk_size
      → last? p.stages ≡ some l
      → IsBehind m v l p
      → any (λ id. id == j) p.stages ≡ true
      → (p' : Pipeline m) × (((o : Outcome (Unit {0})) × (o ≢ ok tt)
            × (run m tips p ≡ some (some o, p')))
          ⊎ ((run m tips p ≡ some (none, p')) × All (Reached (reached m j p'.state)) tips))
  run-reaches tips p j pos last behind k =
      let (a, p', e) = run-total tips p pos last in
      (p', ended a p' e (subst (RunGood tips p) e (run-RunGood tips p last behind)))
    where
      ended :
          (a : Option (Outcome (Unit {0}))) (p' : Pipeline m)
          → run m tips p ≡ some (a, p')
          → RunGood tips p (some (a, p'))
          → ((o : Outcome (Unit {0})) × (o ≢ ok tt) × (run m tips p ≡ some (some o, p')))
            ⊎ ((run m tips p ≡ some (none, p')) × All (Reached (reached m j p'.state)) tips)
      ended none p' e g = inr (e, g.1 j k)
      ended (some o) p' e g = inl (o, g, e)
