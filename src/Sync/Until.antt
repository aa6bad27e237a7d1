-- ===== src/Sync/Until.antt =====
-- The pipeline's loop up to a tip: `run` of crates/sync/pipeline/src/lib.rs.
use katana.Base.{
  ℕ, zero, suc, ◌+◌, ◌-◌, ◌≤◌, ◌<◌, ◌≡◌, refl, ap, ◌∙◌, Bool, true, false, Option, none, some, List,
  arith, leb, ◌==◌, if◌then◌else◌, min, any, leb→le, inl, inr, Bool-cases, last?,
}
use katana.Sync.Pipeline.{
  Outcome, ok, err, panicked, Machine, Pipeline, run_once_until, run_until, after_round,
}
use katana.Sync.Progress.{IsSound, reached, raised, any-last, run_once_until-raises, returned-ge}

-- Where a round takes the chunk's end, or the round has reached the tip.
next_tip-closer :
    (tip chunk current n fuel : ℕ)
    → 0 < chunk
    → min current tip ≤ n
    → leb tip n ≡ false
    → tip - current < suc fuel
    → tip - min (n + chunk) tip < fuel
next_tip-closer tip chunk current n fuel pos ge l lt = ground arith

raised_mono : (to x y : ℕ) → x ≤ y → raised to x ≤ raised to y
raised_mono to x y h = ground arith

pub listed_raised :
    (to x y : ℕ) (b : Bool) → b ≡ true → y ≡ (if b then raised to x else x) → y ≡ raised to x
listed_raised to x y true e h = h
listed_raised to x y false e h = cc

abbrev pub Kept : (m : Machine) → Pipeline m → Pipeline m → Type 0
Kept m p p' = (p'.chunk_size ≡ p.chunk_size) × (p'.stages ≡ p.stages)

module _ (m : Machine) (v : IsSound m) (l : ℕ) where
  round-halts :
      (fuel tip : ℕ) (p : Pipeline m) (r : Outcome ℕ × m.St)
      → 0 < p.chunk_size
      → tip - p.current_chunk_tip < suc fuel
      → last? p.stages ≡ some l
      → run_once_until m (min p.current_chunk_tip tip) p.stages p.state ≡ r
      → ((p' : Pipeline m)
          → p'.chunk_size ≡ p.chunk_size
          → tip - p'.current_chunk_tip < fuel
          → p'.stages ≡ p.stages
          → (o : Outcome (Unit {0})) × (p'' : Pipeline m) × (run_until m fuel tip p'
              ≡ some (o, p''))
            × Kept m p' p'')
      → (o : Outcome (Unit {0})) × (p'' : Pipeline m) × (after_round m tip r p
            (run_until m fuel tip)
          ≡ some (o, p''))
        × Kept m p p''
  round-halts fuel tip p (err e, s) pos lt last h next = (_, _, refl, (refl, refl))
  round-halts fuel tip p (panicked, s) pos lt last h next = (_, _, refl, (refl, refl))
  round-halts fuel tip p (ok n, s) pos lt last h next = elim (Bool-cases (leb tip n)) [
    | inl e ↦ rw e (_, _, refl, (refl, refl))
    | inr e ↦ rw e (
        next _ refl
          (next_tip-closer tip p.chunk_size p.current_chunk_tip n fuel pos
            (returned-ge m v _ l n p.stages p.state s last h) e lt)
          refl)
  ]

  -- With a positive chunk size and at least one stage, the loop up to a tip ends: more rounds than there are
  -- blocks between the chunk's end and the tip are never run. The chunk size and the stages stay.
  pub run_until-halts :
      (fuel tip : ℕ) (p : Pipeline m)
      → 0 < p.chunk_size
      → tip - p.current_chunk_tip < fuel
      → last? p.stages ≡ some l
      → (o : Outcome (Unit {0})) × (p' : Pipeline m) × (run_until m fuel tip p ≡ some (o, p'))
        × Kept m p p'
  unfolding run_until
  run_until-halts zero tip p pos lt last = absurd (omega arith)
  run_until-halts (suc fuel) tip p pos lt last =
      round-halts fuel tip p _ pos lt last refl (λ p' c t k.
        let (o, p'', e, kept) = run_until-halts fuel tip p' (rw c pos) t (ap last? k ∙ last) in
        (o, p'', e, kept))

  -- The last stage is the one that is furthest behind.
  abbrev pub IsBehind : Pipeline m → Type 0
  IsBehind p =
      (j : ℕ) → any (λ id. id == j) p.stages ≡ true → reached m l p.state ≤ reached m j p.state

  -- Of two stages of the list, the one behind is still behind after a round.
  pub still_behind :
      (to n j : ℕ) (ids : List ℕ) (s s' : m.St)
      → last? ids ≡ some l
      → any (λ id. id == j) ids ≡ true
      → reached m l s ≤ reached m j s
      → run_once_until m to ids s ≡ (ok n, s')
      → n ≤ reached m j s'
  still_behind to n j ids s s' last k le h =
      let (raises, returned) = run_once_until-raises m v to l n ids s s' last h in
      let own : reached m l s' ≡ raised to (reached m l s) =
        listed_raised to _ _ _ (any-last ids l last) (raises l) in
      let other : reached m j s' ≡ raised to (reached m j s) =
        listed_raised to _ _ _ k (raises j) in
      rw (returned, own, other) (raised_mono to (reached m l s) (reached m j s) le)

  round-reaches :
      (fuel tip : ℕ) (p p' : Pipeline m) (r : Outcome ℕ × m.St)
      → last? p.stages ≡ some l
      → IsBehind p
      → run_once_until m (min p.current_chunk_tip tip) p.stages p.state ≡ r
      → ((q : Pipeline m)
          → q.stages ≡ p.stages
          → IsBehind q
          → run_until m fuel tip q ≡ some (ok tt, p')
          → (j : ℕ) → any (λ id. id == j) p.stages ≡ true
          → tip ≤ reached m j p'.state)
      → after_round m tip r p (run_until m fuel tip) ≡ some (ok tt, p')
      → (j : ℕ) → any (λ id. id == j) p.stages ≡ true
      → tip ≤ reached m j p'.state
  round-reaches fuel tip p p' (err e, s) last behind h next done j k = cc
  round-reaches fuel tip p p' (panicked, s) last behind h next done j k = cc
  round-reaches fuel tip p p' (ok n, s) last behind h next done j k =
      elim (Bool-cases (leb tip n)) [
        | inl e ↦
            let d : some (ok tt, record p { state = s }) ≡ some (ok tt, p') = (rw e at done) in
            let q : s ≡ p'.state = ap state_of d in
            let le : n ≤ reached m j s =
              still_behind _ n j p.stages p.state s last k (behind j k) h in
            rw (← q) (omega (arith, leb→le tip n e))
        | inr e ↦
            next _ refl
              (λ i q.
                let r : n ≡ reached m l s =
                  (run_once_until-raises m v _ l n p.stages p.state s last h).1 in
                rw (← r) (still_behind _ n i p.stages p.state s last q (behind i q) h))
              (rw e at done) j k
      ]
    where
      state_of : Option (Outcome (Unit {0}) × Pipeline m) → m.St
      state_of none = s
      state_of (some r) = r.1.state

  -- If the loop up to a tip succeeds, and the last stage was at least as far behind as every other
  -- one, every stage has reached the tip.
  pub run_until-reaches :
      (fuel tip : ℕ) (p p' : Pipeline m)
      → last? p.stages ≡ some l
      → IsBehind p
      → run_until m fuel tip p ≡ some (ok tt, p')
      → (j : ℕ) → any (λ id. id == j) p.stages ≡ true
      → tip ≤ reached m j p'.state
  unfolding run_until
  run_until-reaches zero tip p p' last behind h j k = cc
  run_until-reaches (suc fuel) tip p p' last behind h j k =
      round-reaches fuel tip p p' _ last behind refl
        (λ q e b d i a. run_until-reaches fuel tip q p' (ap last? e ∙ last) b d i (rw e a)) h j k

  -- The loop stops after its first round if the last stage has already reached the tip: a stage that is behind
  -- it gets no further than the end of the first chunk.
  pub run_until-stops_early :
      (fuel tip n j : ℕ) (p : Pipeline m) (s : m.St)
      → last? p.stages ≡ some l
      → tip ≤ reached m l p.state
      → any (λ id. id == j) p.stages ≡ true
      → run_once_until m (min p.current_chunk_tip tip) p.stages p.state ≡ (ok n, s)
      → (run_until m (suc fuel) tip p ≡ some (ok tt, record p { state = s }))
        × (reached m j s ≡ raised (min p.current_chunk_tip tip) (reached m j p.state))
  unfolding run_until
  run_until-stops_early fuel tip n j p s last ahead k h =
      let (raises, returned) = run_once_until-raises m v _ l n p.stages p.state s last h in
      let own : reached m l s ≡ raised (min p.current_chunk_tip tip) (reached m l p.state) =
        listed_raised (min p.current_chunk_tip tip) (reached m l p.state) _ _
          (any-last p.stages l last) (raises l) in
      let e : leb tip n ≡ true = ground (arith, returned, own) in
      (
        rw (h, after_round, e) refl,
        listed_raised (min p.current_chunk_tip tip) (reached m j p.state) _ _ k (raises j),
      )
