-- ===== src/Sync/Tests.antt =====
-- Runs of the pipeline, and instances of its theorems.
use katana.Base.{
  All, ◌⊎◌, ℕ, ◌≤◌, ◌≡◌, ◌≢◌, refl, sym, ap, ◌∙◌, Option, none, some, [], ◌∷◌, arith, ◌==◌,
  if◌then◌else◌, any,
}
use katana.Sync.Pipeline.{
  Outcome, ok, answer, Machine, Pipeline, run_stage, run_stages, run_once_until, run_until, run,
  new,
}
use katana.Sync.Progress.{IsSound, reached, raised, run_once_until-raises}
use katana.Sync.Tips.{Reached, run-reaches}
use katana.Sync.Until.{Kept, run_until-halts, run_until-reaches, run_until-stops_early}

-- Checkpoints as a function of the stage.
abbrev store : ℕ → ℕ → (ℕ → Option ℕ) → ℕ → Option ℕ
store id n f j = if id == j then some n else f j

abbrev machine : Machine
machine = record {
  St = ℕ → Option ℕ;
  checkpoint = λ id f. answer (f id);
  set_checkpoint = λ id n f. (answer tt, store id n f);
  execute = λ id input f. (answer tt, f);
}

machine-IsSound : IsSound machine
machine-IsSound = record {
  stored = λ id n s s' h. ap answer (ap (λ p. p.1 id) (sym h) ∙ store_own id n s);
  others = λ id j n s s' ne h. ap answer (ap (λ p. p.1 j) (sym h) ∙ store_other id j n s ne);
  executed = λ id j input s s' h. ap answer (ap (λ p. p.1 j) (sym h));
}
  where
    store_own : (id n : ℕ) (f : ℕ → Option ℕ) → store id n f id ≡ some n
    store_own id n f = ground arith

    store_other : (id j n : ℕ) (f : ℕ → Option ℕ) → id ≢ j → store id n f j ≡ f j
    store_other id j n f ne = ground (arith, ne)

abbrev nothing_stored : ℕ → Option ℕ
nothing_stored id = none

abbrev two_stages : Pipeline machine
two_stages = new machine nothing_stored 10 (0 ∷ 1 ∷ [])

abbrev at_ten : ℕ → Option ℕ
at_ten = store 1 10 (store 0 10 nothing_stored)

runs_to_ten : run_once_until machine 10 (0 ∷ 1 ∷ []) nothing_stored ≡ (ok 10, at_ten)
unfolding run_once_until run_stages run_stage
runs_to_ten = refl

run_once_until-raises_example :
    ((j : ℕ)
      → reached machine j at_ten ≡ (
          if any (λ id. id == j) (0 ∷ 1 ∷ [])
          then raised 10 (reached machine j nothing_stored)
          else reached machine j nothing_stored))
    × (10 ≡ reached machine 1 at_ten)
run_once_until-raises_example =
    run_once_until-raises machine machine-IsSound 10 1 10 (0 ∷ 1 ∷ []) nothing_stored at_ten refl
      runs_to_ten

run_until-halts_example :
    (o : Outcome (Unit {0})) × (p : Pipeline machine) × (run_until machine 16 25 two_stages
      ≡ some (o, p))
    × Kept machine two_stages p
run_until-halts_example =
    run_until-halts machine machine-IsSound 1 16 25 two_stages (omega arith) (omega arith) refl

abbrev synced : Pipeline machine
synced = record two_stages { current_chunk_tip = 10; state = at_ten }

syncs : run_until machine 3 10 two_stages ≡ some (ok tt, synced)
unfolding run_until run_once_until run_stages run_stage
syncs = refl

run_until-reaches_example : 10 ≤ reached machine 0 synced.state
run_until-reaches_example =
    run_until-reaches machine machine-IsSound 1 3 10 two_stages synced refl (λ j k. omega arith)
      syncs 0 refl

-- The second stage is at block 50, the first one has not started.
abbrev ahead : Pipeline machine
ahead = record two_stages { state = store 1 50 nothing_stored }

abbrev after_first : ℕ → Option ℕ
after_first = store 0 10 (store 1 50 nothing_stored)

runs_ahead :
    run_once_until machine 10 (0 ∷ 1 ∷ []) (store 1 50 nothing_stored) ≡ (ok 50, after_first)
unfolding run_once_until run_stages run_stage
runs_ahead = refl

run_until-stops_early_example :
    (run_until machine 31 40 ahead ≡ some (ok tt, record ahead { state = after_first }))
    × (reached machine 0 after_first ≡ raised 10 (reached machine 0 (store 1 50 nothing_stored)))
run_until-stops_early_example =
    run_until-stops_early machine machine-IsSound 1 30 40 50 0 ahead after_first refl (omega arith)
      refl runs_ahead

run-reaches_example :
    (p' : Pipeline machine) × (((o : Outcome (Unit {0})) × (o ≢ ok tt)
        × (run machine (none ∷ some 25 ∷ some 40 ∷ []) two_stages ≡ some (some o, p')))
      ⊎ ((run machine (none ∷ some 25 ∷ some 40 ∷ []) two_stages ≡ some (none, p'))
          × All (Reached (reached machine 0 p'.state)) (none ∷ some 25 ∷ some 40 ∷ [])))
run-reaches_example =
    run-reaches machine machine-IsSound 1 (none ∷ some 25 ∷ some 40 ∷ []) two_stages 0 (omega arith)
      refl (λ j k. omega arith) refl
