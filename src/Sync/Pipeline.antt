-- ===== src/Sync/Pipeline.antt =====
-- The pipeline's loops: crates/sync/pipeline/src/lib.rs, with `StageExecutionInput` of
-- crates/sync/stage/src/lib.rs. A stage is known by its id.
use katana.Base.{
  ℕ, zero, suc, ◌+◌, Bool, true, false, Option, none, some, List, [], ◌∷◌, ◌++◌, leb, if◌then◌else◌,
  min, unwrap_or,
}

pub record StageExecutionInput : Type 0 where
  pub from : ℕ
  pub to : ℕ

pub data PipelineError : Type 0 where
  stage_not_found : ℕ → PipelineError
  stage : ℕ → PipelineError
  provider : ℕ → PipelineError

-- A `PipelineResult`, or a panic.
pub data Outcome (A : Type 0) : Type 0 where
  ok : A → Outcome A
  err : PipelineError → Outcome A
  panicked : Outcome A

pub data Answer (A : Type 0) : Type 0 where
  answer : A → Answer A
  fault : ℕ → Answer A

-- What the pipeline calls, over the state of the stages and of the storage: `StageCheckpointProvider`,
-- and `Stage::execute` of the stage with an id.
pub record Machine : Type 1 where
  pub St : Type 0
  pub checkpoint : ℕ → St → Answer (Option ℕ)
  pub set_checkpoint : ℕ → ℕ → St → Answer (Unit {0}) × St
  pub execute : ℕ → StageExecutionInput → St → Answer (Unit {0}) × St

pub record Pipeline (m : Machine) : Type 0 where
  pub chunk_size : ℕ
  pub stages : List ℕ
  pub current_chunk_tip : ℕ
  pub state : m.St

abbrev pub is_last : List ℕ → Bool
is_last [] = true
is_last (id ∷ ids) = false

module _ (m : Machine) where
  unfoldable pub add_stage : ℕ → Pipeline m → Pipeline m
  add_stage id p = record p { stages = p.stages ++ id ∷ [] }

  unfoldable pub add_stages : List ℕ → Pipeline m → Pipeline m
  add_stages ids p = record p { stages = p.stages ++ ids }

  abbrev pub stored_checkpoint : Answer (Unit {0}) × m.St → Outcome (Option ℕ) × m.St
  stored_checkpoint (fault e, s) = (err (provider e), s)
  stored_checkpoint (answer u, s) = (ok none, s)

  -- Stores the checkpoint of a stage that has run.
  abbrev pub store_checkpoint : ℕ → ℕ → Answer (Unit {0}) × m.St → Outcome (Option ℕ) × m.St
  store_checkpoint id to (fault e, s) = (err (stage e), s)
  store_checkpoint id to (answer u, s) = stored_checkpoint (m.set_checkpoint id to s)

  -- A round of the loop over the stages: `some` is a number that the function returns at once.
  abbrev pub run_checked : ℕ → ℕ → Bool → Answer (Option ℕ) → m.St → Outcome (Option ℕ) × m.St
  run_checked to id last (fault e) s = (err (provider e), s)
  run_checked to id last (answer stored) s =
      let checkpoint = unwrap_or 0 stored in
      if leb to checkpoint
      then (ok (if last then some checkpoint else none), s)
      else store_checkpoint id to (m.execute id (record { from = checkpoint + 1; to = to }) s)

  unfoldable pub run_stage : ℕ → ℕ → Bool → m.St → Outcome (Option ℕ) × m.St
  run_stage to id last s = run_checked to id last (m.checkpoint id s) s

  abbrev pub after_stage : Outcome (Option ℕ) × m.St → (m.St → Outcome ℕ × m.St) → Outcome ℕ × m.St
  after_stage (ok none, s) rest = rest s
  after_stage (ok (some n), s) rest = (ok n, s)
  after_stage (err e, s) rest = (err e, s)
  after_stage (panicked, s) rest = (panicked, s)

  unfoldable pub run_stages : ℕ → List ℕ → m.St → Outcome ℕ × m.St
  unfolding run_stage
  run_stages to [] s = (ok to, s)
  run_stages to (id ∷ ids) s = after_stage (run_stage to id (is_last ids) s) (run_stages to ids)

  -- Without stages, `self.stages.len() - 1` panics.
  unfoldable pub run_once_until : ℕ → List ℕ → m.St → Outcome ℕ × m.St
  unfolding run_stages
  run_once_until to [] s = (panicked, s)
  run_once_until to (id ∷ ids) s = run_stages to (id ∷ ids) s

  abbrev pub after_round :
      ℕ
      → Outcome ℕ × m.St
      → Pipeline m
      → (Pipeline m → Option (Outcome (Unit {0}) × Pipeline m))
      → Option (Outcome (Unit {0}) × Pipeline m)
  after_round tip (err e, s) p next = some (err e, record p { state = s })
  after_round tip (panicked, s) p next = some (panicked, record p { state = s })
  after_round tip (ok last_block_processed, s) p next =
      if leb tip last_block_processed
      then some (ok tt, record p { state = s })
      else next (record p {
        current_chunk_tip = min (last_block_processed + p.chunk_size) tip;
        state = s;
      })

  -- The loop up to a tip, on fuel: `none` when it runs out.
  unfoldable pub run_until : ℕ → ℕ → Pipeline m → Option (Outcome (Unit {0}) × Pipeline m)
  unfolding run_once_until
  run_until zero tip p = none
  run_until (suc fuel) tip p =
      after_round tip (run_once_until (min p.current_chunk_tip tip) p.stages p.state) p
        (run_until fuel tip)

  -- What follows the loop up to a tip; an answer `none` says that the pipeline waits.
  abbrev pub after_tip :
      Option (Outcome (Unit {0}) × Pipeline m)
      → (Pipeline m → Option (Option (Outcome (Unit {0})) × Pipeline m))
      → Option (Option (Outcome (Unit {0})) × Pipeline m)
  after_tip none rest = none
  after_tip (some (ok u, p)) rest = rest p
  after_tip (some (err e, p)) rest = some (some (err e), p)
  after_tip (some (panicked, p)) rest = some (some panicked, p)

  -- The outer loop over the tips that the watcher has seen so far, after which it waits for another: the
  -- watcher's channel is not closed, since the pipeline holds its sender. `none` among the tips is the watcher's first value.
  unfoldable pub run :
      List (Option ℕ) → Pipeline m → Option (Option (Outcome (Unit {0})) × Pipeline m)
  unfolding run_until
  run [] p = some (none, p)
  run (none ∷ tips) p = run tips p
  run (some tip ∷ tips) p = after_tip (run_until (suc tip) tip p) (run tips)

  abbrev pub new : m.St → ℕ → List ℕ → Pipeline m
  new state chunk_size stages = record {
    chunk_size = chunk_size;
    stages = stages;
    current_chunk_tip = chunk_size;
    state = state;
  }
