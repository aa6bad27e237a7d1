-- ===== src/Producer/Instant.antt =====
-- The instant block producer: `InstantBlockProducer` of crates/core/src/service/block_producer.rs. The task
-- that it spawns runs between its polls, in a step of its own.
use katana.Base.{
  ℕ, ◌≡◌, ◌∙◌, refl, ap, not, ◌&&◌, Option, none, some, List, [], ◌∷◌, ◌++◌, if◌then◌else◌, is_some,
}
use katana.Producer.Backend.{
  Backend, BlockProductionError, execution_task_cancelled, ProductionResult, ok, err, panicked,
  ◌>>=◌, unwrap, expect,
}
use katana.Producer.Interval.{
  TaskResult, finished, failed_with, cancelled, task_result, TxWithOutcome, succeeded, flatten,
  is_nil, Polled, waits, mined, fails,
}

module _ (n : Backend) where
  open n use {
    Tx, Env, State, Output, Outcome, Executor, Chain, Validator, take_execution_output,
    latest_number, latest, latest_hash, block_env_at, update_block_env, do_mine_block,
    update_validator, with_state, execute_block, output_transactions,
  }

  -- The queue that a mining task took.
  pub record InstantTask : Type 0 where
    pub transactions : List (List Tx)
    pub result : Option (TaskResult (Outcome × List (TxWithOutcome n)))

  pub record InstantBlockProducer : Type 0 where
    pub chain : Chain
    pub block_mining : Option InstantTask
    pub queued : List (List Tx)
    pub validator : Validator

  -- `InstantBlockProducer::new`, where `expect` panics.
  unfoldable pub new_instant :
      Chain → (State → Env → Validator) → ProductionResult InstantBlockProducer
  new_instant c new_validator = expect (latest_number c) >>= λ latest_num.
      expect (block_env_at c latest_num) >>= λ found. unwrap found >>= λ env.
      let r = update_block_env c env in
      expect (latest c) >>= λ state. ok (record {
        chain = r.1;
        block_mining = none;
        queued = [];
        validator = new_validator state r.0;
      })

  unfoldable pub queue_instant : List Tx → InstantBlockProducer → InstantBlockProducer
  queue_instant txs p = record p { queued = p.queued ++ (txs ∷ []) }

  abbrev MineAnswer : Type 0
  MineAnswer = ProductionResult (Outcome × List (TxWithOutcome n))

  -- The validator is given the latest state and the last block's environment.
  abbrev pub update_after :
      Outcome × List (TxWithOutcome n) → Validator → Chain → MineAnswer × (Validator × Chain)
  update_after answer v c =
      elim (latest c >>= λ state. latest_number c >>= λ latest_num.
      block_env_at c latest_num >>= λ found.
      unwrap found >>= λ env. ok (update_validator v state env)) [
        | ok v' ↦ (ok answer, (v', c))
        | err e ↦ (err e, (v, c))
        | panicked ↦ (panicked, (v, c))
      ]

  abbrev pub on_block :
      List (TxWithOutcome n)
      → Validator
      → ProductionResult Outcome × Chain
      → MineAnswer × (Validator × Chain)
  on_block outcomes v (ok outcome, c) = update_after (outcome, outcomes) v c
  on_block outcomes v (err e, c) = (err e, (v, c))
  on_block outcomes v (panicked, c) = (panicked, (v, c))

  abbrev pub after_output :
      Validator → Chain → Env → ProductionResult Output → MineAnswer × (Validator × Chain)
  after_output v c env (ok output) =
      on_block (succeeded n (output_transactions output)) v (do_mine_block c env output)
  after_output v c env (err e) = (err e, (v, c))
  after_output v c env panicked = (panicked, (v, c))

  abbrev pub after_execution :
      Validator
      → Chain
      → Env
      → ProductionResult (Unit {0}) × Executor
      → MineAnswer × (Validator × Chain)
  after_execution v c env (ok u, e) = after_output v c env (take_execution_output e).0
  after_execution v c env (err x, e) = (err x, (v, c))
  after_execution v c env (panicked, e) = (panicked, (v, c))

  -- What a block is made from: its environment with the backend after it, the parent's hash and the
  -- latest state.
  unfoldable pub block_parts : Chain → ProductionResult ((Env × Chain) × (ℕ × State))
  block_parts c = latest_number c >>= λ latest_num. block_env_at c latest_num >>= λ found.
      unwrap found >>= λ env.
      let r = update_block_env c env in
      latest_hash r.1 >>= λ parent_hash.
      latest r.1 >>= λ latest_state. ok (r, (parent_hash, latest_state))

  abbrev pub on_parts :
      Validator
      → Chain
      → List Tx
      → ProductionResult ((Env × Chain) × (ℕ × State))
      → MineAnswer × (Validator × Chain)
  on_parts v c txs (ok ((env, c'), (parent_hash, latest_state))) =
      after_execution v c' env (execute_block (with_state latest_state) parent_hash env txs)
  on_parts v c txs (err e) = (err e, (v, c))
  on_parts v c txs panicked = (panicked, (v, c))

  -- `do_mine`, under the permit, which is free again when it returns.
  unfoldable pub do_mine_instant :
      Validator → Chain → List (List Tx) → MineAnswer × (Validator × Chain)
  do_mine_instant v c transactions = on_parts v c (flatten transactions) (block_parts c)

  abbrev pub instant_done : InstantTask → InstantBlockProducer → InstantBlockProducer
  instant_done task p =
      let r = do_mine_instant p.validator p.chain task.transactions in
      record p {
        validator = r.1.0;
        chain = r.1.1;
        block_mining = some (record task { result = some (task_result r.0) });
      }

  -- `force_mine` takes the queue and drops the result, an error too.
  abbrev pub forced :
      InstantBlockProducer
      → MineAnswer × (Validator × Chain)
      → ProductionResult InstantBlockProducer
  forced p (ok answer, (v, c)) = ok (record p { queued = []; validator = v; chain = c })
  forced p (err e, (v, c)) = ok (record p { queued = []; validator = v; chain = c })
  forced p (panicked, (v, c)) = panicked

  unfoldable pub force_mine_instant : InstantBlockProducer → ProductionResult InstantBlockProducer
  force_mine_instant p =
      if is_some p.block_mining
      then ok p
      else forced p (do_mine_instant p.validator p.chain p.queued)

  unfoldable pub spawn_mining : InstantBlockProducer → InstantBlockProducer
  spawn_mining p =
      if not (is_nil p.queued) && not (is_some p.block_mining)
      then record p {
        queued = [];
        block_mining = some (record { transactions = p.queued; result = none });
      }
      else p

  abbrev pub on_instant :
      Option (TaskResult (Outcome × List (TxWithOutcome n)))
      → InstantBlockProducer
      → Polled n × InstantBlockProducer
  on_instant none p = (waits, p)
  on_instant (some (finished (outcome, txs))) p = (mined outcome, record p { block_mining = none })
  on_instant (some (failed_with e)) p = (fails e, record p { block_mining = none })
  on_instant (some cancelled) p = (fails execution_task_cancelled, record p { block_mining = none })

  abbrev pub on_instant_task :
      Option InstantTask → InstantBlockProducer → Polled n × InstantBlockProducer
  on_instant_task none p = (waits, p)
  on_instant_task (some task) p = on_instant task.result p

  unfoldable pub poll_instant : InstantBlockProducer → Polled n × InstantBlockProducer
  poll_instant p = let q = spawn_mining p in on_instant_task q.block_mining q

  -- A forced mining that fails has taken the queue: its transactions are in no block and are not tried
  -- again.
  pub force_mine_instant-drops :
      (p : InstantBlockProducer) (e : BlockProductionError)
      → p.block_mining ≡ none
      → (do_mine_instant p.validator p.chain p.queued).0 ≡ err e
      → (q : InstantBlockProducer) × (force_mine_instant p ≡ ok q)
        × (q.queued ≡ [])
        × (q.block_mining ≡ none)
  unfolding force_mine_instant
  force_mine_instant-drops p e free failing =
      let r = do_mine_instant p.validator p.chain p.queued in
      (
        record p { queued = []; validator = r.1.0; chain = r.1.1 },
        ap (λ m. if is_some m then ok p else forced p r) free
            ∙ ap (λ a. forced p (a, (r.1.0, r.1.1))) failing,
        refl,
        free,
      )
