-- ===== src/Producer/Interval.antt =====
-- The interval block producer: `IntervalBlockProducer` of crates/core/src/service/block_producer.rs. The
-- two tasks that it spawns run between its polls; each has a step of its own here.
use katana.Base.{
  ℕ, zero, suc, ◌+◌, ◌-◌, Bool, true, false, not, ◌&&◌, ◌||◌, Option, none, some, List, [], ◌∷◌,
  ◌++◌, length, drop, ◌==◌, if◌then◌else◌, is_some,
}
use katana.Producer.Backend.{
  Backend, BlockProductionError, execution_task_cancelled, ProductionResult, ok, err, panicked,
  ◌>>=◌, unwrap, expect, ExecutionResult, success, failed,
}

abbrev pub flatten : {A : Type 0} → List (List A) → List A
flatten [] = []
flatten (xs ∷ xss) = xs ++ flatten xss

abbrev pub set_at : {A : Type 0} → (ℕ → A) → ℕ → A → ℕ → A
set_at f i a j = if j == i then a else f j

abbrev pub is_nil : {A : Type 0} → List A → Bool
is_nil [] = true
is_nil (x ∷ xs) = false

-- What a spawned task gives: its result, or that it was cancelled or panicked.
pub data TaskResult (A : Type 0) : Type 0 where
  finished : A → TaskResult A
  failed_with : BlockProductionError → TaskResult A
  cancelled : TaskResult A

abbrev pub task_result : {A : Type 0} → ProductionResult A → TaskResult A
task_result (ok a) = finished a
task_result (err e) = failed_with e
task_result panicked = cancelled

module _ (n : Backend) where
  open n use {
    Tx, Env, State, Outcome, Executor, Chain, Validator, execute_transactions,
    take_execution_output, transactions, block_env, state, with_state_and_block_env, latest_number,
    latest, block_env_at, update_block_env, do_mine_block, update_validator,
  }

  pub record TxWithOutcome : Type 0 where
    pub tx : Tx
    pub receipt : ℕ

  -- The executor of a task is the one that `PendingExecutor` shared when the task was spawned.
  pub record ExecutionTask : Type 0 where
    pub on : ℕ
    pub txs : List Tx
    pub result : Option (TaskResult (List TxWithOutcome × Option (List Tx)))

  pub record MiningTask : Type 0 where
    pub on : ℕ
    pub result : Option (TaskResult Outcome)

  -- `executors` are the ones that were created so far, `created` of them; `executor` is the shared one. `permit` says
  -- whether the lock is held. A timer is its period.
  pub record IntervalBlockProducer : Type 0 where
    pub block_time : Option ℕ
    pub chain : Chain
    pub executors : ℕ → Executor
    pub created : ℕ
    pub executor : ℕ
    pub queued : List (List Tx)
    pub ongoing_mining : Option MiningTask
    pub ongoing_execution : Option ExecutionTask
    pub permit : Bool
    pub validator : Validator
    pub timer : Option ℕ
    pub is_block_full : Bool

  abbrev pub Producer : Type 0
  Producer = IntervalBlockProducer

  -- `create_new_executor_for_next_block`: the executor, and the backend after `update_block_env`.
  unfoldable pub create_new_executor_for_next_block : Chain → ProductionResult (Executor × Chain)
  create_new_executor_for_next_block c = latest_number c >>= λ latest_num.
      latest c >>= λ updated_state. block_env_at c latest_num >>= λ found. unwrap found >>= λ env.
      let r = update_block_env c env in ok (with_state_and_block_env updated_state r.0, r.1)

  -- `IntervalBlockProducer::new`, where the provider answers.
  unfoldable pub new : Chain → Option ℕ → (State → Env → Validator) → ProductionResult Producer
  unfolding create_new_executor_for_next_block
  new c block_time new_validator = latest_number c >>= λ latest_num.
      block_env_at c latest_num >>= λ found. unwrap found >>= λ env. latest c >>= λ latest_state.
      let r = update_block_env c env in
      let e = with_state_and_block_env latest_state r.0 in
      ok (record {
        block_time = block_time;
        chain = r.1;
        executors = λ i. e;
        created = 1;
        executor = 0;
        queued = [];
        ongoing_mining = none;
        ongoing_execution = none;
        permit = false;
        validator = new_validator (state e) r.0;
        timer = none;
        is_block_full = false;
      })

  -- `BlockProducer::queue`.
  unfoldable pub queue : List Tx → Producer → Producer
  queue txs p = record p { queued = p.queued ++ (txs ∷ []) }

  -- The outcomes of the transactions that were executed last.
  abbrev pub succeeded : List (Tx × ExecutionResult) → List TxWithOutcome
  succeeded [] = []
  succeeded ((tx, failed) ∷ rs) = succeeded rs
  succeeded ((tx, success receipt) ∷ rs) = record { tx = tx; receipt = receipt } ∷ succeeded rs

  -- `split_off`, if the block is full.
  abbrev pub leftovers : Bool → ℕ → List Tx → Option (List Tx)
  leftovers false count txs = none
  leftovers true count txs = some (drop count txs)

  abbrev pub execution_results :
      List Tx
      → ProductionResult (ℕ × Bool) × Executor
      → ProductionResult (List TxWithOutcome × Option (List Tx)) × Executor
  execution_results txs (ok (total_executed, is_full), e) = (
    ok (
      succeeded (drop (length (transactions e) - total_executed) (transactions e)),
      leftovers is_full total_executed txs,
    ),
    e,
  )
  execution_results txs (err e', e) = (err e', e)
  execution_results txs (panicked, e) = (panicked, e)

  -- `execute_transactions`.
  unfoldable pub run_transactions :
      Executor → List Tx → ProductionResult (List TxWithOutcome × Option (List Tx)) × Executor
  run_transactions e txs = execution_results txs (execute_transactions e txs)

  abbrev pub mine_output :
      Chain
      → Env
      → ProductionResult n.Output × Executor
      → ProductionResult Outcome × (Executor × Chain)
  mine_output c env (ok output, e) = let r = do_mine_block c env output in (r.0, (e, r.1))
  mine_output c env (err e', e) = (err e', (e, c))
  mine_output c env (panicked, e) = (panicked, (e, c))

  -- `do_mine`, once it holds the permit.
  unfoldable pub do_mine : Executor → Chain → ProductionResult Outcome × (Executor × Chain)
  do_mine e c = mine_output c (block_env e) (take_execution_output e)

  -- The step of the spawned execution, where it has not run.
  abbrev pub execution_done : ExecutionTask → Producer → Producer
  execution_done task p =
      let r = run_transactions (p.executors task.on) task.txs in
      record p {
        executors = set_at p.executors task.on r.1;
        ongoing_execution = some (record task { result = some (task_result r.0) });
      }

  unfoldable pub run_execution : Producer → Option Producer
  run_execution p = elim p.ongoing_execution [
    | none ↦ none
    | some task ↦ elim task.result [ none ↦ some (execution_done task p) | some r ↦ none ]
  ]

  -- The step of the spawned mining, which waits for the permit and keeps it.
  abbrev pub mining_done : MiningTask → Producer → Producer
  mining_done task p =
      let r = do_mine (p.executors task.on) p.chain in
      record p {
        executors = set_at p.executors task.on r.1.0;
        chain = r.1.1;
        permit = true;
        ongoing_mining = some (record task { result = some (task_result r.0) });
      }

  abbrev pub mine_free : Bool → MiningTask → Producer → Option Producer
  mine_free true task p = none
  mine_free false task p = some (mining_done task p)

  abbrev pub mine_unrun : Option (TaskResult Outcome) → MiningTask → Producer → Option Producer
  mine_unrun none task p = mine_free p.permit task p
  mine_unrun (some r) task p = none

  abbrev pub mine_task : Option MiningTask → Producer → Option Producer
  mine_task none p = none
  mine_task (some task) p = mine_unrun task.result task p

  unfoldable pub run_mining : Producer → Option Producer
  run_mining p = mine_task p.ongoing_mining p

  -- The validator gets the state of the new executor and the environment of the last block.
  abbrev pub updated_validator : Executor → Chain → Validator → ProductionResult Validator
  updated_validator e c v = latest_number c >>= λ num. expect (block_env_at c num) >>= λ found.
      unwrap found >>= λ env. ok (update_validator v (state e) env)

  abbrev pub with_executor : Executor → Chain → Producer → Producer
  with_executor e c p = record p {
    executors = set_at p.executors p.created e;
    created = p.created + 1;
    executor = p.created;
    chain = c;
  }

  -- The next executor after a forced mining; an error there is a panic of `unwrap` or `expect`.
  abbrev pub force_validated :
      Executor → Chain → Producer → ProductionResult Validator → ProductionResult Producer
  force_validated e c p (ok v) = ok (record (with_executor e c p) { validator = v; permit = false })
  force_validated e c p (err e') = panicked
  force_validated e c p panicked = panicked

  abbrev pub force_created :
      Producer → ProductionResult (Executor × Chain) → ProductionResult Producer
  force_created p (ok (e, c)) = force_validated e c p (updated_validator e c p.validator)
  force_created p (err e) = panicked
  force_created p panicked = panicked

  -- `force_mine`. It waits for ever where the permit is held, which is `none`; an error is logged, and
  -- nothing else is done, so the permit stays held.
  abbrev pub after_force : ProductionResult Outcome → Producer → ProductionResult Producer
  after_force (err e) p = ok p
  after_force panicked p = panicked
  after_force (ok outcome) p = force_created p (create_new_executor_for_next_block p.chain)

  unfoldable pub force_mine : Producer → Option (ProductionResult Producer)
  force_mine p = elim p.permit [
    | true ↦ none
    | false ↦
        let r = do_mine (p.executors p.executor) p.chain in
        some (
          after_force r.0 (record p {
            executors = set_at p.executors p.executor r.1.0;
            chain = r.1.1;
            permit = true;
          }))
  ]

  -- A poll, in its parts. Whether the timer has ticked is an argument.
  abbrev pub close_block : Producer → Producer
  close_block p = record p {
    ongoing_mining = some (record { on = p.executor; result = none });
    is_block_full = false;
    timer = none;
  }

  unfoldable pub start_mining : Bool → Producer → Producer
  start_mining tick p = elim p.timer [
    | some period ↦
        if (tick || p.is_block_full) && not (is_some p.ongoing_mining) then close_block p else p
    | none ↦ if p.is_block_full && not (is_some p.ongoing_mining) then close_block p else p
  ]

  abbrev pub started_timer : Option ℕ → Option ℕ → Option ℕ
  started_timer none block_time = block_time
  started_timer (some period) block_time = some period

  unfoldable pub start_execution : Producer → Producer
  start_execution p =
      if not (is_nil p.queued)
        && not (is_some p.ongoing_execution)
        && not (is_some p.ongoing_mining)
      then record p {
        queued = [];
        ongoing_execution =
            some (record { on = p.executor; txs = flatten p.queued; result = none });
        timer = started_timer p.timer p.block_time;
      }
      else p

  -- What a round of the loop over executions decides: to go on, to leave the loop, or to return.
  pub data Round : Type 0 where
    again leave : Round
    return_error : BlockProductionError → Round

  abbrev pub on_executed :
      TaskResult (List TxWithOutcome × Option (List Tx)) → Producer → Round × Producer
  on_executed (finished (txs, none)) p = (again, p)
  on_executed (finished (txs, some rest)) p =
      (leave, record p { is_block_full = true; queued = rest ∷ p.queued })
  on_executed (failed_with e) p = (return_error e, p)
  on_executed cancelled p = (return_error execution_task_cancelled, p)

  abbrev pub on_result :
      Option (TaskResult (List TxWithOutcome × Option (List Tx))) → Producer → Round × Producer
  on_result none p = (leave, p)
  on_result (some r) p = on_executed r (record p { ongoing_execution = none })

  abbrev pub on_task : Option ExecutionTask → Producer → Round × Producer
  on_task none p = (leave, p)
  on_task (some task) p = on_result task.result p

  unfoldable pub poll_execution : Producer → Round × Producer
  poll_execution p = on_task p.ongoing_execution p

  abbrev pub next_round :
      (Producer → Option (Round × Producer)) → Round × Producer → Option (Round × Producer)
  next_round rest (again, p) = rest p
  next_round rest (leave, p) = some (leave, p)
  next_round rest (return_error e, p) = some (return_error e, p)

  -- The loop, on fuel.
  unfoldable pub execution_loop : ℕ → Producer → Option (Round × Producer)
  execution_loop zero p = none
  execution_loop (suc rounds) p =
      next_round (execution_loop rounds) (poll_execution (start_execution p))

  -- What a poll answers.
  pub data Polled : Type 0 where
    waits dies : Polled
    mined : Outcome → Polled
    fails : BlockProductionError → Polled

  -- The outcome of a mining, which may be an error, is returned once the next executor is in place.
  abbrev pub with_validator :
      Polled → Executor → Chain → Producer → ProductionResult Validator → Polled × Producer
  with_validator outcome e c p (ok v) = (
    outcome,
    record (with_executor e c p) { validator = v; permit = false; is_block_full = false },
  )
  with_validator outcome e c p (err e') = (fails e', record p { chain = c })
  with_validator outcome e c p panicked = (dies, record p { chain = c })

  abbrev pub on_created :
      Polled → Producer → ProductionResult (Executor × Chain) → Polled × Producer
  on_created outcome p (ok (e, c)) =
      with_validator outcome e c p (updated_validator e c p.validator)
  on_created outcome p (err e) = (fails e, p)
  on_created outcome p panicked = (dies, p)

  abbrev pub next_block : Polled → Producer → Polled × Producer
  next_block outcome p = on_created outcome p (create_new_executor_for_next_block p.chain)

  abbrev pub on_mined : TaskResult Outcome → Producer → Polled × Producer
  on_mined (finished outcome) p = next_block (mined outcome) p
  on_mined (failed_with e) p = next_block (fails e) p
  on_mined cancelled p = (fails execution_task_cancelled, p)

  abbrev pub on_mining_result : Option (TaskResult Outcome) → Producer → Polled × Producer
  on_mining_result none p = (waits, p)
  on_mining_result (some r) p = on_mined r (record p { ongoing_mining = none })

  abbrev pub on_mining : Option MiningTask → Producer → Polled × Producer
  on_mining none p = (waits, p)
  on_mining (some task) p = on_mining_result task.result p

  unfoldable pub poll_mining : Producer → Polled × Producer
  poll_mining p = on_mining p.ongoing_mining p

  abbrev pub after_loop : Option (Round × Producer) → Option (Polled × Producer)
  after_loop none = none
  after_loop (some (again, p)) = some (poll_mining p)
  after_loop (some (leave, p)) = some (poll_mining p)
  after_loop (some (return_error e, p)) = some (fails e, p)

  -- Two rounds are enough: a task that a round spawns has not run in the next one.
  unfoldable pub poll_interval : Bool → Producer → Option (Polled × Producer)
  poll_interval tick p = after_loop (execution_loop 2 (start_mining tick p))
