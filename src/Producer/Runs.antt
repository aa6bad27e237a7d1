-- ===== src/Producer/Runs.antt =====
-- Runs of the interval block producer: crates/core/src/service/block_producer.rs.
use katana.Base.{
  ℕ, ◌≡◌, ◌∙◌, refl, subst, sym, ap, Bool, true, false, Option, none, some, List, [], ◌++◌, map,
  arith,
}
use katana.Producer.Backend.{
  Backend, IsExecutor, executed_txs, block_txs, ok, err, panicked, ProductionResult, ok-first,
  unwrap,
}
use katana.Storage.Table.Contents.{none-some}
use katana.Producer.Interval.{
  Producer, ExecutionTask, MiningTask, TxWithOutcome, new, queue, run_transactions, execution_done,
  mining_done, poll_interval, Polled, waits, mined, fails, dies, force_mine,
}
use katana.Producer.Held.{Holds, held, queue-Holds}
use katana.Producer.Tasks.{execution_done-Holds, mining_done-Holds}
use katana.Producer.Forced.{Mines, do_mine-Mines, GoodForce, force_mine-Holds}
use katana.Producer.Polls.{poll_interval-Holds, GoodPoll, GoodAnswer}

module _ (n : Backend) where
  open n use {Tx, Env, State, Executor, Output, Outcome, Chain, Validator}

  -- The producer waits, or returns a mined block.
  abbrev pub Succeeds : Polled n → Type 0
  Succeeds waits = Unit
  Succeeds (mined o) = Unit
  Succeeds (fails e) = ⊥
  Succeeds dies = ⊥

  -- The steps of a producer whose tasks, polls and forced minings succeed, in any order, if its timer does not tick during an
  -- execution and a forced mining finds no task going on: what was queued, what the outputs had that blocks were
  -- made of, and the producer.
  pub data Runs (start : Producer n) : List Tx → List Tx → Producer n → Type 0 where
    starts : Runs start [] [] start
    queues :
        {submitted closed : List Tx} {p : Producer n}
        → Runs start submitted closed p
        → (txs : List Tx) → Runs start (submitted ++ txs) closed (queue n txs p)
    executes :
        {submitted closed : List Tx} {p : Producer n}
        → Runs start submitted closed p
        → (task : ExecutionTask n) (outs : List (TxWithOutcome n)) (rest : Option (List Tx))
          (e' : Executor)
        → p.ongoing_execution ≡ some task
        → task.result ≡ none
        → run_transactions n (p.executors task.on) task.txs ≡ (ok (outs, rest), e')
        → Runs start submitted closed (execution_done n task p)
    mines :
        {submitted closed : List Tx} {p : Producer n}
        → Runs start submitted closed p
        → (task : MiningTask n) (output : Output) (outcome : Outcome) → p.ongoing_mining ≡ some task
        → task.result ≡ none
        → p.permit ≡ false
        → Mines n (p.executors task.on) p.chain output outcome
        → Runs start submitted (closed ++ block_txs n output) (mining_done n task p)
    forces :
        {submitted closed : List Tx} {p : Producer n}
        → Runs start submitted closed p
        → (output : Output) (outcome : Outcome) (q : Producer n) → p.ongoing_execution ≡ none
        → p.ongoing_mining ≡ none
        → Mines n (p.executors p.executor) p.chain output outcome
        → force_mine n p ≡ some (ok q)
        → Runs start submitted (closed ++ block_txs n output) q
    polls :
        {submitted closed : List Tx} {p : Producer n}
        → Runs start submitted closed p
        → (tick : Bool) (answer : Polled n) (q : Producer n)
        → (tick ≡ true → p.ongoing_execution ≡ none)
        → poll_interval n tick p ≡ some (answer, q)
        → Succeeds answer
        → Runs start submitted closed q

  module _ (lawful : IsExecutor n) where
    answered :
        (submitted closed : List Tx) (answer : Polled n) (q : Producer n)
        → Succeeds answer
        → GoodPoll n lawful submitted closed (answer, q)
        → Holds n submitted closed q
    answered submitted closed waits q s g = g
    answered submitted closed (mined o) q s g = g
    answered submitted closed (fails e) q s g = absurd s
    answered submitted closed dies q s g = absurd s

    Runs-Holds :
        {start p : Producer n} {submitted closed : List Tx}
        → Holds n [] [] start
        → Runs start submitted closed p
        → Holds n submitted closed p
    Runs-Holds h starts = h
    Runs-Holds h (queues {submitted} {closed} {p} r txs) =
        queue-Holds n submitted closed txs p (Runs-Holds h r)
    Runs-Holds h (executes {submitted} {closed} {p} r task outs rest e' o y x) =
        execution_done-Holds n lawful submitted closed p task outs rest e' o y x (Runs-Holds h r)
    Runs-Holds h (mines {submitted} {closed} {p} r task output outcome on none_yet free m) =
        let g = Runs-Holds h r in
        subst (λ txs. Holds n submitted (closed ++ txs) (mining_done n task p))
          (ap (λ i. executed_txs n (p.executors i)) (sym (g.mines_here task on))
            ∙ sym (lawful.gathered (p.executors task.on) m.drained output m.takes))
          (mining_done-Holds n lawful submitted closed p task outcome m.drained m.chain on
            (do_mine-Mines n (p.executors task.on) p.chain output outcome m) g)
    Runs-Holds h (forces {submitted} {closed} {p} r output outcome q idle unmined m e) =
        subst (GoodForce n lawful submitted (closed ++ block_txs n output)) e (
          force_mine-Holds n lawful submitted closed p output outcome idle unmined m
            (Runs-Holds h r))
    Runs-Holds h (polls {submitted} {closed} {p} r tick answer q calm e good) =
        answered submitted closed answer q good (
          subst (GoodAnswer n lawful submitted closed) e
            (poll_interval-Holds n lawful submitted closed tick p calm (Runs-Holds h r)))

    new-Holds :
        (c : Chain) (block_time : Option ℕ) (new_validator : State → Env → Validator)
        (start : Producer n)
        → new n c block_time new_validator ≡ ok start
        → Holds n [] [] start
    unfolding new
    new-Holds c block_time new_validator start h =
        let number = ok-first (n.latest_number c) _ h in
        let found = ok-first (n.block_env_at c number.0) _ number.2 in
        let env = ok-first (unwrap found.0) _ found.2 in
        let latest_state = ok-first (n.latest c) _ env.2 in
        let none_yet =
          ap (λ l. map (λ x. x.0) l) (lawful.fresh latest_state.0 (n.update_block_env c env.0).0) in
        subst (Holds n [] []) (ap made latest_state.2) (record {
          order = ap (λ (x : List Tx). x ++ []) none_yet;
          known = omega arith;
          executes_here = λ t e. absurd (none-some t e);
          mines_here = λ t e. absurd (none-some t e);
          one_task = λ t e. refl;
          full_idle = λ f. absurd (cc);
          drained = λ t r e. absurd (none-some t e);
        })
      where
        made : ProductionResult (Producer n) → Producer n
        made (ok p) = p
        made (err e) = start
        made panicked = start

    -- In a run of a new producer, the transactions of the outputs that blocks were made of and those held, in this order, are
    -- those that were queued: what is in no block is executed for the next one, on its way to the executor, or queued. Tasks,
    -- polls and forced minings succeed, the timer does not tick during an execution, and a forced mining finds no task
    -- going on.
    pub Runs-order :
        (c : Chain) (block_time : Option ℕ) (new_validator : State → Env → Validator)
        (start p : Producer n) (submitted closed : List Tx)
        → new n c block_time new_validator ≡ ok start
        → Runs start submitted closed p
        → closed ++ held n p ≡ submitted
    Runs-order c block_time new_validator start p submitted closed made run =
        (Runs-Holds (new-Holds c block_time new_validator start made) run).order
