-- ===== src/Producer/Locked.antt =====
-- The interval block producer while the permit is held: crates/core/src/service/block_producer.rs.
use katana.Base.{
  ℕ, zero, suc, ◌≡◌, refl, subst, sym, ap, ◌∙◌, Bool, true, false, not, ◌&&◌, ◌||◌, Option, none,
  some, List, [], if◌then◌else◌, is_some,
}
use katana.Producer.Backend.{Backend, ProductionResult, ok, err, BlockProductionError}
use katana.Producer.Interval.{
  Producer, ExecutionTask, MiningTask, TaskResult, finished, failed_with, cancelled, TxWithOutcome,
  queue, run_execution, execution_done, run_mining, mine_task, mine_unrun, mine_free, do_mine,
  force_mine, after_force, set_at, start_mining, close_block, start_execution, is_nil,
  started_timer, Round, again, leave, return_error, poll_execution, on_task, on_result, on_executed,
  execution_loop, next_round, poll_mining, on_mining, on_mining_result, poll_interval, after_loop,
  Polled, waits, mined, fails, dies, flatten,
}
use katana.Storage.Table.Contents.{none-some}

module _ (n : Backend) where
  open n use {Tx, Outcome}

  -- No mining has run that is not taken up by a poll.
  abbrev pub Unmined : Option (MiningTask n) → Type 0
  Unmined none = Unit
  Unmined (some task) = task.result ≡ none

  -- The steps of the producer, in any order.
  pub data Later (p : Producer n) : Producer n → Type 0 where
    now : Later p p
    queued : {q : Producer n} → Later p q → (txs : List Tx) → Later p (queue n txs q)
    executed :
        {q : Producer n} → Later p q → (r : Producer n) → run_execution n q ≡ some r → Later p r
    mined_by : {q : Producer n} → Later p q → (r : Producer n) → run_mining n q ≡ some r → Later p r
    forced :
        {q : Producer n} → Later p q → (r : Producer n) → force_mine n q ≡ some (ok r) → Later p r
    polled :
        {q : Producer n}
        → Later p q
        → (tick : Bool) (answer : Polled n) (r : Producer n)
        → poll_interval n tick q ≡ some (answer, r)
        → Later p r

  -- The permit is held, and the executor is the one of that number.
  pub record IsLocked (i : ℕ) (p : Producer n) : Type 0 where
    pub held : p.permit ≡ true
    pub same : p.executor ≡ i
    pub unmined : Unmined p.ongoing_mining

  module _ (i : ℕ) where
    -- A poll's answer, if it waits or is an error, and the producer it leaves.
    abbrev pub NoBlock : Option (Polled n × Producer n) → Type 0
    NoBlock none = Unit
    NoBlock (some (waits, p)) = IsLocked i p
    NoBlock (some (fails e, p)) = IsLocked i p
    NoBlock (some (mined o, p)) = ⊥
    NoBlock (some (dies, p)) = ⊥

    abbrev AllLocked : Option (Round n × Producer n) → Type 0
    AllLocked none = Unit
    AllLocked (some (r, p)) = IsLocked i p

    pub run_mining-IsLocked : (p : Producer n) → IsLocked i p → run_mining n p ≡ none
    unfolding run_mining
    run_mining-IsLocked p h = on_task p.ongoing_mining
      where
        unrun :
            (r : Option (TaskResult Outcome)) (task : MiningTask n) → mine_unrun n r task p ≡ none
        unrun none task = ap (λ b. mine_free n b task p) h.held
        unrun (some r) task = refl

        on_task : (m : Option (MiningTask n)) → mine_task n m p ≡ none
        on_task none = refl
        on_task (some task) = unrun task.result task

    pub force_mine-IsLocked : (p : Producer n) → IsLocked i p → force_mine n p ≡ none
    unfolding force_mine
    force_mine-IsLocked p h = rw (h.held) refl

    start_mining-IsLocked :
        (tick : Bool) (p : Producer n) → IsLocked i p → IsLocked i (start_mining n tick p)
    unfolding start_mining
    start_mining-IsLocked tick p h = on_timer p.timer
      where
        if_full : (b : Bool) → IsLocked i (if b then close_block n p else p)
        if_full true = record { held = h.held; same = h.same; unmined = refl }
        if_full false = h

        on_timer :
            (t : Option ℕ)
            → IsLocked i (elim t [
              | some period ↦
                  if (tick || p.is_block_full) && not (is_some p.ongoing_mining)
                  then close_block n p
                  else p
              | none ↦
                  if p.is_block_full && not (is_some p.ongoing_mining) then close_block n p else p
            ])
        on_timer none = if_full (p.is_block_full && not (is_some p.ongoing_mining))
        on_timer (some period) =
            if_full ((tick || p.is_block_full) && not (is_some p.ongoing_mining))

    start_execution-IsLocked : (p : Producer n) → IsLocked i p → IsLocked i (start_execution n p)
    unfolding start_execution
    start_execution-IsLocked p h = go (
        not (is_nil p.queued)
        && not (is_some p.ongoing_execution)
        && not (is_some p.ongoing_mining))
      where
        go :
            (b : Bool)
            → IsLocked i (
                if b
                then record p {
                  queued = [];
                  ongoing_execution =
                      some (record { on = p.executor; txs = flatten p.queued; result = none });
                  timer = started_timer n p.timer p.block_time;
                }
                else p)
        go true = record { held = h.held; same = h.same; unmined = h.unmined }
        go false = h

    poll_execution-IsLocked : (p : Producer n) → IsLocked i p → IsLocked i (poll_execution n p).1
    unfolding poll_execution
    poll_execution-IsLocked p h = task_of p.ongoing_execution
      where
        over :
            (r : TaskResult (List (TxWithOutcome n) × Option (List Tx)))
            → IsLocked i (on_executed n r (record p { ongoing_execution = none })).1
        over (finished (txs, none)) = record { held = h.held; same = h.same; unmined = h.unmined }
        over (finished (txs, some rest)) = record {
          held = h.held;
          same = h.same;
          unmined = h.unmined;
        }
        over (failed_with e) = record { held = h.held; same = h.same; unmined = h.unmined }
        over cancelled = record { held = h.held; same = h.same; unmined = h.unmined }

        result_of :
            (r : Option (TaskResult (List (TxWithOutcome n) × Option (List Tx))))
            → IsLocked i (on_result n r p).1
        result_of none = h
        result_of (some r) = over r

        task_of : (t : Option (ExecutionTask n)) → IsLocked i (on_task n t p).1
        task_of none = h
        task_of (some task) = result_of task.result

    execution_loop-IsLocked :
        (rounds : ℕ) (p : Producer n) → IsLocked i p → AllLocked (execution_loop n rounds p)
    unfolding execution_loop
    execution_loop-IsLocked zero p h = tt
    execution_loop-IsLocked (suc rounds) p h =
        next (poll_execution n (start_execution n p))
          (poll_execution-IsLocked (start_execution n p) (start_execution-IsLocked p h))
          (execution_loop-IsLocked rounds)
      where
        next :
            (r : Round n × Producer n)
            → IsLocked i r.1
            → ((q : Producer n) → IsLocked i q → AllLocked (execution_loop n rounds q))
            → AllLocked (next_round n (execution_loop n rounds) r)
        next (again, q) g rest = rest q g
        next (leave, q) g rest = g
        next (return_error e, q) g rest = g

    poll_mining-IsLocked : (p : Producer n) → IsLocked i p → NoBlock (some (poll_mining n p))
    unfolding poll_mining
    poll_mining-IsLocked p h = task_of p.ongoing_mining h.unmined
      where
        task_of : (m : Option (MiningTask n)) → Unmined m → NoBlock (some (on_mining n m p))
        task_of none u = h
        task_of (some task) u = subst (λ r. NoBlock (some (on_mining_result n r p))) (sym u) h

    pub poll_interval-IsLocked :
        (tick : Bool) (p : Producer n) → IsLocked i p → NoBlock (poll_interval n tick p)
    unfolding poll_interval
    poll_interval-IsLocked tick p h =
        after (execution_loop n 2 (start_mining n tick p))
          (execution_loop-IsLocked 2 (start_mining n tick p) (start_mining-IsLocked tick p h))
      where
        after : (r : Option (Round n × Producer n)) → AllLocked r → NoBlock (after_loop n r)
        after none g = tt
        after (some (again, q)) g = poll_mining-IsLocked q g
        after (some (leave, q)) g = poll_mining-IsLocked q g
        after (some (return_error e, q)) g = g

    left-IsLocked : (a : Polled n) (p : Producer n) → NoBlock (some (a, p)) → IsLocked i p
    left-IsLocked waits p g = g
    left-IsLocked (fails e) p g = g
    left-IsLocked (mined o) p g = absurd g
    left-IsLocked dies p g = absurd g

    run_execution-IsLocked :
        (p r : Producer n) → IsLocked i p → run_execution n p ≡ some r → IsLocked i r
    unfolding run_execution
    run_execution-IsLocked p r h e = subst Good e (task_of p.ongoing_execution)
      where
        Good : Option (Producer n) → Type 0
        Good none = Unit
        Good (some q) = IsLocked i q

        result_of :
            (task : ExecutionTask n)
            (x : Option (TaskResult (List (TxWithOutcome n) × Option (List Tx))))
            → Good (elim x [ none ↦ some (execution_done n task p) | some r ↦ none ])
        result_of task none = record { held = h.held; same = h.same; unmined = h.unmined }
        result_of task (some r) = tt

        task_of :
            (t : Option (ExecutionTask n))
            → Good (elim t [
              | none ↦ none
              | some task ↦ elim task.result [
                | none ↦ some (execution_done n task p)
                | some r ↦ none
              ]
            ])
        task_of none = tt
        task_of (some task) = result_of task task.result

    pub Later-IsLocked : {p q : Producer n} → IsLocked i p → Later p q → IsLocked i q
    unfolding queue
    Later-IsLocked h now = h
    Later-IsLocked h (queued l txs) =
        let g = Later-IsLocked h l in record { held = g.held; same = g.same; unmined = g.unmined }
    Later-IsLocked h (executed {q} l r e) = run_execution-IsLocked q r (Later-IsLocked h l) e
    Later-IsLocked h (mined_by {q} l r e) =
        absurd (none-some r (sym (run_mining-IsLocked q (Later-IsLocked h l)) ∙ e))
    Later-IsLocked h (forced {q} l r e) =
        absurd (none-some (ok r) (sym (force_mine-IsLocked q (Later-IsLocked h l)) ∙ e))
    Later-IsLocked h (polled {q} l tick answer r e) =
        left-IsLocked answer r
          (subst NoBlock e (poll_interval-IsLocked tick q (Later-IsLocked h l)))

  -- What a failed mining leaves of a forced one.
  abbrev pub after_failure : Producer n → Producer n
  after_failure p =
      let r = do_mine n (p.executors p.executor) p.chain in
      record p { executors = set_at p.executors p.executor r.1.0; chain = r.1.1; permit = true }

  force_fails :
      (p : Producer n) (e : BlockProductionError)
      → p.permit ≡ false
      → (do_mine n (p.executors p.executor) p.chain).0 ≡ err e
      → force_mine n p ≡ some (ok (after_failure p))
  unfolding force_mine
  force_fails p e free failing =
      subst
        (λ b.
          elim b as (λ b. Option (ProductionResult (Producer n))) [
            | true ↦ none
            | false ↦
                some
                  (after_force n (do_mine n (p.executors p.executor) p.chain).0 (after_failure p))
          ]
          ≡ some (ok (after_failure p)))
        (sym free) (ap (λ r. some (after_force n r (after_failure p))) failing)

  -- A forced mining whose mining fails, while no finished mining is to be taken up, is taken for done; and whatever is
  -- queued, run and polled from then on, in any order: a forced mining waits, a
  -- mining task does not run, no poll returns a block, and the executor is never replaced.
  pub force_mine-keeps_permit :
      (p q : Producer n) (e : BlockProductionError) (tick : Bool)
      → p.permit ≡ false
      → Unmined p.ongoing_mining
      → (do_mine n (p.executors p.executor) p.chain).0 ≡ err e
      → Later (after_failure p) q
      → (force_mine n p ≡ some (ok (after_failure p)))
        × (force_mine n q ≡ none)
        × (run_mining n q ≡ none)
        × NoBlock p.executor (poll_interval n tick q)
        × (q.executor ≡ p.executor)
  force_mine-keeps_permit p q e tick free unmined failing later =
      let g = Later-IsLocked p.executor locked later in
      (
        force_fails p e free failing,
        force_mine-IsLocked p.executor q g,
        run_mining-IsLocked p.executor q g,
        poll_interval-IsLocked p.executor tick q g,
        g.same,
      )
    where
      locked : IsLocked p.executor (after_failure p)
      locked = record { held = refl; same = refl; unmined = unmined }
