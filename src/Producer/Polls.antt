-- ===== src/Producer/Polls.antt =====
-- The polls of the interval block producer: crates/core/src/service/block_producer.rs.
use katana.Base.{
  ◌≡◌, refl, subst, ◌∙◌, ap, sym, inl, inr, Bool, true, false, Option, none, some, List, [], ◌++◌,
  map, arith, Option-cases,
}
use katana.Producer.Backend.{
  Backend, IsExecutor, executed_txs, ProductionResult, ok, err, panicked, ok-first, unwrap,
}
use katana.Storage.Table.Contents.{none-some}
use katana.Producer.Interval.{
  Producer, MiningTask, TaskResult, finished, failed_with, cancelled, flatten, start_mining, Round,
  again, leave, return_error, execution_loop, poll_mining, on_mining, on_mining_result, on_mined,
  next_block, on_created, with_validator, updated_validator, after_loop, poll_interval, Polled,
  waits, mined, fails, dies, with_executor, create_new_executor_for_next_block,
}
use katana.Producer.Held.{Holds, in_flight, set_at_same}
use katana.Producer.Rounds.{GoodLoop, start_mining-Holds, execution_loop-Holds}

module _ (n : Backend) (lawful : IsExecutor n) where
  open n use {Tx, Executor, Outcome, transactions}

  -- What a poll leaves, if it does not return an error.
  abbrev pub GoodPoll : List Tx → List Tx → Polled n × Producer n → Type 0
  GoodPoll submitted closed (waits, p) = Holds n submitted closed p
  GoodPoll submitted closed (mined o, p) = Holds n submitted closed p
  GoodPoll submitted closed (fails e, p) = Unit
  GoodPoll submitted closed (dies, p) = Unit

  -- The next executor takes the place of a drained one.
  with_executor-Holds :
      (submitted closed : List Tx) (p : Producer n) (e : Executor) (c : n.Chain) (v : n.Validator)
      → executed_txs n e ≡ []
      → executed_txs n (p.executors p.executor) ≡ []
      → p.ongoing_execution ≡ none
      → Holds n submitted closed p
      → Holds n submitted closed (record (with_executor n e c p) {
        ongoing_mining = none;
        validator = v;
        permit = false;
        is_block_full = false;
      })
  with_executor-Holds submitted closed p e c v new old idle h = record {
    order =
        ap (λ x. closed ++ (x ++ (in_flight n p.ongoing_execution ++ flatten p.queued)))
          (ap (executed_txs n) (set_at_same p.executors p.created e) ∙ new ∙ sym old)
        ∙ h.order;
    known = omega arith;
    executes_here = λ t q. absurd (none-some t (sym idle ∙ q));
    mines_here = λ t q. absurd (none-some t q);
    one_task = λ t q. idle;
    full_idle = λ f. absurd (cc);
    drained = λ t r q. absurd (none-some t q);
  }

  pub executed_txs-create :
      (c c' : n.Chain) (e : Executor)
      → create_new_executor_for_next_block n c ≡ ok (e, c')
      → executed_txs n e ≡ []
  unfolding create_new_executor_for_next_block
  executed_txs-create c c' e h =
      let number = ok-first (n.latest_number c) _ h in
      let updated = ok-first (n.latest c) _ number.2 in
      let found = ok-first (n.block_env_at c number.0) _ updated.2 in
      let env = ok-first (unwrap found.0) _ found.2 in
      sym (ap executed_of env.2)
      ∙ ap (λ l. map (λ x. x.0) l) (lawful.fresh updated.0 (n.update_block_env c env.0).0)
    where
      executed_of : ProductionResult (Executor × n.Chain) → List Tx
      executed_of (ok r) = executed_txs n r.0
      executed_of (err e) = []
      executed_of panicked = []

  next_block-Holds :
      (submitted closed : List Tx) (outcome : Polled n) (p : Producer n)
      → executed_txs n (p.executors p.executor) ≡ []
      → p.ongoing_execution ≡ none
      → Holds n submitted closed (record p { ongoing_mining = none })
      → GoodPoll submitted closed (next_block n outcome (record p { ongoing_mining = none }))
  next_block-Holds submitted closed outcome p old idle h =
      created (create_new_executor_for_next_block n p.chain) refl
    where
      answered :
          (o : Polled n) (q : Producer n)
          → Holds n submitted closed q
          → GoodPoll submitted closed (o, q)
      answered waits q g = g
      answered (mined o) q g = g
      answered (fails e) q g = tt
      answered dies q g = tt

      validated :
          (e : Executor) (c : n.Chain) (v : ProductionResult n.Validator)
          → executed_txs n e ≡ []
          → GoodPoll submitted closed
              (with_validator n outcome e c (record p { ongoing_mining = none }) v)
      validated e c (ok v) new = answered outcome _ (
          with_executor-Holds submitted closed (record p { ongoing_mining = none }) e c v new old
            idle h)
      validated e c (err x) new = tt
      validated e c panicked new = tt

      created :
          (r : ProductionResult (Executor × n.Chain))
          → create_new_executor_for_next_block n p.chain ≡ r
          → GoodPoll submitted closed (on_created n outcome (record p { ongoing_mining = none }) r)
      created (ok (e, c)) q =
          validated e c (updated_validator n e c p.validator) (executed_txs-create p.chain c e q)
      created (err e) q = tt
      created panicked q = tt

  poll_mining-Holds :
      (submitted closed : List Tx) (p : Producer n)
      → Holds n submitted closed p
      → GoodPoll submitted closed (poll_mining n p)
  unfolding poll_mining
  poll_mining-Holds submitted closed p h = elim (Option-cases p.ongoing_mining) [
    | inl e ↦ subst (λ o. GoodPoll submitted closed (on_mining n o p)) (sym e) h
    | inr (task, e) ↦
        subst (λ o. GoodPoll submitted closed (on_mining n o p)) (sym e)
          (elim (Option-cases task.result) [
            | inl none_yet ↦
                subst (λ r. GoodPoll submitted closed (on_mining_result n r p)) (sym none_yet) h
            | inr (r, done) ↦
                subst (λ r. GoodPoll submitted closed (on_mining_result n r p)) (sym done)
                  (over task e r (h.drained task r e done))
          ])
  ]
    where
      unmined :
          (task : MiningTask n)
          → p.ongoing_mining ≡ some task
          → Holds n submitted closed (record p { ongoing_mining = none })
      unmined task e = record {
        order = h.order;
        known = h.known;
        executes_here = h.executes_here;
        mines_here = λ t q. absurd (none-some t q);
        one_task = λ t q. absurd (none-some t q);
        full_idle = λ f. (h.one_task task e, refl);
        drained = λ t r q. absurd (none-some t q);
      }

      over :
          (task : MiningTask n)
          → p.ongoing_mining ≡ some task
          → (r : TaskResult Outcome) → executed_txs n (p.executors p.executor) ≡ []
          → GoodPoll submitted closed (on_mined n r (record p { ongoing_mining = none }))
      over task e (finished o) old =
          next_block-Holds submitted closed (mined o) p old (h.one_task task e) (unmined task e)
      over task e (failed_with x) old =
          next_block-Holds submitted closed (fails x) p old (h.one_task task e) (unmined task e)
      over task e cancelled old = tt

  abbrev pub GoodAnswer : List Tx → List Tx → Option (Polled n × Producer n) → Type 0
  GoodAnswer submitted closed none = Unit
  GoodAnswer submitted closed (some r) = GoodPoll submitted closed r

  -- A poll keeps what is held, unless it returns an error.
  pub poll_interval-Holds :
      (submitted closed : List Tx) (tick : Bool) (p : Producer n)
      → (tick ≡ true → p.ongoing_execution ≡ none)
      → Holds n submitted closed p
      → GoodAnswer submitted closed (poll_interval n tick p)
  unfolding poll_interval
  poll_interval-Holds submitted closed tick p calm h =
      let s = start_mining-Holds n submitted closed tick p calm h in
      polled (execution_loop n 2 (start_mining n tick p))
        (execution_loop-Holds n 2 submitted closed (start_mining n tick p) s.1 s.0)
    where
      polled :
          (r : Option (Round n × Producer n))
          → GoodLoop n submitted closed r
          → GoodAnswer submitted closed (after_loop n r)
      polled none g = tt
      polled (some (again, q)) g = poll_mining-Holds submitted closed q g
      polled (some (leave, q)) g = poll_mining-Holds submitted closed q g
      polled (some (return_error e, q)) g = tt
