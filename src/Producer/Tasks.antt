-- ===== src/Producer/Tasks.antt =====
-- The tasks of the interval block producer: crates/core/src/service/block_producer.rs.
use katana.Base.{
  ℕ, ◌≡◌, refl, subst, ◌∙◌, ap, sym, Bool, true, false, Option, none, some, List, [], ◌++◌, map,
  arith, append-nil, append_assoc, take, drop, take_all, take-append-drop,
}
use katana.Producer.Backend.{Backend, IsExecutor, executed_txs, ProductionResult, ok, err, panicked}
use katana.Storage.Table.Contents.{none-some}
use katana.Producer.Interval.{
  Producer, ExecutionTask, MiningTask, finished, task_result, execution_results, mine_output,
  TxWithOutcome, flatten, set_at, run_transactions, do_mine, execution_done, mining_done,
}
use katana.Producer.Held.{Holds, in_flight, left_over, set_at_same}

module _ (n : Backend) (lawful : IsExecutor n) where
  open n use {Tx, Executor, Outcome, transactions}

  abbrev all_of :
      List Tx → ProductionResult (List (TxWithOutcome n) × Option (List Tx)) × Executor → List Tx
  all_of txs z = executed_txs n z.1 ++ left_over n (some (task_result z.0)) txs

  -- An execution adds to the executor what it does not leave over.
  executes :
      (e e' : Executor) (txs : List Tx) (outs : List (TxWithOutcome n)) (rest : Option (List Tx))
      → run_transactions n e txs ≡ (ok (outs, rest), e')
      → executed_txs n e' ++ left_over n (some (finished (outs, rest))) txs
        ≡ executed_txs n e ++ txs
  unfolding run_transactions
  executes e e' txs outs rest h = go (n.execute_transactions e txs) refl h
    where
      go :
          (r : ProductionResult (ℕ × Bool) × Executor)
          → n.execute_transactions e txs ≡ r
          → execution_results n txs r ≡ (ok (outs, rest), e')
          → executed_txs n e' ++ left_over n (some (finished (outs, rest))) txs
            ≡ executed_txs n e ++ txs
      go (ok (count, true), e1) q h =
          let c = lawful.counted e e1 txs count true q in
          sym (ap (all_of txs) h)
          ∙ ap (λ z. z ++ drop count txs) c.1
          ∙ append_assoc (executed_txs n e) (take count txs) (drop count txs)
          ∙ ap (λ z. executed_txs n e ++ z) (take-append-drop count txs)
      go (ok (count, false), e1) q h =
          let c = lawful.counted e e1 txs count false q in
          let all = lawful.all_if_room e e1 txs count q in
          sym (ap (all_of txs) h)
          ∙ append-nil (executed_txs n e1)
          ∙ c.1
          ∙ ap (λ z. executed_txs n e ++ z) (take_all count txs (omega (arith, all)))
      go (err x, e1) q h = cc
      go (panicked, e1) q h = cc

  pub execution_done-Holds :
      (submitted closed : List Tx) (p : Producer n) (task : ExecutionTask n)
      (outs : List (TxWithOutcome n)) (rest : Option (List Tx)) (e' : Executor)
      → p.ongoing_execution ≡ some task
      → task.result ≡ none
      → run_transactions n (p.executors task.on) task.txs ≡ (ok (outs, rest), e')
      → Holds n submitted closed p
      → Holds n submitted closed (execution_done n task p)
  execution_done-Holds submitted closed p task outs rest e' o none_yet r h =
      subst
        (λ r. Holds n submitted closed (record p {
          executors = set_at p.executors task.on r.1;
          ongoing_execution = some (record task { result = some (task_result r.0) });
        }))
        (sym r)
        (record {
          order =
              ap
                (λ x.
                  closed
                  ++ (executed_txs n x
                      ++ (left_over n (some (finished (outs, rest))) task.txs ++ flatten p.queued)))
                (ap (λ i. set_at p.executors i e' p.executor) here
                  ∙ set_at_same p.executors p.executor e')
              ∙ ap (λ z. closed ++ z)
                  (sym (
                      append_assoc (executed_txs n e')
                        (left_over n (some (finished (outs, rest))) task.txs) (flatten p.queued))
                    ∙ ap (λ z. z ++ flatten p.queued)
                        (executes (p.executors task.on) e' task.txs outs rest r)
                    ∙ append_assoc (executed_txs n (p.executors task.on)) task.txs
                        (flatten p.queued)
                    ∙ ap (λ i. executed_txs n (p.executors i) ++ (task.txs ++ flatten p.queued))
                        here
                    ∙ ap (λ z. executed_txs n (p.executors p.executor) ++ (z ++ flatten p.queued))
                        (sym flying))
              ∙ h.order;
          known = h.known;
          executes_here = λ t e. ap (λ o. on_of o) (sym e) ∙ here;
          mines_here = h.mines_here;
          one_task = λ t e. absurd (none-some task (sym (h.one_task t e) ∙ o));
          full_idle = λ f. absurd (none-some task (sym (h.full_idle f).0 ∙ o));
          drained = λ t r e. absurd (none-some task (sym (h.one_task t e) ∙ o));
        })
    where
      here : task.on ≡ p.executor
      here = h.executes_here task o

      flying : in_flight n p.ongoing_execution ≡ task.txs
      flying = ap (in_flight n) o ∙ ap (λ r. left_over n r task.txs) none_yet

      on_of : Option (ExecutionTask n) → ℕ
      on_of none = p.executor
      on_of (some t) = t.on

  -- Mining leaves its executor with no transactions.
  mines :
      (e e' : Executor) (c c' : n.Chain) (outcome : Outcome)
      → do_mine n e c ≡ (ok outcome, (e', c'))
      → executed_txs n e' ≡ []
  unfolding do_mine
  mines e e' c c' outcome h = go (n.take_execution_output e) refl h
    where
      go :
          (r : ProductionResult n.Output × Executor)
          → n.take_execution_output e ≡ r
          → mine_output n c (n.block_env e) r ≡ (ok outcome, (e', c'))
          → executed_txs n e' ≡ []
      go (ok output, e1) q h =
          sym (ap (λ z. executed_txs n z.1.0) h)
          ∙ ap (λ l. map (λ x. x.0) l) (lawful.taken e e1 output q)
      go (err x, e1) q h = cc
      go (panicked, e1) q h = cc

  pub mining_done-Holds :
      (submitted closed : List Tx) (p : Producer n) (task : MiningTask n) (outcome : Outcome)
      (e' : Executor) (c' : n.Chain)
      → p.ongoing_mining ≡ some task
      → do_mine n (p.executors task.on) p.chain ≡ (ok outcome, (e', c'))
      → Holds n submitted closed p
      → Holds n submitted (closed ++ executed_txs n (p.executors p.executor)) (mining_done n task p)
  mining_done-Holds submitted closed p task outcome e' c' m r h =
      subst
        (λ r. Holds n submitted (closed ++ executed_txs n (p.executors p.executor)) (record p {
          executors = set_at p.executors task.on r.1.0;
          chain = r.1.1;
          permit = true;
          ongoing_mining = some (record task { result = some (task_result r.0) });
        }))
        (sym r)
        (record {
          order =
              ap (λ x. (closed ++ executed_txs n (p.executors p.executor)) ++ (x ++ rest)) empty
              ∙ append_assoc closed (executed_txs n (p.executors p.executor)) rest
              ∙ h.order;
          known = h.known;
          executes_here = h.executes_here;
          mines_here = λ t e. ap on_of (sym e) ∙ here;
          one_task = λ t e. h.one_task task m;
          full_idle = λ f. absurd (none-some task (sym (h.full_idle f).1 ∙ m));
          drained = λ t r e q. empty;
        })
    where
      rest : List Tx
      rest = in_flight n p.ongoing_execution ++ flatten p.queued

      here : task.on ≡ p.executor
      here = h.mines_here task m

      on_of : Option (MiningTask n) → ℕ
      on_of none = p.executor
      on_of (some t) = t.on

      empty : executed_txs n (set_at p.executors task.on e' p.executor) ≡ []
      empty =
          ap (λ i. executed_txs n (set_at p.executors i e' p.executor)) here
          ∙ ap (executed_txs n) (set_at_same p.executors p.executor e')
          ∙ mines (p.executors task.on) e' p.chain c' outcome r
