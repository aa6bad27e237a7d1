-- ===== src/Producer/Forced.antt =====
-- The forced mining of the interval block producer: crates/core/src/service/block_producer.rs.
use katana.Base.{
  ◌≡◌, refl, subst, sym, ap, ◌∙◌, Bool, true, false, Option, none, some, List, [], ◌++◌, arith,
  append_assoc,
}
use katana.Producer.Backend.{
  Backend, IsExecutor, executed_txs, block_txs, ProductionResult, ok, err, panicked,
}
use katana.Storage.Table.Contents.{none-some}
use katana.Producer.Interval.{
  Producer, flatten, do_mine, mine_output, force_mine, after_force, force_created, force_validated,
  set_at, with_executor, updated_validator, create_new_executor_for_next_block,
}
use katana.Producer.Held.{Holds, in_flight, set_at_same}
use katana.Producer.Polls.{executed_txs-create}

module _ (n : Backend) where
  open n use {Tx, Executor, Outcome, Output, Chain, Validator}

  -- A mining that takes an output and makes a block of it.
  pub record Mines (e : Executor) (c : Chain) (output : Output) (outcome : Outcome) : Type 0 where
    pub drained : Executor
    pub chain : Chain
    pub takes : n.take_execution_output e ≡ (ok output, drained)
    pub closes : n.do_mine_block c (n.block_env e) output ≡ (ok outcome, chain)

  pub do_mine-Mines :
      (e : Executor) (c : Chain) (output : Output) (outcome : Outcome)
      (m : Mines e c output outcome)
      → do_mine n e c ≡ (ok outcome, (m.drained, m.chain))
  unfolding do_mine
  do_mine-Mines e c output outcome m =
      ap (mine_output n c (n.block_env e)) m.takes ∙ ap (λ r. (r.0, (m.drained, r.1))) m.closes

  module _ (lawful : IsExecutor n) where
    abbrev pub GoodForce : List Tx → List Tx → Option (ProductionResult (Producer n)) → Type 0
    GoodForce submitted closed none = Unit
    GoodForce submitted closed (some (ok q)) = Holds n submitted closed q
    GoodForce submitted closed (some (err e)) = Unit
    GoodForce submitted closed (some panicked) = Unit

    -- With no task going on, a forced mining closes a block with what is executed.
    pub force_mine-Holds :
        (submitted closed : List Tx) (p : Producer n) (output : Output) (outcome : Outcome)
        → p.ongoing_execution ≡ none
        → p.ongoing_mining ≡ none
        → Mines (p.executors p.executor) p.chain output outcome
        → Holds n submitted closed p
        → GoodForce submitted (closed ++ block_txs n output) (force_mine n p)
    unfolding force_mine
    force_mine-Holds submitted closed p output outcome idle unmined m h = at_permit p.permit
      where
        e' : Executor
        e' = m.drained

        left : Producer n
        left = record p {
          executors = set_at p.executors p.executor e';
          chain = m.chain;
          permit = true;
        }

        forced :
            (e : Executor) (c : Chain) (v : Validator)
            → executed_txs n e ≡ []
            → Holds n submitted
                (closed ++ block_txs n output)
                (record (with_executor n e c left) { validator = v; permit = false })
        forced e c v new = record {
          order =
              ap (λ x. (closed ++ block_txs n output) ++ (x ++ rest))
                (ap (executed_txs n) (set_at_same left.executors p.created e) ∙ new)
              ∙ ap (λ x. (closed ++ x) ++ rest) (lawful.gathered _ e' output m.takes)
              ∙ append_assoc closed (executed_txs n (p.executors p.executor)) rest
              ∙ h.order;
          known = omega arith;
          executes_here = λ t q. absurd (none-some t (sym idle ∙ q));
          mines_here = λ t q. absurd (none-some t (sym unmined ∙ q));
          one_task = λ t q. idle;
          full_idle = λ f. (idle, unmined);
          drained = λ t r q. absurd (none-some t (sym unmined ∙ q));
        }
          where
            rest : List Tx
            rest = in_flight n p.ongoing_execution ++ flatten p.queued

        after :
            GoodForce submitted
              (closed ++ block_txs n output)
              (some (after_force n (ok outcome) left))
        after = created (create_new_executor_for_next_block n left.chain) refl
          where
            validated :
                (e : Executor) (c : Chain) (r : ProductionResult Validator)
                → executed_txs n e ≡ []
                → GoodForce submitted
                    (closed ++ block_txs n output)
                    (some (force_validated n e c left r))
            validated e c (ok v) new = forced e c v new
            validated e c (err x) new = tt
            validated e c panicked new = tt

            created :
                (r : ProductionResult (Executor × Chain))
                → create_new_executor_for_next_block n left.chain ≡ r
                → GoodForce submitted (closed ++ block_txs n output) (some (force_created n left r))
            created (ok (e, c)) q =
                validated e c (updated_validator n e c p.validator)
                  (executed_txs-create n lawful left.chain c e q)
            created (err e) q = tt
            created panicked q = tt

        at_permit :
            (b : Bool)
            → GoodForce submitted (closed ++ block_txs n output) (elim b [
              | true ↦ none
              | false ↦
                  let r = do_mine n (p.executors p.executor) p.chain in
                  some (
                    after_force n r.0 (record p {
                      executors = set_at p.executors p.executor r.1.0;
                      chain = r.1.1;
                      permit = true;
                    }))
            ])
        at_permit true = tt
        at_permit false =
            subst
              (λ r. GoodForce submitted (closed ++ block_txs n output) (
                some (
                  after_force n r.0 (record p {
                    executors = set_at p.executors p.executor r.1.0;
                    chain = r.1.1;
                    permit = true;
                  }))))
              (sym (do_mine-Mines _ p.chain output outcome m)) after
