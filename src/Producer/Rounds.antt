-- ===== src/Producer/Rounds.antt =====
-- The rounds of the interval block producer's polls: crates/core/src/service/block_producer.rs.
use katana.Base.{
  ℕ, zero, suc, ◌≡◌, refl, subst, ◌∙◌, ap, sym, inl, inr, Bool, true, false, not, ◌&&◌, ◌||◌,
  Option, none, some, List, [], ◌++◌, if◌then◌else◌, append-nil, Option-cases, Bool-cases, is_some,
}
use katana.Producer.Backend.{Backend, executed_txs}
use katana.Storage.Table.Contents.{none-some}
use katana.Producer.Interval.{
  Producer, ExecutionTask, MiningTask, TaskResult, finished, failed_with, cancelled, TxWithOutcome,
  flatten, start_mining, close_block, start_execution, started_timer, Round, again, leave,
  return_error, poll_execution, on_task, on_result, on_executed, execution_loop, next_round, is_nil,
}
use katana.Producer.Held.{Holds, in_flight, left_over}

not_room :
    {A : Type 0} (t b : Bool) (m : Option A)
    → b ≡ true
    → m ≡ none
    → ((t || b) && not (is_some m)) ≡ false
    → ⊥
not_room t b (some x) e o q = cc
not_room true b none e o q = cc
not_room false true none e o q = cc
not_room false false none e o q = cc

both_none :
    {A B : Type 0} (x : Bool) (a : Option A) (b : Option B)
    → (not x && not (is_some a) && not (is_some b)) ≡ true
    → (a ≡ none) × (b ≡ none)
both_none true a b q = absurd (cc)
both_none false none none q = (refl, refl)
both_none false none (some b) q = absurd (cc)
both_none false (some a) b q = absurd (cc)

module _ (n : Backend) where
  open n use {Tx, Executor, Outcome, transactions}

  close_block-Holds :
      (submitted closed : List Tx) (p : Producer n)
      → p.ongoing_execution ≡ none
      → Holds n submitted closed p
      → Holds n submitted closed (close_block n p)
  close_block-Holds submitted closed p idle h = record {
    order = h.order;
    known = h.known;
    executes_here = h.executes_here;
    mines_here = λ t e. ap (λ o. on_of o) (sym e);
    one_task = λ t e. idle;
    full_idle = λ f. absurd (cc);
    drained = λ t r e q. absurd (none-some r (ap result_of e ∙ q));
  }
    where
      on_of : Option (MiningTask n) → ℕ
      on_of none = p.executor
      on_of (some t) = t.on

      result_of : Option (MiningTask n) → Option (TaskResult Outcome)
      result_of none = none
      result_of (some t) = t.result

  close_if-Holds :
      (submitted closed : List Tx) (b : Bool) (p : Producer n)
      → (b ≡ true → p.ongoing_execution ≡ none)
      → (b ≡ false → p.is_block_full ≡ false)
      → Holds n submitted closed p
      → Holds n submitted closed (if b then close_block n p else p)
        × ((if◌then◌else◌ {A = Producer n} b (close_block n p) p).is_block_full ≡ false)
  close_if-Holds submitted closed true p idle room h =
      (close_block-Holds submitted closed p (idle refl) h, refl)
  close_if-Holds submitted closed false p idle room h = (h, room refl)

  -- A poll starts to mine while no execution goes on, if the timer does not tick during one.
  pub start_mining-Holds :
      (submitted closed : List Tx) (tick : Bool) (p : Producer n)
      → (tick ≡ true → p.ongoing_execution ≡ none)
      → Holds n submitted closed p
      → Holds n submitted closed (start_mining n tick p)
        × ((start_mining n tick p).is_block_full ≡ false)
  unfolding start_mining
  start_mining-Holds submitted closed tick p calm h = elim (Option-cases p.timer) [
    | inl e ↦
        rw (start_mining, e)
          (close_if-Holds submitted closed _ p (idle false (λ e. absurd (cc))) (room false) h)
    | inr (period, e) ↦
        rw (start_mining, e) (close_if-Holds submitted closed _ p (idle tick calm) (room tick) h)
  ]
    where
      idle :
          (t : Bool)
          → (t ≡ true → p.ongoing_execution ≡ none)
          → ((t || p.is_block_full) && not (is_some p.ongoing_mining)) ≡ true
          → p.ongoing_execution ≡ none
      idle true calm q = calm refl
      idle false calm q = elim (Bool-cases p.is_block_full) [
        | inl f ↦ (h.full_idle f).0
        | inr f ↦ absurd (let r = rw f at q in (cc))
      ]

      room :
          (t : Bool)
          → ((t || p.is_block_full) && not (is_some p.ongoing_mining)) ≡ false
          → p.is_block_full ≡ false
      room t q = elim (Bool-cases p.is_block_full) [
        | inl f ↦ absurd (not_room t p.is_block_full p.ongoing_mining f (h.full_idle f).1 q)
        | inr f ↦ f
      ]

  abbrev started : Producer n → Producer n
  started p = record p {
    queued = [];
    ongoing_execution = some (record { on = p.executor; txs = flatten p.queued; result = none });
    timer = started_timer n p.timer p.block_time;
  }

  started-Holds :
      (submitted closed : List Tx) (p : Producer n)
      → p.is_block_full ≡ false
      → p.ongoing_execution ≡ none
      → p.ongoing_mining ≡ none
      → Holds n submitted closed p
      → Holds n submitted closed (started p)
  started-Holds submitted closed p room idle unmined h = record {
    order =
        ap (λ z. closed ++ (executed_txs n (p.executors p.executor) ++ z))
          (append-nil (flatten p.queued))
        ∙ ap
            (λ o.
              closed
              ++ (executed_txs n (p.executors p.executor) ++ (in_flight n o ++ flatten p.queued)))
            (sym idle)
        ∙ h.order;
    known = h.known;
    executes_here = λ t e. ap on_of (sym e);
    mines_here = h.mines_here;
    one_task = λ t e. absurd (none-some t (sym unmined ∙ e));
    full_idle = λ f. absurd (let q = sym f ∙ room in (cc));
    drained = h.drained;
  }
    where
      on_of : Option (ExecutionTask n) → ℕ
      on_of none = p.executor
      on_of (some t) = t.on

  start_if-Holds :
      (submitted closed : List Tx) (b : Bool) (p : Producer n)
      → p.is_block_full ≡ false
      → (b ≡ true → (p.ongoing_execution ≡ none) × (p.ongoing_mining ≡ none))
      → Holds n submitted closed p
      → Holds n submitted closed (if b then started p else p)
        × ((if◌then◌else◌ {A = Producer n} b (started p) p).is_block_full ≡ false)
  start_if-Holds submitted closed true p room idle h =
      (started-Holds submitted closed p room (idle refl).0 (idle refl).1 h, room)
  start_if-Holds submitted closed false p room idle h = (h, room)

  -- A round starts to execute what is queued.
  start_execution-Holds :
      (submitted closed : List Tx) (p : Producer n)
      → p.is_block_full ≡ false
      → Holds n submitted closed p
      → Holds n submitted closed (start_execution n p)
        × ((start_execution n p).is_block_full ≡ false)
  unfolding start_execution
  start_execution-Holds submitted closed p room h =
      start_if-Holds submitted closed _ p room
        (both_none (is_nil p.queued) p.ongoing_execution p.ongoing_mining) h

  -- What a round leaves, if it does not return an error.
  abbrev GoodRound : List Tx → List Tx → Round n × Producer n → Type 0
  GoodRound submitted closed (again, p) = Holds n submitted closed p × (p.is_block_full ≡ false)
  GoodRound submitted closed (leave, p) = Holds n submitted closed p
  GoodRound submitted closed (return_error e, p) = Unit

  abbrev Results : Type 0
  Results = TaskResult (List (TxWithOutcome n) × Option (List Tx))

  -- A result is taken in: what the execution left over goes in front of the queue.
  on_executed-Holds :
      (submitted closed : List Tx) (p : Producer n) (r : Results) (txs : List Tx)
      → p.is_block_full ≡ false
      → p.ongoing_mining ≡ none
      → in_flight n p.ongoing_execution ≡ left_over n (some r) txs
      → Holds n submitted closed p
      → GoodRound submitted closed (on_executed n r (record p { ongoing_execution = none }))
  on_executed-Holds submitted closed p (finished (outs, none)) txs room unmined left h = (
    record {
      order =
          ap (λ z. closed ++ (executed_txs n (p.executors p.executor) ++ (z ++ flatten p.queued)))
            (sym left)
          ∙ h.order;
      known = h.known;
      executes_here = λ t e. absurd (none-some t e);
      mines_here = h.mines_here;
      one_task = λ t e. refl;
      full_idle = λ f. (refl, unmined);
      drained = h.drained;
    },
    room,
  )
  on_executed-Holds submitted closed p (finished (outs, some rest)) txs room unmined left h =
      record {
        order =
            ap (λ z. closed ++ (executed_txs n (p.executors p.executor) ++ (z ++ flatten p.queued)))
              (sym left)
            ∙ h.order;
        known = h.known;
        executes_here = λ t e. absurd (none-some t e);
        mines_here = h.mines_here;
        one_task = λ t e. refl;
        full_idle = λ f. (refl, unmined);
        drained = h.drained;
      }
  on_executed-Holds submitted closed p (failed_with e) txs room unmined left h = tt
  on_executed-Holds submitted closed p cancelled txs room unmined left h = tt

  poll_execution-Holds :
      (submitted closed : List Tx) (p : Producer n)
      → p.is_block_full ≡ false
      → Holds n submitted closed p
      → GoodRound submitted closed (poll_execution n p)
  unfolding poll_execution
  poll_execution-Holds submitted closed p room h = elim (Option-cases p.ongoing_execution) [
    | inl e ↦ subst (λ o. GoodRound submitted closed (on_task n o p)) (sym e) h
    | inr (task, e) ↦
        subst (λ o. GoodRound submitted closed (on_task n o p)) (sym e)
          (elim (Option-cases task.result) [
            | inl none_yet ↦
                subst (λ r. GoodRound submitted closed (on_result n r p)) (sym none_yet) h
            | inr (r, done) ↦
                subst (λ r. GoodRound submitted closed (on_result n r p)) (sym done)
                  (on_executed-Holds submitted closed p r task.txs room (unmined task e)
                    (ap (in_flight n) e ∙ ap (λ r. left_over n r task.txs) done) h)
          ])
  ]
    where
      unmined : (task : ExecutionTask n) → p.ongoing_execution ≡ some task → p.ongoing_mining ≡ none
      unmined task e = elim (Option-cases p.ongoing_mining) [
        | inl m ↦ m
        | inr (t, m) ↦ absurd (none-some task (sym (h.one_task t m) ∙ e))
      ]

  abbrev pub GoodLoop : List Tx → List Tx → Option (Round n × Producer n) → Type 0
  GoodLoop submitted closed none = Unit
  GoodLoop submitted closed (some (again, p)) = Holds n submitted closed p
  GoodLoop submitted closed (some (leave, p)) = Holds n submitted closed p
  GoodLoop submitted closed (some (return_error e, p)) = Unit

  next_round-Holds :
      (submitted closed : List Tx) (r : Round n × Producer n)
      (rest : Producer n → Option (Round n × Producer n))
      → GoodRound submitted closed r
      → ((p : Producer n)
          → p.is_block_full ≡ false
          → Holds n submitted closed p
          → GoodLoop submitted closed (rest p))
      → GoodLoop submitted closed (next_round n rest r)
  next_round-Holds submitted closed (again, p) rest g k = k p g.1 g.0
  next_round-Holds submitted closed (leave, p) rest g k = g
  next_round-Holds submitted closed (return_error e, p) rest g k = tt

  pub execution_loop-Holds :
      (rounds : ℕ) (submitted closed : List Tx) (p : Producer n)
      → p.is_block_full ≡ false
      → Holds n submitted closed p
      → GoodLoop submitted closed (execution_loop n rounds p)
  unfolding execution_loop
  execution_loop-Holds zero submitted closed p room h = tt
  execution_loop-Holds (suc rounds) submitted closed p room h =
      let s = start_execution-Holds submitted closed p room h in
      next_round-Holds submitted closed _ (execution_loop n rounds)
        (poll_execution-Holds submitted closed (start_execution n p) s.1 s.0)
        (λ q. execution_loop-Holds rounds submitted closed q)
