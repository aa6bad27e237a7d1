-- ===== src/Producer/Held.antt =====
-- What the interval block producer holds: crates/core/src/service/block_producer.rs.
use katana.Base.{
  ℕ, ◌<◌, ◌≡◌, refl, ◌∙◌, ap, sym, true, Option, none, some, List, [], ◌∷◌, ◌++◌, append-nil,
  append_assoc, ==_refl,
}
use katana.Producer.Backend.{Backend, executed_txs}
use katana.Producer.Interval.{
  Producer, ExecutionTask, MiningTask, TaskResult, finished, failed_with, cancelled, TxWithOutcome,
  flatten, set_at, queue,
}

pub flatten-append :
    {A : Type 0} (xss : List (List A)) (xs : List A)
    → flatten (xss ++ (xs ∷ [])) ≡ flatten xss ++ xs
flatten-append [] xs = append-nil xs
flatten-append (ys ∷ xss) xs =
    ap (λ z. ys ++ z) (flatten-append xss xs) ∙ sym (append_assoc ys (flatten xss) xs)

-- Moving a list's last part out of the brackets.
pub regroup :
    {A : Type 0} (c e i q t : List A) → c ++ (e ++ (i ++ (q ++ t))) ≡ (c ++ (e ++ (i ++ q))) ++ t
regroup c e i q t = simp append_assoc refl

pub set_at_same : {A : Type 0} (f : ℕ → A) (i : ℕ) (a : A) → set_at f i a i ≡ a
set_at_same f i a = rw (==_refl i) refl

module _ (n : Backend) where
  open n use {Tx, Executor, Outcome, transactions}

  abbrev pub left_over :
      Option (TaskResult (List (TxWithOutcome n) × Option (List Tx))) → List Tx → List Tx
  left_over none txs = txs
  left_over (some (finished (results, some rest))) txs = rest
  left_over (some (finished (results, none))) txs = []
  left_over (some (failed_with e)) txs = []
  left_over (some cancelled) txs = []

  -- The transactions that an ongoing execution has not executed.
  abbrev pub in_flight : Option (ExecutionTask n) → List Tx
  in_flight none = []
  in_flight (some task) = left_over task.result task.txs

  -- The transactions that are executed for the next block, and those that wait.
  abbrev pub held : Producer n → List Tx
  held p =
      executed_txs n (p.executors p.executor) ++ (in_flight p.ongoing_execution ++ flatten p.queued)

  -- Blocks were closed with `closed`, and the rest of what was queued is there in order. One task at a time
  -- runs, on the shared executor.
  pub record Holds (submitted closed : List Tx) (p : Producer n) : Type 0 where
    pub order : closed ++ held p ≡ submitted
    pub known : p.executor < p.created
    pub executes_here : (t : ExecutionTask n) → p.ongoing_execution ≡ some t → t.on ≡ p.executor
    pub mines_here : (t : MiningTask n) → p.ongoing_mining ≡ some t → t.on ≡ p.executor
    pub one_task : (t : MiningTask n) → p.ongoing_mining ≡ some t → p.ongoing_execution ≡ none
    pub full_idle :
        p.is_block_full ≡ true → (p.ongoing_execution ≡ none) × (p.ongoing_mining ≡ none)
    pub drained :
        (t : MiningTask n) (r : TaskResult Outcome)
        → p.ongoing_mining ≡ some t
        → t.result ≡ some r
        → executed_txs n (p.executors p.executor) ≡ []

  pub queue-Holds :
      (submitted closed txs : List Tx) (p : Producer n)
      → Holds submitted closed p
      → Holds (submitted ++ txs) closed (queue n txs p)
  unfolding queue
  queue-Holds submitted closed txs p h = record {
    order =
        ap
          (λ z.
            closed
            ++ (executed_txs n (p.executors p.executor) ++ (in_flight p.ongoing_execution ++ z)))
          (flatten-append p.queued txs)
        ∙ regroup closed _ _ (flatten p.queued) txs
        ∙ ap (λ z. z ++ txs) h.order;
    known = h.known;
    executes_here = h.executes_here;
    mines_here = h.mines_here;
    one_task = h.one_task;
    full_idle = h.full_idle;
    drained = h.drained;
  }
