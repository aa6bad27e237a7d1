-- ===== src/Producer/Tests.antt =====
-- Runs of the interval block producer over a small node: crates/core/src/service/block_producer.rs.
use katana.Base.{
  ℕ, ◌+◌, ◌-◌, ◌≡◌, ◌∙◌, refl, sym, ap, Bool, true, false, Option, none, some, List, [], ◌∷◌, ◌++◌,
  map, arith, length, take, take_all, if◌then◌else◌, leb,
}
use katana.Producer.Backend.{
  Backend, IsExecutor, ProductionResult, ok, err, panicked, ExecutionResult, success,
  transaction_execution_error,
}
use katana.Producer.Interval.{
  Producer, ExecutionTask, waits, new, queue, run_transactions, do_mine, poll_interval,
  execution_loop, start_mining, start_execution, poll_execution, poll_mining,
  create_new_executor_for_next_block, run_mining, run_execution, force_mine, set_at,
}
use katana.Producer.Held.{held}
use katana.Producer.Locked.{
  Later, now, queued, polled, NoBlock, after_failure, force_mine-keeps_permit,
}
use katana.Producer.Runs.{Runs, starts, queues, executes, forces, polls, Runs-order}

abbrev results : List ℕ → List (ℕ × ExecutionResult)
results [] = []
results (tx ∷ txs) = (tx, success tx) ∷ results txs

-- A block takes `room` transactions. The executor is what it has executed, and the chain is the number of its
-- last block.
abbrev node_with :
    (room : ℕ)
    → (List (ℕ × ExecutionResult) → ProductionResult (List (ℕ × ExecutionResult)))
    → Backend
node_with room output = record {
  Tx = ℕ;
  Env = ℕ;
  State = ℕ;
  Output = List (ℕ × ExecutionResult);
  Outcome = ℕ;
  Executor = List (ℕ × ExecutionResult);
  Chain = ℕ;
  Validator = ℕ;
  execute_transactions = λ e txs.
      if leb (length e + length txs) room
      then (ok (length txs, false), e ++ results txs)
      else (ok (room - length e, true), e ++ results (take (room - length e) txs));
  take_execution_output = λ e. (output e, []);
  transactions = λ e. e;
  block_env = λ e. 0;
  state = λ e. 0;
  with_state_and_block_env = λ s env. [];
  latest_number = λ c. ok c;
  latest = λ c. ok 0;
  block_env_at = λ c number. ok (some number);
  update_block_env = λ c env. (env + 1, c);
  do_mine_block = λ c env out. (ok (c + 1), c + 1);
  latest_hash = λ c. ok c;
  with_state = λ s. [];
  execute_block = λ e parent env txs. (ok tt, e ++ results txs);
  output_transactions = λ out. out;
  update_validator = λ v s env. env;
}

abbrev node : Backend
node = node_with 3 (λ e. ok e)

map-results : (txs : List ℕ) → map (λ r. r.0) (results txs) ≡ txs
map-results [] = refl
map-results (tx ∷ txs) = ap (◌∷◌ tx) (map-results txs)

-- A block with no limit.
abbrev unlimited : Backend
unlimited = record node {
  execute_transactions = λ e txs. (ok (length txs, false), e ++ results txs);
}

map-append_results :
    (e : List (ℕ × ExecutionResult)) (txs : List ℕ)
    → map (λ r. r.0) (e ++ results txs) ≡ map (λ r. r.0) e ++ txs
map-append_results [] txs = map-results txs
map-append_results (r ∷ e) txs = ap (◌∷◌ r.0) (map-append_results e txs)

abbrev count_of : ProductionResult (ℕ × Bool) × List (ℕ × ExecutionResult) → ℕ
count_of (ok (count, full), e) = count
count_of (err x, e) = 0
count_of (panicked, e) = 0

abbrev output_in :
    List (ℕ × ExecutionResult)
    → ProductionResult (List (ℕ × ExecutionResult)) × List (ℕ × ExecutionResult)
    → List (ℕ × ExecutionResult)
output_in e (ok o, e') = o
output_in e (err x, e') = e
output_in e (panicked, e') = e

unlimited-IsExecutor : IsExecutor unlimited
unlimited-IsExecutor = record {
  fresh = λ s env. refl;
  taken = λ e e' o h. sym (ap (λ z. z.1) h);
  gathered = λ e e' o h. ap (λ z. map (λ r. r.0) (output_in e z)) (sym h);
  counted = λ e e' txs count full h. (
    let q = ap count_of h in omega (arith, q),
    sym (ap (λ z. map (λ r. r.0) z.1) h)
        ∙ map-append_results e txs
        ∙ ap (λ z. map (λ r. r.0) e ++ z)
            (sym (take_all count txs (let q = ap count_of h in omega (arith, q)))),
  );
  all_if_room = λ e e' txs count h. sym (ap count_of h);
}

abbrev started :
    (n : Backend)
    → n.Chain
    → n.Validator
    → (n.State → n.Env → n.Validator)
    → n.Executor
    → Producer n
started n c v new_validator e = record {
  block_time = some 10;
  chain = c;
  executors = λ i. e;
  created = 1;
  executor = 0;
  queued = [];
  ongoing_mining = none;
  ongoing_execution = none;
  permit = false;
  validator = v;
  timer = none;
  is_block_full = false;
}

abbrev start : Producer unlimited
start = started unlimited 5 6 (λ s env. env) []

-- The task that a poll spawned for two transactions.
abbrev spawned : ExecutionTask unlimited
spawned = record { on = 0; txs = 1 ∷ 2 ∷ []; result = none }

abbrev executing : Producer unlimited
executing = record start { ongoing_execution = some spawned; timer = some 10 }

abbrev or_forced : {A : Type 0} → A → Option (ProductionResult A) → A
or_forced a none = a
or_forced a (some (ok q)) = q
or_forced a (some (err e)) = a
or_forced a (some panicked) = a

-- The execution is taken up, a block is forced, and more is queued.
abbrev executed : Producer unlimited
executed = record start { timer = some 10; executors = set_at (λ i. []) 0 (results (1 ∷ 2 ∷ [])) }

abbrev forced : Producer unlimited
forced = or_forced start (force_mine unlimited executed)

forced-Runs : Runs unlimited start ([] ++ (1 ∷ 2 ∷ [])) ([] ++ (1 ∷ 2 ∷ [])) forced
unfolding queue run_transactions poll_interval execution_loop start_mining start_execution
    poll_execution poll_mining force_mine do_mine create_new_executor_for_next_block
forced-Runs =
    forces
      (polls
        (executes (polls (queues starts (1 ∷ 2 ∷ [])) false waits executing (λ e. refl) refl tt)
          spawned _ none (results (1 ∷ 2 ∷ [])) refl refl refl)
        false waits executed (λ e. absurd (cc)) refl tt)
      (results (1 ∷ 2 ∷ [])) 6 forced refl refl
      (record { drained = []; chain = 6; takes = refl; closes = refl }) refl

Runs-order_example :
    (1 ∷ 2 ∷ []) ++ held unlimited (queue unlimited (3 ∷ []) forced) ≡ 1 ∷ 2 ∷ 3 ∷ []
unfolding new create_new_executor_for_next_block
Runs-order_example =
    Runs-order unlimited unlimited-IsExecutor 5 (some 10) (λ s env. env) start
      (queue unlimited (3 ∷ []) forced) (1 ∷ 2 ∷ 3 ∷ []) (1 ∷ 2 ∷ []) refl
      (queues forced-Runs (3 ∷ []))

abbrev answer_of : {A B : Type 0} → B → Option (A × B) → B
answer_of b none = b
answer_of b (some (a, b')) = b'

-- A node whose executors refuse their output.
abbrev exhausted : Backend
exhausted = node_with 3 (λ e. err (transaction_execution_error 7))

abbrev exhausted_start : Producer exhausted
exhausted_start = started exhausted 5 6 (λ s env. env) []

-- After it, two transactions are queued and polled.
abbrev stuck : Producer exhausted
stuck = answer_of (after_failure exhausted exhausted_start) (
    poll_interval exhausted true
      (queue exhausted (1 ∷ 2 ∷ []) (after_failure exhausted exhausted_start)))

stuck-Later : Later exhausted (after_failure exhausted exhausted_start) stuck
unfolding queue do_mine poll_interval execution_loop start_mining start_execution poll_execution
    poll_mining
stuck-Later = polled (queued now (1 ∷ 2 ∷ [])) true waits stuck refl

force_mine-keeps_permit_example :
    (force_mine exhausted exhausted_start ≡ some (ok (after_failure exhausted exhausted_start)))
    × (force_mine exhausted stuck ≡ none)
    × (run_mining exhausted stuck ≡ none)
    × NoBlock exhausted 0 (poll_interval exhausted true stuck)
    × (stuck.executor ≡ 0)
unfolding do_mine
force_mine-keeps_permit_example =
    force_mine-keeps_permit exhausted exhausted_start stuck (transaction_execution_error 7) true
      refl tt refl stuck-Later

-- Where the timer ticks during an execution, and the mining takes the executor first, the
-- transactions are executed on an executor that is dropped: nothing of them is left.
abbrev or_stay : {A : Type 0} → A → Option A → A
or_stay a none = a
or_stay a (some a') = a'

abbrev poll_of : Bool → Producer node → Producer node
poll_of tick p = answer_of p (poll_interval node tick p)

abbrev overlapped : Producer node
overlapped =
    let p =
      poll_of true (poll_of false (queue node (1 ∷ 2 ∷ []) (started node 5 6 (λ s env. env) []))) in
    let q = or_stay p (run_mining node p) in poll_of false (or_stay q (run_execution node q))

overlapped-loses : held node overlapped ≡ []
unfolding queue run_transactions do_mine run_mining run_execution create_new_executor_for_next_block
    poll_interval execution_loop start_mining start_execution poll_execution poll_mining
overlapped-loses = refl

-- A full block leaves transactions over, which the next poll keeps in front.
abbrev filled : Producer node
filled =
    let p = poll_of false (queue node (1 ∷ 2 ∷ 3 ∷ 4 ∷ []) (started node 5 6 (λ s env. env) [])) in
    poll_of false (or_stay p (run_execution node p))

filled-leftovers : (filled.queued ≡ (4 ∷ []) ∷ []) × (filled.is_block_full ≡ true)
unfolding queue run_transactions run_execution poll_interval execution_loop start_mining
    start_execution poll_execution poll_mining
filled-leftovers = (refl, refl)

-- A mining that is forced while a spawned execution has not run: the execution then runs on the old
-- executor, and nothing is left of its transactions.
abbrev forced_over : Producer node
forced_over =
    let p = poll_of false (queue node (1 ∷ 2 ∷ []) (started node 5 6 (λ s env. env) [])) in
    let q = or_forced p (force_mine node p) in poll_of false (or_stay q (run_execution node q))

forced_over-loses : held node forced_over ≡ []
unfolding queue run_transactions do_mine force_mine run_execution create_new_executor_for_next_block
    poll_interval execution_loop start_mining start_execution poll_execution poll_mining
forced_over-loses = refl
