-- ===== src/Producer/Backend.antt =====
-- What block producers use of the backend, of the executor and of the pool's validator:
-- crates/core/src/backend/mod.rs, crates/executor/src/abstraction/executor.rs.
use katana.Base.{
  ℕ, ◌≤◌, ◌≡◌, refl, Bool, false, Option, none, some, List, [], ◌++◌, map, length, take,
}

-- The errors of the provider and of the executor are numbers.
pub data BlockProductionError : Type 0 where
  provider_error transaction_execution_error : ℕ → BlockProductionError
  execution_task_cancelled : BlockProductionError

pub data ProductionResult (A : Type 0) : Type 0 where
  ok : A → ProductionResult A
  err : BlockProductionError → ProductionResult A
  panicked : ProductionResult A

module _ {A B : Type 0} where
  infixl 1 ◌>>=◌
  abbrev pub ◌>>=◌ : ProductionResult A → (A → ProductionResult B) → ProductionResult B
  ok a >>= f = f a
  err e >>= f = err e
  panicked >>= f = panicked

-- If two steps end well, the first one did.
pub ok-first :
    {A B : Type 0} (first : ProductionResult A) (next : A → ProductionResult B) {last : B}
    → (first >>= next) ≡ ok last
    → (found : A) × (first ≡ ok found) × (next found ≡ ok last)
ok-first panicked next ended = cc
ok-first (err e) next ended = cc
ok-first (ok found) next ended = (found, refl, ended)

-- `unwrap`.
abbrev pub unwrap : {A : Type 0} → Option A → ProductionResult A
unwrap none = panicked
unwrap (some a) = ok a

-- `unwrap` and `expect` on a result.
abbrev pub expect : {A : Type 0} → ProductionResult A → ProductionResult A
expect (ok a) = ok a
expect (err e) = panicked
expect panicked = panicked

pub data ExecutionResult : Type 0 where
  success : ℕ → ExecutionResult
  failed : ExecutionResult

-- A block to execute is given by its parent's hash, the environment that its header is made of, and its body.
-- `Chain` is the state of the backend behind its locks: the provider's database, the block context
-- generator and the gas oracle.
pub record Backend : Type 1 where
  pub Tx : Type 0
  pub Env : Type 0
  pub State : Type 0
  pub Output : Type 0
  pub Outcome : Type 0
  pub Executor : Type 0
  pub Chain : Type 0
  pub Validator : Type 0
  pub execute_transactions : Executor → List Tx → ProductionResult (ℕ × Bool) × Executor
  pub take_execution_output : Executor → ProductionResult Output × Executor
  pub transactions : Executor → List (Tx × ExecutionResult)
  pub block_env : Executor → Env
  pub state : Executor → State
  pub with_state_and_block_env : State → Env → Executor
  pub latest_number : Chain → ProductionResult ℕ
  pub latest : Chain → ProductionResult State
  pub block_env_at : Chain → ℕ → ProductionResult (Option Env)
  pub update_block_env : Chain → Env → Env × Chain
  pub do_mine_block : Chain → Env → Output → ProductionResult Outcome × Chain
  pub latest_hash : Chain → ProductionResult ℕ
  pub with_state : State → Executor
  pub execute_block : Executor → ℕ → Env → List Tx → ProductionResult (Unit {0}) × Executor
  pub output_transactions : Output → List (Tx × ExecutionResult)
  pub update_validator : Validator → State → Env → Validator

-- What the documentation of `BlockExecutor` says: execution adds results for as many of the first
-- transactions as it counts, which are all unless the block is full; a new executor has executed none,
-- and neither has one whose output was taken, which has the transactions that were executed.
module _ (n : Backend) where
  open n use {
    Tx, Env, State, Output, Executor, execute_transactions, take_execution_output, transactions,
    with_state_and_block_env, output_transactions,
  }

  abbrev pub executed_txs : Executor → List Tx
  executed_txs e = map (λ r. r.0) (transactions e)

  -- The transactions of a block that is made of the output.
  abbrev pub block_txs : Output → List Tx
  block_txs o = map (λ r. r.0) (output_transactions o)

  pub record IsExecutor : Type 0 where
    pub fresh : (s : State) (env : Env) → transactions (with_state_and_block_env s env) ≡ []
    pub taken :
        (e e' : Executor) (o : Output) → take_execution_output e ≡ (ok o, e') → transactions e' ≡ []
    pub gathered :
        (e e' : Executor) (o : Output)
        → take_execution_output e ≡ (ok o, e')
        → block_txs o ≡ executed_txs e
    pub counted :
        (e e' : Executor) (txs : List Tx) (count : ℕ) (full : Bool)
        → execute_transactions e txs ≡ (ok (count, full), e')
        → (count ≤ length txs) × (executed_txs e' ≡ executed_txs e ++ take count txs)
    pub all_if_room :
        (e e' : Executor) (txs : List Tx) (count : ℕ)
        → execute_transactions e txs ≡ (ok (count, false), e')
        → count ≡ length txs
