-- ===== src/Pool/Validate.antt =====
-- The stateful validator: crates/pool/src/validation/stateful.rs. What blockifier's stateful
-- validator and the state provider answer comes from outside.
use katana.Base.{
  ℕ, ◌+◌, ◌%◌, Bool, true, false, not, ◌&&◌, ◌||◌, Option, none, some, List, [], ◌∷◌, ltb, ◌==◌,
  if◌then◌else◌, unwrap_or,
}
use katana.Transaction.{ChainId, ExecutableTx, ExecutableTxWithHash, class_hash}
use katana.Transaction.Encode.{prime}
use katana.Pool.Sender.{tx_nonce, tx_sender}
use katana.Pool.Inner.{
  ValidationResult, ok, err, valid, invalid, dependent, InvalidTransactionError,
  class_already_declared,
}

pub data StateResult (A : Type 0) : Type 0 where
  found : A → StateResult A
  failed : ℕ → StateResult A

-- The part of `StateProvider` that the validator reads. A class is known by a number.
pub record StateProvider : Type 0 where
  pub class : ℕ → StateResult (Option ℕ)
  pub nonce : ℕ → StateResult (Option ℕ)

-- The environments of a block and of the chain: crates/primitives/src/env.rs, and `GasPrice` of block.rs.
pub record GasPrice : Type 0 where
  pub eth : ℕ
  pub strk : ℕ

pub record BlockEnv : Type 0 where
  pub number : ℕ
  pub timestamp : ℕ
  pub l2_gas_prices : GasPrice
  pub l1_gas_prices : GasPrice
  pub l1_data_gas_prices : GasPrice
  pub sequencer_address : ℕ

pub record FeeTokenAddresses : Type 0 where
  pub strk : ℕ
  pub eth : ℕ

pub record CfgEnv : Type 0 where
  pub chain_id : ChainId
  pub fee_token_addresses : FeeTokenAddresses
  pub invoke_tx_max_n_steps : ℕ
  pub validate_max_n_steps : ℕ
  pub max_recursion_depth : ℕ

-- What `perform_validations` answers for an account transaction, with its error mapped by
-- `map_invalid_tx_err`: the two Booleans are `with_account_validation` and `with_fee`.
pub data Check : Type 0 where
  passed : Check
  rejected : InvalidTransactionError → Check
  broken : ℕ → Check

abbrev pub StatefulValidator : Type 0
StatefulValidator = StateProvider × BlockEnv × CfgEnv → Bool → Bool → ExecutableTxWithHash → Check

pub record ExecutionFlags : Type 0 where
  pub account_validation : Bool
  pub fee : Bool
  pub nonce_check : Bool

pub record Inner : Type 0 where
  pub cfg_env : CfgEnv
  pub block_env : BlockEnv
  pub execution_flags : ExecutionFlags
  pub state : StateProvider
  pub pool_nonces : List (ℕ × ℕ)

-- `HashMap::get` and `HashMap::insert`.
unfoldable pub lookup : ℕ → List (ℕ × ℕ) → Option ℕ
lookup k [] = none
lookup k ((j, v) ∷ m) = if j == k then some v else lookup k m

unfoldable pub put : ℕ → ℕ → List (ℕ × ℕ) → List (ℕ × ℕ)
put k v [] = (k, v) ∷ []
put k v ((j, w) ∷ m) = if j == k then (k, v) ∷ m else (j, w) ∷ put k v m

unfoldable pub new : StateProvider → ExecutionFlags → CfgEnv → BlockEnv → Inner
new state execution_flags cfg_env block_env = record {
  cfg_env = cfg_env;
  block_env = block_env;
  execution_flags = execution_flags;
  state = state;
  pool_nonces = [];
}

-- The nonces that the pool counts on stay as they are.
unfoldable pub update : StateProvider → BlockEnv → Inner → Inner
update new_state block_env this = record this { block_env = block_env; state = new_state }

abbrev pub prepare : Inner → StateProvider × BlockEnv × CfgEnv
prepare this = (this.state, this.block_env, this.cfg_env)

abbrev pub nonce_of : Option ℕ → StateResult (Option ℕ) → StateResult (Option ℕ)
nonce_of (some nonce) stored = found (some nonce)
nonce_of none stored = stored

unfoldable pub pool_nonce : ℕ → Inner → StateResult (Option ℕ)
unfolding lookup
pool_nonce address this = nonce_of (lookup address this.pool_nonces) (this.state.nonce address)

-- The validation function below the trait's method.
unfoldable pub run_check : Check → ExecutableTxWithHash → ValidationResult ExecutableTxWithHash
run_check passed tx = ok (valid tx)
run_check (rejected error) tx = ok (invalid tx error)
run_check (broken error) tx = err tx.hash error

abbrev pub is_l1_handler : ExecutableTx → Bool
is_l1_handler (ExecutableTx.l1_handler tx) = true
is_l1_handler _ = false

-- Deploy-account and declare transactions are never skipped.
abbrev pub skips_validate : ExecutableTx → ℕ → ℕ → Bool
skips_validate (ExecutableTx.deploy_account tx) nonce current = false
skips_validate (ExecutableTx.declare tx) nonce current = false
skips_validate (ExecutableTx.invoke tx) nonce current = nonce == 1 && current == 0
skips_validate (ExecutableTx.l1_handler tx) nonce current = nonce == 1 && current == 0

abbrev pub record_nonce :
    ℕ
    → ℕ
    → ValidationResult ExecutableTxWithHash
    → Inner
    → ValidationResult ExecutableTxWithHash × Inner
record_nonce address current (ok (valid tx)) this = (
  ok (valid tx),
  record this { pool_nonces = put address ((current + 1) % prime) this.pool_nonces },
)
record_nonce address current result this = (result, this)

-- `none` is the panic of `unwrap` on a provider that fails.
abbrev pub current_nonce : StateResult (Option ℕ) → Option ℕ
current_nonce (found stored) = some (unwrap_or 0 stored)
current_nonce (failed e) = none

-- The static check of a declared class, whose answer is returned at once if there is one.
abbrev check_class :
    StateResult (Option ℕ)
    → ℕ
    → ExecutableTxWithHash
    → Option (ValidationResult ExecutableTxWithHash)
check_class (failed e) hash tx = some (err tx.hash e)
check_class (found (some class)) hash tx = some (ok (invalid tx (class_already_declared hash)))
check_class (found none) hash tx = none

unfoldable pub declared_already :
    ExecutableTx
    → ExecutableTxWithHash
    → StateProvider
    → Option (ValidationResult ExecutableTxWithHash)
declared_already (ExecutableTx.declare declare_tx) tx state =
    check_class (state.class (class_hash declare_tx.transaction))
      (class_hash declare_tx.transaction) tx
declared_already _ tx state = none

abbrev pub or_else :
    Option (ValidationResult ExecutableTxWithHash)
    → Inner
    → Option (ValidationResult ExecutableTxWithHash × Inner)
    → Option (ValidationResult ExecutableTxWithHash × Inner)
or_else (some result) this rest = some (result, this)
or_else none this rest = rest

module _ (validator : StatefulValidator) where
  unfoldable pub validate_with :
      StateProvider × BlockEnv × CfgEnv
      → ExecutableTxWithHash
      → Bool
      → Bool
      → ValidationResult ExecutableTxWithHash
  unfolding run_check
  validate_with prepared tx skip_validate skip_fee_check =
      if is_l1_handler tx.transaction
      then ok (valid tx)
      else run_check (validator prepared (not skip_validate) (not skip_fee_check) tx) tx

  -- From the check of the nonce on.
  unfoldable pub validate_nonce :
      ExecutableTxWithHash → ℕ → ℕ → Inner → ValidationResult ExecutableTxWithHash × Inner
  unfolding validate_with
  validate_nonce tx nonce current this =
      if ltb current nonce
      then (ok (dependent tx nonce current), this)
      else record_nonce (tx_sender tx.transaction) current
          (validate_with (prepare this) tx
            (not this.execution_flags.account_validation
              || skips_validate tx.transaction nonce current)
            (not this.execution_flags.fee))
          this

  abbrev pub with_nonce :
      ExecutableTxWithHash
      → ℕ
      → Inner
      → Option ℕ
      → Option (ValidationResult ExecutableTxWithHash × Inner)
  with_nonce tx nonce this none = none
  with_nonce tx nonce this (some current) = some (validate_nonce tx nonce current this)

  abbrev pub with_tx_nonce :
      ExecutableTxWithHash
      → Inner
      → Option ℕ
      → Option (ValidationResult ExecutableTxWithHash × Inner)
  with_tx_nonce tx this none = none
  with_tx_nonce tx this (some nonce) =
      or_else (declared_already tx.transaction tx this.state) this
        (with_nonce tx nonce this (current_nonce (pool_nonce (tx_sender tx.transaction) this)))

  -- `none` stands for a panic.
  unfoldable pub validate :
      ExecutableTxWithHash → Inner → Option (ValidationResult ExecutableTxWithHash × Inner)
  validate tx this = with_tx_nonce tx this (tx_nonce tx.transaction)
