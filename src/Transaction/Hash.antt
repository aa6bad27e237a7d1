-- ===== src/Transaction/Hash.antt =====
-- Transaction hashes: `calculate_hash` of crates/primitives/src/transaction.rs and the functions of
-- crates/primitives/src/utils/transaction.rs. The Pedersen hash of a sequence (`compute_hash_on_elements`) and
-- the Poseidon hash (`poseidon_hash_many`) are parameters.
use katana.Base.{ℕ, ◌+◌, ◌^◌, Bool, Option, none, some, List, [], ◌∷◌, if◌then◌else◌}
use katana.Transaction
use katana.Transaction.{
  DataAvailabilityMode, ResourceBounds, zero_bounds, ResourceBoundsMapping, l1_gas_only, all,
  InvokeTx, InvokeTxV1, InvokeTxV3, DeclareTx, L1HandlerTx, DeployAccountTx, ExecutableTx,
  chain_felt, v0, v1, v2, v3,
}
use katana.Transaction.Encode.{
  encode_gas_bound, encode_da_mode, l1_gas_name, l2_gas_name, l1_data_name,
}

abbrev pub query_version_offset : ℕ
query_version_offset = 2 ^ 128

-- The Cairo strings "invoke", "declare", "deploy_account" and "l1_handler".
abbrev pub prefix_invoke : ℕ
prefix_invoke = 0x696e766f6b65

abbrev pub prefix_declare : ℕ
prefix_declare = 0x6465636c617265

abbrev pub prefix_deploy_account : ℕ
prefix_deploy_account = 0x6465706c6f795f6163636f756e74

abbrev pub prefix_l1_handler : ℕ
prefix_l1_handler = 0x6c315f68616e646c6572

abbrev pub version : Bool → ℕ → ℕ
version is_query n = if is_query then query_version_offset + n else n

abbrev pub fee_elements : ℕ → ResourceBounds → ResourceBounds → Option ResourceBounds → List ℕ
fee_elements tip l1_gas l2_gas (some data_gas) =
    tip
    ∷ encode_gas_bound l1_gas_name l1_gas
    ∷ encode_gas_bound l2_gas_name l2_gas
    ∷ encode_gas_bound l1_data_name data_gas
    ∷ []
fee_elements tip l1_gas l2_gas none =
    tip ∷ encode_gas_bound l1_gas_name l1_gas ∷ encode_gas_bound l2_gas_name l2_gas ∷ []

module _ (poseidon : List ℕ → ℕ) where
  unfoldable pub hash_fee_fields : ℕ → ResourceBounds → ResourceBounds → Option ResourceBounds → ℕ
  hash_fee_fields tip l1_gas l2_gas l1_data_gas =
      poseidon (fee_elements tip l1_gas l2_gas l1_data_gas)

  -- The bounds that a V3 hash takes from its mapping.
  abbrev pub fee_hash : ℕ → ResourceBoundsMapping → ℕ
  fee_hash tip (all bounds) =
      hash_fee_fields tip bounds.l1_gas bounds.l2_gas (some bounds.l1_data_gas)
  fee_hash tip (l1_gas_only bounds) = hash_fee_fields tip bounds zero_bounds none

  abbrev pub invoke_v3_elements : InvokeTxV3 → Bool → List ℕ
  invoke_v3_elements tx is_query =
      prefix_invoke
      ∷ version is_query 3
      ∷ tx.sender_address
      ∷ fee_hash tx.tip tx.resource_bounds
      ∷ poseidon tx.paymaster_data
      ∷ chain_felt tx.chain_id
      ∷ tx.nonce
      ∷ encode_da_mode tx.nonce_data_availability_mode tx.fee_data_availability_mode
      ∷ poseidon tx.account_deployment_data
      ∷ poseidon tx.calldata
      ∷ []

  unfoldable pub compute_invoke_v3_tx_hash : InvokeTxV3 → Bool → ℕ
  compute_invoke_v3_tx_hash tx is_query = poseidon (invoke_v3_elements tx is_query)

  abbrev pub declare_v3_elements : Transaction.DeclareTxV3 → Bool → List ℕ
  declare_v3_elements tx is_query =
      prefix_declare
      ∷ version is_query 3
      ∷ tx.sender_address
      ∷ fee_hash tx.tip tx.resource_bounds
      ∷ poseidon tx.paymaster_data
      ∷ chain_felt tx.chain_id
      ∷ tx.nonce
      ∷ encode_da_mode tx.nonce_data_availability_mode tx.fee_data_availability_mode
      ∷ poseidon tx.account_deployment_data
      ∷ tx.class_hash
      ∷ tx.compiled_class_hash
      ∷ []

  unfoldable pub compute_declare_v3_tx_hash : Transaction.DeclareTxV3 → Bool → ℕ
  compute_declare_v3_tx_hash tx is_query = poseidon (declare_v3_elements tx is_query)

  abbrev pub deploy_account_v3_elements : Transaction.DeployAccountTxV3 → Bool → List ℕ
  deploy_account_v3_elements tx is_query =
      prefix_deploy_account
      ∷ version is_query 3
      ∷ tx.contract_address
      ∷ fee_hash tx.tip tx.resource_bounds
      ∷ poseidon tx.paymaster_data
      ∷ chain_felt tx.chain_id
      ∷ tx.nonce
      ∷ encode_da_mode tx.nonce_data_availability_mode tx.fee_data_availability_mode
      ∷ poseidon tx.constructor_calldata
      ∷ tx.class_hash
      ∷ tx.contract_address_salt
      ∷ []

  unfoldable pub compute_deploy_account_v3_tx_hash : Transaction.DeployAccountTxV3 → Bool → ℕ
  compute_deploy_account_v3_tx_hash tx is_query = poseidon (deploy_account_v3_elements tx is_query)

module _ (pedersen : List ℕ → ℕ) where
  abbrev pub invoke_v1_elements : InvokeTxV1 → Bool → List ℕ
  invoke_v1_elements tx is_query =
      prefix_invoke
      ∷ version is_query 1
      ∷ tx.sender_address
      ∷ 0
      ∷ pedersen tx.calldata
      ∷ tx.max_fee
      ∷ chain_felt tx.chain_id
      ∷ tx.nonce
      ∷ []

  unfoldable pub compute_invoke_v1_tx_hash : InvokeTxV1 → Bool → ℕ
  compute_invoke_v1_tx_hash tx is_query = pedersen (invoke_v1_elements tx is_query)

  abbrev pub declare_v0_elements : Transaction.DeclareTxV0 → Bool → List ℕ
  declare_v0_elements tx is_query =
      prefix_declare
      ∷ version is_query 0
      ∷ tx.sender_address
      ∷ 0
      ∷ pedersen []
      ∷ tx.max_fee
      ∷ chain_felt tx.chain_id
      ∷ tx.class_hash
      ∷ []

  unfoldable pub compute_declare_v0_tx_hash : Transaction.DeclareTxV0 → Bool → ℕ
  compute_declare_v0_tx_hash tx is_query = pedersen (declare_v0_elements tx is_query)

  abbrev pub declare_v1_elements : Transaction.DeclareTxV1 → Bool → List ℕ
  declare_v1_elements tx is_query =
      prefix_declare
      ∷ version is_query 1
      ∷ tx.sender_address
      ∷ 0
      ∷ pedersen (tx.class_hash ∷ [])
      ∷ tx.max_fee
      ∷ chain_felt tx.chain_id
      ∷ tx.nonce
      ∷ []

  unfoldable pub compute_declare_v1_tx_hash : Transaction.DeclareTxV1 → Bool → ℕ
  compute_declare_v1_tx_hash tx is_query = pedersen (declare_v1_elements tx is_query)

  abbrev pub declare_v2_elements : Transaction.DeclareTxV2 → Bool → List ℕ
  declare_v2_elements tx is_query =
      prefix_declare
      ∷ version is_query 2
      ∷ tx.sender_address
      ∷ 0
      ∷ pedersen (tx.class_hash ∷ [])
      ∷ tx.max_fee
      ∷ chain_felt tx.chain_id
      ∷ tx.nonce
      ∷ tx.compiled_class_hash
      ∷ []

  unfoldable pub compute_declare_v2_tx_hash : Transaction.DeclareTxV2 → Bool → ℕ
  compute_declare_v2_tx_hash tx is_query = pedersen (declare_v2_elements tx is_query)

  abbrev pub l1_handler_elements : L1HandlerTx → List ℕ
  l1_handler_elements tx =
      prefix_l1_handler
      ∷ tx.version
      ∷ tx.contract_address
      ∷ tx.entry_point_selector
      ∷ pedersen tx.calldata
      ∷ 0
      ∷ chain_felt tx.chain_id
      ∷ tx.nonce
      ∷ []

  unfoldable pub compute_l1_handler_tx_hash : L1HandlerTx → ℕ
  compute_l1_handler_tx_hash tx = pedersen (l1_handler_elements tx)

  abbrev pub deploy_account_v1_elements : Transaction.DeployAccountTxV1 → Bool → List ℕ
  deploy_account_v1_elements tx is_query =
      prefix_deploy_account
      ∷ version is_query 1
      ∷ tx.contract_address
      ∷ 0
      ∷ pedersen (tx.class_hash ∷ tx.contract_address_salt ∷ tx.constructor_calldata)
      ∷ tx.max_fee
      ∷ chain_felt tx.chain_id
      ∷ tx.nonce
      ∷ []

  unfoldable pub compute_deploy_account_v1_tx_hash : Transaction.DeployAccountTxV1 → Bool → ℕ
  compute_deploy_account_v1_tx_hash tx is_query = pedersen (deploy_account_v1_elements tx is_query)

module _ (pedersen poseidon : List ℕ → ℕ) where
  -- `none` stands for the `todo!()` of a V0 transaction.
  unfoldable pub invoke_hash : InvokeTx → Bool → Option ℕ
  invoke_hash (v0 tx) is_query = none
  invoke_hash (v1 tx) is_query = some (compute_invoke_v1_tx_hash pedersen tx is_query)
  invoke_hash (v3 tx) is_query = some (compute_invoke_v3_tx_hash poseidon tx is_query)

  unfoldable pub declare_hash : DeclareTx → Bool → ℕ
  declare_hash (v0 tx) is_query = compute_declare_v0_tx_hash pedersen tx is_query
  declare_hash (v1 tx) is_query = compute_declare_v1_tx_hash pedersen tx is_query
  declare_hash (v2 tx) is_query = compute_declare_v2_tx_hash pedersen tx is_query
  declare_hash (v3 tx) is_query = compute_declare_v3_tx_hash poseidon tx is_query

  unfoldable pub deploy_account_hash : DeployAccountTx → Bool → ℕ
  deploy_account_hash (v1 tx) is_query = compute_deploy_account_v1_tx_hash pedersen tx is_query
  deploy_account_hash (v3 tx) is_query = compute_deploy_account_v3_tx_hash poseidon tx is_query

  -- `ExecutableTx::calculate_hash`.
  unfoldable pub calculate_hash : ExecutableTx → Bool → Option ℕ
  calculate_hash (ExecutableTx.l1_handler tx) is_query =
      some (compute_l1_handler_tx_hash pedersen tx)
  calculate_hash (ExecutableTx.invoke tx) is_query = invoke_hash tx is_query
  calculate_hash (ExecutableTx.declare tx) is_query = some (declare_hash tx.transaction is_query)
  calculate_hash (ExecutableTx.deploy_account tx) is_query = some (deploy_account_hash tx is_query)

  -- `ExecutableTxWithHash::new_query`, and `new` with `is_query` false.
  unfoldable pub new_query : ExecutableTx → Bool → Option Transaction.ExecutableTxWithHash
  new_query tx is_query = elim (calculate_hash tx is_query) [
    | none ↦ none
    | some h ↦ some (record { hash = h; transaction = tx })
  ]
