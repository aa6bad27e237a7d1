-- ===== src/Transaction/AccountBinding.antt =====
-- What a hash says of the content of a declare or deploy-account transaction: the functions of
-- crates/primitives/src/utils/transaction.rs.
use katana.Base.{List, [], ◌∷◌, sym, ◌∙◌, ℕ, ◌≡◌, ◌⊎◌, inl, Bool, List}
use katana.Transaction.{DeclareTxV3, DeployAccountTxV3, chain_felt}
use katana.Transaction.Encode.{encode_da_mode-injective}
use katana.Transaction.Hash.{
  declare_v3_elements, deploy_account_v3_elements, compute_declare_v3_tx_hash,
  compute_deploy_account_v3_tx_hash,
}
use katana.Transaction.Collision.{
  Clashes, pairs, ◌>>=◌, same_at, elements, version-injective, IsWords, fee_input, fee_hash-input,
  fee_input-injective,
}

pub record SameDeclareV3 (a b : DeclareTxV3) : Type 0 where
  pub chain : chain_felt a.chain_id ≡ chain_felt b.chain_id
  pub sender : a.sender_address ≡ b.sender_address
  pub nonce : a.nonce ≡ b.nonce
  pub class : a.class_hash ≡ b.class_hash
  pub compiled : a.compiled_class_hash ≡ b.compiled_class_hash
  pub tip : a.tip ≡ b.tip
  pub bounds : a.resource_bounds ≡ b.resource_bounds
  pub paymaster : a.paymaster_data ≡ b.paymaster_data
  pub deployment : a.account_deployment_data ≡ b.account_deployment_data
  pub nonce_mode : a.nonce_data_availability_mode ≡ b.nonce_data_availability_mode
  pub fee_mode : a.fee_data_availability_mode ≡ b.fee_data_availability_mode

-- The sequences that are hashed: the transaction's, and those whose hashes it has.
abbrev pub declare_v3_inputs : (List ℕ → ℕ) → DeclareTxV3 → Bool → List (List ℕ)
declare_v3_inputs poseidon tx is_query =
    declare_v3_elements poseidon tx is_query
    ∷ fee_input tx.tip tx.resource_bounds
    ∷ tx.paymaster_data
    ∷ tx.account_deployment_data
    ∷ []

-- Two declare transactions of version 3 with one hash, whose gas amounts fit 64 bits and whose gas
-- prices fit 128 bits, agree in everything but the signature, and both or neither are queries; or
-- two sequences that are hashed at the same place, one for each, differ and have one Poseidon hash.
pub compute_declare_v3_tx_hash-binds :
    (poseidon : List ℕ → ℕ) (a b : DeclareTxV3) (q q' : Bool)
    → IsWords a.resource_bounds
    → IsWords b.resource_bounds
    → compute_declare_v3_tx_hash poseidon a q ≡ compute_declare_v3_tx_hash poseidon b q'
    → ((q ≡ q') × SameDeclareV3 a b)
      ⊎ Clashes poseidon (pairs (declare_v3_inputs poseidon a q) (declare_v3_inputs poseidon b q'))
unfolding compute_declare_v3_tx_hash
compute_declare_v3_tx_hash-binds poseidon a b q q' w w' h = do
  e ←
      same_at poseidon 0 (pairs (declare_v3_inputs poseidon a q) (declare_v3_inputs poseidon b q'))
        h
  fee ←
      same_at poseidon 1 (pairs (declare_v3_inputs poseidon a q) (declare_v3_inputs poseidon b q'))
        (sym (fee_hash-input poseidon a.tip a.resource_bounds)
          ∙ elements 3 e
          ∙ fee_hash-input poseidon b.tip b.resource_bounds)
  paymaster ←
      same_at poseidon 2 (pairs (declare_v3_inputs poseidon a q) (declare_v3_inputs poseidon b q'))
        (elements 4 e)
  deployment ←
      same_at poseidon 3 (pairs (declare_v3_inputs poseidon a q) (declare_v3_inputs poseidon b q'))
        (elements 8 e)
  let fees = fee_input-injective a.tip b.tip a.resource_bounds b.resource_bounds w w' fee
  let modes = encode_da_mode-injective _ _ _ _ (elements 7 e)
  inl (
    version-injective 3 q q' (elements 1 e),
    record {
      chain = elements 5 e;
      sender = elements 2 e;
      nonce = elements 6 e;
      class = elements 9 e;
      compiled = elements 10 e;
      tip = fees.0;
      bounds = fees.1;
      paymaster = paymaster;
      deployment = deployment;
      nonce_mode = modes.0;
      fee_mode = modes.1;
    },
  )

pub record SameDeployV3 (a b : DeployAccountTxV3) : Type 0 where
  pub chain : chain_felt a.chain_id ≡ chain_felt b.chain_id
  pub address : a.contract_address ≡ b.contract_address
  pub nonce : a.nonce ≡ b.nonce
  pub class : a.class_hash ≡ b.class_hash
  pub salt : a.contract_address_salt ≡ b.contract_address_salt
  pub calldata : a.constructor_calldata ≡ b.constructor_calldata
  pub tip : a.tip ≡ b.tip
  pub bounds : a.resource_bounds ≡ b.resource_bounds
  pub paymaster : a.paymaster_data ≡ b.paymaster_data
  pub nonce_mode : a.nonce_data_availability_mode ≡ b.nonce_data_availability_mode
  pub fee_mode : a.fee_data_availability_mode ≡ b.fee_data_availability_mode

-- The sequences that are hashed: the transaction's, and those whose hashes it has.
abbrev pub deploy_account_v3_inputs : (List ℕ → ℕ) → DeployAccountTxV3 → Bool → List (List ℕ)
deploy_account_v3_inputs poseidon tx is_query =
    deploy_account_v3_elements poseidon tx is_query
    ∷ fee_input tx.tip tx.resource_bounds
    ∷ tx.paymaster_data
    ∷ tx.constructor_calldata
    ∷ []

-- Two deploy-account transactions of version 3 with one hash, whose gas amounts fit 64 bits and whose
-- gas prices fit 128 bits, agree in everything but the signature, and both or neither are queries; or
-- two sequences that are hashed at the same place, one for each, differ and have one Poseidon hash.
pub compute_deploy_account_v3_tx_hash-binds :
    (poseidon : List ℕ → ℕ) (a b : DeployAccountTxV3) (q q' : Bool)
    → IsWords a.resource_bounds
    → IsWords b.resource_bounds
    → compute_deploy_account_v3_tx_hash poseidon a q
      ≡ compute_deploy_account_v3_tx_hash poseidon b q'
    → ((q ≡ q') × SameDeployV3 a b)
      ⊎ Clashes poseidon
          (pairs (deploy_account_v3_inputs poseidon a q) (deploy_account_v3_inputs poseidon b q'))
unfolding compute_deploy_account_v3_tx_hash
compute_deploy_account_v3_tx_hash-binds poseidon a b q q' w w' h = do
  e ←
      same_at poseidon 0
        (pairs (deploy_account_v3_inputs poseidon a q) (deploy_account_v3_inputs poseidon b q')) h
  fee ←
      same_at poseidon 1
        (pairs (deploy_account_v3_inputs poseidon a q) (deploy_account_v3_inputs poseidon b q'))
        (sym (fee_hash-input poseidon a.tip a.resource_bounds)
          ∙ elements 3 e
          ∙ fee_hash-input poseidon b.tip b.resource_bounds)
  paymaster ←
      same_at poseidon 2
        (pairs (deploy_account_v3_inputs poseidon a q) (deploy_account_v3_inputs poseidon b q'))
        (elements 4 e)
  calldata ←
      same_at poseidon 3
        (pairs (deploy_account_v3_inputs poseidon a q) (deploy_account_v3_inputs poseidon b q'))
        (elements 8 e)
  let fees = fee_input-injective a.tip b.tip a.resource_bounds b.resource_bounds w w' fee
  let modes = encode_da_mode-injective _ _ _ _ (elements 7 e)
  inl (
    version-injective 3 q q' (elements 1 e),
    record {
      chain = elements 5 e;
      address = elements 2 e;
      nonce = elements 6 e;
      class = elements 9 e;
      salt = elements 10 e;
      calldata = calldata;
      tip = fees.0;
      bounds = fees.1;
      paymaster = paymaster;
      nonce_mode = modes.0;
      fee_mode = modes.1;
    },
  )
