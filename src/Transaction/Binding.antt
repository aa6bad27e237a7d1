-- ===== src/Transaction/Binding.antt =====
-- What a hash says of an invoke transaction's content: the functions of
-- crates/primitives/src/utils/transaction.rs.
use katana.Base.{List, [], ◌∷◌, sym, ◌∙◌, ℕ, ◌≡◌, ◌⊎◌, inl, Bool, List}
use katana.Transaction.{InvokeTxV1, InvokeTxV3, chain_felt}
use katana.Transaction.Encode.{encode_da_mode-injective}
use katana.Transaction.Hash.{
  invoke_v1_elements, invoke_v3_elements, compute_invoke_v1_tx_hash, compute_invoke_v3_tx_hash,
}
use katana.Transaction.Collision.{
  Clashes, pairs, ◌>>=◌, same_at, elements, version-injective, IsWords, fee_input, fee_hash-input,
  fee_input-injective,
}

-- What an invoke transaction of version 1 signs.
pub record SameInvokeV1 (a b : InvokeTxV1) : Type 0 where
  pub chain : chain_felt a.chain_id ≡ chain_felt b.chain_id
  pub sender : a.sender_address ≡ b.sender_address
  pub nonce : a.nonce ≡ b.nonce
  pub calldata : a.calldata ≡ b.calldata
  pub max_fee : a.max_fee ≡ b.max_fee

-- The sequences that are hashed: the transaction's, and those whose hashes it has.
abbrev pub invoke_v1_inputs : (List ℕ → ℕ) → InvokeTxV1 → Bool → List (List ℕ)
invoke_v1_inputs pedersen tx is_query = invoke_v1_elements pedersen tx is_query ∷ tx.calldata ∷ []

-- Two invoke transactions of version 1 with one hash agree in chain, sender, nonce, calldata and
-- maximal fee, and both or neither are queries; or two sequences that are hashed
-- at the same place, one for each, differ and have one Pedersen hash.
pub compute_invoke_v1_tx_hash-binds :
    (pedersen : List ℕ → ℕ) (a b : InvokeTxV1) (q q' : Bool)
    → compute_invoke_v1_tx_hash pedersen a q ≡ compute_invoke_v1_tx_hash pedersen b q'
    → ((q ≡ q') × SameInvokeV1 a b)
      ⊎ Clashes pedersen (pairs (invoke_v1_inputs pedersen a q) (invoke_v1_inputs pedersen b q'))
unfolding compute_invoke_v1_tx_hash
compute_invoke_v1_tx_hash-binds pedersen a b q q' h = do
  e ← same_at pedersen 0 (pairs (invoke_v1_inputs pedersen a q) (invoke_v1_inputs pedersen b q')) h
  calldata ←
      same_at pedersen 1 (pairs (invoke_v1_inputs pedersen a q) (invoke_v1_inputs pedersen b q'))
        (elements 4 e)
  inl (
    version-injective 1 q q' (elements 1 e),
    record {
      chain = elements 6 e;
      sender = elements 2 e;
      nonce = elements 7 e;
      calldata = calldata;
      max_fee = elements 5 e;
    },
  )

-- What an invoke transaction of version 3 signs.
pub record SameInvokeV3 (a b : InvokeTxV3) : Type 0 where
  pub chain : chain_felt a.chain_id ≡ chain_felt b.chain_id
  pub sender : a.sender_address ≡ b.sender_address
  pub nonce : a.nonce ≡ b.nonce
  pub calldata : a.calldata ≡ b.calldata
  pub tip : a.tip ≡ b.tip
  pub bounds : a.resource_bounds ≡ b.resource_bounds
  pub paymaster : a.paymaster_data ≡ b.paymaster_data
  pub deployment : a.account_deployment_data ≡ b.account_deployment_data
  pub nonce_mode : a.nonce_data_availability_mode ≡ b.nonce_data_availability_mode
  pub fee_mode : a.fee_data_availability_mode ≡ b.fee_data_availability_mode

-- The sequences that are hashed: the transaction's, and those whose hashes it has.
abbrev pub invoke_v3_inputs : (List ℕ → ℕ) → InvokeTxV3 → Bool → List (List ℕ)
invoke_v3_inputs poseidon tx is_query =
    invoke_v3_elements poseidon tx is_query
    ∷ fee_input tx.tip tx.resource_bounds
    ∷ tx.paymaster_data
    ∷ tx.account_deployment_data
    ∷ tx.calldata
    ∷ []

-- Two invoke transactions of version 3 with one hash, whose gas amounts fit 64 bits and whose gas
-- prices fit 128 bits, agree in everything but the signature, and both or neither are queries; or
-- two sequences that are hashed at the same place, one for each, differ and have one Poseidon hash.
pub compute_invoke_v3_tx_hash-binds :
    (poseidon : List ℕ → ℕ) (a b : InvokeTxV3) (q q' : Bool)
    → IsWords a.resource_bounds
    → IsWords b.resource_bounds
    → compute_invoke_v3_tx_hash poseidon a q ≡ compute_invoke_v3_tx_hash poseidon b q'
    → ((q ≡ q') × SameInvokeV3 a b)
      ⊎ Clashes poseidon (pairs (invoke_v3_inputs poseidon a q) (invoke_v3_inputs poseidon b q'))
unfolding compute_invoke_v3_tx_hash
compute_invoke_v3_tx_hash-binds poseidon a b q q' w w' h = do
  e ← same_at poseidon 0 (pairs (invoke_v3_inputs poseidon a q) (invoke_v3_inputs poseidon b q')) h
  fee ←
      same_at poseidon 1 (pairs (invoke_v3_inputs poseidon a q) (invoke_v3_inputs poseidon b q')) (
        sym (fee_hash-input poseidon a.tip a.resource_bounds)
        ∙ elements 3 e
        ∙ fee_hash-input poseidon b.tip b.resource_bounds)
  paymaster ←
      same_at poseidon 2 (pairs (invoke_v3_inputs poseidon a q) (invoke_v3_inputs poseidon b q'))
        (elements 4 e)
  deployment ←
      same_at poseidon 3 (pairs (invoke_v3_inputs poseidon a q) (invoke_v3_inputs poseidon b q'))
        (elements 8 e)
  calldata ←
      same_at poseidon 4 (pairs (invoke_v3_inputs poseidon a q) (invoke_v3_inputs poseidon b q'))
        (elements 9 e)
  let fees = fee_input-injective a.tip b.tip a.resource_bounds b.resource_bounds w w' fee
  let modes = encode_da_mode-injective _ _ _ _ (elements 7 e)
  inl (
    version-injective 3 q q' (elements 1 e),
    record {
      chain = elements 5 e;
      sender = elements 2 e;
      nonce = elements 6 e;
      calldata = calldata;
      tip = fees.0;
      bounds = fees.1;
      paymaster = paymaster;
      deployment = deployment;
      nonce_mode = modes.0;
      fee_mode = modes.1;
    },
  )
