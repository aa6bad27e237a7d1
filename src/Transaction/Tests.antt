-- ===== src/Transaction/Tests.antt =====
-- Runs of the transaction hashes (crates/primitives/src/transaction.rs), with simple hash functions.
use katana.Base.{ℕ, ◌+◌, ◌≡◌, ◌⊎◌, refl, true, false, some, List, [], ◌∷◌, arith, length}
use katana.Transaction.{
  ChainId, NamedChainId, ResourceBoundsMapping, all, InvokeTxV1, InvokeTxV3, DeclareTxV3,
  DeployAccountTxV3, ExecutableTx, v3, l1, l2,
}
use katana.Transaction.Hash.{
  compute_invoke_v3_tx_hash, compute_declare_v3_tx_hash, compute_deploy_account_v3_tx_hash,
  invoke_hash, calculate_hash,
}
use katana.Transaction.Collision.{Clash, Clashes, pairs}
use katana.Transaction.Binding.{
  invoke_v1_inputs, invoke_v3_inputs, SameInvokeV1, SameInvokeV3, compute_invoke_v1_tx_hash-binds,
  compute_invoke_v3_tx_hash-binds,
}
use katana.Transaction.AccountBinding.{
  declare_v3_inputs, deploy_account_v3_inputs, SameDeclareV3, SameDeployV3,
  compute_declare_v3_tx_hash-binds, compute_deploy_account_v3_tx_hash-binds,
}
use katana.Transaction.Convert.{executable_type}
use katana.Transaction.Kind.{hash_by, hashed_elements, calculate_hash-same_type}

-- A hash of a sequence for the examples: the sum of its elements, each plus one.
abbrev digits : List ℕ → ℕ
digits [] = 0
digits (x ∷ xs) = digits xs + x + 1

abbrev chain : ChainId
chain = ChainId.named NamedChainId.sepolia

abbrev mapping : ResourceBoundsMapping
mapping = all (record {
  l1_gas = record { max_amount = 10; max_price_per_unit = 20 };
  l2_gas = record { max_amount = 30; max_price_per_unit = 40 };
  l1_data_gas = record { max_amount = 50; max_price_per_unit = 60 };
})

abbrev invoke_v1 : InvokeTxV1
invoke_v1 = record {
  chain_id = chain;
  sender_address = 5;
  nonce = 3;
  calldata = 1 ∷ 2 ∷ [];
  signature = [];
  max_fee = 10;
}

abbrev invoke_v3 : List ℕ → InvokeTxV3
invoke_v3 signature = record {
  chain_id = chain;
  sender_address = 5;
  nonce = 3;
  calldata = 1 ∷ 2 ∷ [];
  signature = signature;
  resource_bounds = mapping;
  tip = 4;
  paymaster_data = [];
  account_deployment_data = [];
  nonce_data_availability_mode = l1;
  fee_data_availability_mode = l2;
}

abbrev declare_v3 : List ℕ → DeclareTxV3
declare_v3 signature = record {
  chain_id = chain;
  sender_address = 5;
  nonce = 3;
  signature = signature;
  class_hash = 77;
  compiled_class_hash = 78;
  resource_bounds = mapping;
  tip = 4;
  paymaster_data = [];
  account_deployment_data = [];
  nonce_data_availability_mode = l1;
  fee_data_availability_mode = l2;
}

abbrev deploy_v3 : List ℕ → DeployAccountTxV3
deploy_v3 signature = record {
  chain_id = chain;
  nonce = 0;
  signature = signature;
  class_hash = 77;
  contract_address = 5;
  contract_address_salt = 6;
  constructor_calldata = 8 ∷ [];
  resource_bounds = mapping;
  tip = 4;
  paymaster_data = [];
  nonce_data_availability_mode = l1;
  fee_data_availability_mode = l2;
}

invoke_v1_bound :
    ((true ≡ true) × SameInvokeV1 invoke_v1 invoke_v1)
    ⊎ Clashes digits
        (pairs (invoke_v1_inputs digits invoke_v1 true) (invoke_v1_inputs digits invoke_v1 true))
invoke_v1_bound = compute_invoke_v1_tx_hash-binds digits invoke_v1 invoke_v1 true true refl

-- The signature is not hashed.
invoke_v3_alike :
    compute_invoke_v3_tx_hash digits (invoke_v3 []) false
    ≡ compute_invoke_v3_tx_hash digits (invoke_v3 (9 ∷ [])) false
unfolding compute_invoke_v3_tx_hash
invoke_v3_alike = refl

compute_invoke_v3_tx_hash-binds_example :
    ((false ≡ false) × SameInvokeV3 (invoke_v3 []) (invoke_v3 (9 ∷ [])))
    ⊎ Clashes digits (
        pairs
          (invoke_v3_inputs digits (invoke_v3 []) false)
          (invoke_v3_inputs digits (invoke_v3 (9 ∷ [])) false))
compute_invoke_v3_tx_hash-binds_example =
    compute_invoke_v3_tx_hash-binds digits (invoke_v3 []) (invoke_v3 (9 ∷ [])) false false
      ((omega arith, omega arith), (omega arith, omega arith), (omega arith, omega arith))
      ((omega arith, omega arith), (omega arith, omega arith), (omega arith, omega arith))
      invoke_v3_alike

declare_v3_alike :
    compute_declare_v3_tx_hash digits (declare_v3 []) false
    ≡ compute_declare_v3_tx_hash digits (declare_v3 (9 ∷ [])) false
unfolding compute_declare_v3_tx_hash
declare_v3_alike = refl

compute_declare_v3_tx_hash-binds_example :
    ((false ≡ false) × SameDeclareV3 (declare_v3 []) (declare_v3 (9 ∷ [])))
    ⊎ Clashes digits (
        pairs
          (declare_v3_inputs digits (declare_v3 []) false)
          (declare_v3_inputs digits (declare_v3 (9 ∷ [])) false))
compute_declare_v3_tx_hash-binds_example =
    compute_declare_v3_tx_hash-binds digits (declare_v3 []) (declare_v3 (9 ∷ [])) false false
      ((omega arith, omega arith), (omega arith, omega arith), (omega arith, omega arith))
      ((omega arith, omega arith), (omega arith, omega arith), (omega arith, omega arith))
      declare_v3_alike

deploy_v3_alike :
    compute_deploy_account_v3_tx_hash digits (deploy_v3 []) false
    ≡ compute_deploy_account_v3_tx_hash digits (deploy_v3 (9 ∷ [])) false
unfolding compute_deploy_account_v3_tx_hash
deploy_v3_alike = refl

deploy_account_v3_tx_hash-binds_two :
    ((false ≡ false) × SameDeployV3 (deploy_v3 []) (deploy_v3 (9 ∷ [])))
    ⊎ Clashes digits (
        pairs
          (deploy_account_v3_inputs digits (deploy_v3 []) false)
          (deploy_account_v3_inputs digits (deploy_v3 (9 ∷ [])) false))
deploy_account_v3_tx_hash-binds_two =
    compute_deploy_account_v3_tx_hash-binds digits (deploy_v3 []) (deploy_v3 (9 ∷ [])) false false
      ((omega arith, omega arith), (omega arith, omega arith), (omega arith, omega arith))
      ((omega arith, omega arith), (omega arith, omega arith), (omega arith, omega arith))
      deploy_v3_alike

abbrev as_invoke : List ℕ → ExecutableTx
as_invoke signature = ExecutableTx.invoke (v3 (invoke_v3 signature))

abbrev hash_of_invoke : ℕ
hash_of_invoke = compute_invoke_v3_tx_hash length (invoke_v3 []) false

invoke_hashed :
    (s : List ℕ) → calculate_hash digits length (as_invoke s) false ≡ some hash_of_invoke
unfolding calculate_hash invoke_hash compute_invoke_v3_tx_hash
invoke_hashed s = refl

-- The number of elements serves as the second hash function.
calculate_hash-same_type_example :
    (executable_type (as_invoke []) ≡ executable_type (as_invoke (9 ∷ [])))
    ⊎ Clash (hash_by digits length true) (
      hashed_elements digits length (as_invoke []) false,
      hashed_elements digits length (as_invoke (9 ∷ [])) false,
    )
calculate_hash-same_type_example =
    calculate_hash-same_type digits length (as_invoke []) (as_invoke (9 ∷ [])) false false
      hash_of_invoke (invoke_hashed []) (invoke_hashed (9 ∷ [])) refl
