-- ===== src/Pool/ValidateTests.antt =====
-- Runs of the validator (crates/pool/src/validation/stateful.rs).
use katana.Base.{ℕ, ◌+◌, ◌<◌, ◌≡◌, ◌↔◌, refl, none, some, [], ◌∷◌, true}
use katana.Transaction.{ChainId, NamedChainId, ExecutableTx, ExecutableTxWithHash, v1}
use katana.Pool.Sender.{tx_nonce, tx_sender}
use katana.Pool.Inner.{ok, valid, dependent}
use katana.Pool.Validate.{
  found, GasPrice, BlockEnv, CfgEnv, StateProvider, Inner, StatefulValidator, passed, new, lookup,
  put, pool_nonce, current_nonce, run_check, declared_already, validate_with, validate_nonce,
  validate,
}
use katana.Pool.Nonces.{IsAccepted, validate-IsAccepted, validate-kept, validate-dependent_iff}

abbrev price : GasPrice
price = record { eth = 1; strk = 1 }

abbrev block_env : BlockEnv
block_env = record {
  number = 7;
  timestamp = 99;
  l2_gas_prices = price;
  l1_gas_prices = price;
  l1_data_gas_prices = price;
  sequencer_address = 1;
}

abbrev cfg_env : CfgEnv
cfg_env = record {
  chain_id = ChainId.named NamedChainId.sepolia;
  fee_token_addresses = record { strk = 11; eth = 12 };
  invoke_tx_max_n_steps = 1000;
  validate_max_n_steps = 1000;
  max_recursion_depth = 50;
}

-- No class is declared, and every account has nonce 0.
abbrev empty_state : StateProvider
empty_state = record { class = λ h. found none; nonce = λ a. found (some 0) }

abbrev accepting : StatefulValidator
accepting = λ s v f tx. passed

abbrev fresh : Inner
fresh =
    new empty_state (record { account_validation = true; fee = true; nonce_check = true }) cfg_env
      block_env

abbrev invoke_with : ℕ → ExecutableTxWithHash
invoke_with n = record {
  hash = 70 + n;
  transaction = ExecutableTx.invoke (
      v1 (record {
        chain_id = ChainId.named NamedChainId.sepolia;
        sender_address = 5;
        nonce = n;
        calldata = 1 ∷ [];
        signature = [];
        max_fee = 10;
      }));
}

abbrev counted : Inner
counted = record fresh { pool_nonces = (5, 1) ∷ [] }

accepts : validate accepting (invoke_with 0) fresh ≡ some (ok (valid (invoke_with 0)), counted)
unfolding validate validate_nonce validate_with run_check pool_nonce lookup put tx_nonce tx_sender
    declared_already new
accepts = refl

validate-IsAccepted_example : IsAccepted (invoke_with 0) (invoke_with 0) fresh counted
validate-IsAccepted_example =
    validate-IsAccepted accepting (invoke_with 0) (invoke_with 0) fresh counted accepts

puts_off :
    validate accepting (invoke_with 3) fresh ≡ some (ok (dependent (invoke_with 3) 3 0), fresh)
unfolding validate validate_nonce pool_nonce lookup tx_nonce tx_sender declared_already new
puts_off = refl

validate-kept_refused : fresh ≡ fresh
validate-kept_refused =
    validate-kept accepting (invoke_with 3) (ok (dependent (invoke_with 3) 3 0)) fresh fresh
      puts_off (λ tx h. cc)

nonce_is : tx_nonce (invoke_with 3).transaction ≡ some 3
unfolding tx_nonce
nonce_is = refl

current_is : current_nonce (pool_nonce (tx_sender (invoke_with 3).transaction) fresh) ≡ some 0
unfolding pool_nonce lookup tx_sender new
current_is = refl

not_declared : declared_already (invoke_with 3).transaction (invoke_with 3) fresh.state ≡ none
unfolding declared_already
not_declared = refl

validate-dependent_iff_example :
    (validate accepting (invoke_with 3) fresh ≡ some (ok (dependent (invoke_with 3) 3 0), fresh))
    ↔ (0 < 3)
validate-dependent_iff_example =
    validate-dependent_iff accepting (invoke_with 3) 3 0 fresh nonce_is current_is not_declared
