-- ===== src/Transaction.antt =====
-- Transactions: crates/primitives/src/transaction.rs, with the types of fee.rs, chain.rs and
-- da/mod.rs that they hold. Felts, addresses and hashes are natural numbers; a contract class is
-- known by a number.
pub mod Hash
pub mod Encode
mod Collision
pub mod Binding
pub mod AccountBinding
pub mod Kind
pub mod Convert
mod Tests
use katana.Base.{ℕ, ◌≡◌, Option, none, some, List}

-- `NamedChainId` and `ChainId`.
pub data NamedChainId : Type 0 where
  mainnet goerli sepolia : NamedChainId

pub data ChainId : Type 0 where
  named : NamedChainId → ChainId
  other : ℕ → ChainId

-- The names `SN_MAIN`, `SN_GOERLI` and `SN_SEPOLIA`, as big-endian ASCII.
abbrev pub named_id : NamedChainId → ℕ
named_id mainnet = 0x534e5f4d41494e
named_id goerli = 0x534e5f474f45524c49
named_id sepolia = 0x534e5f5345504f4c4941

unfoldable pub chain_felt : ChainId → ℕ
chain_felt (named n) = named_id n
chain_felt (other id) = id

pub data DataAvailabilityMode : Type 0 where
  l1 l2 : DataAvailabilityMode

pub record ResourceBounds : Type 0 where
  pub max_amount : ℕ
  pub max_price_per_unit : ℕ

abbrev pub zero_bounds : ResourceBounds
zero_bounds = record { max_amount = 0; max_price_per_unit = 0 }

pub record AllResourceBoundsMapping : Type 0 where
  pub l1_gas : ResourceBounds
  pub l2_gas : ResourceBounds
  pub l1_data_gas : ResourceBounds

pub data ResourceBoundsMapping : Type 0 where
  l1_gas_only : ResourceBounds → ResourceBoundsMapping
  all : AllResourceBoundsMapping → ResourceBoundsMapping

pub record InvokeTxV0 : Type 0 where
  pub contract_address : ℕ
  pub entry_point_selector : ℕ
  pub calldata : List ℕ
  pub signature : List ℕ
  pub max_fee : ℕ

pub record InvokeTxV1 : Type 0 where
  pub chain_id : ChainId
  pub sender_address : ℕ
  pub nonce : ℕ
  pub calldata : List ℕ
  pub signature : List ℕ
  pub max_fee : ℕ

pub record InvokeTxV3 : Type 0 where
  pub chain_id : ChainId
  pub sender_address : ℕ
  pub nonce : ℕ
  pub calldata : List ℕ
  pub signature : List ℕ
  pub resource_bounds : ResourceBoundsMapping
  pub tip : ℕ
  pub paymaster_data : List ℕ
  pub account_deployment_data : List ℕ
  pub nonce_data_availability_mode : DataAvailabilityMode
  pub fee_data_availability_mode : DataAvailabilityMode

pub data InvokeTx : Type 0 where
  v0 : InvokeTxV0 → InvokeTx
  v1 : InvokeTxV1 → InvokeTx
  v3 : InvokeTxV3 → InvokeTx

pub record DeclareTxV0 : Type 0 where
  pub chain_id : ChainId
  pub sender_address : ℕ
  pub signature : List ℕ
  pub class_hash : ℕ
  pub max_fee : ℕ

pub record DeclareTxV1 : Type 0 where
  pub chain_id : ChainId
  pub sender_address : ℕ
  pub nonce : ℕ
  pub signature : List ℕ
  pub class_hash : ℕ
  pub max_fee : ℕ

pub record DeclareTxV2 : Type 0 where
  pub chain_id : ChainId
  pub sender_address : ℕ
  pub nonce : ℕ
  pub signature : List ℕ
  pub class_hash : ℕ
  pub compiled_class_hash : ℕ
  pub max_fee : ℕ

pub record DeclareTxV3 : Type 0 where
  pub chain_id : ChainId
  pub sender_address : ℕ
  pub nonce : ℕ
  pub signature : List ℕ
  pub class_hash : ℕ
  pub compiled_class_hash : ℕ
  pub resource_bounds : ResourceBoundsMapping
  pub tip : ℕ
  pub paymaster_data : List ℕ
  pub account_deployment_data : List ℕ
  pub nonce_data_availability_mode : DataAvailabilityMode
  pub fee_data_availability_mode : DataAvailabilityMode

pub data DeclareTx : Type 0 where
  v0 : DeclareTxV0 → DeclareTx
  v1 : DeclareTxV1 → DeclareTx
  v2 : DeclareTxV2 → DeclareTx
  v3 : DeclareTxV3 → DeclareTx

pub record DeclareTxWithClass : Type 0 where
  pub class : ℕ
  pub transaction : DeclareTx

pub record L1HandlerTx : Type 0 where
  pub nonce : ℕ
  pub chain_id : ChainId
  pub paid_fee_on_l1 : ℕ
  pub version : ℕ
  pub message_hash : ℕ
  pub calldata : List ℕ
  pub contract_address : ℕ
  pub entry_point_selector : ℕ

pub record DeployAccountTxV1 : Type 0 where
  pub chain_id : ChainId
  pub nonce : ℕ
  pub signature : List ℕ
  pub class_hash : ℕ
  pub contract_address : ℕ
  pub contract_address_salt : ℕ
  pub constructor_calldata : List ℕ
  pub max_fee : ℕ

pub record DeployAccountTxV3 : Type 0 where
  pub chain_id : ChainId
  pub nonce : ℕ
  pub signature : List ℕ
  pub class_hash : ℕ
  pub contract_address : ℕ
  pub contract_address_salt : ℕ
  pub constructor_calldata : List ℕ
  pub resource_bounds : ResourceBoundsMapping
  pub tip : ℕ
  pub paymaster_data : List ℕ
  pub nonce_data_availability_mode : DataAvailabilityMode
  pub fee_data_availability_mode : DataAvailabilityMode

pub data DeployAccountTx : Type 0 where
  v1 : DeployAccountTxV1 → DeployAccountTx
  v3 : DeployAccountTxV3 → DeployAccountTx

pub record DeployTx : Type 0 where
  pub contract_address : ℕ
  pub contract_address_salt : ℕ
  pub constructor_calldata : List ℕ
  pub class_hash : ℕ
  pub version : ℕ

pub data ExecutableTx : Type 0 where
  invoke : InvokeTx → ExecutableTx
  l1_handler : L1HandlerTx → ExecutableTx
  declare : DeclareTxWithClass → ExecutableTx
  deploy_account : DeployAccountTx → ExecutableTx

pub record ExecutableTxWithHash : Type 0 where
  pub hash : ℕ
  pub transaction : ExecutableTx

pub data Tx : Type 0 where
  invoke : InvokeTx → Tx
  declare : DeclareTx → Tx
  l1_handler : L1HandlerTx → Tx
  deploy_account : DeployAccountTx → Tx
  deploy : DeployTx → Tx

pub record TxWithHash : Type 0 where
  pub hash : ℕ
  pub transaction : Tx

-- `DeclareTx::class_hash` and `DeployAccountTx::contract_address`.
unfoldable pub class_hash : DeclareTx → ℕ
class_hash (v0 tx) = tx.class_hash
class_hash (v1 tx) = tx.class_hash
class_hash (v2 tx) = tx.class_hash
class_hash (v3 tx) = tx.class_hash

unfoldable pub contract_address : DeployAccountTx → ℕ
contract_address (v1 tx) = tx.contract_address
contract_address (v3 tx) = tx.contract_address
