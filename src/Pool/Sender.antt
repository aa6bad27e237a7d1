-- ===== src/Pool/Sender.antt =====
-- `PoolTransaction` for executable transactions: crates/pool/src/tx.rs.
use katana.Base.{ℕ, Option, none, some}
use katana.Transaction.{ExecutableTx, DeclareTx, v0, v1, v2, v3, contract_address}

abbrev declare_nonce : DeclareTx → Option ℕ
declare_nonce (v0 tx) = none
declare_nonce (v1 tx) = some tx.nonce
declare_nonce (v2 tx) = some tx.nonce
declare_nonce (v3 tx) = some tx.nonce

-- `none` stands for the panic of `unimplemented!`.
unfoldable pub tx_nonce : ExecutableTx → Option ℕ
tx_nonce (ExecutableTx.invoke (v0 tx)) = none
tx_nonce (ExecutableTx.invoke (v1 tx)) = some tx.nonce
tx_nonce (ExecutableTx.invoke (v3 tx)) = some tx.nonce
tx_nonce (ExecutableTx.l1_handler tx) = some tx.nonce
tx_nonce (ExecutableTx.declare tx) = declare_nonce tx.transaction
tx_nonce (ExecutableTx.deploy_account (v1 tx)) = some tx.nonce
tx_nonce (ExecutableTx.deploy_account (v3 tx)) = some tx.nonce

abbrev declare_sender : DeclareTx → ℕ
declare_sender (v0 tx) = tx.sender_address
declare_sender (v1 tx) = tx.sender_address
declare_sender (v2 tx) = tx.sender_address
declare_sender (v3 tx) = tx.sender_address

unfoldable pub tx_sender : ExecutableTx → ℕ
tx_sender (ExecutableTx.invoke (v0 tx)) = tx.contract_address
tx_sender (ExecutableTx.invoke (v1 tx)) = tx.sender_address
tx_sender (ExecutableTx.invoke (v3 tx)) = tx.sender_address
tx_sender (ExecutableTx.l1_handler tx) = tx.contract_address
tx_sender (ExecutableTx.declare tx) = declare_sender tx.transaction
tx_sender (ExecutableTx.deploy_account tx) = contract_address tx

abbrev declare_max_fee : DeclareTx → ℕ
declare_max_fee (v0 tx) = tx.max_fee
declare_max_fee (v1 tx) = tx.max_fee
declare_max_fee (v2 tx) = tx.max_fee
declare_max_fee (v3 tx) = 0

unfoldable pub tx_max_fee : ExecutableTx → ℕ
tx_max_fee (ExecutableTx.invoke (v0 tx)) = tx.max_fee
tx_max_fee (ExecutableTx.invoke (v1 tx)) = tx.max_fee
tx_max_fee (ExecutableTx.invoke (v3 tx)) = 0
tx_max_fee (ExecutableTx.l1_handler tx) = tx.paid_fee_on_l1
tx_max_fee (ExecutableTx.declare tx) = declare_max_fee tx.transaction
tx_max_fee (ExecutableTx.deploy_account (v1 tx)) = tx.max_fee
tx_max_fee (ExecutableTx.deploy_account (v3 tx)) = 0

abbrev declare_tip : DeclareTx → ℕ
declare_tip (v3 tx) = tx.tip
declare_tip _ = 0

unfoldable pub tx_tip : ExecutableTx → ℕ
tx_tip (ExecutableTx.invoke (v3 tx)) = tx.tip
tx_tip (ExecutableTx.invoke _) = 0
tx_tip (ExecutableTx.l1_handler tx) = 0
tx_tip (ExecutableTx.declare tx) = declare_tip tx.transaction
tx_tip (ExecutableTx.deploy_account (v3 tx)) = tx.tip
tx_tip (ExecutableTx.deploy_account _) = 0
