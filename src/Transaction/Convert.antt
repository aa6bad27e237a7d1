-- ===== src/Transaction/Convert.antt =====
-- Types, versions and conversions of transactions: crates/primitives/src/transaction.rs.
use katana.Base.{ℕ}
use katana.Transaction.{ExecutableTx, Tx, TxWithHash, ExecutableTxWithHash, v0, v1, v2, v3}

pub data TxType : Type 0 where
  invoke declare l1_handler deploy_account deploy : TxType

unfoldable pub executable_type : ExecutableTx → TxType
executable_type (ExecutableTx.invoke tx) = invoke
executable_type (ExecutableTx.declare tx) = declare
executable_type (ExecutableTx.l1_handler tx) = l1_handler
executable_type (ExecutableTx.deploy_account tx) = deploy_account

unfoldable pub tx_type : Tx → TxType
tx_type (Tx.invoke tx) = invoke
tx_type (Tx.deploy tx) = deploy
tx_type (Tx.declare tx) = declare
tx_type (Tx.l1_handler tx) = l1_handler
tx_type (Tx.deploy_account tx) = deploy_account

unfoldable pub tx_version : Tx → ℕ
tx_version (Tx.invoke (v0 tx)) = 0
tx_version (Tx.invoke (v1 tx)) = 1
tx_version (Tx.invoke (v3 tx)) = 3
tx_version (Tx.declare (v0 tx)) = 0
tx_version (Tx.declare (v1 tx)) = 1
tx_version (Tx.declare (v2 tx)) = 2
tx_version (Tx.declare (v3 tx)) = 3
tx_version (Tx.l1_handler tx) = tx.version
tx_version (Tx.deploy_account (v1 tx)) = 1
tx_version (Tx.deploy_account (v3 tx)) = 3
tx_version (Tx.deploy tx) = tx.version

-- `tx_ref`, followed by the conversion of the reference into a `Tx`.
unfoldable pub to_tx : ExecutableTx → Tx
to_tx (ExecutableTx.invoke tx) = Tx.invoke tx
to_tx (ExecutableTx.l1_handler tx) = Tx.l1_handler tx
to_tx (ExecutableTx.declare tx) = Tx.declare tx.transaction
to_tx (ExecutableTx.deploy_account tx) = Tx.deploy_account tx

unfoldable pub with_hash : ExecutableTxWithHash → TxWithHash
with_hash tx = record { hash = tx.hash; transaction = to_tx tx.transaction }
