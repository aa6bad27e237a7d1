-- ===== src/Pool/Outcome.antt =====
-- Which outcomes the parts of a validation can have: crates/pool/src/validation/stateful.rs.
use katana.Base.{ℕ, ◌+◌, ◌%◌, ◌≡◌, ◌≢◌, ap, sym, some, arith}
use katana.Transaction.{ExecutableTx, ExecutableTxWithHash}
use katana.Transaction.Encode.{prime}
use katana.Pool.Inner.{ValidationResult, ok, err, valid, invalid, dependent}
use katana.Pool.Validate.{
  Inner, put, run_check, record_nonce, declared_already, passed, rejected, broken, Check,
  StateProvider,
}

pub record_nonce-valid :
    (address c : ℕ) (r : ValidationResult ExecutableTxWithHash) (tx' : ExecutableTxWithHash)
    (this this' : Inner)
    → record_nonce address c r this ≡ (ok (valid tx'), this')
    → (r ≡ ok (valid tx'))
      × (this' ≡ record this { pool_nonces = put address ((c + 1) % prime) this.pool_nonces })
record_nonce-valid address c (ok (valid tx)) tx' this this' h =
    (ap (λ p. p.0) h, sym (ap (λ p. p.1) h))
record_nonce-valid address c (ok (invalid tx e)) tx' this this' h = cc (ap (λ p. p.0) h)
record_nonce-valid address c (ok (dependent tx n m)) tx' this this' h = cc (ap (λ p. p.0) h)
record_nonce-valid address c (err x e) tx' this this' h = cc (ap (λ p. p.0) h)

pub record_nonce-kept :
    (address c : ℕ) (r r' : ValidationResult ExecutableTxWithHash) (this this' : Inner)
    → record_nonce address c r this ≡ (r', this')
    → ((tx' : ExecutableTxWithHash) → r' ≢ ok (valid tx'))
    → this' ≡ this
record_nonce-kept address c (ok (valid tx)) r' this this' h ne =
    absurd (ne tx (sym (ap (λ p. p.0) h)))
record_nonce-kept address c (ok (invalid tx e)) r' this this' h ne = sym (ap (λ p. p.1) h)
record_nonce-kept address c (ok (dependent tx n m)) r' this this' h ne = sym (ap (λ p. p.1) h)
record_nonce-kept address c (err x e) r' this this' h ne = sym (ap (λ p. p.1) h)

pub record_nonce-not-dependent :
    (address c : ℕ) (r : ValidationResult ExecutableTxWithHash) (tx : ExecutableTxWithHash)
    (n m : ℕ) (this this' : Inner)
    → r ≢ ok (dependent tx n m)
    → record_nonce address c r this ≢ (ok (dependent tx n m), this')
record_nonce-not-dependent address c (ok (valid tx)) tx' n m this this' ne h = cc (ap (λ p. p.0) h)
record_nonce-not-dependent address c (ok (invalid tx e)) tx' n m this this' ne h =
    cc (ap (λ p. p.0) h)
record_nonce-not-dependent address c (ok (dependent tx k l)) tx' n m this this' ne h =
    ne (ap (λ p. p.0) h)
record_nonce-not-dependent address c (err x e) tx' n m this this' ne h = cc (ap (λ p. p.0) h)

pub run_check-not-dependent :
    (c : Check) (tx tx' : ExecutableTxWithHash) (n m : ℕ) → run_check c tx ≢ ok (dependent tx' n m)
unfolding run_check
run_check-not-dependent passed tx tx' n m h = cc
run_check-not-dependent (rejected e) tx tx' n m h = cc
run_check-not-dependent (broken e) tx tx' n m h = cc

pub run_check-valid :
    (c : Check) (tx tx' : ExecutableTxWithHash) → run_check c tx ≡ ok (valid tx') → tx' ≡ tx
unfolding run_check
run_check-valid passed tx tx' h = cc
run_check-valid (rejected e) tx tx' h = cc
run_check-valid (broken e) tx tx' h = cc

pub declared_already-not-valid :
    (e : ExecutableTx) (tx tx' : ExecutableTxWithHash) (state : StateProvider)
    → declared_already e tx state ≢ some (ok (valid tx'))
unfolding declared_already
declared_already-not-valid (ExecutableTx.declare d) tx tx' state h = ground arith
declared_already-not-valid (ExecutableTx.invoke d) tx tx' state h = cc
declared_already-not-valid (ExecutableTx.l1_handler d) tx tx' state h = cc
declared_already-not-valid (ExecutableTx.deploy_account d) tx tx' state h = cc
