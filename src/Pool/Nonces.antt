-- ===== src/Pool/Nonces.antt =====
-- The nonces that the validator (crates/pool/src/validation/stateful.rs) counts for senders.
use katana.Base.{
  ℕ, ◌+◌, ◌%◌, ◌≤◌, ◌<◌, ◌≡◌, ◌≢◌, ◌↔◌, refl, ap, sym, Bool, Option, none, some, List, [], ◌∷◌,
  arith, ltb, ◌==◌, if◌then◌else◌, inl, inr, Bool-cases, Option-cases, ◌∙◌, lt→ltb,
}
use katana.Transaction.{ExecutableTxWithHash}
use katana.Transaction.Encode.{prime}
use katana.Pool.Sender.{tx_nonce, tx_sender}
use katana.Pool.Inner.{ValidationResult, ok, valid, dependent}
use katana.Pool.Validate.{
  found, Inner, StatefulValidator, lookup, put, pool_nonce, validate_with, validate_nonce,
  current_nonce, declared_already, validate, is_l1_handler, StateProvider, BlockEnv, CfgEnv,
}
use katana.Pool.Outcome.{
  record_nonce-valid, record_nonce-kept, record_nonce-not-dependent, run_check-not-dependent,
  run_check-valid, declared_already-not-valid,
}

lookup-put :
    (k j v : ℕ) (m : List (ℕ × ℕ)) → lookup j (put k v m) ≡ (if k == j then some v else lookup j m)
unfolding lookup put
lookup-put k j v [] = refl
lookup-put k j v ((i, w) ∷ m) = ground (arith, lookup-put k j v m)

-- What a validation with outcome "valid" has done.
pub record IsAccepted (tx tx' : ExecutableTxWithHash) (this this' : Inner) : Type 0 where
  pub nonce : ℕ
  pub current : ℕ
  pub has_nonce : tx_nonce tx.transaction ≡ some nonce
  pub was_current : current_nonce (pool_nonce (tx_sender tx.transaction) this) ≡ some current
  pub not_ahead : nonce ≤ current
  pub same : tx' ≡ tx
  pub counted :
      (address : ℕ)
      → pool_nonce address this' ≡ (
          if tx_sender tx.transaction == address
          then found (some ((current + 1) % prime))
          else pool_nonce address this)

-- The nonce that is stored is found again, and those of other senders are as before.
counted_lem :
    (sender n address : ℕ) (this : Inner)
    → pool_nonce address (record this { pool_nonces = put sender n this.pool_nonces })
      ≡ (if sender == address then found (some n) else pool_nonce address this)
unfolding pool_nonce
counted_lem sender n address this = ground (arith, lookup-put sender address n this.pool_nonces)

module _ (validator : StatefulValidator) where
  validate_with-valid :
      (state : StateProvider × BlockEnv × CfgEnv) (tx tx' : ExecutableTxWithHash) (b c : Bool)
      → validate_with validator state tx b c ≡ ok (valid tx')
      → tx' ≡ tx
  unfolding validate_with
  validate_with-valid state tx tx' b c h = elim (Bool-cases (is_l1_handler tx.transaction)) [
    | inl e ↦ let p : ok (valid tx) ≡ ok (valid tx') = (rw e at h) in cc
    | inr e ↦ run_check-valid _ tx tx' (rw e at h)
  ]

  validate_with-not-dependent :
      (state : StateProvider × BlockEnv × CfgEnv) (tx tx' : ExecutableTxWithHash) (b c : Bool)
      (n m : ℕ)
      → validate_with validator state tx b c ≢ ok (dependent tx' n m)
  unfolding validate_with
  validate_with-not-dependent state tx tx' b c n m h =
      elim (Bool-cases (is_l1_handler tx.transaction)) [
        | inl e ↦ let p : ok (valid tx) ≡ ok (dependent tx' n m) = (rw e at h) in cc
        | inr e ↦ run_check-not-dependent _ tx tx' n m (rw e at h)
      ]

  validate_nonce-valid :
      (tx tx' : ExecutableTxWithHash) (nonce current : ℕ) (this this' : Inner)
      → validate_nonce validator tx nonce current this ≡ (ok (valid tx'), this')
      → (nonce ≤ current)
        × (tx' ≡ tx)
        × (this' ≡ record this {
          pool_nonces = put (tx_sender tx.transaction) ((current + 1) % prime) this.pool_nonces;
        })
  unfolding validate_nonce
  validate_nonce-valid tx tx' nonce current this this' h = elim (Bool-cases (ltb current nonce)) [
    | inl e ↦ cc (ap (λ p. p.0) (rw e at h))
    | inr e ↦
        let (v, k) = record_nonce-valid _ current _ tx' this this' (rw e at h) in
        (ground arith, validate_with-valid _ tx tx' _ _ v, k)
  ]

  -- Whatever the outcome, if it is not "valid" the state is as it was.
  validate_nonce-kept :
      (tx : ExecutableTxWithHash) (nonce current : ℕ) (r : ValidationResult ExecutableTxWithHash)
      (this this' : Inner)
      → validate_nonce validator tx nonce current this ≡ (r, this')
      → ((tx' : ExecutableTxWithHash) → r ≢ ok (valid tx'))
      → this' ≡ this
  unfolding validate_nonce
  validate_nonce-kept tx nonce current r this this' h ne = elim (Bool-cases (ltb current nonce)) [
    | inl e ↦ sym (ap (λ p. p.1) (rw e at h))
    | inr e ↦ record_nonce-kept _ current _ r this this' (rw e at h) ne
  ]

  -- The parts of a validation that has an outcome.
  data Ran (tx : ExecutableTxWithHash) (this : Inner)
      (o : Option (ValidationResult ExecutableTxWithHash × Inner)) : Type 0 where
    panicked : o ≡ none → Ran tx this o
    answered :
        (r : ValidationResult ExecutableTxWithHash)
        → declared_already tx.transaction tx this.state ≡ some r
        → o ≡ some (r, this)
        → Ran tx this o
    counted_on :
        (nonce current : ℕ)
        → tx_nonce tx.transaction ≡ some nonce
        → current_nonce (pool_nonce (tx_sender tx.transaction) this) ≡ some current
        → o ≡ some (validate_nonce validator tx nonce current this)
        → Ran tx this o

  validate-Ran :
      (tx : ExecutableTxWithHash) (this : Inner) → Ran tx this (validate validator tx this)
  unfolding validate
  validate-Ran tx this = elim (Option-cases (tx_nonce tx.transaction)) [
    | inl e ↦ rw e (panicked refl)
    | inr (nonce, e) ↦ rw e (elim (Option-cases (declared_already tx.transaction tx this.state)) [
      | inr (r, d) ↦ rw d (answered r d refl)
      | inl d ↦
          rw d (elim (Option-cases (current_nonce (pool_nonce (tx_sender tx.transaction) this))) [
            | inl c ↦ rw c (panicked refl)
            | inr (current, c) ↦ rw c (counted_on nonce current e c refl)
          ])
    ])
  ]

  -- If a transaction is found valid, its nonce is at most the one that the pool counts for its
  -- sender, it is handed on unchanged, and the pool counts one more for its sender, and for every other
  -- address what it counted before.
  pub validate-IsAccepted :
      (tx tx' : ExecutableTxWithHash) (this this' : Inner)
      → validate validator tx this ≡ some (ok (valid tx'), this')
      → IsAccepted tx tx' this this'
  validate-IsAccepted tx tx' this this' h = elim (validate-Ran tx this) [
    | panicked e ↦ cc
    | answered r d e ↦
        let p : r ≡ ok (valid tx') = cc in
        absurd (declared_already-not-valid _ tx tx' this.state (d ∙ ap some p))
    | counted_on nonce current n c e ↦
        let p : validate_nonce validator tx nonce current this ≡ (ok (valid tx'), this') = cc in
        let (le, same, k) = validate_nonce-valid tx tx' nonce current this this' p in
        record {
          nonce = nonce;
          current = current;
          has_nonce = n;
          was_current = c;
          not_ahead = le;
          same = same;
          counted = λ address. rw k (counted_lem _ _ address this);
        }
  ]

  -- A validation with any other outcome, an error among them, leaves the validator as it was.
  pub validate-kept :
      (tx : ExecutableTxWithHash) (r : ValidationResult ExecutableTxWithHash) (this this' : Inner)
      → validate validator tx this ≡ some (r, this')
      → ((tx' : ExecutableTxWithHash) → r ≢ ok (valid tx'))
      → this' ≡ this
  validate-kept tx r this this' h ne = elim (validate-Ran tx this) [
    | panicked e ↦ cc
    | answered r' d e ↦ cc (e ∙ refl, h)
    | counted_on nonce current n c e ↦
        let p : validate_nonce validator tx nonce current this ≡ (r, this') = cc in
        validate_nonce-kept tx nonce current r this this' p ne
  ]

  -- Where a transaction is not refused for its class, it is put off as dependent exactly if its nonce is
  -- above the one that the pool counts for its sender.
  pub validate-dependent_iff :
      (tx : ExecutableTxWithHash) (nonce current : ℕ) (this : Inner)
      → tx_nonce tx.transaction ≡ some nonce
      → current_nonce (pool_nonce (tx_sender tx.transaction) this) ≡ some current
      → declared_already tx.transaction tx this.state ≡ none
      → (validate validator tx this ≡ some (ok (dependent tx nonce current), this))
        ↔ (current < nonce)
  unfolding validate validate_nonce
  validate-dependent_iff tx nonce current this n c d =
      rw (n, d, c)
        (
          (λ e. elim (Bool-cases (ltb current nonce)) [
            | inl l ↦ ground arith
            | inr l ↦
                let p : validate_nonce validator tx nonce current this
                    ≡ (ok (dependent tx nonce current), this) =
                  cc in
                absurd (
                  record_nonce-not-dependent _ current _ tx nonce current this this
                    (validate_with-not-dependent _ tx tx _ _ _ _) (rw l at p))
          ]),
          (λ lt. rw (lt→ltb current nonce lt) refl),
        )
