-- ===== src/Transaction/Kind.antt =====
-- What a hash says of a transaction's type: `calculate_hash` of
-- crates/primitives/src/transaction.rs.
use katana.Base.{
  [], ℕ, ◌≡◌, refl, subst, ◌∙◌, sym, ◌⊎◌, inl, inr, Bool, true, false, Option, none, some, List,
  arith,
}
use katana.Transaction.{ExecutableTx, DeclareTx, v0, v1, v2, v3}
use katana.Transaction.Hash.{
  invoke_v1_elements, invoke_v3_elements, declare_v0_elements, declare_v1_elements,
  declare_v2_elements, declare_v3_elements, l1_handler_elements, deploy_account_v1_elements,
  deploy_account_v3_elements, invoke_hash, declare_hash, deploy_account_hash, calculate_hash,
  prefix_invoke, prefix_declare, prefix_deploy_account, prefix_l1_handler,
  compute_invoke_v1_tx_hash, compute_invoke_v3_tx_hash, compute_declare_v0_tx_hash,
  compute_declare_v1_tx_hash, compute_declare_v2_tx_hash, compute_declare_v3_tx_hash,
  compute_l1_handler_tx_hash, compute_deploy_account_v1_tx_hash, compute_deploy_account_v3_tx_hash,
}
use katana.Transaction.Collision.{Clash, same_input, elements, at}
use katana.Transaction.Convert.{TxType, executable_type}

abbrev prefix_of : TxType → ℕ
prefix_of TxType.invoke = prefix_invoke
prefix_of TxType.declare = prefix_declare
prefix_of TxType.l1_handler = prefix_l1_handler
prefix_of TxType.deploy_account = prefix_deploy_account
prefix_of TxType.deploy = 0

prefix_of-injective : (a b : TxType) → prefix_of a ≡ prefix_of b → a ≡ b
prefix_of-injective a b h = ground arith

abbrev declare_v3 : DeclareTx → Bool
declare_v3 (v3 tx) = true
declare_v3 _ = false

-- Transactions of version 3 are hashed by Poseidon, the others by Pedersen.
abbrev pub is_v3 : ExecutableTx → Bool
is_v3 (ExecutableTx.invoke (v3 tx)) = true
is_v3 (ExecutableTx.invoke _) = false
is_v3 (ExecutableTx.l1_handler tx) = false
is_v3 (ExecutableTx.declare tx) = declare_v3 tx.transaction
is_v3 (ExecutableTx.deploy_account (v3 tx)) = true
is_v3 (ExecutableTx.deploy_account _) = false

module _ (pedersen poseidon : List ℕ → ℕ) where
  abbrev pub hash_by : Bool → List ℕ → ℕ
  hash_by true = poseidon
  hash_by false = pedersen

  abbrev declare_elements : DeclareTx → Bool → List ℕ
  declare_elements (v0 tx) q = declare_v0_elements pedersen tx q
  declare_elements (v1 tx) q = declare_v1_elements pedersen tx q
  declare_elements (v2 tx) q = declare_v2_elements pedersen tx q
  declare_elements (v3 tx) q = declare_v3_elements poseidon tx q

  -- The sequence whose hash is the transaction's.
  abbrev pub hashed_elements : ExecutableTx → Bool → List ℕ
  hashed_elements (ExecutableTx.invoke (v0 tx)) q = []
  hashed_elements (ExecutableTx.invoke (v1 tx)) q = invoke_v1_elements pedersen tx q
  hashed_elements (ExecutableTx.invoke (v3 tx)) q = invoke_v3_elements poseidon tx q
  hashed_elements (ExecutableTx.l1_handler tx) q = l1_handler_elements pedersen tx
  hashed_elements (ExecutableTx.declare tx) q = declare_elements tx.transaction q
  hashed_elements (ExecutableTx.deploy_account (v1 tx)) q = deploy_account_v1_elements pedersen tx q
  hashed_elements (ExecutableTx.deploy_account (v3 tx)) q = deploy_account_v3_elements poseidon tx q

  -- A hash, if there is one, is that of a sequence which begins with the kind's prefix.
  abbrev Hashed : Bool → TxType → List ℕ → Option ℕ → Type 0
  Hashed v k l none = Unit
  Hashed v k l (some h) = (h ≡ hash_by v l) × (at 0 l ≡ prefix_of k)

  declare_hash-Hashed :
      (tx : DeclareTx) (q : Bool)
      → Hashed
          (declare_v3 tx)
          TxType.declare
          (declare_elements tx q)
          (some (declare_hash pedersen poseidon tx q))
  unfolding declare_hash compute_declare_v0_tx_hash compute_declare_v1_tx_hash
      compute_declare_v2_tx_hash compute_declare_v3_tx_hash
  declare_hash-Hashed (v0 tx) q = (refl, refl)
  declare_hash-Hashed (v1 tx) q = (refl, refl)
  declare_hash-Hashed (v2 tx) q = (refl, refl)
  declare_hash-Hashed (v3 tx) q = (refl, refl)

  calculate_hash-Hashed :
      (tx : ExecutableTx) (q : Bool)
      → Hashed
          (is_v3 tx)
          (executable_type tx)
          (hashed_elements tx q)
          (calculate_hash pedersen poseidon tx q)
  unfolding calculate_hash executable_type invoke_hash deploy_account_hash compute_invoke_v1_tx_hash
      compute_invoke_v3_tx_hash compute_l1_handler_tx_hash compute_deploy_account_v1_tx_hash
      compute_deploy_account_v3_tx_hash
  calculate_hash-Hashed (ExecutableTx.invoke (v0 tx)) q = tt
  calculate_hash-Hashed (ExecutableTx.invoke (v1 tx)) q = (refl, refl)
  calculate_hash-Hashed (ExecutableTx.invoke (v3 tx)) q = (refl, refl)
  calculate_hash-Hashed (ExecutableTx.l1_handler tx) q = (refl, refl)
  calculate_hash-Hashed (ExecutableTx.declare tx) q = declare_hash-Hashed tx.transaction q
  calculate_hash-Hashed (ExecutableTx.deploy_account (v1 tx)) q = (refl, refl)
  calculate_hash-Hashed (ExecutableTx.deploy_account (v3 tx)) q = (refl, refl)

  compare_kinds :
      (v : Bool) (k k' : TxType) (l l' : List ℕ) (r r' : Option ℕ) (h : ℕ)
      → r ≡ some h
      → r' ≡ some h
      → Hashed v k l r
      → Hashed v k' l' r'
      → (k ≡ k') ⊎ Clash (hash_by v) (l, l')
  compare_kinds v k k' l l' none r' h e e' s s' = cc
  compare_kinds v k k' l l' (some x) none h e e' s s' = cc
  compare_kinds v k k' l l' (some x) (some y) h e e' s s' =
      let p : x ≡ y = cc in
      elim (same_input (hash_by v) l l' (sym s.0 ∙ p ∙ s'.0)) [
        | inl q ↦ inl (prefix_of-injective k k' (sym s.1 ∙ elements 0 q ∙ s'.1))
        | inr c ↦ inr c
      ]

  -- Two transactions that are hashed by the same function, both of version 3 or neither, and that have
  -- the same hash, are of the same type; or the two sequences that are hashed differ and have one hash.
  pub calculate_hash-same_type :
      (a b : ExecutableTx) (q q' : Bool) (h : ℕ)
      → calculate_hash pedersen poseidon a q ≡ some h
      → calculate_hash pedersen poseidon b q' ≡ some h
      → is_v3 a ≡ is_v3 b
      → (executable_type a ≡ executable_type b)
        ⊎ Clash (hash_by (is_v3 a)) (hashed_elements a q, hashed_elements b q')
  calculate_hash-same_type a b q q' h e e' v =
      compare_kinds (is_v3 a) (executable_type a) (executable_type b) _ _ _ _ h e e'
        (calculate_hash-Hashed a q)
        (subst
          (λ w.
            Hashed w (executable_type b) (hashed_elements b q')
              (calculate_hash pedersen poseidon b q'))
          (sym v) (calculate_hash-Hashed b q'))
