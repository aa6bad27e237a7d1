-- ===== src/Transaction/Collision.antt =====
-- Collisions of hashes, and what the fee fields' sequence says (crates/primitives/src/utils/transaction.rs).
use native.Mathlib.Decide.{ℕ_discrete}
use katana.Base.{
  none, some, ℕ, zero, suc, ◌≡◌, ◌≢◌, refl, ap, ◌⊎◌, inl, inr, Bool, true, false, List, [], ◌∷◌,
  arith,
}
use katana.Transaction.{ResourceBoundsMapping, l1_gas_only, all, zero_bounds}
use katana.Transaction.Encode.{
  IsWord, encode_gas_bound-injective, l1_gas_name, l2_gas_name, l1_data_name,
}
use katana.Transaction.Hash.{version, fee_elements, hash_fee_fields, fee_hash}

-- Two sequences that differ and have one hash.
abbrev pub Clash : (List ℕ → ℕ) → List ℕ × List ℕ → Type 0
Clash h p = (p.0 ≢ p.1) × (h p.0 ≡ h p.1)

-- Among pairs of sequences, one that differs and has one hash.
abbrev pub Clashes : (List ℕ → ℕ) → List (List ℕ × List ℕ) → Type 0
Clashes h [] = ⊥
Clashes h (p ∷ ps) = Clash h p ⊎ Clashes h ps

-- The sequences of two lists, side by side.
abbrev pub pairs : List (List ℕ) → List (List ℕ) → List (List ℕ × List ℕ)
pairs [] ys = []
pairs (x ∷ xs) [] = []
pairs (x ∷ xs) (y ∷ ys) = (x, y) ∷ pairs xs ys

abbrev pub pair_at : ℕ → List (List ℕ × List ℕ) → List ℕ × List ℕ
pair_at i [] = ([], [])
pair_at zero (p ∷ ps) = p
pair_at (suc i) (p ∷ ps) = pair_at i ps

sequence_discrete : Discrete (List ℕ)
sequence_discrete = hlevel ℕ_discrete

infixl 5 ◌>>=◌
abbrev pub ◌>>=◌ : {A B C : Type 0} → A ⊎ C → (A → B ⊎ C) → B ⊎ C
inl a >>= f = f a
inr c >>= f = inr c

pub same_input : (h : List ℕ → ℕ) (xs ys : List ℕ) → h xs ≡ h ys → (xs ≡ ys) ⊎ Clash h (xs, ys)
same_input h xs ys e = elim (sequence_discrete xs ys) [ yes p ↦ inl p | no n ↦ inr (n, e) ]

-- Of the pair at a position, whose hashes agree, the sequences agree too, or there is a clash.
pub same_at :
    (h : List ℕ → ℕ) (i : ℕ) (ps : List (List ℕ × List ℕ))
    → h (pair_at i ps).0 ≡ h (pair_at i ps).1
    → ((pair_at i ps).0 ≡ (pair_at i ps).1) ⊎ Clashes h ps
same_at h i [] e = inl refl
same_at h zero (p ∷ ps) e = elim (same_input h p.0 p.1 e) [ inl q ↦ inl q | inr c ↦ inr (inl c) ]
same_at h (suc i) (p ∷ ps) e = elim (same_at h i ps e) [ inl q ↦ inl q | inr c ↦ inr (inr c) ]

-- The element at a position, and zero behind the end.
abbrev pub at : ℕ → List ℕ → ℕ
at i [] = 0
at zero (x ∷ xs) = x
at (suc i) (x ∷ xs) = at i xs

pub elements : (i : ℕ) {xs ys : List ℕ} → xs ≡ ys → at i xs ≡ at i ys
elements i e = ap (at i) e

-- The query flag is told from the version.
pub version-injective : (n : ℕ) (q q' : Bool) → version q n ≡ version q' n → q ≡ q'
version-injective n true true h = refl
version-injective n false false h = refl
version-injective n true false h = absurd (omega arith)
version-injective n false true h = absurd (omega arith)

abbrev pub IsWords : ResourceBoundsMapping → Type 0
IsWords (l1_gas_only b) = IsWord b
IsWords (all m) = IsWord m.l1_gas × IsWord m.l2_gas × IsWord m.l1_data_gas

-- The sequence of the fee fields that a V3 hash takes from its mapping.
abbrev pub fee_input : ℕ → ResourceBoundsMapping → List ℕ
fee_input tip (all bounds) = fee_elements tip bounds.l1_gas bounds.l2_gas (some bounds.l1_data_gas)
fee_input tip (l1_gas_only bounds) = fee_elements tip bounds zero_bounds none

pub fee_hash-input :
    (poseidon : List ℕ → ℕ) (tip : ℕ) (m : ResourceBoundsMapping)
    → fee_hash poseidon tip m ≡ poseidon (fee_input tip m)
unfolding hash_fee_fields
fee_hash-input poseidon tip (l1_gas_only b) = refl
fee_hash-input poseidon tip (all m) = refl

-- It binds the tip and the mapping.
pub fee_input-injective :
    (tip tip' : ℕ) (m m' : ResourceBoundsMapping)
    → IsWords m
    → IsWords m'
    → fee_input tip m ≡ fee_input tip' m'
    → (tip ≡ tip') × (m ≡ m')
fee_input-injective tip tip' (l1_gas_only b) (l1_gas_only b') w w' e = (
  elements 0 e,
  ap l1_gas_only (encode_gas_bound-injective l1_gas_name b b' (omega arith) w w' (elements 1 e)),
)
fee_input-injective tip tip' (all m) (all m') w w' e = (
  elements 0 e,
  ap all (λ i. record {
    l1_gas =
        encode_gas_bound-injective l1_gas_name m.l1_gas m'.l1_gas (omega arith) w.0 w'.0
          (elements 1 e) i;
    l2_gas =
        encode_gas_bound-injective l2_gas_name m.l2_gas m'.l2_gas (omega arith) w.1 w'.1
          (elements 2 e) i;
    l1_data_gas =
        encode_gas_bound-injective l1_data_name m.l1_data_gas m'.l1_data_gas (omega arith) w.2 w'.2
          (elements 3 e) i;
  }),
)
fee_input-injective tip tip' (l1_gas_only b) (all m) w w' e = cc
fee_input-injective tip tip' (all m) (l1_gas_only b) w w' e = cc
