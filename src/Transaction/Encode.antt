-- ===== src/Transaction/Encode.antt =====
-- How gas bounds and data availability modes become felts: crates/primitives/src/utils/transaction.rs.
use katana.Base.{ℕ, ◌+◌, ◌*◌, ◌%◌, ◌^◌, ◌<◌, ◌≡◌, List, [], ◌∷◌, arith}
use katana.Transaction.{DataAvailabilityMode, l1, l2, ResourceBounds}

-- The field's prime.
abbrev pub prime : ℕ
prime = 2 ^ 251 + 17 * 2 ^ 192 + 1

-- A big-endian sequence of bytes as a number.
abbrev from_bytes : ℕ → List ℕ → ℕ
from_bytes acc [] = acc
from_bytes acc (b ∷ bs) = from_bytes (acc * 256 + b) bs

abbrev pub l1_gas_name : List ℕ
l1_gas_name = b'L' ∷ b'1' ∷ b'_' ∷ b'G' ∷ b'A' ∷ b'S' ∷ []

abbrev pub l2_gas_name : List ℕ
l2_gas_name = b'L' ∷ b'2' ∷ b'_' ∷ b'G' ∷ b'A' ∷ b'S' ∷ []

abbrev pub l1_data_name : List ℕ
l1_data_name = b'L' ∷ b'1' ∷ b'_' ∷ b'D' ∷ b'A' ∷ b'T' ∷ b'A' ∷ []

-- Eight bytes of name, eight of amount and sixteen of price, read as a felt.
unfoldable pub encode_gas_bound : List ℕ → ResourceBounds → ℕ
encode_gas_bound name bound =
    (from_bytes 0 name * 2 ^ 192 + bound.max_amount * 2 ^ 128 + bound.max_price_per_unit) % prime

abbrev mode_value : DataAvailabilityMode → ℕ
mode_value l1 = 0
mode_value l2 = 1

unfoldable pub encode_da_mode : DataAvailabilityMode → DataAvailabilityMode → ℕ
encode_da_mode nonce_mode fee_mode = mode_value nonce_mode * 2 ^ 32 + mode_value fee_mode

-- The amount fits 64 bits and the price 128 bits.
abbrev pub IsWord : ResourceBounds → Type 0
IsWord b = (b.max_amount < 2 ^ 64) × (b.max_price_per_unit < 2 ^ 128)

-- A name of at most seven bytes leaves the encoding below the prime, so that it determines the bounds.
pub encode_gas_bound-injective :
    (name : List ℕ) (a b : ResourceBounds)
    → from_bytes 0 name < 2 ^ 56
    → IsWord a
    → IsWord b
    → encode_gas_bound name a ≡ encode_gas_bound name b
    → a ≡ b
unfolding encode_gas_bound
encode_gas_bound-injective name a b short wa wb h =
    λ i. record { max_amount = amount i; max_price_per_unit = price i }
  where
    amount : a.max_amount ≡ b.max_amount
    amount = omega arith

    price : a.max_price_per_unit ≡ b.max_price_per_unit
    price = omega arith

pub encode_da_mode-injective :
    (n f n' f' : DataAvailabilityMode)
    → encode_da_mode n f ≡ encode_da_mode n' f'
    → (n ≡ n') × (f ≡ f')
unfolding encode_da_mode
encode_da_mode-injective n f n' f' h = ground arith
