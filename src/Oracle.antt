-- ===== src/Oracle.antt =====
-- The gas oracle: crates/core/src/backend/gas_oracle.rs. Prices are u128.
pub mod Samples
mod Tests
use katana.Base.{
  ℕ, ◌+◌, ◌/◌, ◌%◌, ◌^◌, List, [], ◌∷◌, ◌++◌, Option, none, some, arith, ◌==◌, if◌then◌else◌,
  length, drop, last?,
}
use katana.Pool.Validate.{GasPrice}

abbrev pub buffer_size : ℕ
buffer_size = 60

abbrev pub one_gwei : ℕ
one_gwei = 1000000000

abbrev pub min_price : GasPrice
min_price = record { eth = 1; strk = 1 }

pub record SampledPrices : Type 0 where
  pub gas_prices : GasPrice
  pub data_gas_prices : GasPrice

-- A fixed oracle has its two prices; a sampled one reads those that its worker writes.
pub data GasOracle : Type 0 where
  fixed : GasPrice → GasPrice → GasOracle
  sampled : GasOracle

abbrev pub sampled_starknet : GasOracle
sampled_starknet = fixed min_price min_price

unfoldable pub current_gas_prices : GasOracle → SampledPrices → GasPrice
current_gas_prices (fixed gas_prices data_gas_prices) prices = gas_prices
current_gas_prices sampled prices = prices.gas_prices

unfoldable pub current_data_gas_prices : GasOracle → SampledPrices → GasPrice
current_data_gas_prices (fixed gas_prices data_gas_prices) prices = data_gas_prices
current_data_gas_prices sampled prices = prices.data_gas_prices

-- The buffer of samples, the oldest first. `drop 1` is `pop_front`.
unfoldable pub add_sample : ℕ → List ℕ → List ℕ
add_sample sample buffer =
    (if length buffer == buffer_size then drop 1 buffer else buffer) ++ sample ∷ []

abbrev pub sum : List ℕ → ℕ
sum [] = 0
sum (x ∷ xs) = x + sum xs

-- The sum wraps, as it does without overflow checks.
unfoldable pub average : List ℕ → ℕ
average [] = 0
average (x ∷ xs) = (sum (x ∷ xs) % 2 ^ 128) / length (x ∷ xs)

-- The fee history of an Ethereum provider, as far as it is read.
pub record FeeHistory : Type 0 where
  pub base_fee_per_gas : List ℕ
  pub base_fee_per_blob_gas : List ℕ

pub record GasOracleWorker : Type 0 where
  pub prices : SampledPrices
  pub gas_price_buffer : List ℕ
  pub data_gas_price_buffer : List ℕ

unfoldable pub new : SampledPrices → GasOracleWorker
new prices = record { prices = prices; gas_price_buffer = []; data_gas_price_buffer = [] }

pub data UpdateResult : Type 0 where
  updated no_gas_price no_blob_price : UpdateResult

abbrev pub both : ℕ → GasPrice
both price = record { eth = price; strk = price }

abbrev pub set_prices : GasOracleWorker → GasOracleWorker
set_prices w = record w {
  prices = record {
    gas_prices = both ((average w.gas_price_buffer + one_gwei) % 2 ^ 128);
    data_gas_prices = both (average w.data_gas_price_buffer);
  };
}

abbrev pub with_blob_price : Option ℕ → GasOracleWorker → UpdateResult × GasOracleWorker
with_blob_price none w = (no_blob_price, w)
with_blob_price (some price) w = (
  updated,
  set_prices (record w { data_gas_price_buffer = add_sample price w.data_gas_price_buffer }),
)

abbrev pub with_gas_price : Option ℕ → List ℕ → GasOracleWorker → UpdateResult × GasOracleWorker
with_gas_price none blob_fees w = (no_gas_price, w)
with_gas_price (some price) blob_fees w =
    with_blob_price (last? blob_fees)
      (record w { gas_price_buffer = add_sample price w.gas_price_buffer })

unfoldable pub update_gas_price : FeeHistory → GasOracleWorker → UpdateResult × GasOracleWorker
update_gas_price history w =
    with_gas_price (last? history.base_fee_per_gas) history.base_fee_per_blob_gas w

-- The worker's updates, one history after the other; a failed one is only reported.
unfoldable pub update_all : List FeeHistory → GasOracleWorker → GasOracleWorker
update_all [] w = w
update_all (history ∷ histories) w = update_all histories (update_gas_price history w).1
