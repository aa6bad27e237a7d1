-- ===== src/Oracle/Tests.antt =====
-- Instances of the gas oracle's theorems.
use katana.Base.{arith, ℕ, ◌+◌, ◌≡◌, ◌≢◌, refl, inr, [], ◌∷◌}
use katana.Oracle.{
  FeeHistory, SampledPrices, average, both, min_price, new, update_all, update_gas_price, updated,
}
use katana.Oracle.Samples.{newest, IsMean, update_all-average, update_gas_price-fails}

abbrev history : ℕ → ℕ → FeeHistory
history gas blob = record { base_fee_per_gas = 7 ∷ gas ∷ []; base_fee_per_blob_gas = blob ∷ [] }

abbrev start : SampledPrices
start = record { gas_prices = min_price; data_gas_prices = min_price }

update_all-average_example :
    (gas : ℕ) × (blob : ℕ) × ((update_all (history 100 10 ∷ history 200 30 ∷ []) (new start)).prices
      ≡ record { gas_prices = both (gas + 1000000000); data_gas_prices = both blob })
    × IsMean (newest (100 ∷ 200 ∷ [])) gas
    × IsMean (newest (10 ∷ 30 ∷ [])) blob
update_all-average_example =
    update_all-average (history 100 10) (history 200 30 ∷ []) start
      ((refl, refl), ((refl, refl), tt)) (omega arith) (omega arith)

averages : average (newest (100 ∷ 200 ∷ [])) ≡ 150
unfolding average
averages = refl

abbrev no_blobs : FeeHistory
no_blobs = record { base_fee_per_gas = 7 ∷ []; base_fee_per_blob_gas = [] }

update_gas_price-no_blobs :
    ((update_gas_price no_blobs (new start)).0 ≢ updated)
    × ((update_gas_price no_blobs (new start)).1.prices ≡ (new start).prices)
    × ((update_gas_price no_blobs (new start)).1.data_gas_price_buffer
        ≡ (new start).data_gas_price_buffer)
update_gas_price-no_blobs = update_gas_price-fails no_blobs (new start) (inr refl)
