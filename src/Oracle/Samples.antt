-- ===== src/Oracle/Samples.antt =====
-- The samples and prices of a gas oracle: crates/core/src/backend/gas_oracle.rs.
use native.Mathlib.Nat.{
  div-mul-le_self, lt-div-mul-add, mod-eq_of_lt, suc-mul, mul-one, mul-le-mul_left,
}
use katana.Base.{
  subst, ap₂, ℕ, suc, ◌+◌, ◌-◌, ◌*◌, ◌/◌, length-drop, ◌%◌, ◌^◌, ◌≤◌, ◌<◌, ◌≡◌, refl, sym, ap, ◌∙◌,
  true, false, List, [], ◌∷◌, ◌++◌, map, none, some, arith, ◌==◌, length, drop, last?, All, inl,
  inr, Bool-cases, append_assoc, append-nil, length-append, unwrap_or, Option-cases, ◌⊎◌, ◌≢◌,
}
use katana.Oracle.{
  add_sample, average, sum, FeeHistory, GasOracleWorker, updated, SampledPrices, both, set_prices,
  with_gas_price, with_blob_price, update_gas_price, update_all, new,
}

-- The last samples that a buffer has room for.
abbrev pub newest : List ℕ → List ℕ
newest samples = drop (length samples - 60) samples

abbrev pub add_all : List ℕ → List ℕ → List ℕ
add_all [] buffer = buffer
add_all (x ∷ xs) buffer = add_all xs (add_sample x buffer)

add_sample-full :
    (x y : ℕ) (ys : List ℕ) → length (y ∷ ys) ≡ 60 → add_sample x (y ∷ ys) ≡ ys ++ x ∷ []
unfolding add_sample
add_sample-full x y ys h = let e : (length (y ∷ ys) == 60) ≡ true = ground arith in rw e refl

add_sample-room : (x : ℕ) (b : List ℕ) → length b < 60 → add_sample x b ≡ b ++ x ∷ []
unfolding add_sample
add_sample-room x b h = let e : (length b == 60) ≡ false = ground arith in rw e refl

newest-cons : (y : ℕ) (l : List ℕ) → 60 ≤ length l → newest (y ∷ l) ≡ newest l
newest-cons y l h = let e : suc (length l) - 60 ≡ suc (length l - 60) = omega arith in rw e refl

-- What is added to a buffer that has room for it pushes out just the oldest samples.
add_all-newest : (xs b : List ℕ) → length b ≤ 60 → add_all xs b ≡ newest (b ++ xs)
add_all-newest [] b h = let e : length b - 60 ≡ 0 = omega arith in rw (append-nil b, e) refl
add_all-newest (x ∷ xs) [] h =
    rw (add_sample-room x [] (omega arith)) (add_all-newest xs (x ∷ []) (omega arith))
add_all-newest (x ∷ xs) (y ∷ ys) h = elim (Bool-cases (length (y ∷ ys) == 60)) [
  | inl e ↦
      let f : length (y ∷ ys) ≡ 60 = ground arith in
      let g : length (ys ++ x ∷ []) ≡ 60 = omega (arith, f, length-append {0} ys (x ∷ [])) in
      let p : (ys ++ x ∷ []) ++ xs ≡ ys ++ x ∷ xs = append_assoc ys (x ∷ []) xs in
      let long : 60 ≤ length (ys ++ x ∷ xs) = omega (arith, f, length-append {0} ys (x ∷ xs)) in
      rw (add_sample-full x y ys f) (
        add_all-newest xs (ys ++ x ∷ []) (omega (arith, g))
        ∙ ap newest p
        ∙ sym (newest-cons y (ys ++ x ∷ xs) long))
  | inr e ↦
      let f : length (y ∷ ys) < 60 = ground (arith, h) in
      let g : length ((y ∷ ys) ++ x ∷ []) ≤ 60 =
        omega (arith, f, length-append {0} (y ∷ ys) (x ∷ [])) in
      let p : ((y ∷ ys) ++ x ∷ []) ++ xs ≡ (y ∷ ys) ++ x ∷ xs = append_assoc (y ∷ ys) (x ∷ []) xs in
      rw (add_sample-room x (y ∷ ys) f) (add_all-newest xs ((y ∷ ys) ++ x ∷ []) g ∙ ap newest p)
]

abbrev pub gas_of : FeeHistory → ℕ
gas_of h = unwrap_or 0 (last? h.base_fee_per_gas)

abbrev pub blob_of : FeeHistory → ℕ
blob_of h = unwrap_or 0 (last? h.base_fee_per_blob_gas)

-- Both prices are in the history.
abbrev pub HasPrices : FeeHistory → Type 0
HasPrices h =
    (last? h.base_fee_per_gas ≡ some (gas_of h))
    × (last? h.base_fee_per_blob_gas ≡ some (blob_of h))

-- The worker after a complete history.
abbrev stepped : FeeHistory → GasOracleWorker → GasOracleWorker
stepped h w = set_prices (record w {
  gas_price_buffer = add_sample (gas_of h) w.gas_price_buffer;
  data_gas_price_buffer = add_sample (blob_of h) w.data_gas_price_buffer;
})

update-stepped :
    (h : FeeHistory) (w : GasOracleWorker)
    → HasPrices h
    → update_gas_price h w ≡ (updated, stepped h w)
unfolding update_gas_price
update-stepped h w c = rw (c.0, c.1) refl

update_all-stepped :
    (h : FeeHistory) (hs : List FeeHistory) (w : GasOracleWorker)
    → HasPrices h
    → update_all (h ∷ hs) w ≡ update_all hs (stepped h w)
unfolding update_all
update_all-stepped h hs w c = ap (λ r. update_all hs r.1) (update-stepped h w c)

update_all-buffers :
    (hs : List FeeHistory) (w : GasOracleWorker)
    → All HasPrices hs
    → ((update_all hs w).gas_price_buffer ≡ add_all (map gas_of hs) w.gas_price_buffer)
      × ((update_all hs w).data_gas_price_buffer ≡ add_all (map blob_of hs) w.data_gas_price_buffer)
unfolding update_all
update_all-buffers [] w c = (refl, refl)
update_all-buffers (h ∷ hs) w c =
    let e = update_all-stepped h hs w c.0 in
    let (gas, blob) = update_all-buffers hs (stepped h w) c.1 in
    (ap (λ v. v.gas_price_buffer) e ∙ gas, ap (λ v. v.data_gas_price_buffer) e ∙ blob)

-- The prices are those of the buffers.
abbrev IsCurrent : GasOracleWorker → Type 0
IsCurrent w = w ≡ set_prices w

update_all-IsCurrent :
    (hs : List FeeHistory) (w : GasOracleWorker)
    → All HasPrices hs
    → IsCurrent w
    → IsCurrent (update_all hs w)
unfolding update_all
update_all-IsCurrent [] w c i = i
update_all-IsCurrent (h ∷ hs) w c i =
    subst IsCurrent (sym (update_all-stepped h hs w c.0))
      (update_all-IsCurrent hs (stepped h w) c.1 refl)

-- The prices are the code's averages of the last samples.
update_all-average_of_newest :
    (h : FeeHistory) (hs : List FeeHistory) (prices : SampledPrices)
    → All HasPrices (h ∷ hs)
    → (update_all (h ∷ hs) (new prices)).prices ≡ record {
      gas_prices = both ((average (newest (map gas_of (h ∷ hs))) + 1000000000) % 2 ^ 128);
      data_gas_prices = both (average (newest (map blob_of (h ∷ hs))));
    }
unfolding new
update_all-average_of_newest h hs prices c =
    let (gas, blob) = update_all-buffers (h ∷ hs) (new prices) c in
    let current =
      subst IsCurrent (sym (update_all-stepped h hs (new prices) c.0))
        (update_all-IsCurrent hs (stepped h (new prices)) c.1 refl) in
    ap (λ w. w.prices) current
    ∙ ap₂ prices_of (gas ∙ add_all-newest (map gas_of (h ∷ hs)) [] (omega arith))
        (blob ∙ add_all-newest (map blob_of (h ∷ hs)) [] (omega arith))
  where
    prices_of : List ℕ → List ℕ → SampledPrices
    prices_of gas blob = record {
      gas_prices = both ((average gas + 1000000000) % 2 ^ 128);
      data_gas_prices = both (average blob);
    }

-- The mean of the samples, rounded down.
abbrev pub IsMean : List ℕ → ℕ → Type 0
IsMean samples a = (a * length samples ≤ sum samples) × (sum samples < suc a * length samples)

-- Where the sum does not wrap.
average-IsMean :
    (samples : List ℕ)
    → 0 < length samples
    → sum samples < 2 ^ 128
    → IsMean samples (average samples)
unfolding average
average-IsMean [] some_sample fits = absurd (omega arith)
average-IsMean (x ∷ xs) some_sample fits =
    let total = sum (x ∷ xs) in
    let n = length (x ∷ xs) in
    let below = lt-div-mul-add {a = total} {b = n} some_sample in
    let one_more : suc (total / n) * n ≡ total / n * n + n = suc-mul (total / n) n in
    rw (mod-eq_of_lt fits) (div-mul-le_self total n, subst (λ y. total < y) (sym one_more) below)

IsMean-le : (samples : List ℕ) (a : ℕ) → 0 < length samples → IsMean samples a → a ≤ sum samples
IsMean-le samples a some_sample m =
    let up : a * 1 ≤ a * length samples = mul-le-mul_left a some_sample in
    let one = mul-one a in omega (arith, up, one, m.0)

newest-some : (x : ℕ) (xs : List ℕ) → 0 < length (newest (x ∷ xs))
newest-some x xs = let e = length-drop (length (x ∷ xs) - 60) (x ∷ xs) in omega (arith, e)

-- After at least one history, all of which have both prices, a new worker's gas price is one gwei above the mean, rounded
-- down, of the last 60 gas samples, and its data gas price the mean of the last 60 blob samples, if their
-- sums, the first one with a gwei more, have 128 bits.
pub update_all-average :
    (h : FeeHistory) (hs : List FeeHistory) (prices : SampledPrices)
    → All HasPrices (h ∷ hs)
    → sum (newest (map gas_of (h ∷ hs))) + 1000000000 < 2 ^ 128
    → sum (newest (map blob_of (h ∷ hs))) < 2 ^ 128
    → (gas : ℕ) × (blob : ℕ) × ((update_all (h ∷ hs) (new prices)).prices
        ≡ record { gas_prices = both (gas + 1000000000); data_gas_prices = both blob })
      × IsMean (newest (map gas_of (h ∷ hs))) gas
      × IsMean (newest (map blob_of (h ∷ hs))) blob
update_all-average h hs prices c fits blob_fits =
    let gas : IsMean (newest (map gas_of (h ∷ hs))) (average (newest (map gas_of (h ∷ hs)))) =
      average-IsMean (newest (map gas_of (h ∷ hs))) (newest-some (gas_of h) (map gas_of hs))
        (omega (arith, fits)) in
    let blob =
      average-IsMean (newest (map blob_of (h ∷ hs))) (newest-some (blob_of h) (map blob_of hs))
        blob_fits in
    let small : average (newest (map gas_of (h ∷ hs))) ≤ sum (newest (map gas_of (h ∷ hs))) =
      IsMean-le (newest (map gas_of (h ∷ hs))) _ (newest-some (gas_of h) (map gas_of hs)) gas in
    (
      average (newest (map gas_of (h ∷ hs))),
      average (newest (map blob_of (h ∷ hs))),
      update_all-average_of_newest h hs prices c
          ∙ ap
              (λ g. record {
                gas_prices = both g;
                data_gas_prices = both (average (newest (map blob_of (h ∷ hs))));
              })
              (mod-eq_of_lt (omega (arith, small, fits))),
      gas,
      blob,
    )

-- A history without one of the prices is an error, and leaves the prices and the data gas samples as they were.
pub update_gas_price-fails :
    (h : FeeHistory) (w : GasOracleWorker)
    → (last? h.base_fee_per_gas ≡ none) ⊎ (last? h.base_fee_per_blob_gas ≡ none)
    → ((update_gas_price h w).0 ≢ updated)
      × ((update_gas_price h w).1.prices ≡ w.prices)
      × ((update_gas_price h w).1.data_gas_price_buffer ≡ w.data_gas_price_buffer)
unfolding update_gas_price
update_gas_price-fails h w (inl e) = rw (e, with_gas_price) ((λ q. cc), refl, refl)
update_gas_price-fails h w (inr e) = elim (Option-cases (last? h.base_fee_per_gas)) [
  | inl g ↦ rw (g, with_gas_price) ((λ q. cc), refl, refl)
  | inr (x, g) ↦ rw (g, with_gas_price, e, with_blob_price) ((λ q. cc), refl, refl)
]
