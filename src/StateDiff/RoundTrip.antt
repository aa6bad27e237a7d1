-- ===== src/StateDiff/RoundTrip.antt =====
-- Decoding and encoding of contract metadata: `Metadata` of crates/primitives/src/da/encoding.rs.
use katana.Base.{
  unwrap_or, ◌∙◌, ℕ, zero, suc, ◌+◌, ◌*◌, ◌/◌, ◌%◌, ◌^◌, ◌<◌, ◌≡◌, refl, ap, Bool, true, false,
  Option, none, some, lt→ltb, ◌==◌, arith,
}
use katana.StateDiff.{Metadata, encode, leading_bits, nonce_of, decode}

leading_bits-short : (fuel word : ℕ) → word < 2 ^ 256 → leading_bits fuel word ≡ word
unfolding leading_bits
leading_bits-short zero word h = refl
leading_bits-short (suc fuel) word h = rw (leading_bits, lt→ltb word (2 ^ 256) h) refl

-- The parts of a word.
abbrev parts : ℕ → ℕ → ℕ → ℕ
parts flag nonce total = flag * 2 ^ 128 + nonce * 2 ^ 64 + total

flag_part : (f n t : ℕ) → f < 2 → n < 2 ^ 64 → t < 2 ^ 64 → (parts f n t / 2 ^ 128) % 2 ≡ f
flag_part f n t a b c = omega arith

nonce_part : (f n t : ℕ) → f < 2 → n < 2 ^ 64 → t < 2 ^ 64 → (parts f n t / 2 ^ 64) % 2 ^ 64 ≡ n
nonce_part f n t a b c = omega arith

total_part : (f n t : ℕ) → f < 2 → n < 2 ^ 64 → t < 2 ^ 64 → parts f n t % 2 ^ 64 ≡ t
total_part f n t a b c = omega arith

abbrev number : Bool → ℕ
number true = 1
number false = 0

number-lt : (f : Bool) → number f < 2
number-lt true = omega arith
number-lt false = omega arith

number_test : (f : Bool) → (number f == 1) ≡ f
number_test true = refl
number_test false = refl

decode-parts :
    (f : Bool) (n t : ℕ)
    → n < 2 ^ 64
    → t < 2 ^ 64
    → decode (parts (number f) n t)
      ≡ record { class_information_flag = f; new_nonce = nonce_of n; total_storage_updates = t }
unfolding decode
decode-parts f n t b c =
    let short : parts (number f) n t < 2 ^ 256 = omega (arith, number-lt f) in
    let bits = leading_bits-short (parts (number f) n t) (parts (number f) n t) short in
    rw
      (
        bits,
        flag_part (number f) n t (number-lt f) b c,
        nonce_part (number f) n t (number-lt f) b c,
        total_part (number f) n t (number-lt f) b c,
        number_test f,
      )
      refl

-- Its nonce, if it has one, is not zero and has 64 bits, and so has its number of updates.
abbrev pub IsFitting : Metadata → Type 0
IsFitting m =
    ((n : ℕ) → m.new_nonce ≡ some n → (0 < n) × (n < 2 ^ 64)) × (m.total_storage_updates < 2 ^ 64)

encode-parts :
    (f : Bool) (n : Option ℕ) (t : ℕ)
    → ((k : ℕ) → n ≡ some k → k < 2 ^ 64)
    → encode (record { class_information_flag = f; new_nonce = n; total_storage_updates = t })
      ≡ some (parts (number f) (unwrap_or 0 n) t)
unfolding encode
encode-parts true none t h = ap some (omega arith)
encode-parts false none t h = ap some (omega arith)
encode-parts true (some n) t h = rw (lt→ltb n (2 ^ 64) (h n refl)) (ap some (omega arith))
encode-parts false (some n) t h = rw (lt→ltb n (2 ^ 64) (h n refl)) (ap some (omega arith))

nonce_of-unwrap : (n : Option ℕ) → ((k : ℕ) → n ≡ some k → 0 < k) → nonce_of (unwrap_or 0 n) ≡ n
nonce_of-unwrap none h = refl
nonce_of-unwrap (some n) h = ground (arith, h n refl)

unwrap-lt : (n : Option ℕ) → ((k : ℕ) → n ≡ some k → k < 2 ^ 64) → unwrap_or 0 n < 2 ^ 64
unwrap-lt none h = omega arith
unwrap-lt (some n) h = h n refl

-- Metadata whose nonce, if it has one, is neither zero nor longer than 64 bits, and whose number of updates has
-- 64 bits, is encoded to a word, without a panic, and decoded from it again.
pub decode-encode :
    (m : Metadata) → IsFitting m → (word : ℕ) × (encode m ≡ some word) × (decode word ≡ m)
decode-encode m h = (
  parts (number m.class_information_flag) (unwrap_or 0 m.new_nonce) m.total_storage_updates,
  encode-parts m.class_information_flag m.new_nonce m.total_storage_updates (λ k e. (h.0 k e).1),
  decode-parts m.class_information_flag (unwrap_or 0 m.new_nonce) m.total_storage_updates
        (unwrap-lt m.new_nonce (λ k e. (h.0 k e).1)) h.1
      ∙ ap
          (λ n. record {
            class_information_flag = m.class_information_flag;
            new_nonce = n;
            total_storage_updates = m.total_storage_updates;
          })
          (nonce_of-unwrap m.new_nonce (λ k e. (h.0 k e).0)),
)

unwrap-nonce_of : (n : ℕ) → unwrap_or 0 (nonce_of n) ≡ n
unwrap-nonce_of n = ground arith

nonce_of-lt : (n k : ℕ) → n < 2 ^ 64 → nonce_of n ≡ some k → k < 2 ^ 64
nonce_of-lt n k h e = ground arith

bit_number : (b : ℕ) → b < 2 → number (b == 1) ≡ b
bit_number b h = ground (arith, h)

-- A word of at most 129 bits is what its metadata is encoded to.
pub encode-decode : (word : ℕ) → word < 2 ^ 129 → encode (decode word) ≡ some word
unfolding decode
encode-decode word h =
    let short : word < 2 ^ 256 = omega arith in
    let nonce : (word / 2 ^ 64) % 2 ^ 64 < 2 ^ 64 = omega arith in
    let flag : (word / 2 ^ 128) % 2 < 2 = omega arith in
    rw (leading_bits-short word word short) (
      encode-parts ((word / 2 ^ 128) % 2 == 1) (nonce_of ((word / 2 ^ 64) % 2 ^ 64)) (word % 2 ^ 64)
        (λ k e. nonce_of-lt _ k nonce e)
      ∙ ap some (
          rw (unwrap-nonce_of ((word / 2 ^ 64) % 2 ^ 64), bit_number ((word / 2 ^ 128) % 2) flag)
            (omega arith)))
