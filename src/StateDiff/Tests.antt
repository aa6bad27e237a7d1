-- ===== src/StateDiff/Tests.antt =====
-- Runs of the metadata encoding of crates/primitives/src/da/encoding.rs.
use katana.Base.{ℕ, ◌≡◌, refl, true, false, some, arith}
use katana.StateDiff.{Metadata, encode, decode, leading_bits}
use katana.StateDiff.RoundTrip.{IsFitting, decode-encode, encode-decode}

abbrev deployed : Metadata
deployed = record { class_information_flag = true; new_nonce = some 5; total_storage_updates = 3 }

deployed-IsFitting : IsFitting deployed
deployed-IsFitting =
    (λ n e. let p : 5 ≡ n = cc in (omega (arith, p), omega (arith, p)), omega arith)

decode-encode_example : (word : ℕ) × (encode deployed ≡ some word) × (decode word ≡ deployed)
decode-encode_example = decode-encode deployed deployed-IsFitting

-- The word of the example in the documentation of the source: one storage update and nonce 1.
encode-decode_documented : encode (decode 18446744073709551617) ≡ some 18446744073709551617
encode-decode_documented = encode-decode 18446744073709551617 (omega arith)

decodes :
    decode 18446744073709551617
    ≡ record { class_information_flag = false; new_nonce = some 1; total_storage_updates = 1 }
unfolding decode leading_bits
decodes = refl
