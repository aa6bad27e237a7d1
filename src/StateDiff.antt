-- ===== src/StateDiff.antt =====
-- The encoding of contract metadata in state diffs: `Metadata` of crates/primitives/src/da/encoding.rs.
-- A `BigUint` is a natural number.
pub mod RoundTrip
pub mod Updates
mod Merge
mod Words
pub mod Complete
mod UpdateTests
mod Tests
use katana.Base.{
  ℕ, zero, suc, ◌+◌, ◌*◌, ◌/◌, ◌%◌, ◌^◌, Bool, true, false, Option, none, some, ltb, ◌==◌,
  if◌then◌else◌, arith,
}

pub record Metadata : Type 0 where
  pub class_information_flag : Bool
  pub new_nonce : Option ℕ
  pub total_storage_updates : ℕ

abbrev pub flag_word : Bool → ℕ
flag_word true = 2 ^ 128
flag_word false = 0

-- `to_u64().unwrap()`, with `none` for the panic, and then the shift.
abbrev pub nonce_word : Option ℕ → Option ℕ
nonce_word none = some 0
nonce_word (some nonce) = if ltb nonce (2 ^ 64) then some (nonce * 2 ^ 64) else none

-- The parts are put together by `|=`. As the nonce and the number of updates have 64 bits, no two parts share a bit.
abbrev pub join_word : Metadata → Option ℕ → Option ℕ
join_word m none = none
join_word m (some nonce) =
    some (flag_word m.class_information_flag + nonce + m.total_storage_updates)

unfoldable pub encode : Metadata → Option ℕ
encode m = join_word m (nonce_word m.new_nonce)

-- The first 256 digits of the word in base 2, which has leading zeros if it is shorter: lower digits are dropped
-- until the rest fits. The word itself is fuel enough.
unfoldable pub leading_bits : ℕ → ℕ → ℕ
leading_bits zero word = word
leading_bits (suc fuel) word = elim (ltb word (2 ^ 256)) [
  | true ↦ word
  | false ↦ leading_bits fuel (word / 2)
]

abbrev pub nonce_of : ℕ → Option ℕ
nonce_of nonce = if nonce == 0 then none else some nonce

-- Digit 127, digits 128 to 191 and digits 192 to 255. With 256 digits at least, none of the errors occurs.
unfoldable pub decode : ℕ → Metadata
unfolding leading_bits
decode word =
    let bits = leading_bits word word in
    record {
      class_information_flag = (bits / 2 ^ 128) % 2 == 1;
      new_nonce = nonce_of ((bits / 2 ^ 64) % 2 ^ 64);
      total_storage_updates = bits % 2 ^ 64;
    }
