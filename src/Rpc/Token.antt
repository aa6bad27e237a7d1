-- ===== src/Rpc/Token.antt =====
-- Continuation tokens of event queries: crates/primitives/src/event.rs. A text is the list of the
-- codes of its characters.
use katana.Base.{
  ℕ, zero, suc, ◌+◌, ◌-◌, ◌*◌, ◌/◌, ◌%◌, ◌^◌, true, false, ◌&&◌, Option, none, some, List, [], ◌∷◌,
  ◌++◌, ltb, leb, ◌==◌, if◌then◌else◌,
}

pub record ContinuationToken : Type 0 where
  pub block_n : ℕ
  pub txn_n : ℕ
  pub event_n : ℕ

-- The causes of a failed number are those of the standard library's `ParseIntError`.
pub data ParseIntError : Type 0 where
  empty invalid_digit pos_overflow : ParseIntError

pub data ContinuationTokenError : Type 0 where
  invalid_token : ContinuationTokenError
  parse_failed : ParseIntError → ContinuationTokenError

pub data ParseResult (A : Type 0) : Type 0 where
  ok : A → ParseResult A
  err : ContinuationTokenError → ParseResult A

module _ {A B : Type 0} where
  infixl 1 ◌>>=◌
  abbrev pub ◌>>=◌ : ParseResult A → (A → ParseResult B) → ParseResult B
  ok a >>= f = f a
  err e >>= f = err e

-- The value of a hexadecimal digit.
unfoldable pub hex_digit : ℕ → Option ℕ
hex_digit code =
    if leb b'0' code && leb code b'9'
    then some (code - b'0')
    else if leb b'a' code && leb code b'f'
    then some (code - b'a' + 10)
    else if leb b'A' code && leb code b'F'
    then some (code - b'A' + 10)
    else none

-- The digits from the left, with the value of those before; a value of more than 64 bits overflows.
unfoldable pub digits : ℕ → List ℕ → ParseResult ℕ
digits value [] = ok value
digits value (code ∷ codes) = elim (hex_digit code) [
  | none ↦ err (parse_failed invalid_digit)
  | some d ↦ elim (ltb (value * 16 + d) (2 ^ 64)) [
    | true ↦ digits (value * 16 + d) codes
    | false ↦ err (parse_failed pos_overflow)
  ]
]

-- `u64::from_str_radix` to the base 16. A sign `+` is passed over if digits follow.
unfoldable pub from_str_radix : List ℕ → ParseResult ℕ
from_str_radix [] = err (parse_failed empty)
from_str_radix (code ∷ []) = digits 0 (code ∷ [])
from_str_radix (code ∷ next ∷ codes) =
    if code == b'+' then digits 0 (next ∷ codes) else digits 0 (code ∷ next ∷ codes)

-- `split(',')`: the pieces between the commas, of which there is always one.
abbrev pub push_front : ℕ → List (List ℕ) → List (List ℕ)
push_front code [] = (code ∷ []) ∷ []
push_front code (piece ∷ pieces) = (code ∷ piece) ∷ pieces

unfoldable pub split : List ℕ → List (List ℕ)
split [] = [] ∷ []
split (code ∷ codes) =
    let rest = split codes in if code == b',' then [] ∷ rest else push_front code rest

abbrev pub from_pieces : List (List ℕ) → ParseResult ContinuationToken
from_pieces (a ∷ b ∷ c ∷ []) = from_str_radix a >>= λ block_n. from_str_radix b >>= λ receipt_n.
    from_str_radix c >>= λ event_n.
    ok (record { block_n = block_n; txn_n = receipt_n; event_n = event_n })
from_pieces _ = err invalid_token

unfoldable pub parse : List ℕ → ParseResult ContinuationToken
parse token = from_pieces (split token)

-- The code of a digit, and the digits of a number to the base 16 (`{:x}`) in front of `rest`, on fuel
-- of at least the number of digits.
abbrev pub hex_code : ℕ → ℕ
hex_code d = if ltb d 10 then b'0' + d else b'a' + (d - 10)

unfoldable pub hex_from : ℕ → ℕ → List ℕ → List ℕ
hex_from zero n rest = rest
hex_from (suc fuel) n rest =
    let more = hex_from fuel (n / 16) (hex_code (n % 16) ∷ rest) in if n == 0 then rest else more

unfoldable pub lower_hex : ℕ → List ℕ
lower_hex n = if n == 0 then b'0' ∷ [] else hex_from 16 n []

unfoldable pub print : ContinuationToken → List ℕ
print t = lower_hex t.block_n ++ (b',' ∷ (lower_hex t.txn_n ++ (b',' ∷ lower_hex t.event_n)))

-- A token of this node, or one of the forked network's provider.
pub data MaybeForkedContinuationToken : Type 0 where
  forked : List ℕ → MaybeForkedContinuationToken
  token : ContinuationToken → MaybeForkedContinuationToken

-- `FK_` in front.
abbrev pub or_token : ParseResult ContinuationToken → ParseResult MaybeForkedContinuationToken
or_token (ok t) = ok (token t)
or_token (err e) = err e

unfoldable pub strip_prefix : List ℕ → Option (List ℕ)
strip_prefix (f ∷ k ∷ u ∷ rest) =
    if (f == b'F') && (k == b'K') && (u == b'_') then some rest else none
strip_prefix _ = none

unfoldable pub parse_maybe_forked : List ℕ → ParseResult MaybeForkedContinuationToken
parse_maybe_forked value = elim (strip_prefix value) [
  | some rest ↦ ok (forked rest)
  | none ↦ or_token (parse value)
]

unfoldable pub to_token : MaybeForkedContinuationToken → Option ContinuationToken
to_token (token t) = some t
to_token (forked t) = none

unfoldable pub print_maybe_forked : MaybeForkedContinuationToken → List ℕ
print_maybe_forked (token t) = print t
print_maybe_forked (forked t) = b'F' ∷ b'K' ∷ b'_' ∷ t
