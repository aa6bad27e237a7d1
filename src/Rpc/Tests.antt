-- ===== src/Rpc/Tests.antt =====
-- Continuation tokens of events at concrete numbers.
use katana.Base.{◌≡◌, refl, [], ◌∷◌, arith}
use katana.Rpc.Token.{
  ContinuationToken, invalid_digit, pos_overflow, invalid_token, parse_failed, ok, err, token,
  parse, print, print_maybe_forked, parse_maybe_forked, from_str_radix, split, hex_digit, digits,
  lower_hex, hex_from,
}
use katana.Rpc.TokenRoundTrip.{Fits, parse_maybe_forked-print_maybe_forked}

abbrev late : ContinuationToken
late = record { block_n = 30; txn_n = 255; event_n = 4 }

print-late : print late ≡ b'1' ∷ b'e' ∷ b',' ∷ b'f' ∷ b'f' ∷ b',' ∷ b'4' ∷ []
unfolding print lower_hex hex_from
print-late = refl

parse-two_numbers : parse (b'1' ∷ b',' ∷ b'2' ∷ []) ≡ err invalid_token
unfolding parse split
parse-two_numbers = refl

parse-wrong_digit : parse (b'1' ∷ b',' ∷ b'g' ∷ b',' ∷ b'2' ∷ []) ≡ err (parse_failed invalid_digit)
unfolding parse split from_str_radix digits hex_digit
parse-wrong_digit = refl

-- A number of 65 bits.
from_str_radix-overflow :
    from_str_radix (
      b'1' ∷ b'0' ∷ b'0' ∷ b'0' ∷ b'0' ∷ b'0' ∷ b'0' ∷ b'0' ∷ b'0' ∷ b'0' ∷ b'0' ∷ b'0' ∷ b'0'
      ∷ b'0' ∷ b'0' ∷ b'0' ∷ b'0' ∷ [])
    ≡ err (parse_failed pos_overflow)
unfolding from_str_radix digits hex_digit
from_str_radix-overflow = refl

parse_maybe_forked-print_maybe_forked_example :
    parse_maybe_forked (print_maybe_forked (token late)) ≡ ok (token late)
unfolding Fits
parse_maybe_forked-print_maybe_forked_example =
    parse_maybe_forked-print_maybe_forked (token late) (omega arith, omega arith, omega arith)
