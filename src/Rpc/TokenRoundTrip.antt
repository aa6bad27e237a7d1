-- ===== src/Rpc/TokenRoundTrip.antt =====
-- Printing and parsing continuation tokens: crates/primitives/src/event.rs.
use katana.Base.{
  ℕ, zero, suc, ◌+◌, ◌*◌, ◌/◌, ◌%◌, ◌^◌, ◌≤◌, ◌<◌, ◌≡◌, refl, ◌∙◌, sym, ap, false, inl, inr, none,
  some, List, [], ◌∷◌, ◌++◌, arith, All, Bool-cases, ==_iff, lt→ltb, ◌==◌, length,
}
use katana.Rpc.Token.{
  ContinuationToken, ok, hex_digit, digits, from_str_radix, split, parse, hex_code, hex_from,
  lower_hex, print, MaybeForkedContinuationToken, forked, token, strip_prefix, parse_maybe_forked,
  print_maybe_forked,
}

-- A code that is no comma, no sign and no capital F.
abbrev IsPlain : ℕ → Type 0
IsPlain code = ((code == b',') ≡ false) × ((code == b'+') ≡ false) × ((code == b'F') ≡ false)

hex_code-IsPlain : (d : ℕ) → d < 16 → IsPlain (hex_code d)
hex_code-IsPlain d h = (ground arith, ground arith, ground arith)

hex_digit-hex_code : (d : ℕ) → d < 16 → hex_digit (hex_code d) ≡ some d
unfolding hex_digit
hex_digit-hex_code d h = ground arith

hex_from-IsPlain :
    (fuel n : ℕ) (rest : List ℕ) → All IsPlain rest → All IsPlain (hex_from fuel n rest)
unfolding hex_from
hex_from-IsPlain zero n rest h = h
hex_from-IsPlain (suc fuel) n rest h = elim (Bool-cases (n == 0)) [
  | inl e ↦ rw (e, hex_from) h
  | inr e ↦
      rw (e, hex_from)
        (hex_from-IsPlain fuel (n / 16) (hex_code (n % 16) ∷ rest)
          (hex_code-IsPlain (n % 16) (omega arith), h))
]

hex_from-length : (fuel n : ℕ) (rest : List ℕ) → length rest ≤ length (hex_from fuel n rest)
unfolding hex_from
hex_from-length zero n rest = omega arith
hex_from-length (suc fuel) n rest =
    ground (arith, hex_from-length fuel (n / 16) (hex_code (n % 16) ∷ rest))

lower_hex-IsPlain : (n : ℕ) → All IsPlain (lower_hex n)
unfolding lower_hex
lower_hex-IsPlain n = elim (Bool-cases (n == 0)) [
  | inl e ↦ rw e ((refl, refl, refl), tt)
  | inr e ↦ rw e (hex_from-IsPlain 16 n [] tt)
]

hex_from-pos :
    (fuel n : ℕ) (rest : List ℕ) → (n == 0) ≡ false → 0 < length (hex_from (suc fuel) n rest)
unfolding hex_from
hex_from-pos fuel n rest e =
    rw (e, hex_from) (omega (arith, hex_from-length fuel (n / 16) (hex_code (n % 16) ∷ rest)))

lower_hex-length : (n : ℕ) → 0 < length (lower_hex n)
unfolding lower_hex
lower_hex-length n = elim (Bool-cases (n == 0)) [
  | inl e ↦ rw e (omega arith)
  | inr e ↦ rw e (hex_from-pos 15 n [] e)
]

digits-hex_code :
    (n : ℕ) (rest : List ℕ)
    → n < 2 ^ 64
    → digits (n / 16) (hex_code (n % 16) ∷ rest) ≡ digits n rest
unfolding digits
digits-hex_code n rest b =
    let v : n / 16 * 16 + n % 16 ≡ n = omega arith in
    rw
      (
        hex_digit-hex_code (n % 16) (omega arith),
        digits,
        lt→ltb (n / 16 * 16 + n % 16) (2 ^ 64) (omega arith),
      )
      (ap (λ value. digits value rest) v)

-- Reading the digits of a number gives the number.
digits-hex_from :
    (fuel n : ℕ) (rest : List ℕ)
    → n < 16 ^ fuel
    → n < 2 ^ 64
    → digits 0 (hex_from fuel n rest) ≡ digits n rest
unfolding hex_from
digits-hex_from zero n rest h b = let e : n ≡ 0 = omega arith in rw e refl
digits-hex_from (suc fuel) n rest h b = elim (Bool-cases (n == 0)) [
  | inl e ↦ let z : n ≡ 0 = (==_iff n 0).0 e in rw e (ap (λ v. digits v rest) (sym z))
  | inr e ↦ rw e (
      digits-hex_from fuel (n / 16) (hex_code (n % 16) ∷ rest) (small fuel h) (omega arith)
      ∙ digits-hex_code n rest b)
]
  where
    small : (fuel : ℕ) → n < 16 ^ suc fuel → n / 16 < 16 ^ fuel
    small fuel h = omega arith

from_str_radix-digits :
    (xs : List ℕ) → All IsPlain xs → 0 < length xs → from_str_radix xs ≡ digits 0 xs
unfolding from_str_radix
from_str_radix-digits [] p l = absurd (omega arith)
from_str_radix-digits (x ∷ []) p l = refl
from_str_radix-digits (x ∷ y ∷ xs) p l = rw p.0.1 refl

digits-lower_hex : (n : ℕ) → n < 2 ^ 64 → digits 0 (lower_hex n) ≡ ok n
unfolding lower_hex digits hex_digit
digits-lower_hex n h = elim (Bool-cases (n == 0)) [
  | inl e ↦ rw e (ap ok (sym ((==_iff n 0).0 e)))
  | inr e ↦ rw e (digits-hex_from 16 n [] (omega arith) h)
]

from_str_radix-lower_hex : (n : ℕ) → n < 2 ^ 64 → from_str_radix (lower_hex n) ≡ ok n
from_str_radix-lower_hex n h =
    from_str_radix-digits (lower_hex n) (lower_hex-IsPlain n) (lower_hex-length n)
    ∙ digits-lower_hex n h

split-plain : (xs : List ℕ) → All IsPlain xs → split xs ≡ xs ∷ []
unfolding split
split-plain [] p = refl
split-plain (x ∷ xs) p = rw (p.0.0, split-plain xs p.1) refl

split-comma : (xs ys : List ℕ) → All IsPlain xs → split (xs ++ (b',' ∷ ys)) ≡ xs ∷ split ys
unfolding split
split-comma [] ys p = refl
split-comma (x ∷ xs) ys p = rw (p.0.0, split-comma xs ys p.1) refl

parse-print :
    (t : ContinuationToken)
    → t.block_n < 2 ^ 64
    → t.txn_n < 2 ^ 64
    → t.event_n < 2 ^ 64
    → parse (print t) ≡ ok t
unfolding parse print
parse-print t a b d =
    rw
      (
        split-comma (lower_hex t.block_n) (lower_hex t.txn_n ++ (b',' ∷ lower_hex t.event_n))
            (lower_hex-IsPlain t.block_n),
        split-comma (lower_hex t.txn_n) (lower_hex t.event_n) (lower_hex-IsPlain t.txn_n),
        split-plain (lower_hex t.event_n) (lower_hex-IsPlain t.event_n),
        from_str_radix-lower_hex t.block_n a,
        from_str_radix-lower_hex t.txn_n b,
        from_str_radix-lower_hex t.event_n d,
      )
      refl

strip_prefix-none :
    (xs ys : List ℕ) → All IsPlain xs → 0 < length xs → strip_prefix (xs ++ ys) ≡ none
unfolding strip_prefix
strip_prefix-none [] ys p l = absurd (omega arith)
strip_prefix-none (x ∷ []) [] p l = refl
strip_prefix-none (x ∷ []) (y ∷ []) p l = refl
strip_prefix-none (x ∷ []) (y ∷ z ∷ ys) p l = rw p.0.2 refl
strip_prefix-none (x ∷ y ∷ []) [] p l = refl
strip_prefix-none (x ∷ y ∷ []) (z ∷ ys) p l = rw p.0.2 refl
strip_prefix-none (x ∷ y ∷ z ∷ xs) ys p l = rw p.0.2 refl

print-not_forked : (t : ContinuationToken) → strip_prefix (print t) ≡ none
unfolding print
print-not_forked t =
    strip_prefix-none (lower_hex t.block_n)
      (b',' ∷ (lower_hex t.txn_n ++ (b',' ∷ lower_hex t.event_n))) (lower_hex-IsPlain t.block_n)
      (lower_hex-length t.block_n)

strip_prefix-forked : (t : List ℕ) → strip_prefix (b'F' ∷ b'K' ∷ b'_' ∷ t) ≡ some t
unfolding strip_prefix
strip_prefix-forked t = refl

-- A token whose numbers have 64 bits.
unfoldable pub Fits : MaybeForkedContinuationToken → Type 0
Fits (forked t) = Unit
Fits (token t) = (t.block_n < 2 ^ 64) × (t.txn_n < 2 ^ 64) × (t.event_n < 2 ^ 64)

-- Parsing a printed token, of this node with numbers of 64 bits or of the forked network whatever its
-- text, gives the token.
pub parse_maybe_forked-print_maybe_forked :
    (t : MaybeForkedContinuationToken) → Fits t → parse_maybe_forked (print_maybe_forked t) ≡ ok t
unfolding Fits parse_maybe_forked print_maybe_forked
parse_maybe_forked-print_maybe_forked (forked t) h =
    rw (parse_maybe_forked, strip_prefix-forked t) refl
parse_maybe_forked-print_maybe_forked (token t) (a, b, d) =
    rw (parse_maybe_forked, print-not_forked t, parse-print t a b d) refl
