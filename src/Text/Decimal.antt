-- ===== src/Text/Decimal.antt =====
-- The decimal forms of `fmt.Sprintf("%d")` and `strconv.FormatInt`.
pub mod Laws
use Prim.Native.Char.{Char, code}
use Prim.Native.String.{[], ◌∷◌}
use text.Mathlib.TextLemmas.{nil-append, cons-append}
use email_triage_system.Common.{
  ℕ, zero, suc, ◌+◌, ◌-◌, ◌*◌, ◌/◌, ◌%◌, ◌<◌, ◌≤◌, String, ◌<>◌, ◌≡◌, refl, ap, ◌≢◌, ◌∙◌, inl, inr,
  true, false, ◌&&◌, Option, none, some, arith, ltb, leb, eqb, if◌then◌else◌, Bool-cases,
}
use email_triage_system.Common.Int.{ℤ, pos, negsuc, two63, ◌≤ℤ◌, ◌<ℤ◌}

-- The character at a place of a text, or the last one.
abbrev pick : Char → String → ℕ → Char
pick d [] n = d
pick d (c ∷ s) zero = c
pick d (c ∷ s) (suc n) = pick c s n

abbrev digit : ℕ → Char
digit n = pick Prim.Native.Char.nul "0123456789" n

-- The digits of `n` before those of `out`. A number has fewer digits than its successor's value.
decimal_from : ℕ → ℕ → String → String
decimal_from zero n out = out
decimal_from (suc fuel) n out =
    let longer = decimal_from fuel (n / 10) (digit (n % 10) ∷ out) in
    if ltb n 10 then digit n ∷ out else longer

unfoldable pub decimal : ℕ → String
unfolding decimal_from
decimal n = decimal_from (suc n) n []

unfoldable pub format_int : ℤ → String
unfolding decimal
format_int (pos n) = decimal n
format_int (negsuc n) = "-" <> decimal (suc n)

format_int_test : format_int (negsuc 9223372036854775807) ≡ "-9223372036854775808"
unfolding format_int
format_int_test = refl

-- The number that the digits of a text continue, and none where a character is no digit.
parse_digits : String → ℕ → Option ℕ
parse_digits [] n = some n
parse_digits (c ∷ s) n =
    let rest = parse_digits s (10 * n + (code c - 48)) in
    if leb 48 (code c) && leb (code c) 57 then rest else none

abbrev in_range : ℕ → (ℕ → ℤ) → Option ℕ → Option ℤ
in_range bound f none = none
in_range bound f (some n) = if ltb n bound then some (f n) else none

abbrev negated : ℕ → ℤ
negated zero = pos 0
negated (suc n) = negsuc n

abbrev parse_unsigned : String → ℕ → (ℕ → ℤ) → Option ℤ
parse_unsigned [] bound f = none
parse_unsigned (c ∷ s) bound f = in_range bound f (parse_digits (c ∷ s) 0)

-- `strconv.ParseInt(s, 10, 64)`; `none` is its error, a value out of range included.
unfoldable pub parse_int : String → Option ℤ
unfolding parse_digits
parse_int [] = none
parse_int (c ∷ s) =
    if eqb (code c) 45
    then parse_unsigned s (two63 + 1) negated
    else if eqb (code c) 43
    then parse_unsigned s two63 pos
    else parse_unsigned (c ∷ s) two63 pos

parse_int_test : parse_int "-9223372036854775808" ≡ some (negsuc 9223372036854775807)
unfolding parse_int
parse_int_test = refl
