-- ===== src/Text/Decimal/Laws.antt =====
-- Reading back what is printed, and the range of what is read.
use Prim.Native.Char.{Char, code}
use Prim.Native.String.{[], ◌∷◌}
use text.Mathlib.TextLemmas.{nil-append, cons-append}
use email_triage_system.Common.{
  ℕ, zero, suc, ◌+◌, ◌-◌, ◌*◌, ◌/◌, ◌%◌, ◌<◌, String, ◌<>◌, ◌≡◌, refl, ap, subst, ◌≢◌, ◌∙◌, inl,
  inr, true, false, Option, none, some, arith, ltb, leb, eqb, ltb→lt, Bool-cases,
}
use email_triage_system.Common.Int.{ℤ, pos, negsuc, two63, ◌≤ℤ◌, ◌<ℤ◌}
use email_triage_system.Text.Decimal.{
  digit, decimal_from, decimal, format_int, parse_digits, in_range, negated, parse_unsigned,
  parse_int,
}

digit_lem : (n : ℕ) → n < 10 → code (digit n) ≡ 48 + n
digit_lem zero h = refl
digit_lem (suc zero) h = refl
digit_lem (suc (suc zero)) h = refl
digit_lem (suc (suc (suc zero))) h = refl
digit_lem (suc (suc (suc (suc zero)))) h = refl
digit_lem (suc (suc (suc (suc (suc zero))))) h = refl
digit_lem (suc (suc (suc (suc (suc (suc zero)))))) h = refl
digit_lem (suc (suc (suc (suc (suc (suc (suc zero))))))) h = refl
digit_lem (suc (suc (suc (suc (suc (suc (suc (suc zero)))))))) h = refl
digit_lem (suc (suc (suc (suc (suc (suc (suc (suc (suc zero))))))))) h = refl
digit_lem (suc (suc (suc (suc (suc (suc (suc (suc (suc (suc n)))))))))) h = absurd (omega arith)

parse_digits-digit :
    (k m : ℕ) (out : String)
    → k < 10
    → parse_digits (digit k ∷ out) m ≡ parse_digits out (10 * m + k)
unfolding parse_digits
parse_digits-digit k m out h =
    let e = digit_lem k h in
    let low : leb 48 (code (digit k)) ≡ true = ground arith in
    let high : leb (code (digit k)) 57 ≡ true = ground arith in
    let same : 10 * m + (code (digit k) - 48) ≡ 10 * m + k = omega arith in
    rw (low, high, same) refl

parse_digits-decimal_from :
    (fuel n : ℕ) (out : String)
    → n < fuel
    → parse_digits (decimal_from fuel n out) 0 ≡ parse_digits out n
unfolding parse_digits decimal_from
parse_digits-decimal_from zero n out h = absurd (omega arith)
parse_digits-decimal_from (suc fuel) n out h =
    let rest = parse_digits-decimal_from fuel (n / 10) (digit (n % 10) ∷ out) in
    elim (Bool-cases (ltb n 10)) [
      | inl small ↦
          rw small (parse_digits-digit n 0 out (ground arith) ∙ ap (parse_digits out) (omega arith))
      | inr large ↦ rw large (
          rest (ground arith)
          ∙ parse_digits-digit (n % 10) (n / 10) out (omega arith)
          ∙ ap (parse_digits out) (omega arith))
    ]

decimal_from-nonempty : (fuel n : ℕ) (c : Char) (out : String) → decimal_from fuel n (c ∷ out) ≢ ""
unfolding decimal_from
decimal_from-nonempty zero n c out h = cc
decimal_from-nonempty (suc fuel) n c out h =
    let rest = decimal_from-nonempty fuel (n / 10) (digit (n % 10)) (c ∷ out) in
    elim (Bool-cases (ltb n 10)) [
      | inl small ↦ let e : digit n ∷ c ∷ out ≡ "" = rw small at h in cc
      | inr large ↦ rest (rw large at h)
    ]

decimal-nonempty : (n : ℕ) → decimal n ≢ ""
unfolding decimal decimal_from
decimal-nonempty n h = elim (Bool-cases (ltb n 10)) [
  | inl small ↦ let e : digit n ∷ [] ≡ "" = rw small at h in cc
  | inr large ↦ decimal_from-nonempty n (n / 10) (digit (n % 10)) [] (rw large at h)
]

parse_unsigned-digits :
    (s : String) (n bound : ℕ) (f : ℕ → ℤ)
    → s ≢ ""
    → parse_digits s 0 ≡ some n
    → n < bound
    → parse_unsigned s bound f ≡ some (f n)
parse_unsigned-digits [] n bound f nonempty h le = absurd (nonempty refl)
parse_unsigned-digits (c ∷ s) n bound f nonempty h le =
    let below : ltb n bound ≡ true = ground arith in rw (h, below) refl

parse_int-digits :
    (s : String) (n : ℕ)
    → s ≢ ""
    → parse_digits s 0 ≡ some n
    → n < two63
    → parse_int s ≡ some (pos n)
unfolding parse_int parse_digits
parse_int-digits [] n nonempty h le = absurd (nonempty refl)
parse_int-digits (c ∷ s) n nonempty h le =
    let unsigned = parse_unsigned-digits (c ∷ s) n two63 pos nonempty h le in
    let minus : eqb (code c) 45 ≡ false = ground arith in
    let plus : eqb (code c) 43 ≡ false = ground arith in rw (minus, plus) unsigned

parse_int-minus : (t : String) → parse_int ("-" <> t) ≡ parse_unsigned t (two63 + 1) negated
unfolding parse_int
parse_int-minus t = rw (cons-append, nil-append) refl

-- What `strconv.FormatInt` writes of a 64-bit integer, `strconv.ParseInt` reads back.
pub parse_int-format_int :
    (a : ℤ) → negsuc (two63 - 1) ≤ℤ a → a <ℤ pos two63 → parse_int (format_int a) ≡ some a
unfolding parse_int format_int decimal
parse_int-format_int (pos n) low high =
    parse_int-digits (decimal n) n (decimal-nonempty n)
      (parse_digits-decimal_from (suc n) n [] (omega arith)) (omega arith)
parse_int-format_int (negsuc n) low high =
    parse_int-minus (decimal (suc n))
    ∙ parse_unsigned-digits (decimal (suc n)) (suc n) (two63 + 1) negated (decimal-nonempty (suc n))
        (parse_digits-decimal_from (suc (suc n)) (suc n) [] (omega arith)) (omega arith)

in_range-bounds :
    (bound : ℕ) (f : ℕ → ℤ) (o : Option ℕ) (a : ℤ)
    → in_range bound f o ≡ some a
    → (n : ℕ) × (n < bound) × (f n ≡ a)
in_range-bounds bound f none a h = cc
in_range-bounds bound f (some n) a h = elim (Bool-cases (ltb n bound)) [
  | inl below ↦ (n, ltb→lt n bound below, let e : some (f n) ≡ some a = rw below at h in cc)
  | inr above ↦ let e : none ≡ some a = rw above at h in cc
]

pos_range : (n : ℕ) (a : ℤ) → n < two63 → pos n ≡ a → (negsuc (two63 - 1) ≤ℤ a) × (a <ℤ pos two63)
pos_range n a low e =
    subst (λ b. (negsuc (two63 - 1) ≤ℤ b) × (b <ℤ pos two63)) e (omega arith, omega arith)

negated_range :
    (n : ℕ) (a : ℤ) → n < two63 + 1 → negated n ≡ a → (negsuc (two63 - 1) ≤ℤ a) × (a <ℤ pos two63)
negated_range zero a low e = pos_range 0 a (omega arith) e
negated_range (suc n) a low e =
    subst (λ b. (negsuc (two63 - 1) ≤ℤ b) × (b <ℤ pos two63)) e (omega arith, omega arith)

parse_unsigned-bounds :
    (s : String) (bound : ℕ) (f : ℕ → ℤ) (a : ℤ)
    → parse_unsigned s bound f ≡ some a
    → (n : ℕ) × (n < bound) × (f n ≡ a)
parse_unsigned-bounds [] bound f a h = cc
parse_unsigned-bounds (c ∷ s) bound f a h = in_range-bounds bound f (parse_digits (c ∷ s) 0) a h

pub parse_int_range :
    (s : String) (a : ℤ) → parse_int s ≡ some a → (negsuc (two63 - 1) ≤ℤ a) × (a <ℤ pos two63)
unfolding parse_int
parse_int_range [] a h = cc
parse_int_range (c ∷ s) a h = elim (Bool-cases (eqb (code c) 45)) [
  | inl minus ↦
      let (n, low, e) = parse_unsigned-bounds s (two63 + 1) negated a (rw minus at h) in
      negated_range n a low e
  | inr other ↦
      let positive : (t : String)
          → parse_unsigned t two63 pos ≡ some a
          → (negsuc (two63 - 1) ≤ℤ a) × (a <ℤ pos two63) =
        λ t h. let (n, low, e) = parse_unsigned-bounds t two63 pos a h in pos_range n a low e in
      elim (Bool-cases (eqb (code c) 43)) [
        | inl plus ↦ positive s (rw (other, plus) at h)
        | inr digits ↦ positive (c ∷ s) (rw (other, digits) at h)
      ]
]
