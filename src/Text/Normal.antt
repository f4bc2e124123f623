-- ===== src/Text/Normal.antt =====
-- Trimming, lowering, and their composition.
use Prim.Native.Char.{Char, char, code}
use Prim.Native.String.{[], ◌∷◌}
use text.Mathlib.TextEquality.{Char-path}
use email_triage_system.Common.{
  ◌<◌, ◌≤◌, ◌+◌, String, ◌≡◌, refl, ap, ap₂, ◌∙◌, true, false, arith, ltb, Bool-cases, inl, inr,
  if◌then◌else◌,
}
use email_triage_system.Text.{
  GoLib, is_space, trim_left, keep_before, trim_right, trim_space, lower_ascii, lower, to_lower,
}

-- What the case tables of `unicode` satisfy at a rune beyond ASCII: lowering twice is lowering once,
-- and a rune and its lower case are both white space or neither.
pub record IsLawful (lib : GoLib) : Type 0 where
  pub lower-lower_rune : (c : Char) → 128 ≤ code c → lower lib (lib.lower_rune c) ≡ lib.lower_rune c
  pub space-lower_rune :
      (c : Char) → 128 ≤ code c → is_space (code (lib.lower_rune c)) ≡ is_space (code c)

code-lower_ascii :
    (c : Char)
    → code (lower_ascii c)
      ≡ (if ltb 64 (code c) then (if ltb (code c) 91 then code c + 32 else code c) else code c)
unfolding lower_ascii
code-lower_ascii (char n p) = ground arith

is_space-lower_ascii :
    (c : Char) → code c < 128 → is_space (code (lower_ascii c)) ≡ is_space (code c)
unfolding is_space
is_space-lower_ascii c h = rw (code-lower_ascii c) (ground arith)

lower_ascii_idem : (c : Char) → lower_ascii (lower_ascii c) ≡ lower_ascii c
lower_ascii_idem c =
    Char-path _ _ (rw (code-lower_ascii (lower_ascii c), code-lower_ascii c) (ground arith))

trim_right_keep :
    (c : Char) (t : String) → trim_right t ≡ t → trim_right (keep_before c t) ≡ keep_before c t
unfolding trim_right
trim_right_keep c [] h = elim (Bool-cases (is_space (code c))) [
  | inl white ↦ rw white
  | inr black ↦ rw black (rw black)
]
trim_right_keep c (d ∷ t) h = rw h

trim_right_idem : (s : String) → trim_right (trim_right s) ≡ trim_right s
unfolding trim_right
trim_right_idem [] = refl
trim_right_idem (c ∷ s) = trim_right_keep c (trim_right s) (trim_right_idem s)

trim_left_idem : (s : String) → trim_left (trim_left s) ≡ trim_left s
unfolding trim_left
trim_left_idem [] = refl
trim_left_idem (c ∷ s) = ground (arith, trim_left_idem s)

trim_left-keep_space :
    (c : Char) (t : String) → is_space (code c) ≡ true → trim_left (keep_before c t) ≡ trim_left t
unfolding trim_left
trim_left-keep_space c [] h = rw h
trim_left-keep_space c (d ∷ t) h = rw h

trim_left-keep_other :
    (c : Char) (t : String)
    → is_space (code c) ≡ false
    → trim_left (keep_before c t) ≡ keep_before c t
unfolding trim_left
trim_left-keep_other c [] h = rw h (rw h)
trim_left-keep_other c (d ∷ t) h = rw h

trim_left-trim_right : (s : String) → trim_left (trim_right s) ≡ trim_right (trim_left s)
unfolding trim_left trim_right
trim_left-trim_right [] = refl
trim_left-trim_right (c ∷ s) = elim (Bool-cases (is_space (code c))) [
  | inl white ↦ trim_left-keep_space c (trim_right s) white ∙ rw white (trim_left-trim_right s)
  | inr black ↦ trim_left-keep_other c (trim_right s) black ∙ rw black
]

pub trim_space_idem : (s : String) → trim_space (trim_space s) ≡ trim_space s
unfolding trim_space
trim_space_idem s =
    rw (trim_left-trim_right (trim_left s), trim_left_idem s) (trim_right_idem (trim_left s))

module _ (lib : GoLib) (lawful : IsLawful lib) where
  is_space-lower : (c : Char) → is_space (code (lower lib c)) ≡ is_space (code c)
  is_space-lower c = elim (Bool-cases (ltb (code c) 128)) [
    | inl ascii ↦ rw ascii (is_space-lower_ascii c (ground arith))
    | inr beyond ↦ rw beyond (lawful.space-lower_rune c (ground arith))
  ]

  lower-small : (c : Char) → code c < 128 → lower lib (lower_ascii c) ≡ lower_ascii c
  lower-small c h =
      let small : ltb (code (lower_ascii c)) 128 ≡ true = rw (code-lower_ascii c) (ground arith) in
      rw small (lower_ascii_idem c)

  lower_idem : (c : Char) → lower lib (lower lib c) ≡ lower lib c
  lower_idem c = elim (Bool-cases (ltb (code c) 128)) [
    | inl ascii ↦ rw ascii (lower-small c (ground arith))
    | inr beyond ↦ rw beyond (lawful.lower-lower_rune c (ground arith))
  ]

  to_lower_idem : (s : String) → to_lower lib (to_lower lib s) ≡ to_lower lib s
  unfolding to_lower
  to_lower_idem [] = refl
  to_lower_idem (c ∷ s) = ap₂ (λ d t. d ∷ t) (lower_idem c) (to_lower_idem s)

  trim_left-to_lower : (s : String) → trim_left (to_lower lib s) ≡ to_lower lib (trim_left s)
  unfolding trim_left to_lower
  trim_left-to_lower [] = refl
  trim_left-to_lower (c ∷ s) = elim (Bool-cases (is_space (code c))) [
    | inl white ↦ rw (is_space-lower c, white) (trim_left-to_lower s)
    | inr black ↦ rw (is_space-lower c, black)
  ]

  keep_before-to_lower :
      (c : Char) (t : String)
      → keep_before (lower lib c) (to_lower lib t) ≡ to_lower lib (keep_before c t)
  unfolding to_lower
  keep_before-to_lower c [] = elim (Bool-cases (is_space (code c))) [
    | inl white ↦ rw (is_space-lower c, white)
    | inr black ↦ rw (is_space-lower c, black)
  ]
  keep_before-to_lower c (d ∷ t) = refl

  trim_right-to_lower : (s : String) → trim_right (to_lower lib s) ≡ to_lower lib (trim_right s)
  unfolding trim_right to_lower
  trim_right-to_lower [] = refl
  trim_right-to_lower (c ∷ s) = rw (trim_right-to_lower s) (keep_before-to_lower c (trim_right s))

  pub lower-trim_idem :
      (s : String)
      → to_lower lib (trim_space (to_lower lib (trim_space s))) ≡ to_lower lib (trim_space s)
  unfolding trim_space
  lower-trim_idem s =
      let t : String = trim_right (trim_left s) in
      ap (λ r. to_lower lib (trim_right r)) (trim_left-to_lower t)
      ∙ (ap (to_lower lib) (trim_right-to_lower (trim_left t))
          ∙ (to_lower_idem (trim_right (trim_left t)) ∙ ap (to_lower lib) (trim_space_idem s)))
