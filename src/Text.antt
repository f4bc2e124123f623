-- ===== src/Text.antt =====
-- What the program uses of Go's `strings`, `fmt` and `strconv`. A Go string of valid UTF-8 is the
-- sequence of its code points. The case tables of `unicode` beyond ASCII, and the address grammar
-- of `net/mail`, are the parameter `GoLib`.
pub mod Laws
pub mod Splitting
pub mod Normal
pub mod Decimal
use Prim.Native.Char.{Char, char, code, IsScalar}
use Prim.Native.String.{[], ◌∷◌}
use mathlib.Core.Logic.{dite}
use email_triage_system.Common.{
  ℕ, suc, ◌+◌, ◌<◌, String, ◌<>◌, ◌≡◌, Bool, true, false, ◌&&◌, ◌||◌, Option, none, some, arith,
  dec_lt, leb, ltb, eqb, ◌==◌, if◌then◌else◌,
}
use mathlib.Core.List
use mathlib.Core.List.{List}

pub record GoLib : Type 0 where
  -- `unicode.ToLower` at a rune beyond ASCII
  pub lower_rune : Char → Char
  -- the representative of a rune beyond ASCII under `unicode.SimpleFold`
  pub fold_rune : Char → Char
  -- `mail.ParseAddress`: the `Address` field, or an error
  pub parse_address : String → Option String

-- `unicode.IsSpace`
unfoldable pub is_space : ℕ → Bool
is_space c =
    (leb 9 c && leb c 13)
    || eqb c 32
    || eqb c 133
    || eqb c 160
    || eqb c 5760
    || (leb 8192 c && leb c 8202)
    || eqb c 8232
    || eqb c 8233
    || eqb c 8239
    || eqb c 8287
    || eqb c 12288

pub trim_left : String → String
trim_left [] = []
trim_left (c ∷ s) = let rest = trim_left s in if is_space (code c) then rest else c ∷ s

abbrev pub keep_before : Char → String → String
keep_before c [] = if is_space (code c) then [] else c ∷ []
keep_before c (d ∷ s) = c ∷ d ∷ s

pub trim_right : String → String
trim_right [] = []
trim_right (c ∷ s) = keep_before c (trim_right s)

-- `strings.TrimSpace`
unfoldable pub trim_space : String → String
unfolding trim_left trim_right is_space
trim_space s = trim_right (trim_left s)

pub IsScalar-of_small : (n : ℕ) → n < 55296 → IsScalar n
IsScalar-of_small n h = ground arith

-- `unicode.ToLower` below 128
unfoldable pub lower_ascii : Char → Char
unfolding dec_lt
lower_ascii (char n p) =
    dite (dec_lt 64 n)
      (λ above.
        dite (dec_lt n 91) (λ below. char (n + 32) (IsScalar-of_small (n + 32) (omega arith)))
          (λ _. char n p))
      (λ _. char n p)

-- `strings.HasPrefix`
unfoldable pub has_prefix : String → String → Bool
has_prefix s [] = true
has_prefix [] (d ∷ t) = false
has_prefix (c ∷ s) (d ∷ t) = eqb (code c) (code d) && has_prefix s t

-- `strings.Contains`
unfoldable pub contains : String → String → Bool
contains [] t = has_prefix [] t
contains (c ∷ s) t = has_prefix (c ∷ s) t || contains s t

abbrev pub extend : Char → List String → List String
extend c List.[] = List.◌∷◌ (c ∷ []) List.[]
extend c (List.◌∷◌ p ps) = List.◌∷◌ (c ∷ p) ps

-- `strings.Split` at a separator of one rune
unfoldable pub split : String → ℕ → List String
split [] sep = List.◌∷◌ [] List.[]
split (c ∷ s) sep =
    let rest = split s sep in if eqb (code c) sep then List.◌∷◌ [] rest else extend c rest

-- `strings.Join`
unfoldable pub join : List String → String → String
join List.[] sep = []
join (List.◌∷◌ p List.[]) sep = p
join (List.◌∷◌ p (List.◌∷◌ q ps)) sep = p <> sep <> join (List.◌∷◌ q ps) sep

-- `s < t` in the order of the code points, which is that of the bytes of UTF-8
unfoldable pub before : String → String → Bool
before s [] = false
before [] (d ∷ t) = true
before (c ∷ s) (d ∷ t) = ltb (code c) (code d) || (eqb (code c) (code d) && before s t)

-- `strings.Cut` at a separator of one rune
unfoldable pub cut : String → ℕ → Option (String × String)
cut [] sep = none
cut (c ∷ s) sep =
    let rest = cut s sep in
    if eqb (code c) sep
    then some ([], s)
    else elim rest [ none ↦ none | some (head, after) ↦ some (c ∷ head, after) ]

module _ (lib : GoLib) where
  abbrev pub lower : Char → Char
  lower c = if ltb (code c) 128 then lower_ascii c else lib.lower_rune c

  -- `strings.ToLower`
  unfoldable pub to_lower : String → String
  unfolding lower_ascii
  to_lower [] = []
  to_lower (c ∷ s) = lower c ∷ to_lower s

  abbrev pub fold : Char → Char
  fold c = if ltb (code c) 128 then lower_ascii c else lib.fold_rune c

  -- `strings.EqualFold`
  unfoldable pub equal_fold : String → String → Bool
  unfolding lower_ascii
  equal_fold [] [] = true
  equal_fold (c ∷ s) (d ∷ t) = eqb (code (fold c)) (code (fold d)) && equal_fold s t
  equal_fold _ _ = false
