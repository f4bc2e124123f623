-- ===== src/Text/Splitting.antt =====
-- `strings.Split` at one separator.
use Prim.Native.Char.{Char, code}
use Prim.Native.String.{[], ◌∷◌}
use mathlib.Core.List.{List}
use text.Mathlib.TextLemmas.{nil-append, cons-append}
use email_triage_system.Common.{ℕ, String, ◌<>◌, ◌≡◌, ◌≢◌, refl, true, false, arith, eqb}
use email_triage_system.Text.{split}

-- No rune of the text is the separator.
abbrev pub Lacks : ℕ → String → Type 0
Lacks sep [] = Unit
Lacks sep (c ∷ s) = (code c ≢ sep) × Lacks sep s

pub split-Lacks : (sep : ℕ) (s : String) → Lacks sep s → split s sep ≡ List.◌∷◌ s List.[]
unfolding split
split-Lacks sep [] h = refl
split-Lacks sep (c ∷ s) (ne, h) =
    let apart : eqb (code c) sep ≡ false = ground arith in rw (apart, split-Lacks sep s h)

pub split-append :
    (sep : ℕ) (a : String) (d : Char) (b : String)
    → Lacks sep a
    → code d ≡ sep
    → split (a <> (d ∷ b)) sep ≡ List.◌∷◌ a (split b sep)
unfolding split
split-append sep [] d b h e =
    let same : eqb (code d) sep ≡ true = ground arith in rw (nil-append, same)
split-append sep (c ∷ a) d b (ne, h) e =
    let apart : eqb (code c) sep ≡ false = ground arith in
    rw (cons-append, apart, split-append sep a d b h e)
