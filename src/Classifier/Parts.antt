-- ===== src/Classifier/Parts.antt =====
-- The parts of a message: normalised text, and the domain of the sender's address.
use Prim.Native.Char.{code}
use Prim.Native.String.{[], ◌∷◌}
use text.Mathlib.TextLemmas.{nil-append, cons-append}
use email_triage_system.Common.{String, ◌<>◌, ◌≡◌, refl, ap, ◌∙◌}
use email_triage_system.Text.{GoLib}
use email_triage_system.Text.Splitting.{Lacks, split-Lacks, split-append}
use email_triage_system.Text.Normal.{IsLawful, lower-trim_idem}
use email_triage_system.Classifier.{second_of_two, extract_sender_domain, normalize}

-- Normalising a text a second time changes nothing, if lowering a rune beyond ASCII twice is lowering
-- it once and leaves white space and other runes apart.
pub normalize_idem :
    (lib : GoLib) (s : String) → IsLawful lib → normalize lib (normalize lib s) ≡ normalize lib s
unfolding normalize
normalize_idem lib s lawful = lower-trim_idem lib lawful s

at_sign : (b : String) → "@" <> b ≡ Prim.Native.String.◌∷◌ (Prim.Native.Char.char 64 tt) b
at_sign b =
    cons-append _ "" b
    ∙ ap (λ s. Prim.Native.String.◌∷◌ (Prim.Native.Char.char 64 tt) s) (nil-append b)

-- The domain is what follows the only `@`; without one, or with two, it is empty.
pub extract_sender_domain-at :
    (a b c : String)
    → Lacks 64 a
    → Lacks 64 b
    → Lacks 64 c
    → (extract_sender_domain a ≡ "")
      × (extract_sender_domain (a <> ("@" <> b)) ≡ b)
      × (extract_sender_domain (a <> ("@" <> (b <> ("@" <> c)))) ≡ "")
unfolding extract_sender_domain
extract_sender_domain-at a b c ha hb hc = (
  ap second_of_two (split-Lacks 64 a ha),
  rw (at_sign b, split-append 64 a _ b ha refl, split-Lacks 64 b hb),
  rw (
    at_sign c,
    at_sign (b <> _),
    split-append 64 a _ _ ha refl,
    split-append 64 b _ c hb refl,
    split-Lacks 64 c hc,
  ),
)
