-- ===== src/Text/Laws.antt =====
-- What `strings.Contains` means.
use Prim.Native.String.{[], ◌∷◌}
use text.Mathlib.TextEquality.{Char-path}
use text.Mathlib.TextLemmas.{nil-append, cons-append, nil≢cons}
use email_triage_system.Common.{
  ◌≢◌, ◌==◌, eq_iff, false, String, ◌<>◌, ◌≡◌, refl, sym, ap, ◌∙◌, ◌↔◌, true, arith, Bool-cases,
  inl, inr,
}
use email_triage_system.Text.{has_prefix, contains}

has_prefix_sound : (s t : String) → has_prefix s t ≡ true → (rest : String) × (s ≡ t <> rest)
unfolding has_prefix
has_prefix_sound s [] h = (s, sym (nil-append s))
has_prefix_sound [] (d ∷ t) h = cc
has_prefix_sound (c ∷ s) (d ∷ t) h =
    let (rest, e) = has_prefix_sound s t (ground arith) in
    let same : c ≡ d = Char-path c d (ground arith) in (rest, rw (cons-append, ← e, same))

has_prefix-append : (t rest : String) → has_prefix (t <> rest) t ≡ true
unfolding has_prefix
has_prefix-append [] rest = refl
has_prefix-append (d ∷ t) rest = rw cons-append (ground (arith, has_prefix-append t rest))

-- `t` stands in `s` after `a` and before `b`.
pub record Occurs (t s : String) : Type 0 where
  pub before : String
  pub after : String
  pub splits : s ≡ before <> (t <> after)

contains_sound : (s t : String) → contains s t ≡ true → Occurs t s
unfolding contains
contains_sound [] t h =
    let (rest, e) = has_prefix_sound [] t h in
    record { before = []; after = rest; splits = e ∙ sym (nil-append (t <> rest)) }
contains_sound (c ∷ s) t h = elim (Bool-cases (has_prefix (c ∷ s) t)) [
  | inl here ↦
      let (rest, e) = has_prefix_sound (c ∷ s) t here in
      record { before = []; after = rest; splits = e ∙ sym (nil-append (t <> rest)) }
  | inr later ↦
      let o : Occurs t s = contains_sound s t (rw later at h) in
      record {
        before = c ∷ o.before;
        after = o.after;
        splits = ap (λ r. c ∷ r) o.splits ∙ sym (cons-append c o.before (t <> o.after));
      }
]

contains_of_prefix : (s t : String) → has_prefix s t ≡ true → contains s t ≡ true
unfolding contains
contains_of_prefix [] t h = h
contains_of_prefix (c ∷ s) t h = rw h

contains-append : (a t b : String) → contains (a <> (t <> b)) t ≡ true
unfolding contains
contains-append [] t b = rw nil-append (contains_of_prefix (t <> b) t (has_prefix-append t b))
contains-append (c ∷ a) t b = rw cons-append (ground (arith, contains-append a t b))

-- `strings.Contains` answers true exactly where the text occurs.
pub contains_iff : (s t : String) → (contains s t ≡ true) ↔ Occurs t s
contains_iff s t = (contains_sound s t, λ o. rw o.splits (contains-append o.before t o.after))

pub nonempty-append : (s t : String) → s ≢ "" → ((s <> t) == "") ≡ false
nonempty-append [] t h = absurd (h refl)
nonempty-append (c ∷ s) t h =
    rw cons-append (ground (arith, eq_iff (c ∷ (s <> t)) "", nil≢cons {x = c} {xs = s <> t}))
