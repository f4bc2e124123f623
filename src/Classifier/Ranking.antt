-- ===== src/Classifier/Ranking.antt =====
-- The best of a list of matches: the loop variable of `Classify`, and what it ends as.
use mathlib.Core.List.{foldl}
use email_triage_system.Common.{
  ◌≡◌, refl, ap, ◌⊎◌, inl, inr, none, some, List, [], ◌∷◌, ◌++◌, arith, All, Bool-cases,
}
use email_triage_system.Common.Int.{◌≤ℤ◌, ◌<ℤ◌, ltb_ℤ}
use email_triage_system.Classifier.{MatchResult, better}

-- The first match of the highest score.
pub record IsFirstBest (m : MatchResult) (ms : List MatchResult) : Type 0 where
  pub before : List MatchResult
  pub after : List MatchResult
  pub splits : ms ≡ before ++ m ∷ after
  pub above_before : All (λ x. x.score <ℤ m.score) before
  pub above_after : All (λ x. x.score ≤ℤ m.score) after

-- The best of some matches seen so far and of those to come.
abbrev Continues : MatchResult → MatchResult → List MatchResult → Type 0
Continues old m ms =
    ((m ≡ old) × All (λ x. x.score ≤ℤ old.score) ms) ⊎ ((old.score <ℤ m.score) × IsFirstBest m ms)

IsFirstBest-cons :
    (x m : MatchResult) (ms : List MatchResult)
    → x.score <ℤ m.score
    → IsFirstBest m ms
    → IsFirstBest m (x ∷ ms)
IsFirstBest-cons x m ms h f = record {
  before = x ∷ f.before;
  after = f.after;
  splits = ap (λ l. x ∷ l) f.splits;
  above_before = (h, f.above_before);
  above_after = f.above_after;
}

-- A match that beats the old one is the new best, whatever comes.
Continues-take :
    (old x m : MatchResult) (ms : List MatchResult)
    → old.score <ℤ x.score
    → Continues x m ms
    → Continues old m (x ∷ ms)
Continues-take old x m ms h (inl (same, below)) = inr (
  rw same h,
  rw same
      (record { before = []; after = ms; splits = refl; above_before = tt; above_after = below }),
)
Continues-take old x m ms h (inr (higher, f)) = inr (omega arith, IsFirstBest-cons x m ms higher f)

Continues-leave :
    (old x m : MatchResult) (ms : List MatchResult)
    → x.score ≤ℤ old.score
    → Continues old m ms
    → Continues old m (x ∷ ms)
Continues-leave old x m ms h (inl (same, below)) = inl (same, (h, below))
Continues-leave old x m ms h (inr (higher, f)) =
    inr (higher, IsFirstBest-cons x m ms (omega arith) f)

fold-Continues :
    (old : MatchResult) (ms : List MatchResult)
    → (m : MatchResult) × (foldl better (some old) ms ≡ some m) × Continues old m ms
unfolding better
fold-Continues old [] = (old, refl, inl (refl, tt))
fold-Continues old (x ∷ ms) = elim (Bool-cases (ltb_ℤ old.score x.score)) [
  | inl higher ↦
      let (m, e, c) = fold-Continues x ms in
      (m, rw higher e, Continues-take old x m ms (ground arith) c)
  | inr lower ↦
      let (m, e, c) = fold-Continues old ms in
      (m, rw lower e, Continues-leave old x m ms (ground arith) c)
]

Continues-IsFirstBest :
    (x m : MatchResult) (ms : List MatchResult) → Continues x m ms → IsFirstBest m (x ∷ ms)
Continues-IsFirstBest x m ms (inl (same, below)) =
    rw same
      (record { before = []; after = ms; splits = refl; above_before = tt; above_after = below })
Continues-IsFirstBest x m ms (inr (higher, f)) = IsFirstBest-cons x m ms higher f

-- The loop variable ends empty, or with the first match of the highest score.
pub fold-IsFirstBest :
    (ms : List MatchResult)
    → ((ms ≡ []) × (foldl better none ms ≡ none))
      ⊎ ((m : MatchResult) × (foldl better none ms ≡ some m) × IsFirstBest m ms)
unfolding better
fold-IsFirstBest [] = inl (refl, refl)
fold-IsFirstBest (x ∷ ms) =
    let (m, e, c) = fold-Continues x ms in inr (m, e, Continues-IsFirstBest x m ms c)
