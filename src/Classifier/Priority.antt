-- ===== src/Classifier/Priority.antt =====
-- How the scores of two rules that match compare.
use email_triage_system.Common.{ℕ, ◌<◌, ◌≤◌, ◌≡◌, ◌⊎◌, some}
use email_triage_system.Common.Int.{pos, ◌≤ℤ◌}
use email_triage_system.Text.{GoLib}
use email_triage_system.Rules.{Rule}
use email_triage_system.Classifier.{
  MessageParts, MatchResult, CandidateRule, rule_operator, specificity_bonus, match_candidate,
}
use email_triage_system.Classifier.Scores.{integer_bound, score_rule-lexicographic}
use email_triage_system.Classifier.Matching.{match_candidate-carries}

abbrev pub bonus_of : GoLib → Rule → ℕ
bonus_of lib rule = specificity_bonus rule.rule_type (rule_operator lib rule)

-- A match that scores at least as high as another has the higher priority, or the same priority and
-- a specificity that is no lower, where both priorities are below 2^31.
pub match_candidate-priority :
    (lib : GoLib) (parts : MessageParts) (c c' : CandidateRule) (p q : ℕ) (m m' : MatchResult)
    → c.rule.priority ≡ pos p
    → c'.rule.priority ≡ pos q
    → p < integer_bound
    → q < integer_bound
    → match_candidate lib parts c ≡ some m
    → match_candidate lib parts c' ≡ some m'
    → m'.score ≤ℤ m.score
    → (q < p) ⊎ ((q ≡ p) × (bonus_of lib c'.rule ≤ bonus_of lib c.rule))
match_candidate-priority lib parts c c' p q m m' ep eq' hp hq e e' h =
    let (_, s, _) = match_candidate-carries lib parts c {m = m} e in
    let (_, s', _) = match_candidate-carries lib parts c' {m = m'} e' in
    (score_rule-lexicographic q p _ _ _ _ hq hp).0 (rw (← ep, ← eq', ← s, ← s') h)
