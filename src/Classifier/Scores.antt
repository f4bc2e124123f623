-- ===== src/Classifier/Scores.antt =====
-- The arithmetic of scores, for priorities of a PostgreSQL INTEGER.
use email_triage_system.Common.{
  ℕ, ◌+◌, ◌*◌, ◌≤◌, ◌<◌, String, ◌≡◌, ◌↔◌, ◌⊎◌, arith, leb, if◌then◌else◌,
}
use email_triage_system.Common.Int.{ℤ, pos, ◌≤ℤ◌, wrap64_of_small}
use email_triage_system.Classifier.{score_rule, specificity_bonus, confidence_from_score}

-- The largest value of a PostgreSQL INTEGER is 2147483647.
abbrev pub integer_bound : ℕ
integer_bound = 2147483648

pub specificity_bonus-le : (rule_type operator : String) → specificity_bonus rule_type operator ≤ 70
unfolding specificity_bonus
specificity_bonus-le rule_type operator = ground arith

pub score_rule-pos :
    (p b : ℕ) → p < integer_bound → b ≤ 70 → score_rule (pos p) b ≡ pos (p * 1000 + b)
unfolding score_rule
score_rule-pos p b h k = wrap64_of_small (p * 1000 + b) (omega arith)

first_or_tie :
    (p q b b' : ℕ)
    → b ≤ 70
    → b' ≤ 70
    → p * 1000 + b ≤ q * 1000 + b'
    → (p < q) ⊎ ((p ≡ q) × (b ≤ b'))
first_or_tie p q b b' hb hb' h = grind arith

-- Below 2^31 a score compares by the priority first, and by the specificity only between equal
-- priorities.
pub score_rule-lexicographic :
    (p q : ℕ) (t o t' o' : String)
    → p < integer_bound
    → q < integer_bound
    → (score_rule (pos p) (specificity_bonus t o) ≤ℤ score_rule (pos q) (specificity_bonus t' o'))
      ↔ ((p < q) ⊎ ((p ≡ q) × (specificity_bonus t o ≤ specificity_bonus t' o')))
score_rule-lexicographic p q t o t' o' hp hq =
    let b : specificity_bonus t o ≤ 70 = specificity_bonus-le t o in
    let b' : specificity_bonus t' o' ≤ 70 = specificity_bonus-le t' o' in
    rw (score_rule-pos p _ hp b, score_rule-pos q _ hq b')
      (λ h. first_or_tie p q _ _ b b' (omega arith), λ h. omega arith)

-- The confidence of a match depends on the rule's priority alone, where that is below 2^31: 0.98 from
-- 200 on, 0.94 from 120 on, and 0.9 below.
pub confidence_from_score-priority :
    (p : ℕ) (t o : String)
    → p < integer_bound
    → confidence_from_score (score_rule (pos p) (specificity_bonus t o))
      ≡ (if leb 200 p then 98 else if leb 120 p then 94 else 90)
unfolding confidence_from_score
confidence_from_score-priority p t o h =
    let b : specificity_bonus t o ≤ 70 = specificity_bonus-le t o in
    rw (score_rule-pos p _ h b) (ground arith)

-- A higher score never has a lower confidence.
pub confidence_from_score_mono :
    (a b : ℤ) → a ≤ℤ b → confidence_from_score a ≤ confidence_from_score b
unfolding confidence_from_score
confidence_from_score_mono a b h = ground arith
