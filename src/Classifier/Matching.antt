-- ===== src/Classifier/Matching.antt =====
-- When a rule matches a message, without the code's order of tests.
use email_triage_system.Common.{
  String, ◌≡◌, ◌≢◌, refl, ◌↔◌, ◌⊎◌, inl, inr, true, none, some, arith, ◌==◌, eq_iff, Bool-cases,
  Option-cases,
}
use email_triage_system.Common.Int.{pos, ◌≤ℤ◌}
use email_triage_system.Text.{GoLib, trim_space}
use email_triage_system.Text.Laws.{Occurs, contains_iff}
use email_triage_system.Rules.{operator_equals, operator_contains, Rule}
use email_triage_system.Classifier.{
  MessageParts, MatchResult, CandidateRule, normalize, rule_operator, is_usable, field_value,
  field_matches, score_rule, specificity_bonus, match_candidate,
}

-- The relation that an operator stands for, between a field and the normalised value of a rule.
pub data Relates (value needle : String) : String → Type 0 where
  equal : value ≡ needle → Relates value needle operator_equals
  occurs : Occurs needle value → Relates value needle operator_contains

pub record IsMatch (lib : GoLib) (parts : MessageParts) (rule : Rule) : Type 0 where
  pub priority : pos 0 ≤ℤ rule.priority
  pub has_value : trim_space rule.rule_value ≢ ""
  pub has_label : trim_space rule.target_label ≢ ""
  pub needle : normalize lib rule.rule_value ≢ ""
  pub field : String
  pub read : field_value parts rule.rule_type ≡ some field
  pub related : Relates field (normalize lib rule.rule_value) (rule_operator lib rule)

field_matches_sound :
    (operator value needle : String)
    → field_matches operator value needle ≡ true
    → Relates value needle operator
unfolding field_matches
field_matches_sound operator value needle h = elim (Bool-cases (operator == operator_equals)) [
  | inl equals ↦
      rw ((eq_iff operator operator_equals).0 equals)
        (equal ((eq_iff value needle).0 (rw equals at h)))
  | inr other ↦ elim (Bool-cases (operator == operator_contains)) [
    | inl contains' ↦
        rw ((eq_iff operator operator_contains).0 contains')
          (occurs ((contains_iff value needle).0 (rw (other, contains') at h)))
    | inr neither ↦ cc (rw (other, neither) at h)
  ]
]

field_matches_complete :
    {operator : String} (value needle : String)
    → Relates value needle operator
    → field_matches operator value needle ≡ true
unfolding field_matches
field_matches_complete value needle (equal e) = (eq_iff value needle).1 e
field_matches_complete value needle (occurs o) = (contains_iff value needle).1 o

Relates-operator :
    {value needle operator : String}
    → Relates value needle operator
    → ((operator == operator_contains) ≡ true) ⊎ ((operator == operator_equals) ≡ true)
Relates-operator (equal e) = inr refl
Relates-operator (occurs o) = inl refl

module _ (lib : GoLib) (parts : MessageParts) (candidate : CandidateRule) where
  abbrev rule : Rule
  rule = candidate.rule

  IsMatch-sound : match_candidate lib parts candidate ≢ none → IsMatch lib parts candidate.rule
  unfolding match_candidate is_usable
  IsMatch-sound h = elim (Option-cases (field_value parts rule.rule_type)) [
    | inl unread ↦ absurd (h (ground arith))
    | inr (value, read) ↦ record {
      priority = ground arith;
      has_value = λ e. h (ground (arith, eq_iff (trim_space rule.rule_value) ""));
      has_label = λ e. h (ground (arith, eq_iff (trim_space rule.target_label) ""));
      needle = λ e. h (ground (arith, eq_iff (normalize lib rule.rule_value) ""));
      field = value;
      read = read;
      related =
          field_matches_sound (rule_operator lib rule) value (normalize lib rule.rule_value)
            (ground arith);
    }
  ]

  match_complete : IsMatch lib parts candidate.rule → match_candidate lib parts candidate ≢ none
  unfolding match_candidate is_usable
  match_complete m =
      let e = field_matches_complete m.field (normalize lib rule.rule_value) m.related in
      let o = Relates-operator m.related in
      λ missed. ground (
        arith,
        eq_iff (trim_space rule.rule_value) "",
        eq_iff (trim_space rule.target_label) "",
        eq_iff (normalize lib rule.rule_value) "",
        m.read,
      )

  -- A rule matches exactly if its priority is not negative, its value and label are not blank, its
  -- type names a field, and that field is equal to the normalised value or holds it as a part, as
  -- the operator says.
  pub match_candidate_iff :
      (match_candidate lib parts candidate ≢ none) ↔ IsMatch lib parts candidate.rule
  match_candidate_iff = (IsMatch-sound, match_complete)

  -- A match carries the rule's label, and the score of its priority and specificity.
  pub match_candidate-carries :
      {m : MatchResult}
      → match_candidate lib parts candidate ≡ some m
      → (m.target_label ≡ rule.target_label)
        × (m.score
            ≡ score_rule rule.priority (specificity_bonus rule.rule_type (rule_operator lib rule)))
        × (pos 0 ≤ℤ rule.priority)
  unfolding match_candidate is_usable
  match_candidate-carries {m} h = elim (Option-cases (field_value parts rule.rule_type)) [
    | inl unread ↦ ground arith
    | inr (value, read) ↦ ground arith
  ]
