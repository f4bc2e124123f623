-- ===== src/Classifier.antt =====
-- internal/classifier/classifier.go: matching a message against rules, and the choice of the best.
-- A float64 confidence is one of four constants, kept in hundredths. `switch` and early returns are
-- ladders of `if`; the loop over the candidates is a recursion that carries the two best matches.
pub mod Ranking
pub mod Choice
pub mod Precedence
pub mod Scores
pub mod Matching
pub mod Parts
pub mod Priority
use email_triage_system.Common.{
  ℕ, ◌+◌, ◌*◌, String, ◌<>◌, Bool, false, ◌||◌, ◌&&◌, not, Option, none, some, List, ◌∷◌, ◌==◌,
  if◌then◌else◌,
}
use email_triage_system.Common.Int.{ℤ, pos, negsuc, sub_ℕ, wrap64, ltb_ℤ, leb_ℤ}
use email_triage_system.Text.{GoLib, trim_space, contains, split, join, to_lower}
use email_triage_system.Text.Decimal.{format_int}
use email_triage_system.Rules.{
  rule_type_sender_email, rule_type_sender_domain, rule_type_subject, rule_type_body, rule_type_any,
  operator_equals, operator_contains, scope_global, scope_user_specific, Rule,
}
use email_triage_system.Reader.{Message}

abbrev pub label_unknown : String
label_unknown = "Unknown"

-- `confidence` is in hundredths.
pub record Result : Type 0 where
  pub label : String
  pub confidence : ℕ
  pub reason : String

pub record CandidateRule : Type 0 where
  pub rule : Rule
  pub scope : String

pub record MessageParts : Type 0 where
  pub sender_email : String
  pub sender_domain : String
  pub subject : String
  pub body : String
  pub any : String

pub record MatchResult : Type 0 where
  pub target_label : String
  pub score : ℤ
  pub reason : String

-- `priority*1000 + specificity` in 64-bit arithmetic
abbrev pub times1000_plus : ℤ → ℕ → ℤ
times1000_plus (pos p) b = pos (p * 1000 + b)
times1000_plus (negsuc p) b = sub_ℕ b ((p + 1) * 1000)

unfoldable pub score_rule : ℤ → ℕ → ℤ
unfolding wrap64
score_rule priority specificity = wrap64 (times1000_plus priority specificity)

unfoldable pub specificity_bonus : String → String → ℕ
specificity_bonus rule_type operator =
    let operator_bonus : ℕ = if operator == operator_equals then 20 else 0 in
    let type_bonus : ℕ =
      if rule_type == rule_type_sender_email
      then 50
      else if rule_type == rule_type_sender_domain
      then 40
      else if rule_type == rule_type_subject
      then 30
      else if rule_type == rule_type_body
      then 20
      else if rule_type == rule_type_any
      then 10
      else 0 in
    operator_bonus + type_bonus

unfoldable pub confidence_from_score : ℤ → ℕ
confidence_from_score score =
    if leb_ℤ (pos 200000) score then 98 else if leb_ℤ (pos 120000) score then 94 else 90

-- `parts[1]` if there are two parts
abbrev pub second_of_two : List String → String
second_of_two (local ∷ domain ∷ List.[]) = domain
second_of_two _ = ""

unfoldable pub extract_sender_domain : String → String
extract_sender_domain sender_email = second_of_two (split sender_email b'@')

-- The field that a rule type names; an unknown type is refused.
unfoldable pub field_value : MessageParts → String → Option String
field_value parts rule_type =
    if rule_type == rule_type_sender_email
    then some parts.sender_email
    else if rule_type == rule_type_sender_domain
    then some parts.sender_domain
    else if rule_type == rule_type_subject
    then some parts.subject
    else if rule_type == rule_type_body
    then some parts.body
    else if rule_type == rule_type_any
    then some parts.any
    else none

-- The comparison of the field with the rule's value.
unfoldable pub field_matches : String → String → String → Bool
field_matches operator value needle =
    if operator == operator_equals
    then value == needle
    else if operator == operator_contains
    then contains value needle
    else false

-- The reason of a match, as `fmt.Sprintf` prints it.
unfoldable pub reason_of : CandidateRule → String → ℤ → String
reason_of candidate operator score =
    "scope="
    <> candidate.scope
    <> " rule_type="
    <> candidate.rule.rule_type
    <> " operator="
    <> operator
    <> " value="
    <> candidate.rule.rule_value
    <> " score="
    <> format_int score

-- The two variables of the loop in `Classify`.
pub record Best : Type 0 where
  pub user_specific : Option MatchResult
  pub global : Option MatchResult

abbrev pub no_best : Best
no_best = record { user_specific = none; global = none }

-- `best == nil || match.Score > best.Score`
unfoldable pub better : Option MatchResult → MatchResult → Option MatchResult
better none found = some found
better (some old) found = if ltb_ℤ old.score found.score then some found else some old

unfoldable pub keep_best : String → MatchResult → Best → Best
unfolding better
keep_best scope found best =
    if scope == scope_user_specific
    then record best { user_specific = better best.user_specific found }
    else if scope == scope_global
    then record best { global = better best.global found }
    else best

unfoldable pub chosen : Best → Option MatchResult
chosen best = elim best.user_specific [ none ↦ best.global | some found ↦ some found ]

unfoldable pub result_of : Option MatchResult → Result
unfolding confidence_from_score
result_of none = record { label = label_unknown; confidence = 50; reason = "no_matching_rule" }
result_of (some best) = record {
  label = best.target_label;
  confidence = confidence_from_score best.score;
  reason = best.reason;
}

module _ (lib : GoLib) where
  unfoldable pub normalize : String → String
  normalize value = to_lower lib (trim_space value)

  unfoldable pub normalize_scope : String → String
  normalize_scope scope =
      let scope' = normalize scope in
      if scope' == "" || scope' == scope_user_specific
      then scope_user_specific
      else if scope' == scope_global
      then scope_global
      else ""

  unfoldable pub extract_sender_email : String → String
  extract_sender_email from =
      let from' = trim_space from in
      if from' == "" then "" else elim (lib.parse_address from') [
        | some address ↦ normalize address
        | none ↦ normalize from'
      ]

  unfoldable pub extract_message_parts : Message → MessageParts
  extract_message_parts message =
      let email = extract_sender_email message.from in
      record {
        sender_email = email;
        sender_domain = extract_sender_domain email;
        subject = normalize message.subject;
        body = normalize message.body_snippet;
        any =
            normalize (join (message.from ∷ message.subject ∷ message.body_snippet ∷ List.[]) " ");
      }

  -- The operator of a rule: an empty one stands for `contains`.
  unfoldable pub rule_operator : Rule → String
  rule_operator rule =
      let operator = normalize rule.operator in
      if operator == "" then operator_contains else operator

  -- The checks of `matchCandidate` before the field is read.
  unfoldable pub is_usable : Rule → Bool
  is_usable rule =
      let operator = rule_operator rule in
      not (ltb_ℤ rule.priority (pos 0))
      && not (trim_space rule.rule_value == "" || trim_space rule.target_label == "")
      && (operator == operator_contains || operator == operator_equals)

  unfoldable pub match_candidate : MessageParts → CandidateRule → Option MatchResult
  match_candidate parts candidate =
      let rule = candidate.rule in
      let operator = rule_operator rule in
      let needle = normalize rule.rule_value in
      let score = score_rule rule.priority (specificity_bonus rule.rule_type operator) in
      if not (is_usable rule) then none else elim (field_value parts rule.rule_type) [
        | none ↦ none
        | some value ↦
            if needle == ""
            then none
            else if field_matches operator value needle
            then some (record {
              target_label = rule.target_label;
              score = score;
              reason = reason_of candidate operator score;
            })
            else none
      ]

  -- The first loop of `Classify`: what is enabled and has a scope.
  unfoldable pub candidates : List Rule → List CandidateRule
  candidates List.[] = List.[]
  candidates (rule ∷ rules) =
      let rest = candidates rules in
      let scope = normalize_scope rule.scope in
      if not rule.enabled
      then rest
      else if scope == ""
      then rest
      else record { rule = rule; scope = scope } ∷ rest

  -- One round of the second loop.
  unfoldable pub consider : MessageParts → CandidateRule → Best → Best
  consider parts candidate best = elim (match_candidate parts candidate) [
    | none ↦ best
    | some found ↦ keep_best candidate.scope found best
  ]

  unfoldable pub best_of : MessageParts → Best → List CandidateRule → Best
  best_of parts best List.[] = best
  best_of parts best (candidate ∷ rest) = best_of parts (consider parts candidate best) rest

  unfoldable pub classify : Message → List Rule → Result
  classify message rules =
      result_of (chosen (best_of (extract_message_parts message) no_best (candidates rules)))
