-- ===== src/Tests/Classifying.antt =====
-- The classifier on a message with an invoice and two rules.
use email_triage_system.Common.{
  ℕ, ◌≡◌, ◌≢◌, refl, true, Option, none, some, List, [], ◌∷◌, arith, ◌↔◌, ◌<◌, ◌≤◌, ◌⊎◌,
}
use email_triage_system.Common.Int.{wrap64, pos, ◌≤ℤ◌}
use email_triage_system.Text.{
  contains, split, trim_space, to_lower, lower_ascii, is_space, has_prefix,
}
use email_triage_system.Text.Normal.{IsLawful}
use email_triage_system.Rules.{Rule}
use email_triage_system.Classifier.{
  MessageParts, CandidateRule, MatchResult, classify, normalize, normalize_scope,
  extract_message_parts, extract_sender_domain, match_candidate, score_rule, specificity_bonus,
  extract_sender_email, is_usable, rule_operator, field_value, field_matches, reason_of,
}
use email_triage_system.Classifier.Choice.{matches, rule_match, IsChosen, classify-IsChosen}
use email_triage_system.Classifier.Precedence.{keep, in_scope, classify-keep_user_specific}
use email_triage_system.Classifier.Matching.{IsMatch, match_candidate_iff}
use email_triage_system.Classifier.Priority.{bonus_of, match_candidate-priority}
use email_triage_system.Tests.Fixtures.{plain, invoice_message}

abbrev own_rule : Rule
own_rule = record {
  rule_type = "subject";
  operator = "contains";
  rule_value = "Invoice";
  target_label = "Invoices";
  enabled = true;
  priority = pos 120;
  scope = "user_specific";
}

abbrev global_rule : Rule
global_rule = record {
  rule_type = "sender_domain";
  operator = "equals";
  rule_value = "shop.com";
  target_label = "Shop";
  enabled = true;
  priority = pos 200;
  scope = "global";
}

abbrev two_rules : List Rule
two_rules = global_rule ∷ own_rule ∷ []

plain-IsLawful : IsLawful plain
plain-IsLawful = record { lower-lower_rune = λ c h. ground arith; space-lower_rune = λ c h. refl }

classify-IsChosen_example :
    IsChosen plain invoice_message two_rules (classify plain invoice_message two_rules)
classify-IsChosen_example = classify-IsChosen plain invoice_message two_rules

own_match :
    matches plain (extract_message_parts plain invoice_message) "user_specific" two_rules ≢ []
unfolding matches rule_match normalize_scope normalize to_lower lower_ascii trim_space is_space
    extract_message_parts extract_sender_email extract_sender_domain match_candidate is_usable
    rule_operator field_value field_matches contains has_prefix split reason_of score_rule wrap64
    specificity_bonus
own_match h = cc

classify-keep_user_specific_example :
    classify plain invoice_message (keep (in_scope plain "user_specific") two_rules)
    ≡ classify plain invoice_message two_rules
classify-keep_user_specific_example =
    classify-keep_user_specific plain invoice_message two_rules own_match

match_candidate_iff_example :
    (match_candidate plain
        (extract_message_parts plain invoice_message)
        (record { rule = own_rule; scope = "user_specific" })
      ≢ none)
    ↔ IsMatch plain (extract_message_parts plain invoice_message) own_rule
match_candidate_iff_example =
    match_candidate_iff plain (extract_message_parts plain invoice_message)
      (record { rule = own_rule; scope = "user_specific" })

abbrev parts : MessageParts
parts = extract_message_parts plain invoice_message

abbrev own_candidate : CandidateRule
own_candidate = record { rule = own_rule; scope = "user_specific" }

abbrev global_candidate : CandidateRule
global_candidate = record { rule = global_rule; scope = "global" }

abbrev or_nothing : Option MatchResult → MatchResult
or_nothing none = record { target_label = ""; score = pos 0; reason = "" }
or_nothing (some m) = m

abbrev own_result : MatchResult
own_result = or_nothing (match_candidate plain parts own_candidate)

abbrev global_result : MatchResult
global_result = or_nothing (match_candidate plain parts global_candidate)

own_found : match_candidate plain parts own_candidate ≡ some own_result
unfolding normalize to_lower lower_ascii trim_space is_space extract_message_parts
    extract_sender_email extract_sender_domain match_candidate is_usable rule_operator field_value
    field_matches contains has_prefix split reason_of score_rule wrap64 specificity_bonus
own_found = refl

global_found : match_candidate plain parts global_candidate ≡ some global_result
unfolding normalize to_lower lower_ascii trim_space is_space extract_message_parts
    extract_sender_email extract_sender_domain match_candidate is_usable rule_operator field_value
    field_matches contains has_prefix split reason_of score_rule wrap64 specificity_bonus
global_found = refl

own_below_global : own_result.score ≤ℤ global_result.score
unfolding normalize to_lower lower_ascii trim_space is_space extract_message_parts
    extract_sender_email extract_sender_domain match_candidate is_usable rule_operator field_value
    field_matches contains has_prefix split reason_of score_rule wrap64 specificity_bonus
own_below_global = omega arith

match_candidate-priority_example :
    (120 < 200) ⊎ ((◌≡◌ {A = ℕ} 120 200) × (bonus_of plain own_rule ≤ bonus_of plain global_rule))
match_candidate-priority_example =
    match_candidate-priority plain parts global_candidate own_candidate 200 120 global_result
      own_result refl refl (omega arith) (omega arith) global_found own_found own_below_global
