-- ===== src/Rules.antt =====
-- internal/rules/rule.go: the classification rule and the names that it is written in.
use email_triage_system.Common.{String, Bool}
use email_triage_system.Common.Int.{ℤ}

abbrev pub rule_type_sender_email : String
rule_type_sender_email = "sender_email"

abbrev pub rule_type_sender_domain : String
rule_type_sender_domain = "sender_domain"

abbrev pub rule_type_subject : String
rule_type_subject = "subject"

abbrev pub rule_type_body : String
rule_type_body = "body"

abbrev pub rule_type_any : String
rule_type_any = "any"

abbrev pub operator_equals : String
operator_equals = "equals"

abbrev pub operator_contains : String
operator_contains = "contains"

abbrev pub scope_global : String
scope_global = "global"

abbrev pub scope_user_specific : String
scope_user_specific = "user_specific"

pub record Rule : Type 0 where
  pub rule_type : String
  pub operator : String
  pub rule_value : String
  pub target_label : String
  pub enabled : Bool
  pub priority : ℤ
  pub scope : String
