-- ===== src/Classifier/Precedence.antt =====
-- The part that disabled rules and rules of the other scope have in what `Classify` returns.
use email_triage_system.Common.{
  String, ◌≡◌, refl, sym, ◌∙◌, ◌≢◌, inl, inr, Bool, false, none, List, [], ◌∷◌, ◌==◌, if◌then◌else◌,
  Bool-cases,
}
use email_triage_system.Text.{GoLib}
use email_triage_system.Rules.{scope_global, scope_user_specific, Rule}
use email_triage_system.Reader.{Message}
use email_triage_system.Classifier.{
  MessageParts, chosen, normalize_scope, extract_message_parts, classify,
}
use email_triage_system.Classifier.Ranking.{fold-IsFirstBest}
use email_triage_system.Classifier.Choice.{rule_match, rule_match-none, matches, classify-eq-chosen}

unfoldable pub keep : (Rule → Bool) → List Rule → List Rule
keep test [] = []
keep test (rule ∷ rules) = let rest = keep test rules in if test rule then rule ∷ rest else rest

matches-keep :
    (lib : GoLib) (parts : MessageParts) (scope : String) (test : Rule → Bool) (rules : List Rule)
    → ((rule : Rule) → test rule ≡ false → rule_match lib parts scope rule ≡ none)
    → matches lib parts scope (keep test rules) ≡ matches lib parts scope rules
unfolding matches keep
matches-keep lib parts scope test [] h = refl
matches-keep lib parts scope test (rule ∷ rules) h = elim (Bool-cases (test rule)) [
  | inl kept ↦ rw (kept, matches-keep lib parts scope test rules h)
  | inr dropped ↦ rw (dropped, h rule dropped, matches-keep lib parts scope test rules h)
]

-- A disabled rule has no effect: without the disabled rules the result is the same.
pub classify-keep_enabled :
    (lib : GoLib) (message : Message) (rules : List Rule)
    → classify lib message (keep (λ rule. rule.enabled) rules) ≡ classify lib message rules
classify-keep_enabled lib message rules =
    let parts : MessageParts = extract_message_parts lib message in
    let silent : (scope : String) (rule : Rule)
        → rule.enabled ≡ false
        → rule_match lib parts scope rule ≡ none =
      λ scope rule off. rule_match-none lib parts scope rule (inl off) in
    classify-eq-chosen lib message _
    ∙ rw
        (
          matches-keep lib parts scope_user_specific (λ rule. rule.enabled) rules
              (silent scope_user_specific),
          matches-keep lib parts scope_global (λ rule. rule.enabled) rules (silent scope_global),
        )
        (sym (classify-eq-chosen lib message rules))

abbrev pub in_scope : GoLib → String → Rule → Bool
in_scope lib scope rule = normalize_scope lib rule.scope == scope

-- Once a user-specific rule matches, the global rules have no effect: the result is that of the
-- user-specific rules alone.
pub classify-keep_user_specific :
    (lib : GoLib) (message : Message) (rules : List Rule)
    → matches lib (extract_message_parts lib message) scope_user_specific rules ≢ []
    → classify lib message (keep (in_scope lib scope_user_specific) rules)
      ≡ classify lib message rules
classify-keep_user_specific lib message rules h =
    let parts : MessageParts = extract_message_parts lib message in
    let test : Rule → Bool = in_scope lib scope_user_specific in
    let same : matches lib parts scope_user_specific (keep test rules)
        ≡ matches lib parts scope_user_specific rules =
      matches-keep lib parts scope_user_specific test rules
        (λ rule out. rule_match-none lib parts scope_user_specific rule (inr out)) in
    elim (fold-IsFirstBest (matches lib parts scope_user_specific rules)) [
      | inl (empty, _) ↦ absurd (h empty)
      | inr (m, e, _) ↦
          classify-eq-chosen lib message _
          ∙ (unfold chosen in rw (same, e) (sym (classify-eq-chosen lib message rules ∙ rw e)))
    ]
