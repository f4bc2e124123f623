-- ===== src/Classifier/Choice.antt =====
-- Which rule `Classify` chooses, against a description that runs no loop.
use mathlib.Core.List.{foldl}
use email_triage_system.Common.{
  String, ◌≡◌, refl, sym, ap, ap₂, ◌∙◌, ◌⊎◌, inl, inr, true, false, ◌&&◌, not, Option, none, some,
  List, [], ◌∷◌, arith, ◌==◌, if◌then◌else◌, Option-cases, Bool-cases,
}
use email_triage_system.Text.{GoLib}
use email_triage_system.Rules.{scope_global, scope_user_specific, Rule}
use email_triage_system.Reader.{Message}
use email_triage_system.Classifier.Ranking.{IsFirstBest, fold-IsFirstBest}
use email_triage_system.Classifier.{
  Result, MessageParts, MatchResult, CandidateRule, Best, no_best, better, keep_best, chosen,
  result_of, normalize_scope, match_candidate, candidates, consider, best_of, extract_message_parts,
  classify,
}

normalize_scope-cases :
    (lib : GoLib) (scope : String)
    → (normalize_scope lib scope ≡ scope_user_specific)
      ⊎ ((normalize_scope lib scope ≡ scope_global) ⊎ (normalize_scope lib scope ≡ ""))
unfolding normalize_scope
normalize_scope-cases lib scope = ground arith

module _ (lib : GoLib) (parts : MessageParts) where
  -- What a rule contributes to a scope.
  unfoldable pub rule_match : String → Rule → Option MatchResult
  rule_match scope rule =
      if rule.enabled && (normalize_scope lib rule.scope == scope)
      then match_candidate lib parts (record { rule = rule; scope = scope })
      else none

  abbrev pub add_match : Option MatchResult → List MatchResult → List MatchResult
  add_match none ms = ms
  add_match (some m) ms = m ∷ ms

  -- The matches of a scope, in the order of the rules.
  unfoldable pub matches : String → List Rule → List MatchResult
  matches scope [] = []
  matches scope (rule ∷ rules) = add_match (rule_match scope rule) (matches scope rules)

  abbrev pub folds : Best → List Rule → Best
  folds best rules = record {
    user_specific = foldl better best.user_specific (matches scope_user_specific rules);
    global = foldl better best.global (matches scope_global rules);
  }

  rule_match-eq :
      (scope own : String) (rule : Rule)
      → rule.enabled ≡ true
      → normalize_scope lib rule.scope ≡ own
      → rule_match scope rule ≡ (
          if own == scope
          then match_candidate lib parts (record { rule = rule; scope = scope })
          else none)
  unfolding rule_match
  rule_match-eq scope own rule on e =
      ap₂
        (λ b s.
          if b && (s == scope)
          then match_candidate lib parts (record { rule = rule; scope = scope })
          else none)
        on e

  pub rule_match-none :
      (scope : String) (rule : Rule)
      → (rule.enabled ≡ false) ⊎ ((normalize_scope lib rule.scope == scope) ≡ false)
      → rule_match scope rule ≡ none
  unfolding rule_match
  rule_match-none scope rule h = ground arith

  candidates-cons :
      (own : String) (rule : Rule) (rules : List Rule)
      → rule.enabled ≡ true
      → normalize_scope lib rule.scope ≡ own
      → candidates lib (rule ∷ rules) ≡ (
          if own == ""
          then candidates lib rules
          else record { rule = rule; scope = own } ∷ candidates lib rules)
  unfolding candidates
  candidates-cons own rule rules on e =
      ap₂
        (λ b s.
          if not b
          then candidates lib rules
          else if s == ""
          then candidates lib rules
          else record { rule = rule; scope = s } ∷ candidates lib rules)
        on e

  candidates-disabled :
      (rule : Rule) (rules : List Rule)
      → rule.enabled ≡ false
      → candidates lib (rule ∷ rules) ≡ candidates lib rules
  unfolding candidates
  candidates-disabled rule rules off = ground arith

  abbrev candidate_of : Rule → String → CandidateRule
  candidate_of rule scope = record { rule = rule; scope = scope }

  folds-user_specific :
      (best : Best) (rule : Rule) (rules : List Rule)
      → rule.enabled ≡ true
      → normalize_scope lib rule.scope ≡ scope_user_specific
      → folds (consider lib parts (candidate_of rule scope_user_specific) best) rules
        ≡ folds best (rule ∷ rules)
  unfolding matches consider keep_best
  folds-user_specific best rule rules on e =
      rw
        (
          rule_match-eq scope_user_specific scope_user_specific rule on e,
          rule_match-eq scope_global scope_user_specific rule on e,
        )
        (elim (Option-cases (match_candidate lib parts (candidate_of rule scope_user_specific))) [
          | inl missed ↦ rw (missed, consider)
          | inr (m, found) ↦ rw (found, consider)
        ])

  folds-global :
      (best : Best) (rule : Rule) (rules : List Rule)
      → rule.enabled ≡ true
      → normalize_scope lib rule.scope ≡ scope_global
      → folds (consider lib parts (candidate_of rule scope_global) best) rules
        ≡ folds best (rule ∷ rules)
  unfolding matches consider keep_best
  folds-global best rule rules on e =
      rw
        (
          rule_match-eq scope_user_specific scope_global rule on e,
          rule_match-eq scope_global scope_global rule on e,
        )
        (elim (Option-cases (match_candidate lib parts (candidate_of rule scope_global))) [
          | inl missed ↦ rw (missed, consider)
          | inr (m, found) ↦ rw (found, consider)
        ])

  folds-skip :
      (best : Best) (rule : Rule) (rules : List Rule)
      → rule_match scope_user_specific rule ≡ none
      → rule_match scope_global rule ≡ none
      → folds best (rule ∷ rules) ≡ folds best rules
  unfolding matches
  folds-skip best rule rules h k = rw (h, k)

  best_of-candidates :
      (best : Best) (rules : List Rule)
      → best_of lib parts best (candidates lib rules) ≡ folds best rules
  unfolding best_of
  best_of-candidates best [] = unfold candidates matches in refl
  best_of-candidates best (rule ∷ rules) = elim (Bool-cases rule.enabled) [
    | inl on ↦ elim (normalize_scope-cases lib rule.scope) [
      | inl e ↦ rw (candidates-cons scope_user_specific rule rules on e) (
          best_of-candidates (consider lib parts (candidate_of rule scope_user_specific) best) rules
          ∙ folds-user_specific best rule rules on e)
      | inr (inl e) ↦ rw (candidates-cons scope_global rule rules on e) (
          best_of-candidates (consider lib parts (candidate_of rule scope_global) best) rules
          ∙ folds-global best rule rules on e)
      | inr (inr e) ↦ rw (candidates-cons "" rule rules on e) (
          best_of-candidates best rules
          ∙ sym (
              folds-skip best rule rules
                (rule_match-none scope_user_specific rule
                  (inr (ap (λ s. s == scope_user_specific) e)))
                (rule_match-none scope_global rule (inr (ap (λ s. s == scope_global) e)))))
    ]
    | inr off ↦ rw (candidates-disabled rule rules off) (
        best_of-candidates best rules
        ∙ sym (
            folds-skip best rule rules (rule_match-none scope_user_specific rule (inl off))
              (rule_match-none scope_global rule (inl off))))
  ]

-- What `Classify` returns, from the matches of the two scopes alone.
pub data IsChosen (lib : GoLib) (message : Message) (rules : List Rule) (result : Result)
    : Type 0 where
  by_user_rule :
      (m : MatchResult)
      → IsFirstBest m (matches lib (extract_message_parts lib message) scope_user_specific rules)
      → result ≡ result_of (some m)
      → IsChosen lib message rules result
  by_global_rule :
      (m : MatchResult)
      → matches lib (extract_message_parts lib message) scope_user_specific rules ≡ []
      → IsFirstBest m (matches lib (extract_message_parts lib message) scope_global rules)
      → result ≡ result_of (some m)
      → IsChosen lib message rules result
  by_no_rule :
      matches lib (extract_message_parts lib message) scope_user_specific rules ≡ []
      → matches lib (extract_message_parts lib message) scope_global rules ≡ []
      → result ≡ record { label = "Unknown"; confidence = 50; reason = "no_matching_rule" }
      → IsChosen lib message rules result

module _ (lib : GoLib) (message : Message) (rules : List Rule) where
  abbrev parts_of : MessageParts
  parts_of = extract_message_parts lib message

  -- `Classify` without its loops.
  pub classify-eq-chosen :
      classify lib message rules
      ≡ result_of (chosen (folds lib (extract_message_parts lib message) no_best rules))
  unfolding classify
  classify-eq-chosen =
      ap (λ b. result_of (chosen b)) (best_of-candidates lib parts_of no_best rules)

  -- The result is that of the first user-specific match of the highest score; with no
  -- user-specific match, that of the first global one of the highest score; with no match at all,
  -- "Unknown" at confidence 0.5.
  pub classify-IsChosen : IsChosen lib message rules (classify lib message rules)
  unfolding chosen
  classify-IsChosen = elim (fold-IsFirstBest (matches lib parts_of scope_user_specific rules)) [
    | inr (m, e, best) ↦ by_user_rule m best (classify-eq-chosen ∙ rw e)
    | inl (no_user, e) ↦ elim (fold-IsFirstBest (matches lib parts_of scope_global rules)) [
      | inr (m, e', best) ↦ by_global_rule m no_user best (classify-eq-chosen ∙ rw (e, e'))
      | inl (no_global, e') ↦
          by_no_rule no_user no_global (classify-eq-chosen ∙ rw (e, e') (unfold result_of in refl))
    ]
  ]
