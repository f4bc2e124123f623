-- ===== src/Storage/RuleQuery.antt =====
-- `ListEnabledUserRules`: which rules it returns, and in which order.
use email_triage_system.Common.{
  String, ◌≡◌, ◌≢◌, refl, sym, ap, ◌∙◌, ◌⊎◌, ◌↔◌, ◌+◌, ◌≤◌, ◌==◌, eq_iff, Option, none, some, true,
  false, List, [], ◌∷◌, arith, All, All-map, Bool-cases, inl, inr, dec_lt,
}
use mathlib.Core.List.Perm
use mathlib.Core.List.{Perm}
use mathlib.Core.Option.{some-injective}
use email_triage_system.Common.Int.{ℤ, pos, negsuc, pos_part, neg_part, ◌<ℤ◌}
use email_triage_system.Models.{UserRule}
use email_triage_system.Storage.{applies_to, comes_before, is_global, insert_rule, select_rules}

-- No rule comes strictly before an earlier one.
abbrev Unbeaten : List UserRule → Type 0
Unbeaten [] = Unit
Unbeaten (rule ∷ rules) = All (λ later. comes_before later rule ≡ false) rules × Unbeaten rules

module _ {ℓ} (P : UserRule → Type ℓ) where
  All-insert_rule :
      (rule : UserRule) (rules : List UserRule)
      → All P (insert_rule rule rules) ↔ (P rule × All P rules)
  unfolding insert_rule
  All-insert_rule rule [] = (λ h. h, λ h. h)
  All-insert_rule rule (other ∷ rules) = elim (Bool-cases (comes_before other rule)) [
    | inl before ↦ rw before (
      λ (h, hs). let (k, ks) = (All-insert_rule rule rules).0 hs in (k, (h, ks)),
      λ (k, both). (both.0, (All-insert_rule rule rules).1 (k, both.1)),
    )
    | inr after ↦ rw after (λ h. h, λ h. h)
  ]

-- The rule is global, or that of the user.
abbrev pub IsFor : String → UserRule → Type 0
IsFor user_id rule = (rule.user_id ≡ none) ⊎ (rule.user_id ≡ some user_id)

owner_iff :
    (user_id : String) (owner : Option String)
    → (elim owner [ none ↦ true | some o ↦ o == user_id ] ≡ true)
      ↔ ((owner ≡ none) ⊎ (owner ≡ some user_id))
owner_iff user_id none = (λ h. inl refl, λ h. refl)
owner_iff user_id (some o) = (
  λ h. inr (ap (λ x. some x) ((eq_iff o user_id).0 h)),
  λ h. elim h [ inl e ↦ cc | inr e ↦ (eq_iff o user_id).1 (some-injective o user_id e) ],
)

applies_to_iff :
    (user_id : String) (rule : UserRule)
    → (applies_to user_id rule ≡ true) ↔ ((rule.enabled ≡ true) × IsFor user_id rule)
unfolding applies_to
applies_to_iff user_id rule = (
  λ h. (ground arith, (owner_iff user_id rule.user_id).0 (ground arith)),
  λ (on, own). rw (on, (owner_iff user_id rule.user_id).1 own) refl,
)

-- `kept` holds, in order and as often as `rules` does, the rules that are enabled and for the user.
pub data Selects (user_id : String) : (rules kept : List UserRule) → Type 0 where
  ends : Selects user_id [] []
  takes :
      {rule : UserRule} {rules kept : List UserRule}
      → rule.enabled ≡ true
      → IsFor user_id rule
      → Selects user_id rules kept
      → Selects user_id (rule ∷ rules) (rule ∷ kept)
  leaves :
      {rule : UserRule} {rules kept : List UserRule}
      → ¬ ((rule.enabled ≡ true) × IsFor user_id rule)
      → Selects user_id rules kept
      → Selects user_id (rule ∷ rules) kept

insert_rule-perm :
    (rule : UserRule) (rules : List UserRule) → Perm (insert_rule rule rules) (rule ∷ rules)
unfolding insert_rule
insert_rule-perm rule [] = Perm.rfl
insert_rule-perm rule (other ∷ rules) = elim (Bool-cases (comes_before other rule)) [
  | inl before ↦
      rw before
        (Perm.trans (Perm.cons other (insert_rule-perm rule rules)) (Perm.swap rule other rules))
  | inr after ↦ rw after Perm.rfl
]

-- The rules that the query returns are, up to their order and each as often as it is there, the
-- rules of the table that are enabled and either global or the user's own.
pub select_rules-perm :
    (user_id : String) (rules : List UserRule)
    → (kept : List UserRule) × Selects user_id rules kept × Perm (select_rules user_id rules) kept
unfolding select_rules
select_rules-perm user_id [] = ([], ends, Perm.rfl)
select_rules-perm user_id (rule ∷ rules) =
    let (kept, selects, perm) = select_rules-perm user_id rules in
    elim (Bool-cases (applies_to user_id rule)) [
      | inl applies ↦
          let (on, own) = (applies_to_iff user_id rule).0 applies in
          (
            rule ∷ kept,
            takes on own selects,
            rw applies (Perm.trans (insert_rule-perm rule _) (Perm.cons rule perm)),
          )
      | inr other ↦
          (kept, leaves (λ both. cc ((applies_to_iff user_id rule).1 both)) selects, rw other perm)
    ]

comes_before_asymm : (a b : UserRule) → comes_before a b ≡ true → comes_before b a ≡ false
unfolding comes_before
comes_before_asymm a b h = ground arith

-- Being no later is transitive.
not_after_trans :
    (a b c : UserRule)
    → comes_before b a ≡ false
    → comes_before c b ≡ false
    → comes_before c a ≡ false
unfolding comes_before
not_after_trans a b c h k = ground arith

All-not_after :
    (a b : UserRule) (rules : List UserRule)
    → comes_before b a ≡ false
    → All (λ later. comes_before later b ≡ false) rules
    → All (λ later. comes_before later a ≡ false) rules
All-not_after a b [] h k = tt
All-not_after a b (c ∷ rules) h (k, ks) = (not_after_trans a b c h k, All-not_after a b rules h ks)

insert_rule-Unbeaten :
    (rule : UserRule) (rules : List UserRule) → Unbeaten rules → Unbeaten (insert_rule rule rules)
unfolding insert_rule
insert_rule-Unbeaten rule [] h = (tt, tt)
insert_rule-Unbeaten rule (other ∷ rules) (h, hs) = elim (Bool-cases (comes_before other rule)) [
  | inl before ↦ rw before (
    (All-insert_rule (λ later. comes_before later other ≡ false) rule rules).1
        (comes_before_asymm other rule before, h),
    insert_rule-Unbeaten rule rules hs,
  )
  | inr after ↦ rw after ((after, All-not_after rule other rules after h), (h, hs))
]

select_rules-Unbeaten :
    (user_id : String) (rules : List UserRule) → Unbeaten (select_rules user_id rules)
unfolding select_rules
select_rules-Unbeaten user_id [] = tt
select_rules-Unbeaten user_id (rule ∷ rules) = elim (Bool-cases (applies_to user_id rule)) [
  | inl applies ↦
      rw applies (
        insert_rule-Unbeaten rule (select_rules user_id rules)
          (select_rules-Unbeaten user_id rules))
  | inr other ↦ rw other (select_rules-Unbeaten user_id rules)
]

-- `a` may stand before `b`: it is a user's and `b` is global, or both have the same scope and `a`
-- has the higher priority, or the same priority and no higher id.
abbrev pub MayPrecede : UserRule → UserRule → Type 0
MayPrecede a b =
    ((a.user_id ≢ none) × (b.user_id ≡ none))
    ⊎ (((a.user_id ≡ none) ↔ (b.user_id ≡ none))
        × ((b.priority <ℤ a.priority) ⊎ ((a.priority ≡ b.priority) × (a.id ≤ b.id))))

-- Every rule may stand before each later one.
abbrev pub InOrder : List UserRule → Type 0
InOrder [] = Unit
InOrder (rule ∷ rules) = All (λ later. MayPrecede rule later) rules × InOrder rules

unscoped :
    (owner : Option String)
    → ((owner ≡ none) × (elim owner [ none ↦ true | some o ↦ false ] ≡ true))
      ⊎ ((owner ≢ none) × (elim owner [ none ↦ true | some o ↦ false ] ≡ false))
unscoped none = inl (refl, refl)
unscoped (some o) = inr (λ e. cc, refl)

priorities_eq : (a b : ℤ) → pos_part a + neg_part b ≡ pos_part b + neg_part a → a ≡ b
priorities_eq (pos m) (pos n) h = ap pos (omega (arith, h))
priorities_eq (pos m) (negsuc n) h = absurd (omega (arith, h))
priorities_eq (negsuc m) (pos n) h = absurd (omega (arith, h))
priorities_eq (negsuc m) (negsuc n) h = ap negsuc (omega (arith, h))

not_before-priority :
    (a b : UserRule)
    → is_global b ≡ is_global a
    → comes_before b a ≡ false
    → (b.priority <ℤ a.priority) ⊎ ((a.priority ≡ b.priority) × (a.id ≤ b.id))
unfolding comes_before
not_before-priority a b same h =
    elim (dec_lt (pos_part b.priority + neg_part a.priority)
      (pos_part a.priority + neg_part b.priority)) [
        | yes less ↦ inl less
        | no most ↦ inr (priorities_eq a.priority b.priority (ground arith), ground arith)
      ]

not_before-MayPrecede : (a b : UserRule) → comes_before b a ≡ false → MayPrecede a b
unfolding comes_before
not_before-MayPrecede a b h = elim (unscoped a.user_id) [
  | inl (ga, ta) ↦ elim (unscoped b.user_id) [
    | inl (gb, tb) ↦ inr ((λ _. gb, λ _. ga), not_before-priority a b (tb ∙ sym ta) h)
    | inr (sb, tb) ↦ absurd (ground arith)
  ]
  | inr (sa, ta) ↦ elim (unscoped b.user_id) [
    | inl (gb, tb) ↦ inl (sa, gb)
    | inr (sb, tb) ↦
        inr ((λ e. absurd (sa e), λ e. absurd (sb e)), not_before-priority a b (tb ∙ sym ta) h)
  ]
]

Unbeaten-InOrder : (rules : List UserRule) → Unbeaten rules → InOrder rules
Unbeaten-InOrder [] h = tt
Unbeaten-InOrder (rule ∷ rules) (h, hs) =
    (All-map (λ later k. not_before-MayPrecede rule later k) rules h, Unbeaten-InOrder rules hs)

-- The rules come in the order of the query: the user's before the global ones, within a scope by
-- falling priority, and at the same priority by rising id.
pub select_rules-InOrder :
    (user_id : String) (rules : List UserRule) → InOrder (select_rules user_id rules)
select_rules-InOrder user_id rules = Unbeaten-InOrder _ (select_rules-Unbeaten user_id rules)
