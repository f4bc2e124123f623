-- ===== src/Tests/Tables.antt =====
-- The tables with two rules and one stored row.
use mathlib.Core.List.{Perm}
use email_triage_system.Common.{◌+◌, ◌≡◌, refl, some, List, [], ◌∷◌, ◌==◌, ◌&&◌, if◌then◌else◌}
use email_triage_system.Models.{EmailMessage, UserRule}
use email_triage_system.Storage.{find_email, upsert_rows, count_status, select_rules}
use email_triage_system.Storage.Emails.{find_email-upsert_rows}
use email_triage_system.Storage.Keys.{IsKeyed, one_if, counts, count_status-upsert_rows}
use email_triage_system.Storage.RuleQuery.{
  Selects, InOrder, select_rules-perm, select_rules-InOrder,
}
use email_triage_system.Tests.Fixtures.{invoice_rule, shop_rule, old_row, new_row}

abbrev stored : List EmailMessage
stored = old_row ∷ []

abbrev rules : List UserRule
rules = shop_rule ∷ invoice_rule ∷ []

stored-IsKeyed : IsKeyed stored
unfolding find_email
stored-IsKeyed = (refl, tt)

old_found : find_email "u1" "m1" stored ≡ some old_row
unfolding find_email
old_found = refl

find_email-upsert_rows_example :
    find_email "u1" "m1" (upsert_rows new_row stored)
    ≡ (if "u1" == "u1" && "m1" == "m1" then some new_row else find_email "u1" "m1" stored)
find_email-upsert_rows_example = find_email-upsert_rows new_row "u1" "m1" stored

count_status-upsert_rows_example :
    count_status 1 "classified" (upsert_rows new_row stored)
      + one_if (counts 1 "classified" old_row)
    ≡ count_status 1 "classified" stored + one_if (counts 1 "classified" new_row)
count_status-upsert_rows_example =
    count_status-upsert_rows new_row old_row 1 "classified" stored stored-IsKeyed old_found

select_rules-perm_example :
    (kept : List UserRule) × Selects "u1" rules kept × Perm (select_rules "u1" rules) kept
select_rules-perm_example = select_rules-perm "u1" rules

select_rules-InOrder_example : InOrder (select_rules "u1" rules)
select_rules-InOrder_example = select_rules-InOrder "u1" rules
