-- ===== src/Storage.antt =====
-- internal/storage: the SQL statements as operations on the tables. The UNIQUE key of
-- `email_messages` and its reference to `scan_runs` (migrations/0001, 0004) are checked here, since
-- the statements fail by them. A user id is a UUID in its canonical text.
pub mod Emails
pub mod Keys
pub mod View
pub mod Effects
pub mod RuleQuery
use email_triage_system.Common.{
  ℕ, zero, suc, ◌+◌, String, Bool, true, false, ◌&&◌, ◌||◌, not, Option, none, some, List, [], ◌∷◌,
  ◌++◌, ◌==◌, if◌then◌else◌, eqb, ltb,
}
use email_triage_system.Common.Int.{ℤ, pos_part, neg_part, ltb_ℤ}
use email_triage_system.Models.{EmailMessage, ScanRun, UserRule, User}
use email_triage_system.World.{
  Database, State, Error, database, email_message_not_found, scan_run_not_found, user_not_found,
  Result, ok, err, Op, Exec, Env, call, ◌>>=◌, pure, now,
}

abbrev pub with_db : State → Database → State
with_db s db = record s { db = db }

-- `user_id = $3 AND gmail_message_id = $4`
abbrev pub is_email : String → String → EmailMessage → Bool
is_email user_id gmail_message_id row =
    row.user_id == user_id && row.gmail_message_id == gmail_message_id

unfoldable pub find_email : String → String → List EmailMessage → Option EmailMessage
find_email user_id gmail_message_id [] = none
find_email user_id gmail_message_id (row ∷ rows) =
    if is_email user_id gmail_message_id row
    then some row
    else find_email user_id gmail_message_id rows

-- `UPDATE email_messages SET … WHERE user_id = $3 AND gmail_message_id = $4`
unfoldable pub update_emails :
    (EmailMessage → EmailMessage) → String → String → List EmailMessage → List EmailMessage
update_emails change user_id gmail_message_id [] = []
update_emails change user_id gmail_message_id (row ∷ rows) =
    (if is_email user_id gmail_message_id row then change row else row)
    ∷ update_emails change user_id gmail_message_id rows

unfoldable pub find_run : ℕ → List ScanRun → Option ScanRun
find_run id [] = none
find_run id (run ∷ runs) = if eqb run.id id then some run else find_run id runs

-- `REFERENCES scan_runs(id)`; a null refers to nothing
unfoldable pub has_run : Option ℕ → List ScanRun → Bool
has_run none runs = true
has_run (some id) runs = elim (find_run id runs) [ none ↦ false | some run ↦ true ]

-- What a found row makes of an INSERT: an error, or the row that `ON CONFLICT` writes.
unfoldable pub insert_email_message : EmailMessage → Op (Unit {0})
insert_email_message message s =
    elim (find_email message.user_id message.gmail_message_id s.db.email_messages) [
      | some row ↦ (err database, s)
      | none ↦
          if has_run message.scan_run_id s.db.scan_runs
          then (
            ok tt,
            with_db s (record s.db { email_messages = s.db.email_messages ++ message ∷ [] }),
          )
          else (err database, s)
    ]

-- `INSERT … ON CONFLICT (user_id, gmail_message_id) DO UPDATE`: the conflicting row takes over every
-- column but its key, which is the same.
unfoldable pub upsert_rows : EmailMessage → List EmailMessage → List EmailMessage
upsert_rows message rows = elim (find_email message.user_id message.gmail_message_id rows) [
  | some row ↦ update_emails (λ _. message) message.user_id message.gmail_message_id rows
  | none ↦ rows ++ message ∷ []
]

unfoldable pub upsert_email_message : EmailMessage → Op (Unit {0})
upsert_email_message message s =
    if has_run message.scan_run_id s.db.scan_runs
    then (
      ok tt,
      with_db s (record s.db { email_messages = upsert_rows message s.db.email_messages }),
    )
    else (err database, s)

abbrev pub as_applied : String → ℕ → EmailMessage → EmailMessage
as_applied applied_label time row = record row {
  applied_label = some applied_label;
  status = "applied";
  processed_at = some time;
}

-- `time` is the database's `NOW()`. No row affected is `ErrEmailMessageNotFound`.
unfoldable pub mark_email_label_applied : ℕ → String → String → String → Op (Unit {0})
mark_email_label_applied time user_id gmail_message_id applied_label s =
    elim (find_email user_id gmail_message_id s.db.email_messages) [
      | none ↦ (err email_message_not_found, s)
      | some row ↦ (
        ok tt,
        with_db s (record s.db {
          email_messages =
              update_emails (as_applied applied_label time) user_id gmail_message_id
                s.db.email_messages;
        }),
      )
    ]

unfoldable pub get_email_message : String → String → Op EmailMessage
get_email_message user_id gmail_message_id s =
    elim (find_email user_id gmail_message_id s.db.email_messages) [
      | none ↦ (err email_message_not_found, s)
      | some row ↦ (ok row, s)
    ]

-- `WHERE scan_run_id = $1`, at one status
unfoldable pub in_run : ℕ → EmailMessage → Bool
in_run id row = elim row.scan_run_id [ none ↦ false | some other ↦ eqb other id ]

unfoldable pub count_status : ℕ → String → List EmailMessage → ℕ
count_status id status [] = 0
count_status id status (row ∷ rows) =
    let rest = count_status id status rows in
    if in_run id row && row.status == status then suc rest else rest

-- `GROUP BY status`, read as `counts[status]`: a status with no row counts 0.
unfoldable pub count_email_messages_by_scan_run : ℕ → Op (String → ℕ)
count_email_messages_by_scan_run id s =
    (ok (λ status. count_status id status s.db.email_messages), s)

unfoldable pub update_runs : (ScanRun → ScanRun) → ℕ → List ScanRun → List ScanRun
update_runs change id [] = []
update_runs change id (run ∷ runs) =
    (if eqb run.id id then change run else run) ∷ update_runs change id runs

-- `INSERT INTO scan_runs (user_id, mode, status) … RETURNING id`, with the table's defaults
unfoldable pub create_scan_run : ℕ → String → String → String → Op ℕ
create_scan_run time user_id mode status s = (
  ok s.db.next_run_id,
  with_db s (record s.db {
    scan_runs =
        s.db.scan_runs
        ++ record {
          id = s.db.next_run_id;
          user_id = user_id;
          mode = mode;
          status = status;
          started_at = time;
          finished_at = none;
          total_found = 0;
          total_processed = 0;
          total_failed = 0;
        }
          ∷ [];
    next_run_id = s.db.next_run_id + 1;
  }),
)

-- The three counters that the scan hands over.
pub record Totals : Type 0 where
  pub found : ℕ
  pub processed : ℕ
  pub failed : ℕ

abbrev pub with_totals : Totals → ScanRun → ScanRun
with_totals totals run = record run {
  total_found = totals.found;
  total_processed = totals.processed;
  total_failed = totals.failed;
}

unfoldable pub complete_scan_run : ℕ → ℕ → String → Totals → Op (Unit {0})
complete_scan_run time id status totals s = (
  ok tt,
  with_db s (record s.db {
    scan_runs =
        update_runs
          (λ run. record (with_totals totals run) { status = status; finished_at = some time }) id
          s.db.scan_runs;
  }),
)

unfoldable pub update_scan_run_progress : ℕ → Totals → Op (Unit {0})
update_scan_run_progress id totals s = (
  ok tt,
  with_db s (record s.db { scan_runs = update_runs (with_totals totals) id s.db.scan_runs }),
)

unfoldable pub get_scan_run : ℕ → Op ScanRun
get_scan_run id s = elim (find_run id s.db.scan_runs) [
  | none ↦ (err scan_run_not_found, s)
  | some run ↦ (ok run, s)
]

-- `(user_id = $1 OR user_id IS NULL) AND enabled = TRUE`
unfoldable pub applies_to : String → UserRule → Bool
applies_to user_id rule =
    elim rule.user_id [ none ↦ true | some owner ↦ owner == user_id ] && rule.enabled

abbrev pub is_global : UserRule → Bool
is_global rule = elim rule.user_id [ none ↦ true | some owner ↦ false ]

-- `ORDER BY user_id IS NULL, priority DESC, id ASC`: whether `a` comes strictly before `b`.
unfoldable pub comes_before : UserRule → UserRule → Bool
comes_before a b =
    if not (is_global a) && is_global b
    then true
    else if is_global a && not (is_global b)
    then false
    else if ltb_ℤ b.priority a.priority
    then true
    else if ltb_ℤ a.priority b.priority
    then false
    else ltb a.id b.id

unfoldable pub insert_rule : UserRule → List UserRule → List UserRule
insert_rule rule [] = rule ∷ []
insert_rule rule (other ∷ rules) =
    if comes_before other rule then other ∷ insert_rule rule rules else rule ∷ other ∷ rules

unfoldable pub select_rules : String → List UserRule → List UserRule
select_rules user_id [] = []
select_rules user_id (rule ∷ rules) =
    let rest = select_rules user_id rules in
    if applies_to user_id rule then insert_rule rule rest else rest

unfoldable pub list_enabled_user_rules : String → Op (List UserRule)
list_enabled_user_rules user_id s = (ok (select_rules user_id s.db.user_rules), s)

unfoldable pub find_user : (User → Bool) → List User → Option User
find_user test [] = none
find_user test (user ∷ users) = if test user then some user else find_user test users

unfoldable pub get_user : (User → Bool) → Op User
get_user test s = elim (find_user test s.db.users) [
  | none ↦ (err user_not_found, s)
  | some user ↦ (ok user, s)
]

unfoldable pub get_user_by_telegram_id : ℤ → Op User
get_user_by_telegram_id telegram_id = get_user (λ user.
    eqb (pos_part user.telegram_id) (pos_part telegram_id)
    && eqb (neg_part user.telegram_id) (neg_part telegram_id))

unfoldable pub get_user_by_id : String → Op User
get_user_by_id id = get_user (λ user. user.id == id)
