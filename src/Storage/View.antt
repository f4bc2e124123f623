-- ===== src/Storage/View.antt =====
-- What `email_messages` means: a map from a user and a Gmail message to a row. A reference version of
-- each statement on the table works on that map alone.

pub mod Refinement
use mathlib.Core.Path.{fun_ext}
use email_triage_system.Common.{
  ℕ, String, ◌≡◌, refl, sym, ap, ap₂, ◌∙◌, Bool, ◌&&◌, Option, none, some, List, [], ◌∷◌, ◌++◌,
  arith, ◌==◌, eq_iff, if◌then◌else◌, Option-cases, Bool-cases, inl, inr,
}
use email_triage_system.Models.{EmailMessage, ScanRun}
use email_triage_system.World.{State, database, email_message_not_found, Result, ok, err}
use email_triage_system.Storage.{
  with_db, is_email, find_email, update_emails, has_run, insert_email_message, upsert_rows,
  upsert_email_message, as_applied, mark_email_label_applied, get_email_message,
}
use email_triage_system.Storage.Emails.{
  find_email-append, find_email-update, find_email-key, find_email-upsert_rows,
}

-- A statement on the table, with its arguments.
pub data Statement : Type 0 where
  insert upsert : EmailMessage → Statement
  mark_applied : ℕ → String → String → String → Statement
  get : String → String → Statement

-- What the caller is told: a row, for `get` alone.
abbrev pub Reply : Type 0
Reply = Result (Option EmailMessage)

abbrev no_row : Result (Unit {0}) × State → Reply × State
no_row (ok done, s) = (ok none, s)
no_row (err e, s) = (err e, s)

abbrev one_row : Result EmailMessage × State → Reply × State
one_row (ok row, s) = (ok (some row), s)
one_row (err e, s) = (err e, s)

-- The statement as `Storage` has it.
unfoldable pub perform : Statement → State → Reply × State
perform (insert m) s = no_row (insert_email_message m s)
perform (upsert m) s = no_row (upsert_email_message m s)
perform (mark_applied time u g label) s = no_row (mark_email_label_applied time u g label s)
perform (get u g) s = one_row (get_email_message u g s)

unfoldable pub perform_all : List Statement → State → List Reply × State
perform_all [] s = ([], s)
perform_all (statement ∷ statements) s =
    let (reply, t) = perform statement s in
    let (replies, last) = perform_all statements t in (reply ∷ replies, last)

abbrev pub Table : Type 0
Table = String → String → Option EmailMessage

abbrev pub view : State → Table
view s = λ u g. find_email u g s.db.email_messages

abbrev pub put : EmailMessage → Table → Table
put m t = λ u g. if m.user_id == u && m.gmail_message_id == g then some m else t u g

-- An insert needs a free key, and it and an upsert need their scan run.
abbrev put_new : EmailMessage → Bool → Option EmailMessage → Table → Reply × Table
put_new m run (some row) t = (err database, t)
put_new m run none t = if run then (ok none, put m t) else (err database, t)

abbrev change_row : (EmailMessage → EmailMessage) → Option EmailMessage → Table → Reply × Table
change_row f none t = (err email_message_not_found, t)
change_row f (some row) t = (ok none, put (f row) t)

abbrev reply_row : Option EmailMessage → Table → Reply × Table
reply_row none t = (err email_message_not_found, t)
reply_row (some row) t = (ok (some row), t)

-- The same statement on the map.
unfoldable pub specify : List ScanRun → Statement → Table → Reply × Table
specify runs (insert m) t =
    put_new m (has_run m.scan_run_id runs) (t m.user_id m.gmail_message_id) t
specify runs (upsert m) t =
    if has_run m.scan_run_id runs then (ok none, put m t) else (err database, t)
specify runs (mark_applied time u g label) t = change_row (as_applied label time) (t u g) t
specify runs (get u g) t = reply_row (t u g) t

unfoldable pub specify_all : List ScanRun → List Statement → Table → List Reply × Table
specify_all runs [] t = ([], t)
specify_all runs (statement ∷ statements) t =
    let (reply, t2) = specify runs statement t in
    let (replies, last) = specify_all runs statements t2 in (reply ∷ replies, last)
