-- ===== src/Storage/View/Refinement.antt =====
-- The statements on `email_messages` refine those on the map.
use mathlib.Core.Path.{fun_ext}
use email_triage_system.Common.{
  ℕ, String, ◌≡◌, refl, sym, ap, ap₂, ◌∙◌, none, some, List, [], ◌∷◌, ◌++◌, arith, eq_iff,
  if◌then◌else◌, Option-cases, Bool-cases, inl, inr,
}
use email_triage_system.Models.{EmailMessage}
use email_triage_system.World.{State, database, email_message_not_found, ok, err}
use email_triage_system.Storage.{
  with_db, is_email, update_emails, has_run, insert_email_message, upsert_rows,
  upsert_email_message, as_applied, mark_email_label_applied, get_email_message,
}
use email_triage_system.Storage.Emails.{
  find_email-append, find_email-update, find_email-key, find_email-upsert_rows,
}
use email_triage_system.Storage.View.{
  Statement, insert, upsert, mark_applied, get, Reply, no_row, one_row, perform, perform_all, Table,
  view, put, specify, specify_all,
}

-- The reply is the map's, the map afterwards is the view, and the scan runs are left alone.
abbrev Refines : Statement → State → Type 0
Refines statement s =
    ((perform statement s).0 ≡ (specify s.db.scan_runs statement (view s)).0)
    × (view (perform statement s).1 ≡ (specify s.db.scan_runs statement (view s)).1)
    × ((perform statement s).1.db.scan_runs ≡ s.db.scan_runs)

Refines-of :
    (statement : Statement) (s t : State) (r : Reply) (after : Table)
    → perform statement s ≡ (r, t)
    → specify s.db.scan_runs statement (view s) ≡ (r, after)
    → view t ≡ after
    → t.db.scan_runs ≡ s.db.scan_runs
    → Refines statement s
Refines-of statement s t r after done specified same runs = (
  ap (λ (x : Reply × State). x.0) done ∙ sym (ap (λ (x : Reply × Table). x.0) specified),
  ap (λ (x : Reply × State). view x.1) done
      ∙ same
      ∙ sym (ap (λ (x : Reply × Table). x.1) specified),
  ap (λ (x : Reply × State). x.1.db.scan_runs) done ∙ runs,
)

Table-path : (a b : Table) → ((u g : String) → a u g ≡ b u g) → a ≡ b
Table-path a b h = fun_ext (λ u. fun_ext (λ g. h u g))

-- The state with these rows.
abbrev with_rows : State → List EmailMessage → State
with_rows s rows = with_db s (record s.db { email_messages = rows })

view-append :
    (m : EmailMessage) (s : State)
    → view s m.user_id m.gmail_message_id ≡ none
    → view (with_rows s (s.db.email_messages ++ m ∷ [])) ≡ put m (view s)
view-append m s free =
    let step : (u g : String)
        → (elim (view s u g) [ none ↦ if is_email u g m then some m else none | some r ↦ some r ])
          ≡ put m (view s) u g =
      λ u g. ground (arith, free, eq_iff m.user_id u, eq_iff m.gmail_message_id g) in
    Table-path _ _ (λ u g. find_email-append u g s.db.email_messages m ∙ step u g)

view-upsert_rows :
    (m : EmailMessage) (s : State)
    → view (with_rows s (upsert_rows m s.db.email_messages)) ≡ put m (view s)
view-upsert_rows m s = Table-path _ _ (λ u g. find_email-upsert_rows m u g s.db.email_messages)

view-applied :
    (time : ℕ) (u g label : String) (s : State) (row : EmailMessage)
    → view s u g ≡ some row
    → view (with_rows s (update_emails (as_applied label time) u g s.db.email_messages))
      ≡ put (as_applied label time row) (view s)
view-applied time u g label s row found = Table-path _ _ (λ u' g'.
    find_email-update (as_applied label time) u g u' g' s.db.email_messages (λ r k. refl)
    ∙ ground (
      arith,
      found,
      find_email-key u g s.db.email_messages row found,
      eq_iff row.user_id u,
      eq_iff row.gmail_message_id g,
      eq_iff u u',
      eq_iff g g',
      eq_iff row.user_id u',
      eq_iff row.gmail_message_id g',
    ))

insert-Refines : (m : EmailMessage) (s : State) → Refines (insert m) s
unfolding perform specify insert_email_message
insert-Refines m s = elim (Option-cases (view s m.user_id m.gmail_message_id)) [
  | inr (row, found) ↦
      let done : insert_email_message m s ≡ (err database, s) =
        rw (found, insert_email_message) refl in
      Refines-of (insert m) s s (err database) (view s) (ap no_row done) (rw found refl) refl refl
  | inl free ↦ elim (Bool-cases (has_run m.scan_run_id s.db.scan_runs)) [
    | inl there ↦
        let done : insert_email_message m s
            ≡ (ok tt, (with_rows s (s.db.email_messages ++ m ∷ []))) =
          rw (free, insert_email_message) (rw there refl) in
        Refines-of (insert m) s (with_rows s (s.db.email_messages ++ m ∷ [])) (ok none)
          (put m (view s)) (ap no_row done) (rw free (rw there refl)) (view-append m s free) refl
    | inr missing ↦
        let done : insert_email_message m s ≡ (err database, s) =
          rw (free, insert_email_message) (rw missing refl) in
        Refines-of (insert m) s s (err database) (view s) (ap no_row done)
          (rw free (rw missing refl)) refl refl
  ]
]

upsert-Refines : (m : EmailMessage) (s : State) → Refines (upsert m) s
unfolding perform specify upsert_email_message
upsert-Refines m s = elim (Bool-cases (has_run m.scan_run_id s.db.scan_runs)) [
  | inl there ↦
      let done : upsert_email_message m s
          ≡ (ok tt, (with_rows s (upsert_rows m s.db.email_messages))) =
        rw there refl in
      Refines-of (upsert m) s (with_rows s (upsert_rows m s.db.email_messages)) (ok none)
        (put m (view s)) (ap no_row done) (rw there refl) (view-upsert_rows m s) refl
  | inr missing ↦
      let done : upsert_email_message m s ≡ (err database, s) = rw missing refl in
      Refines-of (upsert m) s s (err database) (view s) (ap no_row done) (rw missing refl) refl refl
]

mark_applied-Refines :
    (time : ℕ) (u g label : String) (s : State) → Refines (mark_applied time u g label) s
unfolding perform specify mark_email_label_applied
mark_applied-Refines time u g label s = elim (Option-cases (view s u g)) [
  | inl missing ↦
      let done : mark_email_label_applied time u g label s ≡ (err email_message_not_found, s) =
        rw (missing, mark_email_label_applied) refl in
      Refines-of (mark_applied time u g label) s s (err email_message_not_found) (view s)
        (ap no_row done) (rw missing refl) refl refl
  | inr (row, found) ↦
      let done : mark_email_label_applied time u g label s
          ≡ (ok tt, (with_rows s (update_emails (as_applied label time) u g s.db.email_messages))) =
        rw (found, mark_email_label_applied) refl in
      Refines-of (mark_applied time u g label) s
        (with_rows s (update_emails (as_applied label time) u g s.db.email_messages)) (ok none)
        (put (as_applied label time row) (view s)) (ap no_row done) (rw found refl)
        (view-applied time u g label s row found) refl
]

get-Refines : (u g : String) (s : State) → Refines (get u g) s
unfolding perform specify get_email_message
get-Refines u g s = elim (Option-cases (view s u g)) [
  | inl missing ↦
      let done : get_email_message u g s ≡ (err email_message_not_found, s) =
        rw (missing, get_email_message) refl in
      Refines-of (get u g) s s (err email_message_not_found) (view s) (ap one_row done)
        (rw missing refl) refl refl
  | inr (row, found) ↦
      let done : get_email_message u g s ≡ (ok row, s) = rw (found, get_email_message) refl in
      Refines-of (get u g) s s (ok (some row)) (view s) (ap one_row done) (rw found refl) refl refl
]

statement-Refines : (statement : Statement) (s : State) → Refines statement s
statement-Refines (insert m) s = insert-Refines m s
statement-Refines (upsert m) s = upsert-Refines m s
statement-Refines (mark_applied time u g label) s = mark_applied-Refines time u g label s
statement-Refines (get u g) s = get-Refines u g s

-- Any sequence of inserts, upserts, label updates and reads on `email_messages` replies, statement by
-- statement, what the same sequence replies on a map from a user and a Gmail message to a row, errors
-- included, and leaves that map as the view of the table.
pub perform_all-Refines :
    (statements : List Statement) (s : State)
    → ((perform_all statements s).0 ≡ (specify_all s.db.scan_runs statements (view s)).0)
      × (view (perform_all statements s).1 ≡ (specify_all s.db.scan_runs statements (view s)).1)
unfolding perform_all specify_all
perform_all-Refines [] s = (refl, refl)
perform_all-Refines (statement ∷ statements) s =
    let (reply, same, runs) = statement-Refines statement s in
    let (replies, last) = perform_all-Refines statements (perform statement s).1 in
    let step = ap₂ (λ rs t. specify_all rs statements t) runs same in
    (
      ap₂ (λ (r : Reply) rs. r ∷ rs) reply (replies ∙ ap (λ (x : List Reply × Table). x.0) step),
      last ∙ ap (λ (x : List Reply × Table). x.1) step,
    )
