-- ===== src/Storage/Keys.antt =====
-- The UNIQUE key of `email_messages`, and how the writes change the counts of a scan run.
use mathlib.Core.Option.{some-injective}
use email_triage_system.Common.{
  ℕ, ◌+◌, String, ◌≡◌, refl, ap₂, ◌∙◌, Bool, true, ◌&&◌, none, some, List, [], ◌∷◌, ◌++◌, arith,
  ◌==◌, eq_iff, if◌then◌else◌, Bool-cases, Option-cases, inl, inr,
}
use email_triage_system.Models.{EmailMessage}
use email_triage_system.Storage.{
  is_email, find_email, update_emails, upsert_rows, in_run, count_status, as_applied,
}
use email_triage_system.Storage.Emails.{
  find_email-append, find_email-update, upsert_rows-fresh, upsert_rows-found, update_emails_absent,
}

-- The UNIQUE constraint: no later row has the key of an earlier one.
abbrev pub IsKeyed : List EmailMessage → Type 0
IsKeyed [] = Unit
IsKeyed (row ∷ rows) = (find_email row.user_id row.gmail_message_id rows ≡ none) × IsKeyed rows

-- A write that leaves the key of the rows that it changes alone.
abbrev pub SameKeys : (EmailMessage → EmailMessage) → String → String → Type 0
SameKeys f u g =
    (row : EmailMessage)
    → is_email u g row ≡ true
    → ((f row).user_id ≡ row.user_id) × ((f row).gmail_message_id ≡ row.gmail_message_id)

find_email-update_none :
    (f : EmailMessage → EmailMessage) (u g u' g' : String) (rows : List EmailMessage)
    → SameKeys f u g
    → find_email u' g' rows ≡ none
    → find_email u' g' (update_emails f u g rows) ≡ none
find_email-update_none f u g u' g' rows same h =
    find_email-update f u g u' g' rows
      (λ row k. ap₂ (λ a b. a == u' && b == g') (same row k).0 (same row k).1)
    ∙ rw h (ground arith)

update_emails-IsKeyed :
    (f : EmailMessage → EmailMessage) (u g : String) (rows : List EmailMessage)
    → SameKeys f u g
    → IsKeyed rows
    → IsKeyed (update_emails f u g rows)
unfolding update_emails
update_emails-IsKeyed f u g [] same k = tt
update_emails-IsKeyed f u g (row ∷ rows) same (fresh, k) = elim (Bool-cases (is_email u g row)) [
  | inl here ↦
      rw (here, (same row here).0, (same row here).1)
        (
          find_email-update_none f u g row.user_id row.gmail_message_id rows same fresh,
          update_emails-IsKeyed f u g rows same k,
        )
  | inr there ↦ rw there (
    find_email-update_none f u g row.user_id row.gmail_message_id rows same fresh,
    update_emails-IsKeyed f u g rows same k,
  )
]

append-IsKeyed :
    (m : EmailMessage) (rows : List EmailMessage)
    → find_email m.user_id m.gmail_message_id rows ≡ none
    → IsKeyed rows
    → IsKeyed (rows ++ m ∷ [])
unfolding find_email
append-IsKeyed m [] h k = (refl, tt)
append-IsKeyed m (row ∷ rows) h (fresh, k) = (
  find_email-append row.user_id row.gmail_message_id rows m
      ∙ rw fresh (
          ground (
            arith,
            eq_iff m.user_id row.user_id,
            eq_iff row.user_id m.user_id,
            eq_iff m.gmail_message_id row.gmail_message_id,
            eq_iff row.gmail_message_id m.gmail_message_id,
          )),
  append-IsKeyed m rows (ground arith) k,
)

-- If no two rows have the same key, an upsert leaves no two rows with the same key.
pub upsert_rows-IsKeyed :
    (m : EmailMessage) (rows : List EmailMessage) → IsKeyed rows → IsKeyed (upsert_rows m rows)
upsert_rows-IsKeyed m rows k = elim (Option-cases (find_email m.user_id m.gmail_message_id rows)) [
  | inl fresh ↦ rw (upsert_rows-fresh m rows fresh) (append-IsKeyed m rows fresh k)
  | inr (row, found) ↦ rw (upsert_rows-found m row rows found) (
      update_emails-IsKeyed (λ _. m) m.user_id m.gmail_message_id rows
        (λ r e.
          ground (arith, eq_iff r.user_id m.user_id, eq_iff r.gmail_message_id m.gmail_message_id))
        k)
]

pub as_applied-IsKeyed :
    (label : String) (time : ℕ) (u g : String) (rows : List EmailMessage)
    → IsKeyed rows
    → IsKeyed (update_emails (as_applied label time) u g rows)
as_applied-IsKeyed label time u g rows k =
    update_emails-IsKeyed (as_applied label time) u g rows (λ row e. (refl, refl)) k

abbrev pub one_if : Bool → ℕ
one_if b = if b then 1 else 0

-- Whether a row counts for a run and a status.
abbrev pub counts : ℕ → String → EmailMessage → Bool
counts id status row = in_run id row && row.status == status

count_status-update :
    (m row : EmailMessage) (u g : String) (id : ℕ) (status : String) (rows : List EmailMessage)
    → IsKeyed rows
    → find_email u g rows ≡ some row
    → count_status id status (update_emails (λ _. m) u g rows) + one_if (counts id status row)
      ≡ count_status id status rows + one_if (counts id status m)
unfolding count_status find_email update_emails
count_status-update m row u g id status [] k h = cc
count_status-update m row u g id status (r ∷ rows) (fresh, k) h =
    elim (Bool-cases (is_email u g r)) [
      | inl here ↦
          let absent : find_email u g rows ≡ none =
            ground (arith, eq_iff r.user_id u, eq_iff r.gmail_message_id g) in
          let same : r ≡ row = some-injective r row (rw here at h) in
          rw (here, update_emails_absent (λ _. m) u g rows absent, ← same) (ground arith)
      | inr there ↦
          rw there (ground (arith, count_status-update m row u g id status rows k (rw there at h)))
    ]

-- With unique keys, an upsert that finds a row moves its count: the old row no longer counts for its
-- run and status, and the new one counts for its own.
pub count_status-upsert_rows :
    (m row : EmailMessage) (id : ℕ) (status : String) (rows : List EmailMessage)
    → IsKeyed rows
    → find_email m.user_id m.gmail_message_id rows ≡ some row
    → count_status id status (upsert_rows m rows) + one_if (counts id status row)
      ≡ count_status id status rows + one_if (counts id status m)
count_status-upsert_rows m row id status rows k h =
    rw (upsert_rows-found m row rows h)
      (count_status-update m row m.user_id m.gmail_message_id id status rows k h)
