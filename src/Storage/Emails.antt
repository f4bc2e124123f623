-- ===== src/Storage/Emails.antt =====
-- `email_messages` as a map from (user, Gmail message) to a row, and its status counts.
use mathlib.Core.Option
use email_triage_system.Common.{
  String, ◌≡◌, refl, ◌∙◌, true, ◌&&◌, none, some, List, [], ◌∷◌, ◌++◌, arith, ◌==◌, eq_iff, eq_refl,
  if◌then◌else◌, Option-cases, inl, inr,
}
use email_triage_system.Models.{EmailMessage}
use email_triage_system.Storage.{is_email, find_email, update_emails, upsert_rows}

pub find_email-append :
    (u g : String) (rows : List EmailMessage) (m : EmailMessage)
    → find_email u g (rows ++ m ∷ []) ≡ elim (find_email u g rows) [
      | none ↦ if is_email u g m then some m else none
      | some r ↦ some r
    ]
unfolding find_email
find_email-append u g [] m = refl
find_email-append u g (row ∷ rows) m = ground (arith, find_email-append u g rows m)

-- A write that leaves the key alone changes the row of its key, and no other.
pub find_email-update :
    (f : EmailMessage → EmailMessage) (u g u' g' : String) (rows : List EmailMessage)
    → ((row : EmailMessage) → is_email u g row ≡ true → is_email u' g' (f row) ≡ is_email u' g' row)
    → find_email u' g' (update_emails f u g rows)
      ≡ (if u == u' && g == g' then Option.map f (find_email u' g' rows) else find_email u' g' rows)
unfolding find_email update_emails
find_email-update f u g u' g' [] h = ground arith
find_email-update f u g u' g' (row ∷ rows) h = ground (
  arith,
  find_email-update f u g u' g' rows h,
  h row,
  eq_iff u u',
  eq_iff g g',
  eq_iff row.user_id u,
  eq_iff row.user_id u',
  eq_iff row.gmail_message_id g,
  eq_iff row.gmail_message_id g',
)

pub find_email-key :
    (u g : String) (rows : List EmailMessage) (row : EmailMessage)
    → find_email u g rows ≡ some row
    → is_email u g row ≡ true
unfolding find_email
find_email-key u g [] row h = cc
find_email-key u g (r ∷ rows) row h = ground (arith, find_email-key u g rows row)

pub upsert_rows-fresh :
    (m : EmailMessage) (rows : List EmailMessage)
    → find_email m.user_id m.gmail_message_id rows ≡ none
    → upsert_rows m rows ≡ rows ++ m ∷ []
unfolding upsert_rows
upsert_rows-fresh m rows h = ground arith

pub upsert_rows-found :
    (m row : EmailMessage) (rows : List EmailMessage)
    → find_email m.user_id m.gmail_message_id rows ≡ some row
    → upsert_rows m rows ≡ update_emails (λ _. m) m.user_id m.gmail_message_id rows
unfolding upsert_rows
upsert_rows-found m row rows h = ground arith

pub same_key :
    (m row : EmailMessage) (u g : String)
    → is_email m.user_id m.gmail_message_id row ≡ true
    → is_email u g m ≡ is_email u g row
same_key m row u g h = ground (
  arith,
  eq_iff row.user_id m.user_id,
  eq_iff row.gmail_message_id m.gmail_message_id,
  eq_iff row.user_id u,
  eq_iff m.user_id u,
  eq_iff row.gmail_message_id g,
  eq_iff m.gmail_message_id g,
)

-- After the upsert of a row its key finds that row, and every other key finds what it found before.
pub find_email-upsert_rows :
    (m : EmailMessage) (u g : String) (rows : List EmailMessage)
    → find_email u g (upsert_rows m rows)
      ≡ (if m.user_id == u && m.gmail_message_id == g then some m else find_email u g rows)
find_email-upsert_rows m u g rows =
    elim (Option-cases (find_email m.user_id m.gmail_message_id rows)) [
      | inl fresh ↦ rw (upsert_rows-fresh m rows fresh) (
          find_email-append u g rows m
          ∙ ground (arith, eq_iff m.user_id u, eq_iff m.gmail_message_id g))
      | inr (row, found) ↦ rw (upsert_rows-found m row rows found) (
          find_email-update (λ _. m) m.user_id m.gmail_message_id u g rows
            (λ r k. same_key m r u g k)
          ∙ ground (arith, eq_iff m.user_id u, eq_iff m.gmail_message_id g))
    ]

find_email-upsert_self :
    (m : EmailMessage) (rows : List EmailMessage)
    → find_email m.user_id m.gmail_message_id (upsert_rows m rows) ≡ some m
find_email-upsert_self m rows =
    find_email-upsert_rows m m.user_id m.gmail_message_id rows
    ∙ rw (eq_refl m.user_id, eq_refl m.gmail_message_id)

update_emails_twice :
    (m : EmailMessage) (u g : String) (rows : List EmailMessage)
    → is_email u g m ≡ true
    → update_emails (λ _. m) u g (update_emails (λ _. m) u g rows) ≡ update_emails (λ _. m) u g rows
unfolding update_emails
update_emails_twice m u g [] h = refl
update_emails_twice m u g (row ∷ rows) h = ground (arith, update_emails_twice m u g rows h)

pub update_emails_absent :
    (f : EmailMessage → EmailMessage) (u g : String) (rows : List EmailMessage)
    → find_email u g rows ≡ none
    → update_emails f u g rows ≡ rows
unfolding update_emails find_email
update_emails_absent f u g [] h = refl
update_emails_absent f u g (row ∷ rows) h = ground (arith, update_emails_absent f u g rows)

update_emails-append :
    (f : EmailMessage → EmailMessage) (u g : String) (rows : List EmailMessage) (m : EmailMessage)
    → update_emails f u g (rows ++ m ∷ [])
      ≡ update_emails f u g rows ++ (if is_email u g m then f m else m) ∷ []
unfolding update_emails
update_emails-append f u g [] m = refl
update_emails-append f u g (row ∷ rows) m = rw (update_emails-append f u g rows m)

is_email_self : (m : EmailMessage) → is_email m.user_id m.gmail_message_id m ≡ true
is_email_self m = rw (eq_refl m.user_id, eq_refl m.gmail_message_id)

-- A row that is upserted a second time leaves the table as it is.
pub upsert_rows_idem :
    (m : EmailMessage) (rows : List EmailMessage)
    → upsert_rows m (upsert_rows m rows) ≡ upsert_rows m rows
upsert_rows_idem m rows =
    upsert_rows-found m m (upsert_rows m rows) (find_email-upsert_self m rows)
    ∙ elim (Option-cases (find_email m.user_id m.gmail_message_id rows)) [
      | inl fresh ↦ rw (
        upsert_rows-fresh m rows fresh,
        update_emails-append,
        update_emails_absent (λ _. m) m.user_id m.gmail_message_id rows fresh,
        is_email_self m,
      )
      | inr (row, found) ↦
          rw (upsert_rows-found m row rows found)
            (update_emails_twice m m.user_id m.gmail_message_id rows (is_email_self m))
    ]
