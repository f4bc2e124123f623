-- ===== src/Pipeline/Tables.antt =====
-- Soundness of the tables: unique keys, statuses that agree with the applied label, and balanced
-- counters of the scan runs.
use email_triage_system.Common.{
  ℕ, ◌+◌, String, ◌≡◌, refl, ◌⊎◌, inl, inr, none, some, List, [], ◌∷◌, arith, ◌==◌, All, All-append,
  Bool-cases, Option-cases, eqb,
}
use email_triage_system.Classifier
use email_triage_system.Models.{EmailMessage, ScanRun}
use email_triage_system.Events.{RawEmailEvent}
use email_triage_system.World.{State, Database}
use email_triage_system.World.Keeps.{OpKeeps}
use email_triage_system.Storage.{
  Totals, with_totals, is_email, find_email, update_emails, upsert_rows, as_applied, update_runs,
  has_run, upsert_email_message, mark_email_label_applied, create_scan_run, complete_scan_run,
  update_scan_run_progress,
}
use email_triage_system.Storage.Emails.{upsert_rows-fresh, upsert_rows-found}
use email_triage_system.Storage.Keys.{IsKeyed, upsert_rows-IsKeyed, as_applied-IsKeyed}
use email_triage_system.Consumer.{row_of}
use email_triage_system.Scans.Enqueue.{Balanced}

-- A row is applied and says which label, or it waits in one of two statuses with no label.
pub data RowSound (row : EmailMessage) : Type 0 where
  applied : (name : String) → row.status ≡ "applied" → row.applied_label ≡ some name → RowSound row
  waiting :
      (row.status ≡ "dry_run") ⊎ (row.status ≡ "classified")
      → row.applied_label ≡ none
      → RowSound row

abbrev pub RunSound : ScanRun → Type 0
RunSound run = run.total_found ≡ run.total_processed + run.total_failed

pub record TablesSound (db : Database) : Type 0 where
  pub keyed : IsKeyed db.email_messages
  pub rows : All RowSound db.email_messages
  pub runs : All RunSound db.scan_runs

abbrev pub IsSound : State → Type 0
IsSound s = TablesSound s.db

All-update_emails :
    (f : EmailMessage → EmailMessage) (u g : String) (rows : List EmailMessage)
    → ((row : EmailMessage) → RowSound (f row))
    → All RowSound rows
    → All RowSound (update_emails f u g rows)
unfolding update_emails
All-update_emails f u g [] h k = tt
All-update_emails f u g (row ∷ rows) h (k, ks) = elim (Bool-cases (is_email u g row)) [
  | inl here ↦ rw here (h row, All-update_emails f u g rows h ks)
  | inr there ↦ rw there (k, All-update_emails f u g rows h ks)
]

All-upsert_rows :
    (m : EmailMessage) (rows : List EmailMessage)
    → RowSound m
    → All RowSound rows
    → All RowSound (upsert_rows m rows)
All-upsert_rows m rows h k = elim (Option-cases (find_email m.user_id m.gmail_message_id rows)) [
  | inl fresh ↦ rw (upsert_rows-fresh m rows fresh) (All-append RowSound rows _ k (h, tt))
  | inr (row, found) ↦
      rw (upsert_rows-found m row rows found)
        (All-update_emails (λ _. m) m.user_id m.gmail_message_id rows (λ _. h) k)
]

All-update_runs :
    (f : ScanRun → ScanRun) (id : ℕ) (runs : List ScanRun)
    → ((run : ScanRun) → RunSound (f run))
    → All RunSound runs
    → All RunSound (update_runs f id runs)
unfolding update_runs
All-update_runs f id [] h k = tt
All-update_runs f id (run ∷ runs) h (k, ks) = elim (Bool-cases (eqb run.id id)) [
  | inl here ↦ rw here (h run, All-update_runs f id runs h ks)
  | inr there ↦ rw there (k, All-update_runs f id runs h ks)
]

pub row_of-RowSound :
    (event : RawEmailEvent) (result : Classifier.Result) (time : ℕ)
    → RowSound (row_of event result time)
row_of-RowSound event result time = elim (Bool-cases (event.mode == "dry_run")) [
  | inl dry ↦ waiting (inl (rw dry)) refl
  | inr wet ↦ waiting (inr (rw wet)) refl
]

pub upsert_email_message-IsSound :
    (m : EmailMessage) → RowSound m → OpKeeps IsSound (upsert_email_message m)
unfolding upsert_email_message
upsert_email_message-IsSound m sound = record {
  after_op = λ s h. elim (Bool-cases (has_run m.scan_run_id s.db.scan_runs)) [
    | inl there ↦ rw there (record {
      keyed = upsert_rows-IsKeyed m s.db.email_messages h.keyed;
      rows = All-upsert_rows m s.db.email_messages sound h.rows;
      runs = h.runs;
    })
    | inr missing ↦ rw missing h
  ];
}

pub mark_email_label_applied-IsSound :
    (time : ℕ) (u g name : String) → OpKeeps IsSound (mark_email_label_applied time u g name)
unfolding mark_email_label_applied
mark_email_label_applied-IsSound time u g name = record {
  after_op = λ s h. elim (Option-cases (find_email u g s.db.email_messages)) [
    | inl missing ↦ rw (missing, mark_email_label_applied) h
    | inr (row, found) ↦
        rw (found, mark_email_label_applied)
          (record {
            keyed = as_applied-IsKeyed name time u g s.db.email_messages h.keyed;
            rows =
                All-update_emails (as_applied name time) u g s.db.email_messages
                  (λ row. applied name refl refl) h.rows;
            runs = h.runs;
          })
  ];
}

pub create_scan_run-IsSound :
    (time : ℕ) (user_id mode status : String)
    → OpKeeps IsSound (create_scan_run time user_id mode status)
unfolding create_scan_run
create_scan_run-IsSound time user_id mode status = record {
  after_op = λ s h. record {
    keyed = h.keyed;
    rows = h.rows;
    runs = All-append RunSound s.db.scan_runs _ h.runs (omega arith, tt);
  };
}

pub complete_scan_run-IsSound :
    (time id : ℕ) (status : String) (totals : Totals)
    → Balanced totals
    → OpKeeps IsSound (complete_scan_run time id status totals)
unfolding complete_scan_run
complete_scan_run-IsSound time id status totals b = record {
  after_op = λ s h. record {
    keyed = h.keyed;
    rows = h.rows;
    runs = All-update_runs _ id s.db.scan_runs (λ run. b) h.runs;
  };
}

pub update_scan_run_progress-IsSound :
    (id : ℕ) (totals : Totals)
    → Balanced totals
    → OpKeeps IsSound (update_scan_run_progress id totals)
unfolding update_scan_run_progress
update_scan_run_progress-IsSound id totals b = record {
  after_op = λ s h. record {
    keyed = h.keyed;
    rows = h.rows;
    runs = All-update_runs (with_totals totals) id s.db.scan_runs (λ run. b) h.runs;
  };
}
