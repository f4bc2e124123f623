-- ===== src/Storage/Effects.antt =====
-- What the statements of the storage touch.
use email_triage_system.Common.{ℕ, String, ◌≡◌, refl, subst⁻¹, arith}
use email_triage_system.Models.{EmailMessage}
use email_triage_system.World.{State, Op}
use email_triage_system.World.Keeps.{OpKeeps}
use email_triage_system.Storage.{
  with_db, list_enabled_user_rules, upsert_email_message, mark_email_label_applied, create_scan_run,
  complete_scan_run, update_scan_run_progress, Totals,
}

pub record TouchesTables {ℓ} {A : Type ℓ} (op : Op A) : Type ℓ where
  pub tables : (s : State) → (op s).1 ≡ with_db s (op s).1.db

-- What does not speak of the tables is kept.
pub TouchesTables-OpKeeps {ℓ} :
    {A : Type ℓ} (P : State → Type 0) (op : Op A)
    → TouchesTables op
    → ((s t : State) → P s → P (with_db s t.db))
    → OpKeeps P op
TouchesTables-OpKeeps P op t h = record {
  after_op = λ s k. subst⁻¹ P (t.tables s) (h s (op s).1 k);
}

pub list_enabled_user_rules-TouchesTables :
    (user_id : String) → TouchesTables (list_enabled_user_rules user_id)
unfolding list_enabled_user_rules
list_enabled_user_rules-TouchesTables user_id = record { tables = λ s. refl }

pub upsert_email_message-TouchesTables : (m : EmailMessage) → TouchesTables (upsert_email_message m)
unfolding upsert_email_message
upsert_email_message-TouchesTables m = record { tables = λ s. ground arith }

pub mark_email_label_applied-TouchesTables :
    (time : ℕ) (u g label : String) → TouchesTables (mark_email_label_applied time u g label)
unfolding mark_email_label_applied
mark_email_label_applied-TouchesTables time u g label = record { tables = λ s. ground arith }

pub create_scan_run-TouchesTables :
    (time : ℕ) (user_id mode status : String)
    → TouchesTables (create_scan_run time user_id mode status)
unfolding create_scan_run
create_scan_run-TouchesTables time user_id mode status = record { tables = λ s. refl }

pub complete_scan_run-TouchesTables :
    (time id : ℕ) (status : String) (totals : Totals)
    → TouchesTables (complete_scan_run time id status totals)
unfolding complete_scan_run
complete_scan_run-TouchesTables time id status totals = record { tables = λ s. refl }

pub update_scan_run_progress-TouchesTables :
    (id : ℕ) (totals : Totals) → TouchesTables (update_scan_run_progress id totals)
unfolding update_scan_run_progress
update_scan_run_progress-TouchesTables id totals = record { tables = λ s. refl }

pub ruleset table_rules = (
  list_enabled_user_rules-TouchesTables, upsert_email_message-TouchesTables,
  mark_email_label_applied-TouchesTables, create_scan_run-TouchesTables,
  complete_scan_run-TouchesTables, update_scan_run_progress-TouchesTables,
)
