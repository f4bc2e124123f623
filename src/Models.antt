-- ===== src/Models.antt =====
-- internal/storage/models: the rows of the four tables. Times are readings of a clock, confidences
-- are in hundredths, and a null column or a nil pointer is `none`. Ids and the counters of a run are
-- natural numbers, without the bound of their columns.
use email_triage_system.Common.{ℕ, String, Bool, Option}
use email_triage_system.Common.Int.{ℤ}

pub record EmailMessage : Type 0 where
  pub scan_run_id : Option ℕ
  pub user_id : String
  pub gmail_message_id : String
  pub predicted_label : String
  pub applied_label : Option String
  pub confidence : ℕ
  pub reason : String
  pub status : String
  pub processed_at : Option ℕ

pub record ScanRun : Type 0 where
  pub id : ℕ
  pub user_id : String
  pub mode : String
  pub status : String
  pub started_at : ℕ
  pub finished_at : Option ℕ
  pub total_found : ℕ
  pub total_processed : ℕ
  pub total_failed : ℕ

pub record UserRule : Type 0 where
  pub id : ℕ
  pub user_id : Option String
  pub rule_type : String
  pub operator : String
  pub rule_value : String
  pub target_label : String
  pub enabled : Bool
  pub priority : ℤ

pub record User : Type 0 where
  pub id : String
  pub telegram_id : ℤ
  pub telegram_username : Option String
  pub display_name : Option String
  pub role : String
  pub enabled : Bool
  pub created_at : ℕ
  pub updated_at : ℕ
