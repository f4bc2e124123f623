-- ===== src/Reader.antt =====
-- internal/reader: the message that the readers hand to the scan and to the classifier.
pub mod Source
use email_triage_system.Common.{String}

pub record Message : Type 0 where
  pub id : String
  pub thread_id : String
  pub from : String
  pub subject : String
  pub body_snippet : String
