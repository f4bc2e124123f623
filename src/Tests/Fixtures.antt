-- ===== src/Tests/Fixtures.antt =====
-- Concrete inputs: a library that lowers ASCII only, a codec, services that never fail, and data.
use email_triage_system.Common.{refl, true, false, Option, none, some, [], ◌∷◌}
use email_triage_system.Common.Int.{pos}
use email_triage_system.Text.{GoLib}
use email_triage_system.Reader.{Message}
use email_triage_system.Reader.Source.{Source}
use email_triage_system.Models.{EmailMessage, ScanRun, UserRule}
use email_triage_system.Events.{
  Body, text, number, truth, no_fields, field, RawEmailEvent, ClassifiedEmailEvent, Codec,
  RoundTrips,
}
use email_triage_system.World.{fine, Env, World}
use email_triage_system.Scans.{Job}
use email_triage_system.Auth.{Principal}

abbrev pub plain : GoLib
plain = record { lower_rune = λ c. c; fold_rune = λ c. c; parse_address = λ _. none }

abbrev pub write_raw : RawEmailEvent → Body
write_raw event = field "scan_run_id" (number event.scan_run_id) (
    field "user_id" (text event.user_id) (
      field "mode" (text event.mode) (
        field "mark_read" (truth event.mark_read) (
          field "published_at" (number event.published_at) (
            field "message"
              (field "gmail_message_id" (text event.message.gmail_message_id) (
                field "thread_id" (text event.message.thread_id) (
                  field "from" (text event.message.from) (
                    field "subject" (text event.message.subject)
                      (field "body_snippet" (text event.message.body_snippet) no_fields)))))
              no_fields)))))

abbrev pub read_raw : Body → Option RawEmailEvent
read_raw
      (field _ (number run) (
        field _ (text user) (
          field _ (text mode) (
            field _ (truth mark) (
              field _ (number time) (
                field _
                  (field _ (text id) (
                    field _ (text thread) (
                      field _
                        (text from)
                        (field _ (text subject) (field _ (text snippet) no_fields)))))
                  no_fields)))))) =
    some (record {
      scan_run_id = run;
      user_id = user;
      mode = mode;
      mark_read = mark;
      published_at = time;
      message = record {
        gmail_message_id = id;
        thread_id = thread;
        from = from;
        subject = subject;
        body_snippet = snippet;
      };
    })
read_raw _ = none

abbrev pub write_classified : ClassifiedEmailEvent → Body
write_classified event = field "scan_run_id" (number event.scan_run_id) (
    field "user_id" (text event.user_id) (
      field "mode" (text event.mode) (
        field "mark_read" (truth event.mark_read) (
          field "classified_at" (number event.classified_at) (
            field "classification"
              (field "gmail_message_id" (text event.classification.gmail_message_id) (
                field "predicted_label" (text event.classification.predicted_label)
                  (field "confidence" (number event.classification.confidence) no_fields)))
              no_fields)))))

abbrev pub read_classified : Body → Option ClassifiedEmailEvent
read_classified
      (field _ (number run) (
        field _ (text user) (
          field _ (text mode) (
            field _ (truth mark) (
              field _ (number time) (
                field _
                  (field _ (text id) (field _ (text label) (field _ (number sure) no_fields)))
                  no_fields)))))) =
    some (record {
      scan_run_id = run;
      user_id = user;
      mode = mode;
      mark_read = mark;
      classified_at = time;
      classification = record { gmail_message_id = id; predicted_label = label; confidence = sure };
    })
read_classified _ = none

abbrev pub in_order : Codec
in_order = record {
  marshal_raw = write_raw;
  unmarshal_raw = read_raw;
  marshal_classified = write_classified;
  unmarshal_classified = read_classified;
}

pub in_order-RoundTrips : RoundTrips in_order
in_order-RoundTrips = record { raw = λ event. refl; classified = λ event. refl }

abbrev pub calm : Env
calm = record {
  fault = λ n. fine;
  clock = λ n. n;
  labels = λ sent. none ∷ some (record { id = "L1"; name = "Invoices" }) ∷ [];
  created_id = λ sent name. "L2";
  page = λ size query token. record { message_ids = []; next_page_token = "" };
  message = λ id. record { id = id; thread_id = "t"; snippet = ""; payload = none };
}

abbrev pub invoice_rule : UserRule
invoice_rule = record {
  id = 1;
  user_id = some "u1";
  rule_type = "subject";
  operator = "contains";
  rule_value = "Invoice";
  target_label = "Invoices";
  enabled = true;
  priority = pos 120;
}

abbrev pub shop_rule : UserRule
shop_rule = record {
  id = 2;
  user_id = none;
  rule_type = "sender_domain";
  operator = "equals";
  rule_value = "shop.com";
  target_label = "Shop";
  enabled = true;
  priority = pos 200;
}

abbrev pub old_row : EmailMessage
old_row = record {
  scan_run_id = some 1;
  user_id = "u1";
  gmail_message_id = "m1";
  predicted_label = "Unknown";
  applied_label = none;
  confidence = 50;
  reason = "no rule matched";
  status = "classified";
  processed_at = some 0;
}

abbrev pub new_row : EmailMessage
new_row = record old_row { scan_run_id = some 2; predicted_label = "Invoices"; confidence = 94 }

abbrev pub first_run : ScanRun
first_run = record {
  id = 1;
  user_id = "u1";
  mode = "apply";
  status = "queued";
  started_at = 0;
  finished_at = some 3;
  total_found = 2;
  total_processed = 1;
  total_failed = 1;
}

abbrev pub invoice_event : RawEmailEvent
invoice_event = record {
  scan_run_id = 1;
  user_id = "u1";
  mode = "apply";
  mark_read = true;
  published_at = 4;
  message = record {
    gmail_message_id = "m1";
    thread_id = "t1";
    from = "billing@shop.com";
    subject = "Your invoice";
    body_snippet = "";
  };
}

abbrev pub waiting_world : World
waiting_world = record {
  state = record {
    db = record {
      email_messages = old_row ∷ [];
      scan_runs = first_run ∷ [];
      next_run_id = 2;
      user_rules = shop_rule ∷ invoice_rule ∷ [];
      users = [];
    };
    raw_queue = write_raw invoice_event ∷ [];
    classified_queue = [];
    sent = [];
  };
  calls = 0;
}

abbrev pub mock_source : Source
mock_source = record {
  source = "mock";
  mock = true;
  gmail = false;
  max_results = pos 20;
  query = "";
}

abbrev pub dry_job : Job
dry_job = record { run_id = 1; user_id = "u1"; mode = "dry_run"; query = ""; mark_read = false }

abbrev pub owner : Principal
owner = record { user_id = "u1"; role = "user"; provider = "telegram" }

abbrev pub invoice_message : Message
invoice_message = record {
  id = "m1";
  thread_id = "t1";
  from = "billing@shop.com";
  subject = "Your invoice";
  body_snippet = "";
}
