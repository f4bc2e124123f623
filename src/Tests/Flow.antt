-- ===== src/Tests/Flow.antt =====
-- A waiting apply-mode event goes through the workers, beside a dry-run scan.
use mathlib.Core.List.{Memᴰ}
use email_triage_system.Common.{
  ◌≢◌, ℕ, true, ◌≡◌, ◌⊎◌, refl, inr, String, some, none, [], ◌∷◌, Option,
}
use email_triage_system.Common.Int.{ℤ, pos}
use email_triage_system.Events.{ClassifiedEmailEvent, Body}
use email_triage_system.World.{catch, World, ok, ◌>>=◌, call, now}
use email_triage_system.Storage.{
  mark_email_label_applied, find_email, upsert_email_message, has_run, list_enabled_user_rules,
  get_scan_run, find_run, count_email_messages_by_scan_run, create_scan_run,
}
use email_triage_system.Broker.{remove_one, publish_classified_email}
use email_triage_system.Text.{equal_fold}
use email_triage_system.Gmail.{
  ensure_label, label_or_create, send_create_label, list_labels, send_modify, find_label,
  apply_label_to_message,
}
use email_triage_system.World.Runs.{FaultFree}
use email_triage_system.Consumer.Success.{process_raw_email-FaultFree}
use email_triage_system.Consumer.Labelling.{labelled_state, process_classified_email-state}
use email_triage_system.Consumer.{
  process_classified_email, apply_event, apply_label, mark_applied, classify_event,
  publish_if_apply, publish_classified, process_raw_email, handle_raw_delivery,
}
use email_triage_system.Consumer.Delivery.{IsSettled, handle_raw_delivery-IsSettled}
use email_triage_system.Consumer.Outcome.{classified_state, process_raw_email-state}
use email_triage_system.Auth.{Principal}
use email_triage_system.Scans.{
  start_scan, json_error, Response, reply, Job, CreateScanRequest, ScanResponse, CreateScanResponse,
  decoded, get_scan, create_scan, enqueue_scan,
}
use email_triage_system.Scans.Access.{MayRead, IsOwnScan, get_scan-MayRead, create_scan-IsOwnScan}
use email_triage_system.Scans.Published.{IsExtended, enqueue_scan-IsExtended}
use email_triage_system.Pipeline.{enqueue, classify, here, next}
use email_triage_system.Pipeline.Tables.{IsSound, waiting}
use email_triage_system.Pipeline.Soundness.{Reach-IsSound}
use email_triage_system.Tests.Fixtures.{
  write_classified, plain, in_order, calm, write_raw, invoice_event, waiting_world, mock_source,
  dry_job, owner,
}

abbrev body : Body
body = write_raw invoice_event

abbrev classified_world : World
classified_world = (handle_raw_delivery plain in_order calm body waiting_world).1

abbrev scanned_world : World
scanned_world = enqueue_scan plain in_order calm mock_source 2 dry_job classified_world

waiting-IsSound : IsSound waiting_world.state
unfolding find_email
waiting-IsSound = record {
  keyed = (refl, tt);
  rows = (waiting (inr refl) refl, tt);
  runs = (refl, tt);
}

Reach-IsSound_example : IsSound scanned_world.state
Reach-IsSound_example =
    Reach-IsSound plain in_order calm mock_source (λ job. job.mode ≡ "dry_run") waiting_world
      scanned_world
      (next (next here (classify body waiting_world (Memᴰ.head refl)))
        (enqueue 2 dry_job classified_world refl))
      waiting-IsSound

handle_raw_delivery-IsSettled_example :
    ((handle_raw_delivery plain in_order calm body waiting_world).1.state.raw_queue ≡ body ∷ [])
    ⊎ (((handle_raw_delivery plain in_order calm body waiting_world).1.state.raw_queue
          ≡ remove_one body (body ∷ []))
        × IsSettled (process_raw_email plain in_order calm body waiting_world).0)
handle_raw_delivery-IsSettled_example =
    handle_raw_delivery-IsSettled plain in_order calm body waiting_world

enqueue_scan-IsExtended_example :
    IsExtended in_order calm mock_source dry_job waiting_world.state
      (enqueue_scan plain in_order calm mock_source 2 dry_job waiting_world).state
enqueue_scan-IsExtended_example =
    enqueue_scan-IsExtended plain in_order calm mock_source 2 dry_job waiting_world

processed :
    process_raw_email plain in_order calm body waiting_world
    ≡ (ok tt, (process_raw_email plain in_order calm body waiting_world).1)
unfolding process_raw_email classify_event publish_if_apply publish_classified ◌>>=◌ call now
    publish_classified_email upsert_email_message has_run list_enabled_user_rules find_run
processed = refl

process_raw_email-state_example :
    (stored published : ℕ) × ((process_raw_email plain in_order calm body waiting_world).1.state
      ≡ classified_state plain in_order invoice_event stored published waiting_world.state)
process_raw_email-state_example =
    process_raw_email-state plain in_order calm body invoice_event waiting_world
      (process_raw_email plain in_order calm body waiting_world).1 refl processed

abbrev shown : Response ScanResponse → Option ScanResponse
shown (reply code answer) = some answer
shown (json_error code reason) = none

abbrev no_answer : ScanResponse
no_answer = record {
  run_id = 0;
  user_id = "";
  mode = "";
  status = "";
  processing_status = "";
  started_at = 0;
  finished_at = none;
  total_found = 0;
  total_processed = 0;
  total_failed = 0;
  email_status = record { dry_run = 0; classified = 0; applied = 0 };
  query = "";
}

abbrev or_empty : Option ScanResponse → ScanResponse
or_empty none = no_answer
or_empty (some answer) = answer

abbrev scan_shown : ScanResponse
scan_shown = or_empty (shown (get_scan calm (some owner) (some (pos 1)) waiting_world).0)

scan_read : (get_scan calm (some owner) (some (pos 1)) waiting_world).0 ≡ reply 200 scan_shown
unfolding get_scan call get_scan_run find_run count_email_messages_by_scan_run
scan_read = refl

get_scan-MayRead_example :
    (principal : Principal) × (◌≡◌ {A = Option Principal} (some owner) (some principal))
    × (◌≡◌ {A = ℕ} 200 200)
    × (◌≡◌ {A = Option ℤ} (some (pos 1)) (some (pos scan_shown.run_id)))
    × MayRead principal scan_shown
get_scan-MayRead_example =
    get_scan-MayRead calm (some owner) (some (pos 1)) waiting_world 200 scan_shown scan_read

abbrev request : CreateScanRequest
request = record { mode = "apply"; query = "is:unread"; mark_read = true }

abbrev created_job : Job
created_job = record {
  run_id = 2;
  user_id = "u1";
  mode = "apply";
  query = "is:unread";
  mark_read = true;
}

scan_started :
    (create_scan calm (some owner) (decoded request) waiting_world).0.1 ≡ some created_job
unfolding create_scan start_scan call now ◌>>=◌ create_scan_run
scan_started = refl

create_scan-IsOwnScan_example :
    (principal : Principal) × (◌≡◌ {A = Option Principal} (some owner) (some principal))
    × ((answer : CreateScanResponse) × ((create_scan calm
            (some owner)
            (decoded request)
            waiting_world).0.0
          ≡ reply 202 answer)
        × IsOwnScan principal answer created_job)
create_scan-IsOwnScan_example =
    create_scan-IsOwnScan calm (some owner) (decoded request) waiting_world created_job scan_started

abbrev labelling : ClassifiedEmailEvent
labelling = record {
  scan_run_id = 1;
  user_id = "u1";
  mode = "apply";
  mark_read = true;
  classified_at = 5;
  classification = record {
    gmail_message_id = "m1";
    predicted_label = "Invoices";
    confidence = 94;
  };
}

abbrev labelled_world : World
labelled_world =
    (process_classified_email plain in_order calm (write_classified labelling) waiting_world).1

labelled :
    process_classified_email plain in_order calm (write_classified labelling) waiting_world
    ≡ (ok tt, labelled_world)
unfolding process_classified_email apply_event apply_label apply_label_to_message ensure_label
    label_or_create send_create_label list_labels send_modify mark_applied mark_email_label_applied
    find_email catch call now ◌>>=◌ find_label equal_fold
labelled = refl

process_classified_email-state_example :
    ((◌≡◌ {A = String} "apply" "apply")
      × ((time : ℕ) × (labelled_world.state
            ≡ labelled_state plain calm labelling time waiting_world.state)))
    ⊎ ((◌≢◌ {A = String} "apply" "apply") × (labelled_world ≡ waiting_world))
process_classified_email-state_example =
    process_classified_email-state plain in_order calm (write_classified labelling) labelling
      waiting_world labelled_world refl labelled

calm-FaultFree : FaultFree calm
calm-FaultFree = record { fine_call = λ n. refl }

run_stored : has_run (some 1) waiting_world.state.db.scan_runs ≡ true
unfolding has_run find_run
run_stored = refl

process_raw_email-FaultFree_example :
    (w' : World) × (process_raw_email plain in_order calm body waiting_world ≡ (ok tt, w'))
    × ((stored published : ℕ) × (w'.state
          ≡ classified_state plain in_order invoice_event stored published waiting_world.state))
process_raw_email-FaultFree_example =
    process_raw_email-FaultFree plain in_order calm body invoice_event waiting_world calm-FaultFree
      refl run_stored
