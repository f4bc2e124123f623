-- ===== src/Scans.antt =====
-- internal/api/scans.go: starting a scan, enqueuing its messages, and reading its progress. `go
-- h.enqueueScan(…)` is a `Job` that the caller hands on; logging is left out.
pub mod Enqueue
pub mod Access
pub mod Published
pub mod Schedule
pub mod Complete
use email_triage_system.Common.{
  ℕ, zero, suc, ◌+◌, String, Bool, true, false, ◌&&◌, not, Option, none, some, List, [], ◌∷◌, ◌==◌,
  if◌then◌else◌, length, ltb, leb, eqb,
}
use email_triage_system.Common.Int.{ℤ, pos, negsuc, leb_ℤ}
use email_triage_system.Text.{GoLib}
use email_triage_system.Auth.{Principal}
use email_triage_system.Reader.{Message}
use email_triage_system.Reader.Source.{Source, with_query, Walked, iterate_messages}
use email_triage_system.Models.{ScanRun}
use email_triage_system.Events.{Codec, RawEmailEvent}
use email_triage_system.World.{
  Env, Error, scan_run_not_found, other, Result, ok, err, Exec, World, call, now, pure, fail, ◌>>=◌,
  ◌>>◌,
}
use email_triage_system.Storage.{
  Totals, create_scan_run, complete_scan_run, update_scan_run_progress, get_scan_run,
  count_email_messages_by_scan_run,
}
use email_triage_system.Broker.{publish_raw_email}

abbrev pub scan_mode_dry_run : String
scan_mode_dry_run = "dry_run"

abbrev pub scan_mode_apply : String
scan_mode_apply = "apply"

-- The arguments of a spawned `enqueueScan`.
pub record Job : Type 0 where
  pub run_id : ℕ
  pub user_id : String
  pub mode : String
  pub query : String
  pub mark_read : Bool

abbrev pub no_totals : Totals
no_totals = record { found = 0; processed = 0; failed = 0 }

abbrev pub raw_event_of : Job → ℕ → Message → RawEmailEvent
raw_event_of job time message = record {
  scan_run_id = job.run_id;
  user_id = job.user_id;
  mode = job.mode;
  mark_read = job.mark_read;
  published_at = time;
  message = record {
    gmail_message_id = message.id;
    thread_id = message.thread_id;
    from = message.from;
    subject = message.subject;
    body_snippet = message.body_snippet;
  };
}

-- `totalFailed++` on an error, `totalProcessed++` else
abbrev pub counted : Totals → Result (Unit {0}) → Totals
counted totals (ok done) = record totals { processed = totals.processed + 1 }
counted totals (err e) = record totals { failed = totals.failed + 1 }

-- An action whose error ends the walk, beside the totals.
abbrev pub walked : Totals → Result (Unit {0}) × World → Walked Totals
walked totals (r, w) = (r, totals, w)

-- An action whose error is dropped.
abbrev pub world_after {ℓ} : {A : Type ℓ} → Result A × World → World
world_after (r, w) = w

-- "queued", or "queued_with_errors" once a publish failed
unfoldable pub run_status : Totals → String
run_status totals = if ltb 0 totals.failed then "queued_with_errors" else "queued"

module _ (codec : Codec) (env : Env) where
  unfoldable pub publish_message : Job → Message → Exec (Unit {0})
  publish_message job message = do
    time ← now env
    call env (publish_raw_email codec (raw_event_of job time message))

  -- The loop over a batch.
  unfoldable pub publish_batch : Job → List Message → Totals → World → Totals × World
  publish_batch job [] totals w = (totals, w)
  publish_batch job (message ∷ messages) totals w =
      let (r, w') = publish_message job message w in
      publish_batch job messages (counted totals r) w'

  -- The callback: count what is found, publish it, and store the progress.
  unfoldable pub visit : Job → Totals → List Message → World → Walked Totals
  visit job totals batch w =
      let (totals', w') =
        publish_batch job batch (record totals { found = totals.found + length batch }) w in
      walked totals' (call env (update_scan_run_progress job.run_id totals') w')

  unfoldable pub complete : Job → String → Totals → Exec (Unit {0})
  complete job status totals = do
    time ← now env
    call env (complete_scan_run time job.run_id status totals)

  -- What follows the walk; `failRun` ignores its own error, and the other error is only logged.
  abbrev pub finish : Job → Walked Totals → World
  finish job (err e, totals, w) = world_after (complete job "failed" totals w)
  finish job (ok done, totals, w) = world_after (complete job (run_status totals) totals w)

module _ (lib : GoLib) (codec : Codec) (env : Env) (reader : Source) where
  abbrev pub enqueue_from : ℕ → Job → Result Source → World → World
  enqueue_from fuel job (err e) w = world_after (complete codec env job "failed" no_totals w)
  enqueue_from fuel job (ok source) w =
      finish codec env job (iterate_messages (visit codec env job) lib env fuel source no_totals w)

  unfoldable pub enqueue_scan : ℕ → Job → World → World
  enqueue_scan fuel job w =
      enqueue_from fuel job (if job.query == "" then ok reader else with_query reader job.query) w

module _ (env : Env) where
  -- The id of the run, and the job that is spawned.
  unfoldable pub start_scan : String → String → String → Bool → Exec (ℕ × Job)
  start_scan user_id mode query mark_read = do
    time ← now env
    run_id ← call env (create_scan_run time user_id mode "enqueuing")
    pure (
      run_id,
      record {
        run_id = run_id;
        user_id = user_id;
        mode = mode;
        query = query;
        mark_read = mark_read;
      },
    )

  -- The checks of `StartScheduledScans`: `none` if there is nothing to schedule, else the mode.
  unfoldable pub scheduled_mode : ℤ → String → String → Result (Option String)
  scheduled_mode interval user_id mode =
      let mode' = if mode == "" then scan_mode_dry_run else mode in
      if leb_ℤ interval (pos 0)
      then ok none
      else if user_id == ""
      then err (other "scheduled scan user id is required when scheduled scans are enabled")
      else if not (mode' == scan_mode_dry_run) && not (mode' == scan_mode_apply)
      then err (other "scheduled scan mode must be dry_run or apply")
      else ok (some mode')

unfoldable pub processing_status : ScanRun → (String → ℕ) → String
processing_status run counts =
    let processed = counts "dry_run" + counts "classified" + counts "applied" in
    if eqb run.total_processed 0
    then "not_started"
    else if leb run.total_processed processed
    then "complete"
    else "processing"

pub record CreateScanRequest : Type 0 where
  pub mode : String
  pub query : String
  pub mark_read : Bool

pub record CreateScanResponse : Type 0 where
  pub result : String
  pub run_id : ℕ
  pub user_id : String
  pub mode : String
  pub status : String
  pub query : String
  pub mark_read : Bool

pub record StatusCounts : Type 0 where
  pub dry_run : ℕ
  pub classified : ℕ
  pub applied : ℕ

pub record ScanResponse : Type 0 where
  pub run_id : ℕ
  pub user_id : String
  pub mode : String
  pub status : String
  pub processing_status : String
  pub started_at : ℕ
  pub finished_at : Option ℕ
  pub total_found : ℕ
  pub total_processed : ℕ
  pub total_failed : ℕ
  pub email_status : StatusCounts
  pub query : String

-- What `writeJSON` and `writeJSONError` write: the status code and the body.
pub data Response (A : Type 0) : Type 0 where
  reply : ℕ → A → Response A
  json_error : ℕ → String → Response A

-- The request's body: none at all or an empty one, one that cannot be decoded, or a request.
pub data RequestBody : Type 0 where
  empty malformed : RequestBody
  decoded : CreateScanRequest → RequestBody

abbrev pub default_request : CreateScanRequest
default_request = record { mode = ""; query = ""; mark_read = false }

-- `none` is the decoder's error.
abbrev pub read_body : RequestBody → Option CreateScanRequest
read_body empty = some default_request
read_body malformed = none
read_body (decoded req) = some req

abbrev pub created :
    String
    → String
    → CreateScanRequest
    → Result (ℕ × Job) × World
    → (Response CreateScanResponse × Option Job) × World
created user_id mode req (err e, w) = ((json_error 500 "failed to create scan run", none), w)
created user_id mode req (ok (run_id, job), w) = (
  (
    reply 202 (record {
      result = "ok";
      run_id = run_id;
      user_id = user_id;
      mode = mode;
      status = "enqueuing";
      query = req.query;
      mark_read = req.mark_read;
    }),
    some job,
  ),
  w,
)

module _ (env : Env) where
  abbrev pub create_with :
      Principal
      → Option CreateScanRequest
      → World
      → (Response CreateScanResponse × Option Job) × World
  create_with principal none w = ((json_error 400 "invalid request body", none), w)
  create_with principal (some req) w =
      let mode = if req.mode == "" then scan_mode_dry_run else req.mode in
      if not (mode == scan_mode_dry_run) && not (mode == scan_mode_apply)
      then ((json_error 400 "mode must be dry_run or apply", none), w)
      else created principal.user_id mode req
          (start_scan env principal.user_id mode req.query req.mark_read w)

  abbrev pub create_as :
      Option Principal → RequestBody → World → (Response CreateScanResponse × Option Job) × World
  create_as none body w = ((json_error 401 "missing principal", none), w)
  create_as (some principal) body w = create_with principal (read_body body) w

  -- The principal is that of the request's context.
  unfoldable pub create_scan :
      Option Principal → RequestBody → World → (Response CreateScanResponse × Option Job) × World
  create_scan principal body w = create_as principal body w

  abbrev pub scan_response : ScanRun → (String → ℕ) → ScanResponse
  scan_response run counts = record {
    run_id = run.id;
    user_id = run.user_id;
    mode = run.mode;
    status = run.status;
    processing_status = processing_status run counts;
    started_at = run.started_at;
    finished_at = run.finished_at;
    total_found = run.total_found;
    total_processed = run.total_processed;
    total_failed = run.total_failed;
    email_status = record {
      dry_run = counts "dry_run";
      classified = counts "classified";
      applied = counts "applied";
    };
    -- `getScan` does not set it
    query = "";
  }

  abbrev pub with_counts : ScanRun → Result (String → ℕ) × World → Response ScanResponse × World
  with_counts run (err e, w) = (json_error 500 "failed to get scan run counters", w)
  with_counts run (ok counts, w) = (reply 200 (scan_response run counts), w)

  -- `errors.Is(err, storage.ErrScanRunNotFound)`
  abbrev pub run_error : Error → Response ScanResponse
  run_error scan_run_not_found = json_error 404 "scan run not found"
  run_error _ = json_error 500 "failed to get scan run"

  abbrev pub with_run : Principal → ℕ → Result ScanRun × World → Response ScanResponse × World
  with_run principal id (err e, w) = (run_error e, w)
  with_run principal id (ok run, w) =
      if not (principal.role == "admin") && not (run.user_id == principal.user_id)
      then (json_error 403 "scan run is not owned by current user", w)
      else with_counts run (call env (count_email_messages_by_scan_run id) w)

  -- `id` is the path's number as `strconv.ParseInt` reads it, or its error.
  abbrev pub get_by : Principal → Option ℤ → World → Response ScanResponse × World
  get_by principal none w = (json_error 400 "invalid scan id", w)
  get_by principal (some (negsuc n)) w = (json_error 400 "invalid scan id", w)
  get_by principal (some (pos zero)) w = (json_error 400 "invalid scan id", w)
  get_by principal (some (pos (suc n))) w =
      with_run principal (suc n) (call env (get_scan_run (suc n)) w)

  unfoldable pub get_scan : Option Principal → Option ℤ → World → Response ScanResponse × World
  get_scan none id w = (json_error 401 "missing principal", w)
  get_scan (some principal) id w = get_by principal id w
