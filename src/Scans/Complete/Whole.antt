-- ===== src/Scans/Complete/Whole.antt =====
-- A whole scan with no fault.
use mathlib.Core.List.{append-nil}
use email_triage_system.Common.{
  ℕ, ◌≤◌, String, ◌≡◌, refl, sym, ap, ◌∙◌, true, Option, some, ◌⊎◌, inl, inr, List, [], ◌∷◌, ◌++◌,
  length, arith, eqb, Bool-cases,
}
use email_triage_system.Text.{GoLib}
use email_triage_system.Reader.{Message}
use email_triage_system.Reader.Source.{Source, source_mock}
use email_triage_system.Reader.Source.Pages.{EndsWithin}
use email_triage_system.Models.{ScanRun}
use email_triage_system.Events.{Body, Codec}
use email_triage_system.World.{Env, State, World, Result, ok, now, tick}
use email_triage_system.World.Runs.{FaultFree, call_ok, bind_ok}
use email_triage_system.Storage.{
  with_db, Totals, with_totals, update_runs, find_run, has_run, complete_scan_run,
}
use email_triage_system.Scans.Enqueue.{source_for}
use email_triage_system.Scans.{
  Job, no_totals, run_status, complete, world_after, finish, enqueue_from, enqueue_scan,
}
use email_triage_system.Scans.Complete.{Matches, Enqueued, has_run-update_runs}
use email_triage_system.Scans.Complete.Listing.{messages_of, iterate_messages_ok}

find_run-update_runs :
    (f : ScanRun → ScanRun) (id : ℕ) (runs : List ScanRun)
    → ((r : ScanRun) → (f r).id ≡ r.id)
    → has_run (some id) runs ≡ true
    → (r : ScanRun) × (find_run id (update_runs f id runs) ≡ some (f r))
unfolding has_run find_run update_runs
find_run-update_runs f id [] same h = cc
find_run-update_runs f id (r ∷ runs) same h = elim (Bool-cases (eqb r.id id)) [
  | inl here ↦
      let there : eqb (f r).id id ≡ true = ground (arith, same r) in rw here (r, rw there refl)
  | inr other ↦
      let (q, e) = find_run-update_runs f id runs same (ground arith) in rw other (q, rw other e)
]

module _ (codec : Codec) (env : Env) (free : FaultFree env) (job : Job) where
  complete_ok :
      (status : String) (totals : Totals) (w : World)
      → (time : ℕ) × (world_after (complete codec env job status totals w)).state
          ≡ with_db w.state (record w.state.db {
            scan_runs =
                update_runs
                  (λ run. record (with_totals totals run) {
                    status = status;
                    finished_at = some time;
                  })
                  job.run_id
                  w.state.db.scan_runs;
          })
  unfolding complete complete_scan_run now
  complete_ok status totals w = (
    env.clock w.calls,
    ap (λ (x : Result (Unit {0}) × World). x.1.state)
        (bind_ok (now env) _ w (env.clock w.calls) (tick w) refl
          ∙ call_ok env (complete_scan_run (env.clock w.calls) job.run_id status totals) (tick w) tt
              _ free refl),
  )

-- The services after a scan of these messages: one more event of the job on the raw queue for each
-- of them in order, behind what waited there; the run is queued with all of them found and
-- processed; the stored runs are those that were there, and the stored emails are the same.
pub record IsWhole (codec : Codec) (job : Job) (messages : List Message) (before s : State)
    : Type 0 where
  pub bodies : List Body
  pub queue : s.raw_queue ≡ before.raw_queue ++ bodies
  pub events : Matches codec job messages bodies
  pub scan_run : ScanRun
  pub stored : find_run job.run_id s.db.scan_runs ≡ some scan_run
  pub status : scan_run.status ≡ "queued"
  pub found : scan_run.total_found ≡ length messages
  pub processed : scan_run.total_processed ≡ length messages
  pub failed : scan_run.total_failed ≡ 0
  pub runs : (o : Option ℕ) → has_run o s.db.scan_runs ≡ has_run o before.db.scan_runs
  pub emails : s.db.email_messages ≡ before.db.email_messages

Enqueued-none : (codec : Codec) (job : Job) (s : State) → Enqueued codec job s [] no_totals s
Enqueued-none codec job s = record {
  bodies = [];
  queue = sym (append-nil s.raw_queue);
  events = tt;
  found = refl;
  processed = refl;
  failed = refl;
  runs = λ o. refl;
  emails = refl;
}

-- With no fault: if the source of the job is the mock or has at most `k` pages, the fuel is for
-- `k` pages or more, and the run is stored, the enqueuing of the scan publishes one event for
-- every message that the source lists, in order, and leaves the run queued with all of them found
-- and processed and none failed.
pub enqueue_scan-IsWhole :
    (lib : GoLib) (codec : Codec) (env : Env) (reader source : Source) (k fuel : ℕ) (job : Job)
    (w : World)
    → FaultFree env
    → source_for reader job ≡ ok source
    → (source.source ≡ source_mock) ⊎ EndsWithin env source k ""
    → k ≤ fuel
    → has_run (some job.run_id) w.state.db.scan_runs ≡ true
    → IsWhole codec job
        (messages_of lib env source k)
        w.state
        (enqueue_scan lib codec env reader fuel job w).state
unfolding enqueue_scan run_status
enqueue_scan-IsWhole lib codec env reader source k fuel job w free from ends le known =
    let (totals, v, walk, done) =
      iterate_messages_ok codec env free job lib source w.state k fuel w ends le
        (Enqueued-none codec job w.state) in
    let f : ℕ → ScanRun → ScanRun =
      λ time run. record (with_totals totals run) { status = "queued"; finished_at = some time } in
    let queued : run_status totals ≡ "queued" = rw done.failed refl in
    let (time, completed) = complete_ok codec env free job "queued" totals v in
    let same =
      ap (λ r. (enqueue_from lib codec env reader fuel job r w).state) from
      ∙ ap (λ r. (finish codec env job r).state) walk
      ∙ ap (λ status. (world_after (complete codec env job status totals v)).state) queued
      ∙ completed in
    let there : has_run (some job.run_id) v.state.db.scan_runs ≡ true =
      done.runs (some job.run_id) ∙ known in
    let (run, found) =
      find_run-update_runs (f time) job.run_id v.state.db.scan_runs (λ r. refl) there in
    record {
      bodies = done.bodies;
      queue = ap (λ (s : State). s.raw_queue) same ∙ done.queue;
      events = done.events;
      scan_run = f time run;
      stored = ap (λ (s : State). find_run job.run_id s.db.scan_runs) same ∙ found;
      status = refl;
      found = done.found;
      processed = done.processed;
      failed = done.failed;
      runs = λ o.
          ap (λ (s : State). has_run o s.db.scan_runs) same
          ∙ has_run-update_runs (f time) job.run_id o v.state.db.scan_runs (λ r. refl)
          ∙ done.runs o;
      emails = ap (λ (s : State). s.db.email_messages) same ∙ done.emails;
    }
