-- ===== src/Scans/Enqueue.antt =====
-- Invariants of the enqueuing of a scan: of its totals, and of what it does to the services.
use email_triage_system.Common.{
  All, All-map, ◌≢◌, ◌⊎◌, inl, inr, Bool-cases, eq_iff, ◌==◌, if◌then◌else◌, ℕ, suc, ◌+◌, String,
  ◌≡◌, refl, List, [], ◌∷◌, arith, length,
}
use email_triage_system.Common.Int.{pos, leb_ℤ}
use email_triage_system.Text.{GoLib}
use email_triage_system.Reader.{Message}
use email_triage_system.Reader.Source.{with_query, new_source, Source, Walked}
use email_triage_system.Reader.Source.Listed.{IsListed}
use email_triage_system.Reader.Source.Walk.{iterate_messages-keeps}
use email_triage_system.Events.{Codec}
use email_triage_system.World.{Env, State, World, Result, ok, err}
use email_triage_system.World.Keeps.{Keeps, OpKeeps, Keeps-call, Keeps-bind, Keeps-now}
use email_triage_system.Storage.{Totals, complete_scan_run, update_scan_run_progress}
use email_triage_system.Broker.{publish_raw_email}
use email_triage_system.Scans.{
  Job, no_totals, raw_event_of, counted, run_status, publish_message, publish_batch, visit,
  complete, finish, enqueue_from, enqueue_scan,
}

-- Every message that was found was published or failed.
abbrev pub Balanced : Totals → Type 0
Balanced totals = totals.found ≡ totals.processed + totals.failed

-- A batch of `n` more messages is being counted.
abbrev Pending : ℕ → Totals → Type 0
Pending n totals = totals.found ≡ totals.processed + totals.failed + n

counted-Pending :
    (n : ℕ) (totals : Totals) (r : Result (Unit {0}))
    → Pending (suc n) totals
    → Pending n (counted totals r)
counted-Pending n totals (ok done) h = omega arith
counted-Pending n totals (err e) h = omega arith

publish_batch-Balanced :
    (codec : Codec) (env : Env) (job : Job) (batch : List Message) (totals : Totals) (w : World)
    → Pending (length batch) totals
    → Balanced (publish_batch codec env job batch totals w).0
unfolding publish_batch
publish_batch-Balanced codec env job [] totals w h = omega arith
publish_batch-Balanced codec env job (message ∷ batch) totals w h =
    let (r, w') = publish_message codec env job message w in
    publish_batch-Balanced codec env job batch (counted totals r) w'
      (counted-Pending (length batch) totals r h)

-- The source of the job: the reader, or the reader with the job's query.
abbrev pub source_for : Source → Job → Result Source
source_for reader job = if job.query == "" then ok reader else with_query reader job.query

-- What that source is, with the default for the size of its pages.
abbrev pub IsSourceOf : Source → Job → Source → Type 0
IsSourceOf reader job source =
    ((job.query ≡ "") × (source ≡ reader))
    ⊎ ((job.query ≢ "")
        × (source ≡ record reader {
          max_results = if leb_ℤ reader.max_results (pos 0) then pos 20 else reader.max_results;
          query = job.query;
        }))

with_query-ok :
    (reader source : Source) (query : String)
    → with_query reader query ≡ ok source
    → source ≡ record reader {
      max_results = if leb_ℤ reader.max_results (pos 0) then pos 20 else reader.max_results;
      query = query;
    }
unfolding with_query new_source
with_query-ok reader source query h = ground arith

source_for-IsSourceOf :
    (reader source : Source) (job : Job)
    → source_for reader job ≡ ok source
    → IsSourceOf reader job source
source_for-IsSourceOf reader source job h = elim (Bool-cases (job.query == "")) [
  | inl unset ↦ inl ((eq_iff job.query "").0 unset, cc (rw unset at h))
  | inr set ↦
      inr (ground (arith, eq_iff job.query ""), with_query-ok reader source job.query (rw set at h))
]

-- A message that the job's source can list.
abbrev pub CanList : Env → Source → Job → Message → Type 0
CanList env reader job message =
    (source : Source) × (source_for reader job ≡ ok source)
    × IsSourceOf reader job source
    × IsListed env source message

module _ (codec : Codec) (env : Env) (reader : Source) (job : Job) (P : State → Type 0)
    (published : (time : ℕ) (message : Message)
      → CanList env reader job message
      → OpKeeps P (publish_raw_email codec (raw_event_of job time message)))
    (progressed : (totals : Totals)
      → Balanced totals
      → OpKeeps P (update_scan_run_progress job.run_id totals))
    (completed : (time : ℕ) (status : String) (totals : Totals)
      → Balanced totals
      → OpKeeps P (complete_scan_run time job.run_id status totals)) where
  publish_message-Keeps :
      (message : Message)
      → CanList env reader job message
      → Keeps P (publish_message codec env job message)
  unfolding publish_message
  publish_message-Keeps message listed =
      Keeps-bind _ _ (Keeps-now env) (λ time. Keeps-call env _ (published time message listed))

  publish_batch-keeps :
      (batch : List Message) (totals : Totals) (w : World)
      → All (CanList env reader job) batch
      → P w.state
      → P (publish_batch codec env job batch totals w).1.state
  unfolding publish_batch
  publish_batch-keeps [] totals w l p = p
  publish_batch-keeps (message ∷ batch) totals w (listed, l) p =
      let (r, w') = publish_message codec env job message w in
      publish_batch-keeps batch (counted totals r) w' l
        ((publish_message-Keeps message listed).after w p)

  visit-keeps :
      (totals : Totals) (batch : List Message) (w : World)
      → All (CanList env reader job) batch
      → Balanced totals
      → P w.state
      → Balanced (visit codec env job totals batch w).1
        × P (visit codec env job totals batch w).2.state
  unfolding visit
  visit-keeps totals batch w l b p =
      let start : Totals = record totals { found = totals.found + length batch } in
      let balanced : Balanced (publish_batch codec env job batch start w).0 =
        publish_batch-Balanced codec env job batch start w (omega arith) in
      let (totals', w') = publish_batch codec env job batch start w in
      (
        balanced,
        (Keeps-call env _ (progressed totals' balanced)).after w'
            (publish_batch-keeps batch start w l p),
      )

  complete-Keeps :
      (status : String) (totals : Totals)
      → Balanced totals
      → Keeps P (complete codec env job status totals)
  unfolding complete
  complete-Keeps status totals b =
      Keeps-bind _ _ (Keeps-now env) (λ time. Keeps-call env _ (completed time status totals b))

  finish-keeps : (r : Walked Totals) → Balanced r.1 → P r.2.state → P (finish codec env job r).state
  finish-keeps (err e, totals, w) b p = (complete-Keeps "failed" totals b).after w p
  finish-keeps (ok done, totals, w) b p = (complete-Keeps (run_status totals) totals b).after w p

  enqueue_from-keeps :
      (lib : GoLib) (fuel : ℕ) (source : Result Source) (w : World)
      → source_for reader job ≡ source
      → P w.state
      → P (enqueue_from lib codec env reader fuel job source w).state
  enqueue_from-keeps lib fuel (err e) w from p = (complete-Keeps "failed" no_totals refl).after w p
  enqueue_from-keeps lib fuel (ok source) w from p =
      let (b, p') =
        iterate_messages-keeps (visit codec env job) Balanced P lib env source
          (λ totals batch v l. visit-keeps totals batch v (
            All-map (λ message m. (source, from, source_for-IsSourceOf reader source job from, m))
              batch l))
          fuel no_totals w refl p in
      finish-keeps _ b p'

  -- A property that is kept by the publishing of the job's events for messages that its source can
  -- list, and by every write of totals that balance to the job's run, holds after the scan whatever
  -- fails.
  pub enqueue_scan-keeps :
      (lib : GoLib) (fuel : ℕ) (w : World)
      → P w.state
      → P (enqueue_scan lib codec env reader fuel job w).state
  unfolding enqueue_scan
  enqueue_scan-keeps lib fuel w p = enqueue_from-keeps lib fuel _ w refl p
