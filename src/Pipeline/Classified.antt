-- ===== src/Pipeline/Classified.antt =====
-- A scan and then the classifier worker, with no fault.
use email_triage_system.Common.{
  ℕ, ◌≤◌, ◌≡◌, ◌≢◌, ap, subst, subst⁻¹, ◌∙◌, ◌⊎◌, true, Option, some, none, List, [], ◌∷◌, ◌++◌,
  All, All-append, All-tail_append, map,
}
use email_triage_system.Text.{GoLib}
use email_triage_system.Reader.{Message}
use email_triage_system.Reader.Source.{Source, source_mock}
use email_triage_system.Reader.Source.Pages.{EndsWithin}
use email_triage_system.Models.{EmailMessage, ScanRun}
use email_triage_system.Events.{Body, Codec, RoundTrips, RawEmailEvent}
use email_triage_system.World.{Env, World, ok}
use email_triage_system.World.Runs.{FaultFree}
use email_triage_system.Storage.{find_email, has_run}
use email_triage_system.Scans.Enqueue.{source_for}
use email_triage_system.Scans.{Job, raw_event_of, enqueue_scan}
use email_triage_system.Scans.Complete.{Matches}
use email_triage_system.Scans.Complete.Listing.{messages_of}
use email_triage_system.Scans.Complete.Whole.{enqueue_scan-IsWhole}
use email_triage_system.Consumer.Run.{delivery, stopped, returned, run}
use email_triage_system.Consumer.Run.Drained.{IsKnown, IsStored, run_drains}

module _ (codec : Codec) (trips : RoundTrips codec) (job : Job) where
  Matches-IsKnown :
      (runs : List ScanRun) (messages : List Message) (bodies : List Body)
      → has_run (some job.run_id) runs ≡ true
      → Matches codec job messages bodies
      → All (λ b. IsKnown runs (codec.unmarshal_raw b)) bodies
  Matches-IsKnown runs [] [] known h = tt
  Matches-IsKnown runs [] (b ∷ bodies) known h = absurd h
  Matches-IsKnown runs (m ∷ messages) [] known h = absurd h
  Matches-IsKnown runs (m ∷ messages) (b ∷ bodies) known ((time, e), h) = (
    subst⁻¹ (IsKnown runs) (ap codec.unmarshal_raw e ∙ trips.raw (raw_event_of job time m)) known,
    Matches-IsKnown runs messages bodies known h,
  )

  Matches-IsStored :
      (rows : List EmailMessage) (messages : List Message) (bodies : List Body)
      → Matches codec job messages bodies
      → All (λ b. IsStored rows (codec.unmarshal_raw b)) bodies
      → All (λ (m : Message). find_email job.user_id m.id rows ≢ none) messages
  Matches-IsStored rows [] bodies h stored = tt
  Matches-IsStored rows (m ∷ messages) [] h stored = absurd h
  Matches-IsStored rows (m ∷ messages) (b ∷ bodies) ((time, e), h) stored = (
    subst (IsStored rows) (ap codec.unmarshal_raw e ∙ trips.raw (raw_event_of job time m)) stored.0,
    Matches-IsStored rows messages bodies h stored.1,
  )

still-IsKnown :
    (codec : Codec) (before after : List ScanRun) (queue : List Body)
    → ((o : Option ℕ) → has_run o after ≡ has_run o before)
    → All (λ b. IsKnown before (codec.unmarshal_raw b)) queue
    → All (λ b. IsKnown after (codec.unmarshal_raw b)) queue
still-IsKnown codec before after [] same h = tt
still-IsKnown codec before after (b ∷ queue) same h =
    (known (codec.unmarshal_raw b) h.0, still-IsKnown codec before after queue same h.1)
  where
    known : (read : Option RawEmailEvent) → IsKnown before read → IsKnown after read
    known none k = tt
    known (some event) k = same (some event.scan_run_id) ∙ k

-- With no fault and an encoding that round-trips: after a scan of a source that is the mock or has
-- at most `k` pages, with fuel for them and a stored run, the classifier worker's `Run` over all
-- that the raw queue then holds returns `nil` with the raw queue empty, and every message that the
-- source lists has a row in `email_messages` for the scan's user, if what waited on the queue
-- before were no events or events of stored runs.
pub scan_classified :
    (lib : GoLib) (codec : Codec) (env : Env) (reader source : Source) (k fuel : ℕ) (job : Job)
    (w : World)
    → FaultFree env
    → RoundTrips codec
    → source_for reader job ≡ ok source
    → (source.source ≡ source_mock) ⊎ EndsWithin env source k ""
    → k ≤ fuel
    → has_run (some job.run_id) w.state.db.scan_runs ≡ true
    → All (λ b. IsKnown w.state.db.scan_runs (codec.unmarshal_raw b)) w.state.raw_queue
    → let u = enqueue_scan lib codec env reader fuel job w in
      (v : World) × (run lib codec env (ok tt) (map delivery u.state.raw_queue ++ stopped ∷ []) u
        ≡ (returned (ok tt), v))
      × (v.state.raw_queue ≡ [])
      × All
          (λ (m : Message). find_email job.user_id m.id v.state.db.email_messages ≢ none)
          (messages_of lib env source k)
scan_classified lib codec env reader source k fuel job w free trips from ends le known waiting =
    let u = enqueue_scan lib codec env reader fuel job w in
    let whole =
      enqueue_scan-IsWhole lib codec env reader source k fuel job w free from ends le known in
    let there : has_run (some job.run_id) u.state.db.scan_runs ≡ true =
      whole.runs (some job.run_id) ∙ known in
    let both : All (λ b. IsKnown u.state.db.scan_runs (codec.unmarshal_raw b))
        (w.state.raw_queue ++ whole.bodies) =
      All-append (λ b. IsKnown u.state.db.scan_runs (codec.unmarshal_raw b)) w.state.raw_queue
        whole.bodies
        (still-IsKnown codec w.state.db.scan_runs u.state.db.scan_runs w.state.raw_queue whole.runs
          waiting)
        (Matches-IsKnown codec trips job u.state.db.scan_runs (messages_of lib env source k)
          whole.bodies there whole.events) in
    let (v, e, empty, stored, keeps) = run_drains lib codec env u free (
      subst⁻¹ (All (λ b. IsKnown u.state.db.scan_runs (codec.unmarshal_raw b))) whole.queue both) in
    let rows = v.state.db.email_messages in
    let all : All (λ b. IsStored rows (codec.unmarshal_raw b)) (w.state.raw_queue ++ whole.bodies) =
      subst (All (λ b. IsStored rows (codec.unmarshal_raw b))) whole.queue stored in
    (
      v,
      e,
      empty,
      Matches-IsStored codec trips job rows (messages_of lib env source k) whole.bodies whole.events
          (All-tail_append (λ b. IsStored rows (codec.unmarshal_raw b)) w.state.raw_queue
            whole.bodies all),
    )
