-- ===== src/Scans/Complete.antt =====
-- A scan in an environment with no faults: the enqueuing of all the messages that its source lists.
pub mod Listing
pub mod Whole
use mathlib.Core.List.{append-nil, append_assoc}
use email_triage_system.Common.{
  ℕ, zero, suc, ◌+◌, ◌≤◌, String, ◌≡◌, ◌≢◌, refl, sym, ap, subst, subst⁻¹, ◌∙◌, Bool, true, false,
  not, ◌||◌, Option, none, some, Option-cases, ◌⊎◌, inl, inr, List, [], ◌∷◌, ◌++◌, All, length,
  length-append, arith, eqb, ltb, ◌==◌, eq_iff, if◌then◌else◌, Bool-cases,
}
use email_triage_system.Text.{GoLib}
use email_triage_system.Reader.{Message}
use email_triage_system.Reader.Source.{
  Source, Walked, source_mock, mock_messages, to_messages, visit_batch, next_page, on_page,
  iterate_pages, iterate_messages,
}
use email_triage_system.Reader.Source.Walk.{list_messages_page-Keeps}
use email_triage_system.Reader.Source.Pages.{page_at, is_last, EndsWithin, iterate_pages-enough}
use email_triage_system.Reader.Source.Pages.Complete.{
  listed, pages_items, list_messages_page-listed, to_messages-append,
}
use email_triage_system.Gmail
use email_triage_system.Gmail.{list_messages_page}
use email_triage_system.Models.{ScanRun}
use email_triage_system.Events.{Body, Codec}
use email_triage_system.World.{Env, State, World, Result, ok, err, call, now, tick, ◌>>=◌}
use email_triage_system.World.Runs.{FaultFree, call_ok, bind_ok}
use email_triage_system.Storage.{
  with_db, Totals, with_totals, update_runs, find_run, has_run, update_scan_run_progress,
  complete_scan_run,
}
use email_triage_system.Broker.{publish_raw_email}
use email_triage_system.Scans.{
  Job, no_totals, raw_event_of, counted, walked, run_status, publish_message, publish_batch, visit,
  complete, world_after, finish, enqueue_scan,
}

-- One event of the job for each message, in order, at some time.
abbrev pub Matches : Codec → Job → List Message → List Body → Type 0
Matches codec job [] [] = Unit
Matches codec job [] (b ∷ bodies) = ⊥
Matches codec job (m ∷ messages) [] = ⊥
Matches codec job (m ∷ messages) (b ∷ bodies) =
    ((time : ℕ) × (b ≡ codec.marshal_raw (raw_event_of job time m)))
    × Matches codec job messages bodies

Matches-append :
    (codec : Codec) (job : Job) (ms ns : List Message) (bs cs : List Body)
    → Matches codec job ms bs
    → Matches codec job ns cs
    → Matches codec job (ms ++ ns) (bs ++ cs)
Matches-append codec job [] ns [] cs h k = k
Matches-append codec job [] ns (b ∷ bs) cs h k = absurd h
Matches-append codec job (m ∷ ms) ns [] cs h k = absurd h
Matches-append codec job (m ∷ ms) ns (b ∷ bs) cs h k =
    (h.0, Matches-append codec job ms ns bs cs h.1 k)

pub has_run-update_runs :
    (f : ScanRun → ScanRun) (id : ℕ) (o : Option ℕ) (runs : List ScanRun)
    → ((r : ScanRun) → (f r).id ≡ r.id)
    → has_run o (update_runs f id runs) ≡ has_run o runs
unfolding has_run find_run update_runs
has_run-update_runs f id none runs same = refl
has_run-update_runs f id (some k) [] same = refl
has_run-update_runs f id (some k) (r ∷ runs) same =
    ground (arith, has_run-update_runs f id (some k) runs same, same r)

-- What the enqueuing of these messages has done so far to the services that it found in state
-- `before`.
pub record Enqueued (codec : Codec) (job : Job) (before : State) (seen : List Message)
    (totals : Totals) (s : State) : Type 0 where
  pub bodies : List Body
  pub queue : s.raw_queue ≡ before.raw_queue ++ bodies
  pub events : Matches codec job seen bodies
  pub found : totals.found ≡ length seen
  pub processed : totals.processed ≡ length seen
  pub failed : totals.failed ≡ 0
  pub runs : (o : Option ℕ) → has_run o s.db.scan_runs ≡ has_run o before.db.scan_runs
  pub emails : s.db.email_messages ≡ before.db.email_messages

module _ (codec : Codec) (env : Env) (free : FaultFree env) (job : Job) where
  publish_message_ok :
      (m : Message) (w : World)
      → (time : ℕ) × (v : World) × (publish_message codec env job m w ≡ (ok tt, v))
        × (v.state ≡ record w.state {
          raw_queue = w.state.raw_queue ++ codec.marshal_raw (raw_event_of job time m) ∷ [];
        })
  unfolding publish_message publish_raw_email now
  publish_message_ok m w = (
    env.clock w.calls,
    _,
    bind_ok (now env) _ w (env.clock w.calls) (tick w) refl
        ∙ call_ok env (publish_raw_email codec (raw_event_of job (env.clock w.calls) m)) (tick w) tt
            _ free refl,
    refl,
  )

  publish_batch_ok :
      (batch : List Message) (totals : Totals) (w : World)
      → (bodies : List Body) × (v : World) × (publish_batch codec env job batch totals w
          ≡ (record totals { processed = totals.processed + length batch }, v))
        × Matches codec job batch bodies
        × (v.state ≡ record w.state { raw_queue = w.state.raw_queue ++ bodies })
  unfolding publish_batch
  publish_batch_ok [] totals w = (
    [],
    w,
    ap (λ n. (record totals { processed = n }, w)) (omega arith),
    tt,
    ap (λ q. record w.state { raw_queue = q }) (sym (append-nil w.state.raw_queue)),
  )
  publish_batch_ok (m ∷ batch) totals w =
      let (time, v, e, same) = publish_message_ok m w in
      let (bodies, last, rest, events, after) =
        publish_batch_ok batch (record totals { processed = totals.processed + 1 }) v in
      let body : Body = codec.marshal_raw (raw_event_of job time m) in
      let join : v.state.raw_queue ++ bodies ≡ w.state.raw_queue ++ (body ∷ bodies) =
        ap (λ (t : State). t.raw_queue ++ bodies) same
        ∙ append_assoc w.state.raw_queue (body ∷ []) bodies in
      (
        body ∷ bodies,
        last,
        ap
              (λ (x : Result (Unit {0}) × World).
                publish_batch codec env job batch (counted totals x.0) x.1)
              e
            ∙ rest
            ∙ ap (λ n. (record totals { processed = n }, last)) (omega arith),
        ((time, refl), events),
        after
            ∙ ap (λ q. record v.state { raw_queue = q }) join
            ∙ ap (λ (t : State). record t { raw_queue = w.state.raw_queue ++ (body ∷ bodies) })
                same,
      )

  pub visit_ok :
      (before : State) (seen batch : List Message) (totals : Totals) (w : World)
      → Enqueued codec job before seen totals w.state
      → (after : Totals) × (v : World) × (visit codec env job totals batch w ≡ (ok tt, after, v))
        × Enqueued codec job before (seen ++ batch) after v.state
  unfolding visit
  visit_ok before seen batch totals w h =
      let begun : Totals = record totals { found = totals.found + length batch } in
      let (bodies, v, e, events, same) = publish_batch_ok batch begun w in
      let after : Totals = record begun { processed = totals.processed + length batch } in
      let stored : World = record {
        state = with_db v.state (record v.state.db {
          scan_runs = update_runs (with_totals after) job.run_id v.state.db.scan_runs;
        });
        calls = v.calls + 1;
      } in
      let progress : call env (update_scan_run_progress job.run_id after) v ≡ (ok tt, stored) =
        call_ok env (update_scan_run_progress job.run_id after) v tt _ free
          (unfold update_scan_run_progress in refl) in
      (
        after,
        stored,
        ap
              (λ (x : Totals × World).
                walked x.0 (call env (update_scan_run_progress job.run_id x.0) x.1))
              e
            ∙ ap (walked after) progress,
        record {
          bodies = h.bodies ++ bodies;
          queue =
              ap (λ (t : State). t.raw_queue) same
              ∙ ap (λ q. q ++ bodies) h.queue
              ∙ append_assoc before.raw_queue h.bodies bodies;
          events = Matches-append codec job seen batch h.bodies bodies h.events events;
          found = omega (arith, h.found, length-append seen batch);
          processed = omega (arith, h.processed, length-append seen batch);
          failed = h.failed;
          runs = λ o.
              has_run-update_runs (with_totals after) job.run_id o v.state.db.scan_runs (λ r. refl)
              ∙ ap (λ (t : State). has_run o t.db.scan_runs) same
              ∙ h.runs o;
          emails = ap (λ (t : State). t.db.email_messages) same ∙ h.emails;
        },
      )
