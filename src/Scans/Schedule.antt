-- ===== src/Scans/Schedule.antt =====
-- internal/api/scans.go: `StartScheduledScans`. What its goroutine waits for is a sequence of
-- events; what other goroutines do between two ticks is a function on the world.
pub mod Jobs
use email_triage_system.Common.{
  ℕ, zero, suc, ◌+◌, String, ◌≡◌, ◌≢◌, refl, ap, subst, ◌∙◌, ◌⊎◌, inl, inr, Bool, true, false, not,
  ◌&&◌, Option, none, some, List, [], ◌∷◌, ◌++◌, All, All-append, length, length-append, arith,
  ◌==◌, eq_iff, if◌then◌else◌, Bool-cases,
}
use email_triage_system.Common.Int.{ℤ, pos, leb_ℤ, ◌<ℤ◌}
use email_triage_system.World.{
  Env, Error, State, World, Result, ok, err, continue, pure, call, now, tick, ◌>>=◌,
}
use email_triage_system.World.Runs.{FaultFree, call_ok, bind_ok}
use email_triage_system.Storage.{create_scan_run}
use email_triage_system.Scans.{Job, start_scan, scheduled_mode, scan_mode_dry_run, scan_mode_apply}

-- `ctx.Done()`, `ticker.C`, or the turn of others.
pub data Event : Type 0 where
  stopped ticked : Event
  meanwhile : (World → World) → Event

-- An error is only logged.
abbrev pub spawned : Result (ℕ × Job) → List Job
spawned (err e) = []
spawned (ok (id, job)) = job ∷ []

module _ (env : Env) (user_id mode query : String) (mark_read : Bool) where
  -- The jobs that are spawned, and the world in the end.
  unfoldable pub schedule : List Event → World → List Job × World
  schedule [] w = ([], w)
  schedule (stopped ∷ events) w = ([], w)
  schedule (meanwhile turn ∷ events) w = schedule events (turn w)
  schedule (ticked ∷ events) w =
      let (r, v) = start_scan env user_id mode query mark_read w in
      let (jobs, last) = schedule events v in (spawned r ++ jobs, last)

module _ (env : Env) (user_id query : String) (mark_read : Bool) where
  abbrev pub schedule_in :
      Result (Option String) → List Event → World → Result (Unit {0}) × List Job × World
  schedule_in (err e) events w = (err e, [], w)
  schedule_in (ok none) events w = (ok tt, [], w)
  schedule_in (ok (some mode)) events w =
      let (jobs, last) = schedule env user_id mode query mark_read events w in (ok tt, jobs, last)

  unfoldable pub start_scheduled_scans :
      ℤ → String → List Event → World → Result (Unit {0}) × List Job × World
  start_scheduled_scans interval mode events w =
      schedule_in (scheduled_mode env interval user_id mode) events w
