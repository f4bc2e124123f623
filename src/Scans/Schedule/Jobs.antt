-- ===== src/Scans/Schedule/Jobs.antt =====
-- The jobs of the scheduled scans.
use email_triage_system.Common.{
  ℕ, suc, String, ◌≡◌, ◌≢◌, refl, ap, subst, ◌⊎◌, inl, inr, Bool, false, not, ◌&&◌, Option, none,
  some, List, [], ◌∷◌, All, All-append, length, length-append, arith, ◌==◌, eq_iff, if◌then◌else◌,
  Bool-cases,
}
use email_triage_system.Common.Int.{ℤ, pos, leb_ℤ, ◌<ℤ◌}
use email_triage_system.World.{Env, World, Result, ok, err, continue, pure, now, tick, ◌>>=◌}
use email_triage_system.World.Runs.{FaultFree, call_ok}
use email_triage_system.Storage.{create_scan_run}
use email_triage_system.Scans.{Job, start_scan, scheduled_mode, scan_mode_dry_run, scan_mode_apply}
use email_triage_system.Scans.Schedule.{
  Event, stopped, ticked, meanwhile, spawned, schedule, schedule_in, start_scheduled_scans,
}

-- A job of the user, in a mode, as the settings say.
pub record IsScheduled (user_id mode query : String) (mark_read : Bool) (job : Job) : Type 0 where
  pub user : job.user_id ≡ user_id
  pub in_mode : job.mode ≡ mode
  pub asked : job.query ≡ query
  pub marks : job.mark_read ≡ mark_read

-- The mode that is meant, if the settings may be scheduled: a positive interval, a user, and one
-- of the two modes.
pub record MaySchedule (interval : ℤ) (user_id setting mode : String) : Type 0 where
  pub interval_low : pos 0 <ℤ interval
  pub user : user_id ≢ ""
  pub known : (mode ≡ "dry_run") ⊎ (mode ≡ "apply")
  pub meant : (setting ≡ mode) ⊎ ((setting ≡ "") × (mode ≡ "dry_run"))

-- The ticks before the first stop.
abbrev pub ticks : List Event → ℕ
ticks [] = 0
ticks (stopped ∷ events) = 0
ticks (ticked ∷ events) = suc (ticks events)
ticks (meanwhile turn ∷ events) = ticks events

abbrev mode_or_default : String → String
mode_or_default setting = if setting == "" then scan_mode_dry_run else setting

mode_or_default_lem :
    (setting : String)
    → (setting ≡ mode_or_default setting) ⊎ ((setting ≡ "") × (mode_or_default setting ≡ "dry_run"))
mode_or_default_lem setting = elim (Bool-cases (setting == "")) [
  | inl empty ↦ rw empty (inr ((eq_iff setting "").0 empty, refl))
  | inr there ↦ rw there (inl refl)
]

known_mode :
    (mode : String)
    → (not (mode == scan_mode_dry_run) && not (mode == scan_mode_apply)) ≡ false
    → (mode ≡ "dry_run") ⊎ (mode ≡ "apply")
known_mode mode h = elim (Bool-cases (mode == scan_mode_dry_run)) [
  | inl dry ↦ inl ((eq_iff mode scan_mode_dry_run).0 dry)
  | inr other ↦ inr ((eq_iff mode scan_mode_apply).0 (ground arith))
]

scheduled_mode-MaySchedule :
    (env : Env) (interval : ℤ) (user_id setting mode : String)
    → scheduled_mode env interval user_id setting ≡ ok (some mode)
    → MaySchedule interval user_id setting mode
unfolding scheduled_mode
scheduled_mode-MaySchedule env interval user_id setting mode h =
    elim (Bool-cases (leb_ℤ interval (pos 0))) [
      | inl never ↦ cc (rw never at h)
      | inr often ↦ elim (Bool-cases (user_id == "")) [
        | inl nobody ↦ cc (rw (often, nobody) at h)
        | inr somebody ↦
            elim (Bool-cases (
              not (mode_or_default setting == scan_mode_dry_run)
              && not (mode_or_default setting == scan_mode_apply))) [
                | inl unknown ↦ cc (rw (often, somebody, unknown) at h)
                | inr good ↦
                    let same : mode_or_default setting ≡ mode =
                      cc (rw (often, somebody, good) at h) in
                    record {
                      interval_low = ground arith;
                      user = λ e. ground (arith, eq_iff user_id "");
                      known =
                          subst (λ m. (m ≡ "dry_run") ⊎ (m ≡ "apply")) same
                            (known_mode (mode_or_default setting) good);
                      meant =
                          subst (λ m. (setting ≡ m) ⊎ ((setting ≡ "") × (m ≡ "dry_run"))) same
                            (mode_or_default_lem setting);
                    }
              ]
      ]
    ]

module _ (env : Env) (user_id mode query : String) (mark_read : Bool) where
  abbrev numbered : ℕ → Job
  numbered id = record {
    run_id = id;
    user_id = user_id;
    mode = mode;
    query = query;
    mark_read = mark_read;
  }

  continue-IsScheduled :
      (r : Result ℕ × World)
      → All
          (IsScheduled user_id mode query mark_read)
          (spawned (continue r (λ id. pure (id, numbered id))).0)
  continue-IsScheduled (err e, w) = tt
  continue-IsScheduled (ok id, w) =
      (record { user = refl; in_mode = refl; asked = refl; marks = refl }, tt)

  start_scan-IsScheduled :
      (w : World)
      → All
          (IsScheduled user_id mode query mark_read)
          (spawned (start_scan env user_id mode query mark_read w).0)
  unfolding start_scan ◌>>=◌ now
  start_scan-IsScheduled w = continue-IsScheduled _

  schedule-IsScheduled :
      (events : List Event) (w : World)
      → All
          (IsScheduled user_id mode query mark_read)
          (schedule env user_id mode query mark_read events w).0
  unfolding schedule
  schedule-IsScheduled [] w = tt
  schedule-IsScheduled (stopped ∷ events) w = tt
  schedule-IsScheduled (meanwhile turn ∷ events) w = schedule-IsScheduled events (turn w)
  schedule-IsScheduled (ticked ∷ events) w =
      All-append (IsScheduled user_id mode query mark_read)
        (spawned (start_scan env user_id mode query mark_read w).0) _ (start_scan-IsScheduled w)
        (schedule-IsScheduled events (start_scan env user_id mode query mark_read w).1)

  start_scan-FaultFree :
      FaultFree env
      → (w : World) → length (spawned (start_scan env user_id mode query mark_read w).0) ≡ 1
  unfolding start_scan ◌>>=◌ now create_scan_run
  start_scan-FaultFree free w =
      ap (λ (r : Result ℕ × World). length (spawned (continue r (λ id. pure (id, numbered id))).0))
        (call_ok env (create_scan_run (env.clock w.calls) user_id mode "enqueuing") (tick w) _ _
          free refl)

  schedule-FaultFree :
      FaultFree env
      → (events : List Event) (w : World)
      → length (schedule env user_id mode query mark_read events w).0 ≡ ticks events
  unfolding schedule
  schedule-FaultFree free [] w = refl
  schedule-FaultFree free (stopped ∷ events) w = refl
  schedule-FaultFree free (meanwhile turn ∷ events) w = schedule-FaultFree free events (turn w)
  schedule-FaultFree free (ticked ∷ events) w =
      let (r, v) = start_scan env user_id mode query mark_read w in
      omega (
        arith,
        length-append (spawned r) (schedule env user_id mode query mark_read events v).0,
        start_scan-FaultFree free w,
        schedule-FaultFree free events v,
      )

-- Whatever fails and whatever the others do between two ticks: if scheduled scans spawn any job,
-- then the interval is above 0, a user is set, and the mode is dry_run or apply, dry_run where
-- none is set; and every job that they spawn is for this user, in this mode, with the query and
-- the marking that are set.
pub start_scheduled_scans-IsScheduled :
    (env : Env) (user_id query : String) (mark_read : Bool) (interval : ℤ) (setting : String)
    (events : List Event) (w : World) (r : Result (Unit {0})) (job : Job) (jobs : List Job)
    (last : World)
    → start_scheduled_scans env user_id query mark_read interval setting events w
      ≡ (r, job ∷ jobs, last)
    → (r ≡ ok tt)
      × ((mode : String) × MaySchedule interval user_id setting mode
          × All (IsScheduled user_id mode query mark_read) (job ∷ jobs))
unfolding start_scheduled_scans
start_scheduled_scans-IsScheduled env user_id query mark_read interval setting events w r job jobs
      last h =
    at (scheduled_mode env interval user_id setting) refl h
  where
    at :
        (read : Result (Option String))
        → scheduled_mode env interval user_id setting ≡ read
        → schedule_in env user_id query mark_read read events w ≡ (r, job ∷ jobs, last)
        → (r ≡ ok tt)
          × ((mode : String) × MaySchedule interval user_id setting mode
              × All (IsScheduled user_id mode query mark_read) (job ∷ jobs))
    at (err e) read h = cc
    at (ok none) read h = cc
    at (ok (some mode)) read h = (
      cc,
      (
        mode,
        scheduled_mode-MaySchedule env interval user_id setting mode read,
        subst (All (IsScheduled user_id mode query mark_read))
            (ap (λ (x : Result (Unit {0}) × List Job × World). x.1) h)
            (schedule-IsScheduled env user_id mode query mark_read events w),
      ),
    )

-- With no fault, and if the settings are to be scheduled in some mode, `StartScheduledScans`
-- returns no error and spawns as many jobs as there are ticks before the context is done.
pub start_scheduled_scans-FaultFree :
    (env : Env) (user_id query : String) (mark_read : Bool) (interval : ℤ) (setting mode : String)
    (events : List Event) (w : World)
    → FaultFree env
    → scheduled_mode env interval user_id setting ≡ ok (some mode)
    → (jobs : List Job) × (last : World) × (start_scheduled_scans env user_id query mark_read
          interval setting events w
        ≡ (ok tt, jobs, last))
      × (length jobs ≡ ticks events)
unfolding start_scheduled_scans
start_scheduled_scans-FaultFree env user_id query mark_read interval setting mode events w free h =
    (
      _,
      _,
      ap (λ r. schedule_in env user_id query mark_read r events w) h,
      schedule-FaultFree env user_id mode query mark_read free events w,
    )
