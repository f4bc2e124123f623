-- ===== src/Scans/Access.antt =====
-- Who may start a scan and who may read one.
use email_triage_system.Common.{
  ℕ, zero, suc, ◌+◌, List, [], ◌∷◌, sym, ap, ◌∙◌, subst, not, ◌&&◌, ◌==◌, if◌then◌else◌, inl, inr,
  Bool-cases, String, ◌≡◌, refl, ◌⊎◌, Option, none, some, arith, eq_iff,
}
use mathlib.Core.Option.{some-injective}
use email_triage_system.Common.Int.{ℤ, pos, negsuc}
use email_triage_system.Auth.{Principal}
use email_triage_system.Models.{ScanRun}
use email_triage_system.World.{
  ◌>>=◌, now, continue, pure, Env, World, State, Result, ok, err, call, Op, Error,
  scan_run_not_found, under, answer, tick, Fault, fine, refused, lost,
}
use email_triage_system.Storage.{get_scan_run, count_email_messages_by_scan_run, find_run}
use email_triage_system.Scans.{
  reply, CreateScanRequest, RequestBody, json_error, scan_mode_dry_run, scan_mode_apply, created,
  create_with, read_body, Response, create_scan, start_scan, ScanResponse, CreateScanResponse, Job,
  with_counts, run_error, with_run, get_by, get_scan,
}

-- What a 200 reply says of the reader.
abbrev pub MayRead : Principal → ScanResponse → Type 0
MayRead principal body = (principal.role ≡ "admin") ⊎ (body.user_id ≡ principal.user_id)

under-ok :
    {A : Type 0} (fault : Fault) (r : Result A × World) (w : World) (a : A)
    → (under fault r w).0 ≡ ok a
    → r.0 ≡ ok a
under-ok fine r w a h = h
under-ok (refused e) r w a h = cc
under-ok (lost e) r w a h = cc

module _ (env : Env) (principal : Principal) where
  with_counts-user :
      (run : ScanRun) (r : Result (String → ℕ) × World) (code : ℕ) (body : ScanResponse)
      → (with_counts env run r).0 ≡ reply code body
      → (code ≡ 200) × (body.user_id ≡ run.user_id) × (body.run_id ≡ run.id)
  with_counts-user run (err e, w) code body h = cc
  with_counts-user run (ok counts, w) code body h = ground arith

  run_error-json :
      (e : Error) (code : ℕ) (body : ScanResponse) → ¬ (run_error env e ≡ reply code body)
  run_error-json scan_run_not_found code body h = cc
  run_error-json _ code body h = cc

  with_run-MayRead :
      (id : ℕ) (r : Result ScanRun × World) (code : ℕ) (body : ScanResponse)
      → (with_run env principal id r).0 ≡ reply code body
      → (run : ScanRun) × (r.0 ≡ ok run)
        × (code ≡ 200)
        × (body.run_id ≡ run.id)
        × MayRead principal body
  with_run-MayRead id (err e, w) code body h = absurd (run_error-json e code body h)
  with_run-MayRead id (ok run, w) code body h = (
    run,
    refl,
    ground
        (arith, with_counts-user run (call env (count_email_messages_by_scan_run id) w) code body),
    ground
        (arith, with_counts-user run (call env (count_email_messages_by_scan_run id) w) code body),
    ground (
      arith,
      with_counts-user run (call env (count_email_messages_by_scan_run id) w) code body,
      eq_iff principal.role "admin",
      eq_iff run.user_id principal.user_id,
    ),
  )

call-eq-ok :
    {A : Type 0} (env : Env) (op : Op A) (w : World) (a : A)
    → (call env op w).0 ≡ ok a
    → (op w.state).0 ≡ ok a
unfolding call
call-eq-ok env op w a h =
    under-ok (env.fault w.calls) (answer (op w.state) (w.calls + 1)) (tick w) a h

find_run-id :
    (id : ℕ) (runs : List ScanRun) (run : ScanRun) → find_run id runs ≡ some run → run.id ≡ id
unfolding find_run
find_run-id id [] run h = cc
find_run-id id (r ∷ runs) run h = ground (arith, find_run-id id runs run)

get_scan_run-id :
    (id : ℕ) (s : State) (run : ScanRun) → (get_scan_run id s).0 ≡ ok run → run.id ≡ id
unfolding get_scan_run
get_scan_run-id id s run h = ground (arith, find_run-id id s.db.scan_runs run)

get_by-MayRead :
    (env : Env) (principal : Principal) (id : Option ℤ) (w : World) (code : ℕ) (body : ScanResponse)
    → (get_by env principal id w).0 ≡ reply code body
    → (code ≡ 200) × (id ≡ some (pos body.run_id)) × MayRead principal body
get_by-MayRead env principal none w code body h = cc
get_by-MayRead env principal (some (negsuc n)) w code body h = cc
get_by-MayRead env principal (some (pos zero)) w code body h = cc
get_by-MayRead env principal (some (pos (suc n))) w code body h =
    let (run, e, c, same, may) =
      with_run-MayRead env principal (suc n) (call env (get_scan_run (suc n)) w) code body h in
    let id : run.id ≡ suc n =
      get_scan_run-id (suc n) w.state run (call-eq-ok env (get_scan_run (suc n)) w run e) in
    (c, ap (λ k. some (pos k)) (sym (same ∙ id)), may)

-- A scan is shown only to a caller with a principal, with status 200, for the id of the path, and
-- only if the caller is an administrator or the run's user.
pub get_scan-MayRead :
    (env : Env) (caller : Option Principal) (id : Option ℤ) (w : World) (code : ℕ)
    (body : ScanResponse)
    → (get_scan env caller id w).0 ≡ reply code body
    → (principal : Principal) × (caller ≡ some principal)
      × (code ≡ 200)
      × (id ≡ some (pos body.run_id))
      × MayRead principal body
unfolding get_scan
get_scan-MayRead env none id w code body h = cc
get_scan-MayRead env (some principal) id w code body h =
    let (c, i, may) = get_by-MayRead env principal id w code body h in (principal, refl, c, i, may)

-- What a created scan is: a job for the caller's own user, in one of the two modes, with the answer's
-- run id.
pub record IsOwnScan (principal : Principal) (answer : CreateScanResponse) (job : Job)
    : Type 0 where
  pub user : job.user_id ≡ principal.user_id
  pub mode : (job.mode ≡ "dry_run") ⊎ (job.mode ≡ "apply")
  pub run : answer.run_id ≡ job.run_id
  pub answered_mode : answer.mode ≡ job.mode

module _ (env : Env) (principal : Principal) where
  abbrev job_of : String → CreateScanRequest → ℕ → Job
  job_of mode req id = record {
    run_id = id;
    user_id = principal.user_id;
    mode = mode;
    query = req.query;
    mark_read = req.mark_read;
  }

  abbrev answer_of : String → CreateScanRequest → ℕ → CreateScanResponse
  answer_of mode req id = record {
    result = "ok";
    run_id = id;
    user_id = principal.user_id;
    mode = mode;
    status = "enqueuing";
    query = req.query;
    mark_read = req.mark_read;
  }

  -- What an answer with a job has to be.
  abbrev IsAnswered : Response CreateScanResponse × Option Job → Job → Type 0
  IsAnswered r job =
      (answer : CreateScanResponse) × (r.0 ≡ reply 202 answer) × IsOwnScan principal answer job

  numbered-IsAnswered :
      (mode : String) (req : CreateScanRequest) (r : Result ℕ × World) (job : Job)
      → (mode ≡ "dry_run") ⊎ (mode ≡ "apply")
      → (created principal.user_id mode req (continue r (λ id. pure (id, job_of mode req id)))).0.1
        ≡ some job
      → IsAnswered
          (created principal.user_id mode req (continue r (λ id. pure (id, job_of mode req id)))).0
          job
  numbered-IsAnswered mode req (err e, w) job m h = cc
  numbered-IsAnswered mode req (ok id, w) job m h =
      let same : job_of mode req id ≡ job = some-injective (job_of mode req id) job h in
      (
        answer_of mode req id,
        refl,
        record {
          user = sym (ap (λ (j : Job). j.user_id) same);
          mode = subst (λ (j : Job). (j.mode ≡ "dry_run") ⊎ (j.mode ≡ "apply")) same m;
          run = ap (λ (j : Job). j.run_id) same;
          answered_mode = ap (λ (j : Job). j.mode) same;
        },
      )

  started-IsAnswered :
      (mode : String) (req : CreateScanRequest) (w : World) (job : Job)
      → (mode ≡ "dry_run") ⊎ (mode ≡ "apply")
      → (created principal.user_id mode req
          (start_scan env principal.user_id mode req.query req.mark_read w)).0.1
        ≡ some job
      → IsAnswered
          (created principal.user_id mode req
            (start_scan env principal.user_id mode req.query req.mark_read w)).0
          job
  unfolding start_scan ◌>>=◌ now
  started-IsAnswered mode req w job m h = numbered-IsAnswered mode req _ job m h

  -- The body of `createScan` behind the default of the mode.
  abbrev in_mode :
      String → CreateScanRequest → World → (Response CreateScanResponse × Option Job) × World
  in_mode mode req w =
      if not (mode == scan_mode_dry_run) && not (mode == scan_mode_apply)
      then ((json_error 400 "mode must be dry_run or apply", none), w)
      else created principal.user_id mode req
          (start_scan env principal.user_id mode req.query req.mark_read w)

  in_mode-IsAnswered :
      (mode : String) (req : CreateScanRequest) (w : World) (job : Job)
      → (in_mode mode req w).0.1 ≡ some job
      → IsAnswered (in_mode mode req w).0 job
  in_mode-IsAnswered mode req w job h = elim (Bool-cases (mode == "dry_run")) [
    | inl dry ↦
        rw dry
          (started-IsAnswered mode req w job (inl ((eq_iff mode "dry_run").0 dry)) (rw dry at h))
    | inr wet ↦ elim (Bool-cases (mode == "apply")) [
      | inl apply ↦
          rw (wet, apply)
            (started-IsAnswered mode req w job (inr ((eq_iff mode "apply").0 apply))
              (rw (wet, apply) at h))
      | inr neither ↦ cc (rw (wet, neither) at h)
    ]
  ]

  create_with-IsAnswered :
      (req : Option CreateScanRequest) (w : World) (job : Job)
      → (create_with env principal req w).0.1 ≡ some job
      → IsAnswered (create_with env principal req w).0 job
  create_with-IsAnswered none w job h = cc
  create_with-IsAnswered (some req) w job h =
      in_mode-IsAnswered (if req.mode == "" then scan_mode_dry_run else req.mode) req w job h

-- If a job is started, whatever the answer, then the caller has a principal, the answer has status
-- 202, and the scan is that caller's own: the job carries the caller's user id, one of the two
-- modes, and the run id and the mode of the answer.
pub create_scan-IsOwnScan :
    (env : Env) (caller : Option Principal) (body : RequestBody) (w : World) (job : Job)
    → (create_scan env caller body w).0.1 ≡ some job
    → (principal : Principal) × (caller ≡ some principal)
      × ((answer : CreateScanResponse) × ((create_scan env caller body w).0.0 ≡ reply 202 answer)
          × IsOwnScan principal answer job)
unfolding create_scan
create_scan-IsOwnScan env none body w job h = cc
create_scan-IsOwnScan env (some principal) body w job h =
    (principal, refl, create_with-IsAnswered env principal (read_body body) w job h)
