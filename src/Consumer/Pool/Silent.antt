-- ===== src/Consumer/Pool/Silent.antt =====
-- The label worker's `Run` where `doneCh` and `errCh` are both ready.
use email_triage_system.Common.{
  ℕ, zero, suc, ◌+◌, ◌≡◌, refl, subst, true, false, none, [], ◌∷◌, arith,
}
use email_triage_system.World.{Error}
use email_triage_system.Consumer.Pool.{selecting, returned, Pool, Step, Reach}

abbrev one_failed : ℕ → ℕ → ℕ → Error → Pool
one_failed waiting exited reported e = record {
  waiting = waiting;
  busy = 0;
  reported = reported;
  exited = exited;
  stopped = false;
  cancelled = true;
  closed = false;
  done = false;
  errors = e ∷ [];
  main = selecting;
  failures = e ∷ [];
}

-- After `cancel()`, the workers that wait return one after another.
all_leave :
    (c waiting exited : ℕ) (e : Error)
    → Reach c (one_failed waiting exited 0 e)
    → Reach c (one_failed 0 (exited + waiting) 0 e)
all_leave c zero exited e r = subst (λ k. Reach c (one_failed 0 k 0 e)) (omega arith) r
all_leave c (suc n) exited e r =
    let one : Reach c (one_failed n (exited + 1) 0 e) = Reach.later r (Step.leave refl refl) in
    subst (λ k. Reach c (one_failed 0 k 0 e)) (omega arith) (all_leave c n (exited + 1) e one)

first_leaves : (n : ℕ) (e : Error) → Reach (suc n) (one_failed n 1 0 e)
first_leaves n e =
    Reach.later
      (Reach.later (Reach.later Reach.start (Step.take refl)) (Step.report e refl (omega arith)))
      (Step.cancel refl)

-- Whatever the concurrency and the error: `Run` can return `nil` though `handleDelivery` has
-- failed with this error, the error waits in `errCh`, the context is not done and the channel is
-- not closed.
pub Run-silent :
    (n : ℕ) (e : Error)
    → (p : Pool) × Reach (suc n) p
      × (p.main ≡ returned none)
      × (p.failures ≡ e ∷ [])
      × (p.errors ≡ e ∷ [])
      × (p.stopped ≡ false)
      × (p.closed ≡ false)
Run-silent n e =
    let left = all_leave (suc n) n 1 e (first_leaves n e) in
    (
      _,
      Reach.later (Reach.later left (Step.all_done (omega arith))) (Step.on_done refl refl),
      refl,
      refl,
      refl,
      refl,
      refl,
    )
