-- ===== src/Consumer/Pool.antt =====
-- internal/consumer/label_worker.go: `Run`, which subscribes and then takes steps of its goroutines
-- and of the loop that waits for them, in any order. The workers differ in nothing, so they are counted by where they stand. What
-- `handleDelivery` does is Consumer.antt; here it takes any time and returns any result.
pub mod Counts
pub mod Reasons
pub mod Safety
pub mod Returning
pub mod Silent
use email_triage_system.Common.{
  ℕ, suc, ◌+◌, ◌≤◌, ◌<◌, ◌≡◌, Bool, true, false, ◌||◌, Option, none, some, List, [], ◌∷◌, ◌++◌,
  length,
}
use email_triage_system.World.{Error, ok, err}
use email_triage_system.Broker.Connection.{Amqp, Server, consume_classified_emails}

-- Where `Run` itself stands: in its `select`, at `<-doneCh` with what it is going to return, or back.
pub data Main : Type 0 where
  selecting : Main
  draining returned : Option Error → Main

pub record Pool : Type 0 where
  -- the workers in their `select`, in `handleDelivery`, between the send to `errCh` and
  -- `cancel()`, and back
  pub waiting : ℕ
  pub busy : ℕ
  pub reported : ℕ
  pub exited : ℕ
  -- `ctx` is done, `cancel()` was called, `deliveries` is closed, `doneCh` is closed
  pub stopped : Bool
  pub cancelled : Bool
  pub closed : Bool
  pub done : Bool
  -- what `errCh` holds
  pub errors : List Error
  pub main : Main
  -- a history, which the program does not keep: the errors that `handleDelivery` has returned
  pub failures : List Error

-- The goroutines are started once `ConsumeClassifiedEmails` has succeeded.
abbrev pub started : ℕ → Pool
started concurrency = record {
  waiting = concurrency;
  busy = 0;
  reported = 0;
  exited = 0;
  stopped = false;
  cancelled = false;
  closed = false;
  done = false;
  errors = [];
  main = selecting;
  failures = [];
}

-- `concurrency` is also the capacity of `errCh`.
pub data Step (concurrency : ℕ) (p : Pool) : Pool → Type 0 where
  stop : Step concurrency p (record p { stopped = true })
  close : Step concurrency p (record p { closed = true })
  take :
      {n : ℕ} → p.waiting ≡ suc n → Step concurrency p (record p { waiting = n; busy = p.busy + 1 })
  handled :
      {n : ℕ} → p.busy ≡ suc n → Step concurrency p (record p { busy = n; waiting = p.waiting + 1 })
  report :
      {n : ℕ} (e : Error)
      → p.busy ≡ suc n
      → length p.errors < concurrency
      → Step concurrency p (record p {
        busy = n;
        reported = p.reported + 1;
        errors = p.errors ++ e ∷ [];
        failures = p.failures ++ e ∷ [];
      })
  -- `default:` the error is lost
  report_full :
      {n : ℕ} (e : Error)
      → p.busy ≡ suc n
      → concurrency ≤ length p.errors
      → Step concurrency p
          (record p { busy = n; reported = p.reported + 1; failures = p.failures ++ e ∷ [] })
  cancel :
      {n : ℕ}
      → p.reported ≡ suc n
      → Step concurrency p (record p { reported = n; exited = p.exited + 1; cancelled = true })
  leave :
      {n : ℕ}
      → p.waiting ≡ suc n
      → (p.stopped || p.cancelled) ≡ true
      → Step concurrency p (record p { waiting = n; exited = p.exited + 1 })
  leave_closed :
      {n : ℕ}
      → p.waiting ≡ suc n
      → p.closed ≡ true
      → Step concurrency p (record p { waiting = n; exited = p.exited + 1 })
  -- `wg.Wait()` returns, and `doneCh` is closed
  all_done : p.exited ≡ concurrency → Step concurrency p (record p { done = true })
  on_stop :
      p.main ≡ selecting
      → p.stopped ≡ true
      → Step concurrency p (record p { cancelled = true; main = draining none })
  on_error :
      {e : Error} {rest : List Error}
      → p.main ≡ selecting
      → p.errors ≡ e ∷ rest
      → Step concurrency p (record p { cancelled = true; errors = rest; main = draining (some e) })
  -- `cancel` is deferred
  on_done :
      p.main ≡ selecting
      → p.done ≡ true
      → Step concurrency p (record p { cancelled = true; main = returned none })
  drained :
      (r : Option Error)
      → p.main ≡ draining r
      → p.done ≡ true
      → Step concurrency p (record p { main = returned r })

pub data Reach (concurrency : ℕ) : Pool → Type 0 where
  start : Reach concurrency (started concurrency)
  later : {p q : Pool} → Reach concurrency p → Step concurrency p q → Reach concurrency q

-- `Run` as a whole, by what it returns: the error of its subscription, before any worker starts, or
-- what the loop returns after some steps of the pool.
pub data LabelWorkerRun (amqp : Amqp) (server : Server) (concurrency : ℕ)
    : Option Error → Type 0 where
  not_subscribed :
      {e : Error}
      → (consume_classified_emails amqp server).0 ≡ err e
      → LabelWorkerRun amqp server concurrency (some e)
  subscribed :
      {p : Pool} {r : Option Error}
      → (consume_classified_emails amqp server).0 ≡ ok tt
      → Reach concurrency p
      → p.main ≡ returned r
      → LabelWorkerRun amqp server concurrency r
