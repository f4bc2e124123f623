-- ===== src/Consumer/Run.antt =====
-- internal/consumer/classifier_worker.go: `Run`. What its `select` receives is a sequence of signals.
pub mod Drained
use email_triage_system.Common.{List, [], ◌∷◌}
use email_triage_system.Text.{GoLib}
use email_triage_system.Events.{Body, Codec}
use email_triage_system.World.{Env, Error, other, Result, ok, err, World}
use email_triage_system.Consumer.{handle_raw_delivery}

-- `ctx.Done()`, the closed channel, or a delivery.
pub data Signal : Type 0 where
  stopped closed : Signal
  delivery : Body → Signal

-- The loop waits for another signal, or `Run` has returned.
pub data Running : Type 0 where
  going : Running
  returned : Result (Unit {0}) → Running

abbrev pub go_on : Result (Unit {0}) × World → (World → Running × World) → Running × World
go_on (ok done, w) next = next w
go_on (err e, w) next = (returned (err e), w)

module _ (lib : GoLib) (codec : Codec) (env : Env) where
  unfoldable pub receive : List Signal → World → Running × World
  receive [] w = (going, w)
  receive (stopped ∷ signals) w = (returned (ok tt), w)
  receive (closed ∷ signals) w = (returned (err (other "raw email consumer channel closed")), w)
  receive (delivery body ∷ signals) w =
      go_on (handle_raw_delivery lib codec env body w) (receive signals)

  -- The result of `ConsumeRawEmails`, and then the loop.
  unfoldable pub run : Result (Unit {0}) → List Signal → World → Running × World
  run subscribed signals w = go_on (subscribed, w) (receive signals)
