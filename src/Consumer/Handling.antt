-- ===== src/Consumer/Handling.antt =====
-- Invariants of the handling of a delivery, from those of what it processes and acknowledges.
use email_triage_system.World.{State, World, Env, Error, Result, ok, err, Exec}
use email_triage_system.World.Keeps.{Keeps, OpKeeps, Keeps-call, Keeps-fail, Keeps-if, Keeps-catch}
use email_triage_system.Broker.{nack_requeue}
use email_triage_system.Consumer.{drop_if, is_drop, settled, handle}
use email_triage_system.Common.{Bool}

module _ {P : State → Type 0} where
  pub drop_if-Keeps {ℓ} :
      {A : Type ℓ} (test : Error → Bool) (e : Error) → Keeps P (drop_if {A = A} test e)
  drop_if-Keeps test e = Keeps-if (test e) _ _ (λ _. Keeps-fail _) (λ _. Keeps-fail _)

  nack_requeue-OpKeeps : OpKeeps P nack_requeue
  unfolding nack_requeue
  nack_requeue-OpKeeps = record { after_op = λ s h. h }

module _ (P : State → Type 0) (env : Env) where
  settled-keeps :
      (ack : Exec (Unit {0})) (r : Result (Unit {0}) × World)
      → Keeps P ack
      → P r.1.state
      → P (settled env ack r).1.state
  settled-keeps ack (ok a, w) k h = k.after w h
  settled-keeps ack (err e, w) k h =
      (Keeps-if (is_drop e) ack _ (λ _. k)
          (λ _.
            Keeps-catch _ _ (Keeps-call env nack_requeue nack_requeue-OpKeeps)
              (λ _. Keeps-fail _))).after
        w h

  pub handle-Keeps :
      (process ack : Exec (Unit {0}))
      → Keeps P process
      → Keeps P ack
      → Keeps P (handle env process ack)
  unfolding handle
  handle-Keeps process ack kp ka = record {
    after = λ w h. settled-keeps ack (process w) ka (kp.after w h);
  }
