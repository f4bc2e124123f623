-- ===== src/Consumer/Pool/Safety.antt =====
-- What holds in every state of the label worker's `Run`.
use email_triage_system.Common.{
  ℕ, ◌+◌, ◌<◌, ◌≡◌, refl, ◌⊎◌, inl, inr, subst, Option, none, some, length, arith,
}
use email_triage_system.World.{Error, ok, err}
use email_triage_system.Broker.Connection.{Amqp, Server, consume_classified_emails}
use email_triage_system.Consumer.Pool.{
  returned, Pool, Reach, LabelWorkerRun, not_subscribed, subscribed,
}
use email_triage_system.Consumer.Pool.Counts.{Counts, Step-Counts}
use email_triage_system.Consumer.Pool.Reasons.{Has, HasCause, Explained, Reasons, Step-Reasons}

-- What `Run` says when it returns `nil`, or an error.
abbrev pub HasReason : Pool → Option Error → Type 0
HasReason p none = HasCause p.stopped p.closed p.failures
HasReason p (some e) = Has e p.failures

pub Reach-Counts : {c : ℕ} {p : Pool} → Reach c p → Counts c p
Reach-Counts {c} Reach.start = record { total = omega arith; room = omega arith; ended = λ h. cc }
Reach-Counts (Reach.later r s) = Step-Counts s (Reach-Counts r)

Reach-Reasons : {c : ℕ} {p : Pool} → 0 < c → Reach c p → Reasons p
Reach-Reasons pos Reach.start = record {
  told = tt;
  failed = λ h. absurd (omega (arith, h));
  cause = λ h. absurd (omega (arith, h));
  explained = λ h. cc;
}
Reach-Reasons pos (Reach.later r s) = Step-Reasons pos s (Reach-Counts r) (Reach-Reasons pos r)

-- While a worker is in `handleDelivery`, there is room in `errCh` for one error more than it holds: a
-- worker that reports an error never takes the `default` branch, which loses it.
pub report-has_room : {c : ℕ} {p : Pool} → Reach c p → 0 < p.busy → length p.errors < c
report-has_room r busy = let n = Reach-Counts r in omega (arith, n.room)

-- The pool, once the loop has returned.
Reach-returned :
    {c : ℕ} {p : Pool} (r : Option Error)
    → 0 < c
    → Reach c p
    → p.main ≡ returned r
    → (p.exited ≡ c) × (p.waiting + p.busy + p.reported ≡ 0) × HasReason p r
Reach-returned {c} {p} none pos reach m =
    let n = Reach-Counts reach in
    let i = Reach-Reasons pos reach in
    let (cause, done) =
      subst (Explained p.stopped p.closed p.cancelled p.done p.failures) m i.explained in
    (n.ended done, omega (arith, n.total, n.ended done), cause)
Reach-returned {c} {p} (some e) pos reach m =
    let n = Reach-Counts reach in
    let i = Reach-Reasons pos reach in
    let (has, done) =
      subst (Explained p.stopped p.closed p.cancelled p.done p.failures) m i.explained in
    (n.ended done, omega (arith, n.total, n.ended done), has)

-- With a concurrency above 0, `Run` of the label worker returns the error of
-- `ConsumeClassifiedEmails`, or it has subscribed and its pool has come to a state in which every
-- worker has returned: none waits, handles a delivery or is about to report. If it then returned an
-- error, `handleDelivery` has returned that error; if it returned `nil`, the context is done, or the
-- deliveries' channel is closed, or `handleDelivery` has failed.
pub Run-returned :
    {c : ℕ} {amqp : Amqp} {server : Server} {r : Option Error}
    → 0 < c
    → LabelWorkerRun amqp server c r
    → ((e : Error) × ((consume_classified_emails amqp server).0 ≡ err e) × (r ≡ some e))
      ⊎ (((consume_classified_emails amqp server).0 ≡ ok tt)
          × ((p : Pool) × Reach c p
              × (p.main ≡ returned r)
              × (p.exited ≡ c)
              × (p.waiting + p.busy + p.reported ≡ 0)
              × HasReason p r))
Run-returned pos (not_subscribed {e} h) = inl (e, h, refl)
Run-returned pos (subscribed {p} {r} h reach m) =
    let (gone, nobody, reason) = Reach-returned r pos reach m in
    inr (h, (p, reach, m, gone, nobody, reason))
