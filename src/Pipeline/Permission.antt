-- ===== src/Pipeline/Permission.antt =====
-- Which messages of the mailbox the running system may change.
use mathlib.Core.List.{Memᴰ}
use email_triage_system.Common.{ℕ, String, List, [], ◌∷◌, ◌≡◌, sym, ◌∙◌, subst, All, All-append}
use mathlib.Core.Option.{some-injective}
use email_triage_system.Text.{GoLib}
use email_triage_system.Reader.{Message}
use email_triage_system.Reader.Source.{Source}
use email_triage_system.Events.{Body, Codec, RoundTrips, RawEmailEvent}
use email_triage_system.World.{Env, World}
use email_triage_system.World.Keeps.{Keeps, OpKeeps, Keeps-bind, Keeps-now, Keeps-call, Keeps-pure}
use email_triage_system.Storage.Effects.{
  create_scan_run-TouchesTables, complete_scan_run-TouchesTables,
  update_scan_run_progress-TouchesTables,
}
use email_triage_system.Broker.{publish_raw_email}
use email_triage_system.Consumer.Permission.{
  RawAllowed, ClassifiedAllowed, IsAllowed, tables-IsAllowed, handle_raw_delivery-IsAllowed,
  handle_classified_delivery-IsAllowed,
}
use email_triage_system.Scans.{Job, raw_event_of, start_scan}
use email_triage_system.Scans.Enqueue.{CanList, enqueue_scan-keeps}
use email_triage_system.Pipeline.{Step, start, enqueue, classify, label, Reach, Reach_induction}

All-Memᴰ : (P : Body → Type 0) {x : Body} (xs : List Body) → All P xs → Memᴰ x xs → P x
All-Memᴰ P [] h m = elim m [ ]
All-Memᴰ P (y ∷ ys) h (Memᴰ.head e) = subst P (sym e) h.0
All-Memᴰ P (y ∷ ys) h (Memᴰ.tail m) = All-Memᴰ P ys h.1 m

module _ (lib : GoLib) (codec : Codec) (env : Env) (reader : Source) (allowed : String → Type 0)
    (trips : RoundTrips codec) where
  -- A job runs in apply mode only if all that its source can list is allowed.
  abbrev pub Covers : Job → Type 0
  Covers job =
      job.mode ≡ "apply" → (message : Message) → CanList env reader job message → allowed message.id

  publish_raw_email-IsAllowed :
      (job : Job)
      → Covers job
      → (time : ℕ) (message : Message) → CanList env reader job message
      → OpKeeps (IsAllowed codec allowed) (publish_raw_email codec (raw_event_of job time message))
  unfolding publish_raw_email
  publish_raw_email-IsAllowed job covers time message listed = record {
    after_op = λ s h. record {
      raw = All-append (RawAllowed codec allowed) s.raw_queue _ h.raw (published, tt);
      classified = h.classified;
      sent = h.sent;
    };
  }
    where
      published : RawAllowed codec allowed (codec.marshal_raw (raw_event_of job time message))
      published other read mode =
          let same : raw_event_of job time message ≡ other =
            some-injective (raw_event_of job time message) other
              (sym (trips.raw (raw_event_of job time message)) ∙ read) in
          subst (λ (e : RawEmailEvent). e.mode ≡ "apply" → allowed e.message.gmail_message_id) same
            (λ apply. covers apply message listed) mode

  start_scan-IsAllowed :
      (user_id mode query : String) (mark_read : _)
      → Keeps (IsAllowed codec allowed) (start_scan env user_id mode query mark_read)
  unfolding start_scan
  start_scan-IsAllowed user_id mode query mark_read = Keeps-bind _ _ (Keeps-now env) (λ time.
      Keeps-bind _ _
        (Keeps-call env _ (
          tables-IsAllowed codec allowed _
            (create_scan_run-TouchesTables time user_id mode "enqueuing")))
        (λ id. Keeps-pure _))

  Step-IsAllowed :
      (u v : World)
      → Step lib codec env reader Covers u v
      → IsAllowed codec allowed u.state
      → IsAllowed codec allowed v.state
  Step-IsAllowed u v (start user_id mode query mark_read w) h =
      (start_scan-IsAllowed user_id mode query mark_read).after u h
  Step-IsAllowed u v (enqueue fuel job w covers) h =
      enqueue_scan-keeps codec env reader job (IsAllowed codec allowed)
        (publish_raw_email-IsAllowed job covers)
        (λ totals b.
          tables-IsAllowed codec allowed _
            (update_scan_run_progress-TouchesTables job.run_id totals))
        (λ time status totals b.
          tables-IsAllowed codec allowed _
            (complete_scan_run-TouchesTables time job.run_id status totals))
        lib fuel u h
  Step-IsAllowed u v (classify body w m) h =
      (handle_raw_delivery-IsAllowed codec allowed lib env trips body
          (All-Memᴰ (RawAllowed codec allowed) u.state.raw_queue h.raw m)).after
        u h
  Step-IsAllowed u v (label body w m) h =
      (handle_classified_delivery-IsAllowed codec allowed lib env trips body (
          All-Memᴰ (ClassifiedAllowed codec allowed) u.state.classified_queue h.classified m)).after
        u h

  -- Whatever the order of turns, the faults and the redeliveries: if what the codec writes reads
  -- back as it was, every apply-mode event that waits and every earlier change of a message is for
  -- an allowed message, and a scan runs in apply mode only if every message that its own source
  -- can list is allowed (of the mock its fixed messages, of Gmail the ids on the pages of the
  -- source's query), then the mailbox changes for allowed messages only.
  pub Reach-IsAllowed :
      (w v : World)
      → Reach lib codec env reader Covers w v
      → IsAllowed codec allowed w.state
      → IsAllowed codec allowed v.state
  Reach-IsAllowed =
      Reach_induction lib codec env reader Covers (λ w. IsAllowed codec allowed w.state)
        Step-IsAllowed
