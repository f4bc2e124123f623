-- ===== src/Scans/Published.antt =====
-- What the enqueuing of a scan leaves on the raw queue.
use mathlib.Core.List.{append_assoc, append-nil}
use email_triage_system.Common.{
  ◌≡◌, refl, sym, ap, ◌∙◌, ℕ, List, [], ◌∷◌, ◌++◌, All, All-append, String,
}
use email_triage_system.Text.{GoLib}
use email_triage_system.Reader.{Message}
use email_triage_system.Reader.Source.{Source}
use email_triage_system.Events.{Body, Codec}
use email_triage_system.World.{Env, State, World}
use email_triage_system.World.Keeps.{OpKeeps}
use email_triage_system.Storage.{Totals, complete_scan_run, update_scan_run_progress}
use email_triage_system.Broker.{publish_raw_email}
use email_triage_system.Scans.{Job, raw_event_of, enqueue_scan}
use email_triage_system.Scans.Enqueue.{CanList, enqueue_scan-keeps}

module _ (codec : Codec) (env : Env) (reader : Source) (job : Job) where
  -- An event of the job, for some message that its source can list, at some time.
  abbrev pub IsJobEvent : Body → Type 0
  IsJobEvent body =
      (time : ℕ) × (message : Message) × CanList env reader job message
      × (body ≡ codec.marshal_raw (raw_event_of job time message))

  -- What a scan may have done to the services that it found in state `before`.
  pub record IsExtended (before s : State) : Type 0 where
    pub published : List Body
    pub queue : s.raw_queue ≡ before.raw_queue ++ published
    pub events : All IsJobEvent published
    pub classified : s.classified_queue ≡ before.classified_queue
    pub sent : s.sent ≡ before.sent
    pub rules : s.db.user_rules ≡ before.db.user_rules
    pub emails : s.db.email_messages ≡ before.db.email_messages

  publish-IsExtended :
      (before : State) (time : ℕ) (message : Message)
      → CanList env reader job message
      → OpKeeps (IsExtended before) (publish_raw_email codec (raw_event_of job time message))
  unfolding publish_raw_email
  publish-IsExtended before time message listed = record {
    after_op = λ s h.
        let body : Body = codec.marshal_raw (raw_event_of job time message) in
        record {
          published = h.published ++ body ∷ [];
          queue =
              ap (λ q. q ++ body ∷ []) h.queue
              ∙ append_assoc before.raw_queue h.published (body ∷ []);
          events =
              All-append IsJobEvent h.published (body ∷ []) h.events
                ((time, message, listed, refl), tt);
          classified = h.classified;
          sent = h.sent;
          rules = h.rules;
          emails = h.emails;
        };
  }

  progress-IsExtended :
      (before : State) (totals : Totals)
      → OpKeeps (IsExtended before) (update_scan_run_progress job.run_id totals)
  unfolding update_scan_run_progress
  progress-IsExtended before totals = record {
    after_op = λ s h. record {
      published = h.published;
      queue = h.queue;
      events = h.events;
      classified = h.classified;
      sent = h.sent;
      rules = h.rules;
      emails = h.emails;
    };
  }

  complete-IsExtended :
      (before : State) (time : ℕ) (status : String) (totals : Totals)
      → OpKeeps (IsExtended before) (complete_scan_run time job.run_id status totals)
  unfolding complete_scan_run
  complete-IsExtended before time status totals = record {
    after_op = λ s h. record {
      published = h.published;
      queue = h.queue;
      events = h.events;
      classified = h.classified;
      sent = h.sent;
      rules = h.rules;
      emails = h.emails;
    };
  }

-- The enqueuing of a scan, whatever fails, adds to the raw queue, behind what waits there, only
-- events of its own job, for messages that the job's source can list: of the mock's fixed ones if
-- it is the mock, else with the id that the Gmail API gives to an id on a page of the source's
-- query. It leaves the classified queue, the mailbox, the stored rules and the stored emails as they
-- are.
pub enqueue_scan-IsExtended :
    (lib : GoLib) (codec : Codec) (env : Env) (reader : Source) (fuel : ℕ) (job : Job) (w : World)
    → IsExtended codec env reader job w.state (enqueue_scan lib codec env reader fuel job w).state
enqueue_scan-IsExtended lib codec env reader fuel job w =
    enqueue_scan-keeps codec env reader job (IsExtended codec env reader job w.state)
      (publish-IsExtended codec env reader job w.state)
      (λ totals b. progress-IsExtended codec env reader job w.state totals)
      (λ time status totals b. complete-IsExtended codec env reader job w.state time status totals)
      lib fuel w
      (record {
        published = [];
        queue = sym (append-nil _);
        events = tt;
        classified = refl;
        sent = refl;
        rules = refl;
        emails = refl;
      })
