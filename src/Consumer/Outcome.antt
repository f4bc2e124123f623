-- ===== src/Consumer/Outcome.antt =====
-- What a successful run of the classifier worker has done to the tables and the queue.
use email_triage_system.Common.{
  ℕ, String, ◌≡◌, ap, ◌∙◌, some, List, [], ◌∷◌, ◌++◌, arith, ◌==◌, if◌then◌else◌, Bool-cases, inl,
  inr,
}
use mathlib.Core.List.{append-nil}
use email_triage_system.Text.{GoLib}
use email_triage_system.Classifier
use email_triage_system.Classifier.{classify}
use email_triage_system.Models.{EmailMessage, UserRule}
use email_triage_system.Events.{Body, Codec, RawEmailEvent, ClassifiedEmailEvent}
use email_triage_system.World.{Env, State, World, ok, call, now}
use email_triage_system.World.Runs.{>>=-eq-ok, call-eq-ok}
use email_triage_system.Storage.{
  with_db, upsert_rows, select_rules, list_enabled_user_rules, upsert_email_message,
}
use email_triage_system.Broker.{publish_classified_email}
use email_triage_system.Consumer.{
  message_of, row_of, classified_of, to_classification_rules, publish_classified, publish_if_apply,
  classify_event, process_raw_email,
}

-- The result of the classifier under the rules that are stored for the event's user.
abbrev pub result_in : GoLib → RawEmailEvent → State → Classifier.Result
result_in lib event s =
    classify lib (message_of event)
      (to_classification_rules (select_rules event.user_id s.db.user_rules))

-- The services after a classification at two readings of the clock.
abbrev pub classified_state : GoLib → Codec → RawEmailEvent → ℕ → ℕ → State → State
classified_state lib codec event stored published s = record s {
  db = record s.db {
    email_messages = upsert_rows (row_of event (result_in lib event s) stored) s.db.email_messages;
  };
  classified_queue =
      s.classified_queue
      ++ (if event.mode == "apply"
          then codec.marshal_classified (classified_of event (result_in lib event s) published) ∷ []
          else []);
}

list_state :
    (u : String) (s t : State) (rules : List UserRule)
    → list_enabled_user_rules u s ≡ (ok rules, t)
    → (rules ≡ select_rules u s.db.user_rules) × (t ≡ s)
unfolding list_enabled_user_rules
list_state u s t rules h = ground arith

upsert_state :
    (m : EmailMessage) (s t : State)
    → upsert_email_message m s ≡ (ok tt, t)
    → t ≡ with_db s (record s.db { email_messages = upsert_rows m s.db.email_messages })
unfolding upsert_email_message
upsert_state m s t h = ground arith

now_state : (env : Env) (v v' : World) (time : ℕ) → now env v ≡ (ok time, v') → v'.state ≡ v.state
unfolding now
now_state env v v' time h = ground arith

publish_state :
    (codec : Codec) (event : ClassifiedEmailEvent) (s t : State) (u : Unit {0})
    → publish_classified_email codec event s ≡ (ok u, t)
    → t ≡ record s { classified_queue = s.classified_queue ++ codec.marshal_classified event ∷ [] }
unfolding publish_classified_email
publish_state codec event s t u h = ground arith

module _ (lib : GoLib) (codec : Codec) (env : Env) (event : RawEmailEvent) where
  -- What is published in apply mode, and nothing else.
  abbrev published_to : Classifier.Result → ℕ → State → State
  published_to result time s = record s {
    classified_queue =
        s.classified_queue
        ++ (if event.mode == "apply"
            then codec.marshal_classified (classified_of event result time) ∷ []
            else []);
  }

  publish_if_apply-state :
      (result : Classifier.Result) (v w' : World)
      → publish_if_apply lib codec env event result v ≡ (ok tt, w')
      → (time : ℕ) × (w'.state ≡ published_to result time v.state)
  unfolding publish_if_apply publish_classified
  publish_if_apply-state result v w' h = elim (Bool-cases (event.mode == "apply")) [
    | inl apply ↦
        let (time, v', e, h') = >>=-eq-ok (now env) _ v tt w' (rw apply at h) in
        let stored : w'.state ≡ record v'.state {
          classified_queue =
              v'.state.classified_queue
              ++ codec.marshal_classified (classified_of event result time) ∷ [];
        } =
          publish_state codec (classified_of event result time) v'.state w'.state tt
            (call-eq-ok env _ v' tt w' h') in
        (time, rw apply (rw (← now_state env v v' time e) stored))
    | inr other ↦ (0, rw other (rw append-nil (ground arith)))
  ]

  abbrev stored_to : EmailMessage → State → State
  stored_to m s = with_db s (record s.db { email_messages = upsert_rows m s.db.email_messages })

  join_states :
      (result : Classifier.Result) (s v v2 v3 s' : State) (stored published : ℕ)
      → result ≡ result_in lib event s
      → v ≡ s
      → v2 ≡ v
      → v3 ≡ stored_to (row_of event result stored) v2
      → s' ≡ published_to result published v3
      → s' ≡ classified_state lib codec event stored published s
  join_states result s v v2 v3 s' stored published same e1 e2 e3 e4 =
      e4
      ∙ ap (published_to result published)
          (e3 ∙ ap (stored_to (row_of event result stored)) (e2 ∙ e1))
      ∙ ap (λ r. published_to r published (stored_to (row_of event r stored) s)) same

  classify_event-state :
      (w w' : World)
      → classify_event lib codec env event w ≡ (ok tt, w')
      → (stored published : ℕ) × (w'.state
          ≡ classified_state lib codec event stored published w.state)
  unfolding classify_event
  classify_event-state w w' h =
      let (rules, v, e, h1) =
        >>=-eq-ok (call env (list_enabled_user_rules event.user_id)) _ w tt w' h in
      let (same_rules, same) =
        list_state event.user_id w.state v.state rules (call-eq-ok env _ w rules v e) in
      let (time, v2, e2, h2) = >>=-eq-ok (now env) _ v tt w' h1 in
      let (u, v3, e3, h3) =
        >>=-eq-ok
          (call env (
            upsert_email_message (
              row_of event (classify lib (message_of event) (to_classification_rules rules)) time)))
          _ v2 tt w' h2 in
      let (published, last) =
        publish_if_apply-state (classify lib (message_of event) (to_classification_rules rules)) v3
          w' h3 in
      (
        time,
        published,
        join_states (classify lib (message_of event) (to_classification_rules rules)) w.state
            v.state v2.state v3.state w'.state time published
            (ap (λ rs. classify lib (message_of event) (to_classification_rules rs)) same_rules)
            same (now_state env v v2 time e2)
            (upsert_state _ v2.state v3.state (call-eq-ok env _ v2 u v3 e3)) last,
      )

-- When the classifier worker processes a body that reads as `event` with success, then the state
-- it leaves is the one it found with the classification of the event, under the rules stored for
-- its user, upserted as a row, and, in apply mode alone, one event added to the classified queue.
pub process_raw_email-state :
    (lib : GoLib) (codec : Codec) (env : Env) (body : Body) (event : RawEmailEvent) (w w' : World)
    → codec.unmarshal_raw body ≡ some event
    → process_raw_email lib codec env body w ≡ (ok tt, w')
    → (stored published : ℕ) × (w'.state
        ≡ classified_state lib codec event stored published w.state)
unfolding process_raw_email
process_raw_email-state lib codec env body event w w' read h =
    classify_event-state lib codec env event w w' (rw read at h)
