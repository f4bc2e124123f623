-- ===== src/Consumer/Success.antt =====
-- The classifier worker in an environment with no faults.
use email_triage_system.Common.{
  List, ℕ, ◌+◌, ◌≡◌, refl, ◌∙◌, true, some, Bool-cases, inl, inr, ◌==◌,
}
use email_triage_system.Text.{GoLib}
use email_triage_system.Classifier
use email_triage_system.Classifier.{classify}
use email_triage_system.Events.{Body, Codec, RawEmailEvent}
use email_triage_system.Models.{EmailMessage, UserRule}
use email_triage_system.World.{Env, State, World, ok, Exec, call, now, tick}
use email_triage_system.World.Runs.{FaultFree, bind_ok, call_ok}
use email_triage_system.Storage.{
  with_db, has_run, upsert_rows, upsert_email_message, select_rules, list_enabled_user_rules,
}
use email_triage_system.Broker.{publish_classified_email}
use email_triage_system.Consumer.Outcome.{classified_state, process_raw_email-state}
use email_triage_system.Consumer.{
  message_of, row_of, to_classification_rules, publish_if_apply, publish_classified, classify_event,
  process_raw_email,
}

-- Some world is left with success.
abbrev Succeeds : Exec (Unit {0}) → World → Type 0
Succeeds m w = (w' : World) × (m w ≡ (ok tt, w'))

upsert-ok :
    (m : EmailMessage) (s : State)
    → has_run m.scan_run_id s.db.scan_runs ≡ true
    → (t : State) × (upsert_email_message m s ≡ (ok tt, t))
unfolding upsert_email_message
upsert-ok m s h =
    (with_db s (record s.db { email_messages = upsert_rows m s.db.email_messages }), rw h refl)

module _ (lib : GoLib) (codec : Codec) (env : Env) (free : FaultFree env) where
  publish_if_apply-Succeeds :
      (event : RawEmailEvent) (result : Classifier.Result) (w : World)
      → Succeeds (publish_if_apply lib codec env event result) w
  unfolding publish_if_apply publish_classified publish_classified_email now
  publish_if_apply-Succeeds event result w = elim (Bool-cases (event.mode == "apply")) [
    | inl apply ↦ rw apply (
      _,
      bind_ok (now env) _ w (env.clock w.calls) (tick w) refl
          ∙ call_ok env _ (tick w) tt _ free refl,
    )
    | inr other ↦ rw other (w, refl)
  ]

  classify_event-Succeeds :
      (event : RawEmailEvent) (w : World)
      → has_run (some event.scan_run_id) w.state.db.scan_runs ≡ true
      → Succeeds (classify_event lib codec env event) w
  unfolding classify_event list_enabled_user_rules now
  classify_event-Succeeds event w h =
      let rules : List UserRule = select_rules event.user_id w.state.db.user_rules in
      let w1 : World = record { state = w.state; calls = w.calls + 1 } in
      let time : ℕ = env.clock w1.calls in
      let result : Classifier.Result =
        classify lib (message_of event) (to_classification_rules rules) in
      let (t, stored) = upsert-ok (row_of event result time) w.state h in
      let w3 : World = record { state = t; calls = w.calls + 1 + 1 + 1 } in
      let (w4, published) = publish_if_apply-Succeeds event result w3 in
      (
        w4,
        bind_ok (call env (list_enabled_user_rules event.user_id)) _ w rules w1
              (call_ok env (list_enabled_user_rules event.user_id) w rules w.state free refl)
            ∙ (bind_ok (now env) _ w1 time (tick w1) refl
                ∙ (bind_ok (call env (upsert_email_message (row_of event result time))) _ (tick w1)
                      tt w3
                      (call_ok env (upsert_email_message (row_of event result time)) (tick w1) tt t
                        free stored)
                    ∙ published)),
      )

-- With no faults, the classifier worker succeeds on every body that reads as an event of a scan
-- run that is stored, whatever the rules and the message are; it then has stored the event's row
-- and, in apply mode alone, published its classification.
pub process_raw_email-FaultFree :
    (lib : GoLib) (codec : Codec) (env : Env) (body : Body) (event : RawEmailEvent) (w : World)
    → FaultFree env
    → codec.unmarshal_raw body ≡ some event
    → has_run (some event.scan_run_id) w.state.db.scan_runs ≡ true
    → (w' : World) × (process_raw_email lib codec env body w ≡ (ok tt, w'))
      × ((stored published : ℕ) × (w'.state
            ≡ classified_state lib codec event stored published w.state))
unfolding process_raw_email
process_raw_email-FaultFree lib codec env body event w free read h =
    let (w', e) = classify_event-Succeeds lib codec env free event w h in
    let done : process_raw_email lib codec env body w ≡ (ok tt, w') = rw read e in
    (w', done, process_raw_email-state lib codec env body event w w' read done)
