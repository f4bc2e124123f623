-- ===== src/Pipeline/Soundness.antt =====
-- The tables over the turns of the system.
use email_triage_system.Common.{String, Bool, Option, none, some, ◌==◌}
use email_triage_system.Text.{GoLib}
use email_triage_system.Classifier
use email_triage_system.Reader.Source.{Source}
use email_triage_system.Events.{Body, Codec, RawEmailEvent, ClassifiedEmailEvent}
use email_triage_system.World.{Env, World}
use email_triage_system.World.Keeps.{
  Keeps, OpKeeps, Keeps-bind, Keeps-now, Keeps-call, Keeps-pure, Keeps-fail, Keeps-if, keeps_rules,
}
use email_triage_system.Storage.{list_enabled_user_rules}
use email_triage_system.Broker.{
  publish_raw_email, publish_classified_email, ack_raw, ack_classified,
}
use email_triage_system.Gmail.{
  list_labels, send_create_label, send_modify, label_or_create, ensure_label,
  apply_label_to_message,
}
use email_triage_system.Consumer.{
  publish_classified, publish_if_apply, classify_event, classify_read, process_raw_email,
  mark_applied, apply_label, apply_event, apply_read, process_classified_email, handle_raw_delivery,
  handle_classified_delivery,
}
use email_triage_system.Scans.{Job, raw_event_of, start_scan}
use email_triage_system.Scans.Enqueue.{enqueue_scan-keeps}
use email_triage_system.Pipeline.{Step, start, enqueue, classify, label, Reach, Reach_induction}
use email_triage_system.Consumer.Handling.{drop_if-Keeps, handle-Keeps}
use email_triage_system.Pipeline.Tables.{
  IsSound, row_of-RowSound, upsert_email_message-IsSound, mark_email_label_applied-IsSound,
  create_scan_run-IsSound, complete_scan_run-IsSound, update_scan_run_progress-IsSound,
}

module _ (lib : GoLib) (codec : Codec) (env : Env) where
  list_enabled_user_rules-IsSound : (u : String) → OpKeeps IsSound (list_enabled_user_rules u)
  unfolding list_enabled_user_rules
  list_enabled_user_rules-IsSound u = record { after_op = λ s h. h }

  publish_raw_email-IsSound :
      (event : RawEmailEvent) → OpKeeps IsSound (publish_raw_email codec event)
  unfolding publish_raw_email
  publish_raw_email-IsSound event = record { after_op = λ s h. h }

  publish_classified_email-IsSound :
      (event : ClassifiedEmailEvent) → OpKeeps IsSound (publish_classified_email codec event)
  unfolding publish_classified_email
  publish_classified_email-IsSound event = record { after_op = λ s h. h }

  ack_raw-IsSound : (body : Body) → OpKeeps IsSound (ack_raw body)
  unfolding ack_raw
  ack_raw-IsSound body = record { after_op = λ s h. h }

  ack_classified-IsSound : (body : Body) → OpKeeps IsSound (ack_classified body)
  unfolding ack_classified
  ack_classified-IsSound body = record { after_op = λ s h. h }

  ensure_label-IsSound : (name : String) → Keeps IsSound (ensure_label lib env name)
  unfolding ensure_label list_labels
  ensure_label-IsSound name =
      Keeps-bind _ _ (Keeps-call env _ (record { after_op = λ s h. h })) (λ labels. found _)
    where
      found : (o : Option String) → Keeps IsSound (label_or_create lib env name o)
      found none =
          unfold label_or_create send_create_label in
          Keeps-call env _ (record { after_op = λ s h. h })
      found (some id) = unfold label_or_create in Keeps-pure id

  apply_label_to_message-IsSound :
      (id label_id : String) (mark_read : Bool)
      → Keeps IsSound (apply_label_to_message lib env id label_id mark_read)
  unfolding apply_label_to_message send_modify
  apply_label_to_message-IsSound id label_id mark_read =
      Keeps-call env _ (record { after_op = λ s h. h })

  mark_applied-IsSound :
      (event : ClassifiedEmailEvent) → Keeps IsSound (mark_applied lib codec env event)
  unfolding mark_applied
  mark_applied-IsSound event = search (keeps_rules, mark_email_label_applied-IsSound)

  apply_label-IsSound :
      (event : ClassifiedEmailEvent) → Keeps IsSound (apply_label lib codec env event)
  unfolding apply_label
  apply_label-IsSound event =
      search
        (
          keeps_rules, mark_applied-IsSound, ensure_label-IsSound, apply_label_to_message-IsSound,
          drop_if-Keeps,
        )
        depth 8

  apply_read-IsSound :
      (read : Option ClassifiedEmailEvent) → Keeps IsSound (apply_read lib codec env read)
  unfolding apply_event
  apply_read-IsSound none = Keeps-fail _
  apply_read-IsSound (some event) =
      Keeps-if (event.mode == "apply") _ _ (λ _. apply_label-IsSound event) (λ _. Keeps-pure tt)

  publish_if_apply-IsSound :
      (event : RawEmailEvent) (result : Classifier.Result)
      → Keeps IsSound (publish_if_apply lib codec env event result)
  unfolding publish_if_apply publish_classified
  publish_if_apply-IsSound event result =
      Keeps-if (event.mode == "apply") _ _
        (λ _.
          Keeps-bind _ _ (Keeps-now env)
            (λ time. Keeps-call env _ (publish_classified_email-IsSound _)))
        (λ _. Keeps-pure tt)

  classify_read-IsSound :
      (read : Option RawEmailEvent) → Keeps IsSound (classify_read lib codec env read)
  unfolding classify_event
  classify_read-IsSound none = Keeps-fail _
  classify_read-IsSound (some event) =
      search
        (
          keeps_rules, list_enabled_user_rules-IsSound, upsert_email_message-IsSound,
          row_of-RowSound, publish_if_apply-IsSound,
        )
        depth 9

  start_scan-IsSound :
      (user_id mode query : String) (mark_read : Bool)
      → Keeps IsSound (start_scan env user_id mode query mark_read)
  unfolding start_scan
  start_scan-IsSound user_id mode query mark_read =
      search (keeps_rules, create_scan_run-IsSound) depth 7

module _ (lib : GoLib) (codec : Codec) (env : Env) (reader : Source) (ok_job : Job → Type 0) where
  Step-IsSound :
      (u v : World) → Step lib codec env reader ok_job u v → IsSound u.state → IsSound v.state
  unfolding handle_raw_delivery handle_classified_delivery process_raw_email
      process_classified_email
  Step-IsSound u v (start user_id mode query mark_read w) h =
      (start_scan-IsSound lib codec env user_id mode query mark_read).after u h
  Step-IsSound u v (enqueue fuel job w permitted) h =
      enqueue_scan-keeps codec env reader job IsSound
        (λ time message _. publish_raw_email-IsSound lib codec env (raw_event_of job time message))
        (update_scan_run_progress-IsSound job.run_id)
        (λ time. complete_scan_run-IsSound time job.run_id) lib fuel u h
  Step-IsSound u v (classify body w m) h =
      (handle-Keeps IsSound env _ _ (classify_read-IsSound lib codec env (codec.unmarshal_raw body))
          (Keeps-call env _ (ack_raw-IsSound lib codec env body))).after
        u h
  Step-IsSound u v (label body w m) h =
      (handle-Keeps IsSound env _ _
          (apply_read-IsSound lib codec env (codec.unmarshal_classified body))
          (Keeps-call env _ (ack_classified-IsSound lib codec env body))).after
        u h

  -- Whatever the order of turns, the faults and the redeliveries, the tables stay sound: one row for
  -- each user and message; a row is applied with a label, or waits as dry_run or classified with
  -- none; and the found messages of every run are those published and those failed.
  pub Reach-IsSound :
      (w v : World) → Reach lib codec env reader ok_job w v → IsSound w.state → IsSound v.state
  Reach-IsSound = Reach_induction lib codec env reader ok_job (λ w. IsSound w.state) Step-IsSound
