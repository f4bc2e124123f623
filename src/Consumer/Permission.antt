-- ===== src/Consumer/Permission.antt =====
-- Which messages of the mailbox the workers may change.
use mathlib.Core.Option.{some-injective}
use email_triage_system.Common.{
  ℕ, sym, subst, ◌∙◌, String, ◌≡◌, refl, Option, none, some, List, [], ◌∷◌, ◌==◌, eq_iff, All,
  All-append, Bool-cases, inl, inr,
}
use email_triage_system.Text.{GoLib}
use email_triage_system.Classifier
use email_triage_system.Events.{
  Body, same_body, Codec, RoundTrips, RawEmailEvent, ClassifiedEmailEvent,
}
use email_triage_system.World.{Env, drop_delivery, Request, create_label, modify_message, State, Op}
use email_triage_system.World.Keeps.{
  Keeps, OpKeeps, Keeps-call, Keeps-pure, Keeps-fail, Keeps-bind, Keeps-now, Keeps-if, keeps_rules,
}
use email_triage_system.Storage.Effects.{TouchesTables, TouchesTables-OpKeeps, table_rules}
use email_triage_system.Broker.{publish_classified_email, ack_raw, ack_classified, remove_one}
use email_triage_system.Gmail.{
  list_labels, send_create_label, send_modify, label_or_create, ensure_label,
  apply_label_to_message,
}
use email_triage_system.Consumer.Handling.{drop_if-Keeps, handle-Keeps}
use email_triage_system.Consumer.{
  classified_of, publish_classified, publish_if_apply, classify_event, classify_read, apply_read,
  process_raw_email, mark_applied, apply_label, apply_event, process_classified_email,
  handle_raw_delivery, handle_classified_delivery,
}

module _ (codec : Codec) (allowed : String → Type 0) where
  -- An apply-mode event on the wire is for an allowed message.
  abbrev pub RawAllowed : Body → Type 0
  RawAllowed body =
      (event : RawEmailEvent)
      → codec.unmarshal_raw body ≡ some event
      → event.mode ≡ "apply"
      → allowed event.message.gmail_message_id

  abbrev pub ClassifiedAllowed : Body → Type 0
  ClassifiedAllowed body =
      (event : ClassifiedEmailEvent)
      → codec.unmarshal_classified body ≡ some event
      → event.mode ≡ "apply"
      → allowed event.classification.gmail_message_id

  -- A change of a message is for an allowed one.
  abbrev pub RequestAllowed : Request → Type 0
  RequestAllowed (create_label name shown listed) = Unit
  RequestAllowed (modify_message id added removed) = allowed id

  pub record IsAllowed (s : State) : Type 0 where
    pub raw : All RawAllowed s.raw_queue
    pub classified : All ClassifiedAllowed s.classified_queue
    pub sent : All RequestAllowed s.sent

  All-remove_one :
      (P : Body → Type 0) (body : Body) (queue : List Body)
      → All P queue
      → All P (remove_one body queue)
  unfolding remove_one
  All-remove_one P body [] h = tt
  All-remove_one P body (other ∷ queue) (h, hs) = elim (Bool-cases (same_body other body)) [
    | inl same ↦ rw same hs
    | inr differ ↦ rw differ (h, All-remove_one P body queue hs)
  ]

  pub tables-IsAllowed {ℓ} : {A : Type ℓ} (op : Op A) → TouchesTables op → OpKeeps IsAllowed op
  tables-IsAllowed op t =
      TouchesTables-OpKeeps IsAllowed op t
        (λ s r h. record { raw = h.raw; classified = h.classified; sent = h.sent })

  list_labels-IsAllowed : (lib : GoLib) (env : Env) → OpKeeps IsAllowed (list_labels lib env)
  unfolding list_labels
  list_labels-IsAllowed lib env = record { after_op = λ s h. h }

  send_create_label-IsAllowed :
      (lib : GoLib) (env : Env) (name : String) → OpKeeps IsAllowed (send_create_label lib env name)
  unfolding send_create_label
  send_create_label-IsAllowed lib env name = record {
    after_op = λ s h. record {
      raw = h.raw;
      classified = h.classified;
      sent = All-append RequestAllowed s.sent _ h.sent (tt, tt);
    };
  }

  send_modify-IsAllowed :
      (lib : GoLib) (env : Env) (id : String) (added removed : List String)
      → allowed id
      → OpKeeps IsAllowed (send_modify lib env id added removed)
  unfolding send_modify
  send_modify-IsAllowed lib env id added removed a = record {
    after_op = λ s h. record {
      raw = h.raw;
      classified = h.classified;
      sent = All-append RequestAllowed s.sent _ h.sent (a, tt);
    };
  }

  publish_classified_email-IsAllowed :
      (event : ClassifiedEmailEvent)
      → ClassifiedAllowed (codec.marshal_classified event)
      → OpKeeps IsAllowed (publish_classified_email codec event)
  unfolding publish_classified_email
  publish_classified_email-IsAllowed event a = record {
    after_op = λ s h. record {
      raw = h.raw;
      classified = All-append ClassifiedAllowed s.classified_queue _ h.classified (a, tt);
      sent = h.sent;
    };
  }

  ack_raw-IsAllowed : (body : Body) → OpKeeps IsAllowed (ack_raw body)
  unfolding ack_raw
  ack_raw-IsAllowed body = record {
    after_op = λ s h. record {
      raw = All-remove_one RawAllowed body s.raw_queue h.raw;
      classified = h.classified;
      sent = h.sent;
    };
  }

  ack_classified-IsAllowed : (body : Body) → OpKeeps IsAllowed (ack_classified body)
  unfolding ack_classified
  ack_classified-IsAllowed body = record {
    after_op = λ s h. record {
      raw = h.raw;
      classified = All-remove_one ClassifiedAllowed body s.classified_queue h.classified;
      sent = h.sent;
    };
  }

  ruleset allowed_rules = (
    keeps_rules, table_rules, tables-IsAllowed, list_labels-IsAllowed, send_create_label-IsAllowed,
    send_modify-IsAllowed, publish_classified_email-IsAllowed, ack_raw-IsAllowed,
    ack_classified-IsAllowed,
  )

  module _ (lib : GoLib) (env : Env) (trips : RoundTrips codec) where
    classified_of-Allowed :
        (event : RawEmailEvent) (result : Classifier.Result) (time : ℕ)
        → allowed event.message.gmail_message_id
        → ClassifiedAllowed (codec.marshal_classified (classified_of event result time))
    classified_of-Allowed event result time a other read mode =
        let same : classified_of event result time ≡ other =
          some-injective (classified_of event result time) other
            (sym (trips.classified (classified_of event result time)) ∙ read) in
        subst (λ (e : ClassifiedEmailEvent). allowed e.classification.gmail_message_id) same a

    publish_if_apply-IsAllowed :
        (event : RawEmailEvent) (result : Classifier.Result)
        → (event.mode ≡ "apply" → allowed event.message.gmail_message_id)
        → Keeps IsAllowed (publish_if_apply lib codec env event result)
    unfolding publish_if_apply publish_classified
    publish_if_apply-IsAllowed event result a =
        Keeps-if (event.mode == "apply") _ _
          (λ apply. Keeps-bind _ _ (Keeps-now env) (λ time. Keeps-call env _ (
            publish_classified_email-IsAllowed (classified_of event result time)
              (classified_of-Allowed event result time (a ((eq_iff event.mode "apply").0 apply))))))
          (λ _. Keeps-pure tt)

    classify_event-IsAllowed :
        (event : RawEmailEvent)
        → (event.mode ≡ "apply" → allowed event.message.gmail_message_id)
        → Keeps IsAllowed (classify_event lib codec env event)
    unfolding classify_event
    classify_event-IsAllowed event a = search (allowed_rules, publish_if_apply-IsAllowed, a) depth 9

    label_or_create-IsAllowed :
        (name : String) (found : Option String)
        → Keeps IsAllowed (label_or_create lib env name found)
    unfolding label_or_create
    label_or_create-IsAllowed name none = search allowed_rules
    label_or_create-IsAllowed name (some id) = Keeps-pure id

    ensure_label-IsAllowed : (name : String) → Keeps IsAllowed (ensure_label lib env name)
    unfolding ensure_label
    ensure_label-IsAllowed name = search (allowed_rules, label_or_create-IsAllowed)

    apply_label-IsAllowed :
        (event : ClassifiedEmailEvent)
        → allowed event.classification.gmail_message_id
        → Keeps IsAllowed (apply_label lib codec env event)
    unfolding apply_label apply_label_to_message mark_applied
    apply_label-IsAllowed event a =
        search (allowed_rules, ensure_label-IsAllowed, drop_if-Keeps, a) depth 8

    classify_read-IsAllowed :
        (read : Option RawEmailEvent)
        → ((event : RawEmailEvent)
            → read ≡ some event
            → event.mode ≡ "apply"
            → allowed event.message.gmail_message_id)
        → Keeps IsAllowed (classify_read lib codec env read)
    classify_read-IsAllowed none a = Keeps-fail drop_delivery
    classify_read-IsAllowed (some event) a = classify_event-IsAllowed event (a event refl)

    apply_read-IsAllowed :
        (read : Option ClassifiedEmailEvent)
        → ((event : ClassifiedEmailEvent)
            → read ≡ some event
            → event.mode ≡ "apply"
            → allowed event.classification.gmail_message_id)
        → Keeps IsAllowed (apply_read lib codec env read)
    unfolding apply_event
    apply_read-IsAllowed none a = Keeps-fail drop_delivery
    apply_read-IsAllowed (some event) a =
        Keeps-if (event.mode == "apply") _ _
          (λ apply.
            apply_label-IsAllowed event (a event refl ((eq_iff event.mode "apply").0 apply)))
          (λ _. Keeps-pure tt)

    -- A delivery of an allowed body, whatever fails on the way, leaves all events and requests
    -- allowed.
    pub handle_raw_delivery-IsAllowed :
        (body : Body) → RawAllowed body → Keeps IsAllowed (handle_raw_delivery lib codec env body)
    unfolding handle_raw_delivery process_raw_email
    handle_raw_delivery-IsAllowed body a =
        handle-Keeps (IsAllowed) env _ _ (classify_read-IsAllowed (codec.unmarshal_raw body) a)
          (Keeps-call env _ (ack_raw-IsAllowed body))

    pub handle_classified_delivery-IsAllowed :
        (body : Body)
        → ClassifiedAllowed body
        → Keeps IsAllowed (handle_classified_delivery lib codec env body)
    unfolding handle_classified_delivery process_classified_email
    handle_classified_delivery-IsAllowed body a =
        handle-Keeps (IsAllowed) env _ _ (apply_read-IsAllowed (codec.unmarshal_classified body) a)
          (Keeps-call env _ (ack_classified-IsAllowed body))
