-- ===== src/Consumer.antt =====
-- internal/consumer: what the classifier worker and the label worker do with a delivery.
pub mod Handling
pub mod Permission
pub mod Delivery
pub mod Outcome
pub mod Labelling
pub mod Success
pub mod Pool
pub mod Run
use email_triage_system.Common.{
  ℕ, String, Bool, true, false, Option, none, some, List, [], ◌∷◌, ◌==◌, if◌then◌else◌,
}
use email_triage_system.Text.{GoLib}
use email_triage_system.Rules.{Rule, scope_global, scope_user_specific}
use email_triage_system.Reader.{Message}
use email_triage_system.Classifier
use email_triage_system.Classifier.{classify}
use email_triage_system.Models.{EmailMessage, UserRule}
use email_triage_system.Events.{Body, Codec, RawEmailEvent, ClassifiedEmailEvent}
use email_triage_system.World.{
  Env, Error, drop_delivery, email_message_not_found, other, Result, ok, err, Exec, World, call,
  now, pure, fail, catch, ◌>>=◌, ◌>>◌,
}
use email_triage_system.Storage.{
  list_enabled_user_rules, upsert_email_message, mark_email_label_applied,
}
use email_triage_system.Broker.{publish_classified_email, ack_raw, ack_classified, nack_requeue}
use email_triage_system.Gmail.{is_permanent_error, ensure_label, apply_label_to_message}

unfoldable pub rule_scope : UserRule → String
rule_scope rule = elim rule.user_id [ none ↦ scope_global | some owner ↦ scope_user_specific ]

abbrev pub to_classification_rule : UserRule → Rule
to_classification_rule rule = record {
  rule_type = rule.rule_type;
  operator = rule.operator;
  rule_value = rule.rule_value;
  target_label = rule.target_label;
  enabled = rule.enabled;
  priority = rule.priority;
  scope = rule_scope rule;
}

unfoldable pub to_classification_rules : List UserRule → List Rule
to_classification_rules [] = []
to_classification_rules (rule ∷ rules) = to_classification_rule rule ∷ to_classification_rules rules

abbrev pub message_of : RawEmailEvent → Message
message_of event = record {
  id = event.message.gmail_message_id;
  thread_id = event.message.thread_id;
  from = event.message.from;
  subject = event.message.subject;
  body_snippet = event.message.body_snippet;
}

abbrev pub status_of : String → String
status_of mode = if mode == "dry_run" then "dry_run" else "classified"

-- The row that the classifier worker stores.
abbrev pub row_of : RawEmailEvent → Classifier.Result → ℕ → EmailMessage
row_of event result time = record {
  scan_run_id = some event.scan_run_id;
  user_id = event.user_id;
  gmail_message_id = event.message.gmail_message_id;
  predicted_label = result.label;
  applied_label = none;
  confidence = result.confidence;
  reason = result.reason;
  status = status_of event.mode;
  processed_at = some time;
}

-- The event that the classifier worker publishes in apply mode.
abbrev pub classified_of : RawEmailEvent → Classifier.Result → ℕ → ClassifiedEmailEvent
classified_of event result time = record {
  scan_run_id = event.scan_run_id;
  user_id = event.user_id;
  mode = event.mode;
  mark_read = event.mark_read;
  classified_at = time;
  classification = record {
    gmail_message_id = event.message.gmail_message_id;
    predicted_label = result.label;
    confidence = result.confidence;
  };
}

-- The errors that drop a delivery: those that `permanent` names.
abbrev pub drop_if {ℓ} : {A : Type ℓ} → (Error → Bool) → Error → Exec A
drop_if permanent e = if permanent e then fail drop_delivery else fail e

-- `errors.Is(err, storage.ErrEmailMessageNotFound)`
unfoldable pub is_not_found : Error → Bool
is_not_found email_message_not_found = true
is_not_found _ = false

unfoldable pub is_drop : Error → Bool
is_drop drop_delivery = true
is_drop _ = false

module _ (lib : GoLib) (codec : Codec) (env : Env) where
  unfoldable pub publish_classified : RawEmailEvent → Classifier.Result → Exec (Unit {0})
  publish_classified event result = do
    time ← now env
    call env (publish_classified_email codec (classified_of event result time))

  unfoldable pub publish_if_apply : RawEmailEvent → Classifier.Result → Exec (Unit {0})
  publish_if_apply event result =
      if event.mode == "apply" then publish_classified event result else pure tt

  unfoldable pub classify_event : RawEmailEvent → Exec (Unit {0})
  classify_event event = do
    user_rules ← call env (list_enabled_user_rules event.user_id)
    let result = classify lib (message_of event) (to_classification_rules user_rules)
    time ← now env
    call env (upsert_email_message (row_of event result time))
    publish_if_apply event result

  -- What cannot be read is dropped.
  abbrev pub classify_read : Option RawEmailEvent → Exec (Unit {0})
  classify_read none = fail drop_delivery
  classify_read (some event) = classify_event event

  unfoldable pub process_raw_email : Body → Exec (Unit {0})
  process_raw_email body = classify_read (codec.unmarshal_raw body)

  -- The update's `NOW()` is a reading of the clock.
  unfoldable pub mark_applied : ClassifiedEmailEvent → Exec (Unit {0})
  mark_applied event = do
    time ← now env
    call env (
        mark_email_label_applied time event.user_id event.classification.gmail_message_id
          event.classification.predicted_label)

  unfoldable pub apply_label : ClassifiedEmailEvent → Exec (Unit {0})
  apply_label event = do
    label_id ←
        catch (ensure_label lib env event.classification.predicted_label)
          (drop_if is_permanent_error)
    catch
        (apply_label_to_message lib env event.classification.gmail_message_id label_id
          event.mark_read)
        (drop_if is_permanent_error)
    catch (mark_applied event) (drop_if is_not_found)

  unfoldable pub apply_event : ClassifiedEmailEvent → Exec (Unit {0})
  apply_event event = if event.mode == "apply" then apply_label event else pure tt

  abbrev pub apply_read : Option ClassifiedEmailEvent → Exec (Unit {0})
  apply_read none = fail drop_delivery
  apply_read (some event) = apply_event event

  unfoldable pub process_classified_email : Body → Exec (Unit {0})
  process_classified_email body = apply_read (codec.unmarshal_classified body)

-- Acknowledge what is done or dropped, and requeue the rest.
abbrev pub settle : Env → Exec (Unit {0}) → Error → Exec (Unit {0})
settle env ack e =
    if is_drop e
    then ack
    else catch (call env nack_requeue) (λ _. fail (other "process delivery and nack"))

-- `errors.Is(err, errDropDelivery)` and no error at all lead to the same call.
abbrev pub settled : Env → Exec (Unit {0}) → Result (Unit {0}) × World → Result (Unit {0}) × World
settled env ack (ok a, w) = ack w
settled env ack (err e, w) = settle env ack e w

unfoldable pub handle : Env → Exec (Unit {0}) → Exec (Unit {0}) → Exec (Unit {0})
handle env process ack w = settled env ack (process w)

module _ (lib : GoLib) (codec : Codec) (env : Env) where
  unfoldable pub handle_raw_delivery : Body → Exec (Unit {0})
  handle_raw_delivery body =
      handle env (process_raw_email lib codec env body) (call env (ack_raw body))

  unfoldable pub handle_classified_delivery : Body → Exec (Unit {0})
  handle_classified_delivery body =
      handle env (process_classified_email lib codec env body) (call env (ack_classified body))
