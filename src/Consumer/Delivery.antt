-- ===== src/Consumer/Delivery.antt =====
-- What becomes of a delivery on the raw queue.
use email_triage_system.Common.{
  ◌+◌, ◌≡◌, refl, ap, ◌∙◌, ◌⊎◌, inl, inr, List, ◌==◌, Bool-cases, true, Option, none, some,
}
use email_triage_system.Text.{GoLib}
use email_triage_system.Classifier
use email_triage_system.Events.{Body, Codec, RawEmailEvent, ClassifiedEmailEvent}
use email_triage_system.World.{
  State, Env, World, Error, other, drop_delivery, Result, ok, err, catch, recover, fail, call,
  under, answer, tick, Fault, fine, refused, lost,
}
use email_triage_system.World.Keeps.{
  Keeps, OpKeeps, Keeps-call, Keeps-pure, Keeps-fail, Keeps-bind, Keeps-now, Keeps-if, keeps_rules,
}
use email_triage_system.Storage.Effects.{TouchesTables, TouchesTables-OpKeeps, table_rules}
use email_triage_system.Broker.{publish_classified_email, ack_raw, nack_requeue, remove_one}
use email_triage_system.Consumer.{
  is_drop, settled, handle, publish_classified, publish_if_apply, classify_event, classify_read,
  process_raw_email, handle_raw_delivery,
}

-- The raw queue is this one.
abbrev RawQueueIs : List Body → State → Type 0
RawQueueIs queue s = s.raw_queue ≡ queue

module _ (queue : List Body) where
  tables-RawQueueIs {ℓ} :
      {A : Type ℓ} (op : State → Result A × State)
      → TouchesTables op
      → OpKeeps (RawQueueIs queue) op
  tables-RawQueueIs op t = TouchesTables-OpKeeps (RawQueueIs queue) op t (λ s r h. h)

  publish_classified_email-RawQueueIs :
      (codec : Codec) (event : ClassifiedEmailEvent)
      → OpKeeps (RawQueueIs queue) (publish_classified_email codec event)
  unfolding publish_classified_email
  publish_classified_email-RawQueueIs codec event = record { after_op = λ s h. h }

  publish_if_apply-RawQueueIs :
      (lib : GoLib) (codec : Codec) (env : Env) (event : RawEmailEvent) (result : Classifier.Result)
      → Keeps (RawQueueIs queue) (publish_if_apply lib codec env event result)
  unfolding publish_if_apply publish_classified
  publish_if_apply-RawQueueIs lib codec env event result =
      Keeps-if (event.mode == "apply") _ _
        (λ _.
          Keeps-bind _ _ (Keeps-now env)
            (λ time. Keeps-call env _ (publish_classified_email-RawQueueIs codec _)))
        (λ _. Keeps-pure tt)

  classify_read-RawQueueIs :
      (lib : GoLib) (codec : Codec) (env : Env) (read : Option RawEmailEvent)
      → Keeps (RawQueueIs queue) (classify_read lib codec env read)
  unfolding classify_event
  classify_read-RawQueueIs lib codec env none = Keeps-fail _
  classify_read-RawQueueIs lib codec env (some event) =
      search (keeps_rules, table_rules, tables-RawQueueIs, publish_if_apply-RawQueueIs) depth 9

-- What a settled delivery was: processed, or dropped.
abbrev pub IsSettled : Result (Unit {0}) → Type 0
IsSettled r = (r ≡ ok tt) ⊎ (r ≡ err drop_delivery)

is_drop-IsSettled : (e : Error) → is_drop e ≡ true → IsSettled (err e)
unfolding is_drop
is_drop-IsSettled drop_delivery h = inr refl
is_drop-IsSettled _ h = cc

-- The queue after an action: as before, or without one copy of the body.
abbrev Kept : Body → List Body → Result (Unit {0}) × World → Type 0
Kept body queue r = (r.1.state.raw_queue ≡ queue) ⊎ (r.1.state.raw_queue ≡ remove_one body queue)

module _ (env : Env) (body : Body) where
  call-ack_raw : (w : World) → Kept body w.state.raw_queue (call env (ack_raw body) w)
  unfolding call ack_raw
  call-ack_raw w = at (env.fault w.calls)
    where
      at :
          (fault : Fault)
          → Kept body w.state.raw_queue
              (under fault (answer (ack_raw body w.state) (w.calls + 1)) (tick w))
      at fine = inr refl
      at (refused e) = inl refl
      at (lost e) = inr refl

  call-nack_requeue : (w : World) → (call env nack_requeue w).1.state ≡ w.state
  unfolding call nack_requeue
  call-nack_requeue w = at (env.fault w.calls)
    where
      at :
          (fault : Fault)
          → (under fault (answer (nack_requeue w.state) (w.calls + 1)) (tick w)).1.state ≡ w.state
      at fine = refl
      at (refused e) = refl
      at (lost e) = refl

  -- A settled result leaves the queue as it is or takes the body off; another leaves the services
  -- alone.
  settled-Kept :
      (r : Result (Unit {0}) × World)
      → ((settled env (call env (ack_raw body)) r).1.state ≡ r.1.state)
        ⊎ (Kept body r.1.state.raw_queue (settled env (call env (ack_raw body)) r) × IsSettled r.0)
  unfolding catch
  settled-Kept (ok a, w) = inr (call-ack_raw w, inl refl)
  settled-Kept (err e, w) = elim (Bool-cases (is_drop e)) [
    | inl drop ↦ inr (rw drop (call-ack_raw w, is_drop-IsSettled e drop))
    | inr keep ↦ inl (rw keep (recovered (call env nack_requeue w) ∙ call-nack_requeue w))
  ]
    where
      recovered :
          (r : Result (Unit {0}) × World)
          → (recover r (λ _. fail (other "process delivery and nack"))).1.state ≡ r.1.state
      recovered (ok a, v) = refl
      recovered (err e, v) = refl

-- A delivery leaves the raw queue as it was, or it was processed or dropped and the first copy of its
-- body is taken off, whatever calls fail. So after an error that is no drop the body stays.
pub handle_raw_delivery-IsSettled :
    (lib : GoLib) (codec : Codec) (env : Env) (body : Body) (w : World)
    → ((handle_raw_delivery lib codec env body w).1.state.raw_queue ≡ w.state.raw_queue)
      ⊎ (((handle_raw_delivery lib codec env body w).1.state.raw_queue
            ≡ remove_one body w.state.raw_queue)
          × IsSettled (process_raw_email lib codec env body w).0)
unfolding handle_raw_delivery handle process_raw_email
handle_raw_delivery-IsSettled lib codec env body w =
    let r : Result (Unit {0}) × World = process_raw_email lib codec env body w in
    let same : r.1.state.raw_queue ≡ w.state.raw_queue =
      (classify_read-RawQueueIs w.state.raw_queue lib codec env (codec.unmarshal_raw body)).after w
        refl in
    elim (settled-Kept env body r) [
      | inl e ↦ inl (ap (λ (s : State). s.raw_queue) e ∙ same)
      | inr (inl e, s) ↦ inl (e ∙ same)
      | inr (inr e, s) ↦ inr (e ∙ ap (remove_one body) same, s)
    ]
