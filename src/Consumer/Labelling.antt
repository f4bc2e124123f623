-- ===== src/Consumer/Labelling.antt =====
-- What a successful run of the label worker has done to the mailbox and the tables.
use email_triage_system.Common.{
  ℕ, String, Bool, ◌≡◌, ◌≢◌, ◌⊎◌, sym, ap, ap₂, ◌∙◌, Option, none, some, List, [], ◌∷◌, ◌++◌, arith,
  if◌then◌else◌, ◌==◌, eq_iff, Bool-cases, inl, inr, false,
}
use mathlib.Core.List.{append-nil}
use email_triage_system.Text.{GoLib}
use email_triage_system.Events.{Body, Codec, ClassifiedEmailEvent}
use email_triage_system.World.{
  Env, State, World, Error, Result, ok, Request, Label, create_label, modify_message, fail, catch,
  call, now,
}
use email_triage_system.World.Runs.{>>=-eq-ok, call-eq-ok, catch-eq-ok}
use email_triage_system.Storage.{with_db, update_emails, as_applied, mark_email_label_applied}
use email_triage_system.Gmail.{
  find_label, list_labels, send_create_label, send_modify, label_or_create, ensure_label,
  apply_label_to_message, is_permanent_error,
}
use email_triage_system.Consumer.{
  drop_if, is_not_found, mark_applied, apply_label, apply_event, process_classified_email,
}

-- The handlers of the worker never turn an error into a success.
drop_if-fails {ℓ} :
    {A : Type ℓ} (test : Error → Bool) (e : Error) (v : World) (a : A) (w : World)
    → ¬ (drop_if test e v ≡ (ok a, w))
drop_if-fails test e v a w h = elim (Bool-cases (test e)) [
  | inl drop ↦ fails _ (rw drop at h)
  | inr keep ↦ fails _ (rw keep at h)
]
  where
    fails : (x : Error) → ¬ (fail x v ≡ (ok a, w))
    fails x h = cc

module _ (lib : GoLib) (env : Env) where
  -- What ensures a label: nothing for one that is found, else a request that creates it.
  abbrev pub creation : String → Option String → List Request
  creation name none = create_label name "labelShow" "show" ∷ []
  creation name (some id) = []

  abbrev pub ensured_id : String → List Request → Option String → String
  ensured_id name sent none = env.created_id sent name
  ensured_id name sent (some id) = id

  abbrev pub removed_labels : Bool → List String
  removed_labels mark_read = if mark_read then "INBOX" ∷ "UNREAD" ∷ [] else "INBOX" ∷ []

  -- The label that the mailbox has for a name, up to the case of its letters.
  abbrev pub known_label : String → State → Option String
  known_label name s = find_label lib name (env.labels s.sent)

  -- The services after a message is labelled, at a reading of the clock.
  abbrev pub labelled_state : ClassifiedEmailEvent → ℕ → State → State
  labelled_state event time s =
      let name : String = event.classification.predicted_label in
      let id : String = event.classification.gmail_message_id in
      let known : Option String = known_label name s in
      record s {
        sent =
            (s.sent ++ creation name known)
            ++ modify_message id (ensured_id name s.sent known ∷ [])
                (removed_labels event.mark_read)
              ∷ [];
        db = record s.db {
          email_messages =
              update_emails (as_applied name time) event.user_id id s.db.email_messages;
        };
      }

  abbrev with_creation : String → Option String → State → State
  with_creation name known s = record s { sent = s.sent ++ creation name known }

  label_or_create-state :
      (name : String) (known : Option String) (v w' : World) (id : String)
      → label_or_create lib env name known v ≡ (ok id, w')
      → (w'.state ≡ with_creation name known v.state) × (id ≡ ensured_id name v.state.sent known)
  unfolding label_or_create send_create_label
  label_or_create-state name none v w' id h =
      let e : send_create_label lib env name v.state ≡ (ok id, w'.state) =
        call-eq-ok env _ v id w' h in
      (ground arith, ground arith)
  label_or_create-state name (some known) v w' id h =
      let same : v ≡ w' = cc in
      let same_id : known ≡ id = cc in
      (rw append-nil (ap (λ (u : World). u.state) (sym same)), sym same_id)

  list_labels-state :
      (s t : State) (labels : List (Option Label))
      → list_labels lib env s ≡ (ok labels, t)
      → (labels ≡ env.labels s.sent) × (t ≡ s)
  unfolding list_labels
  list_labels-state s t labels h = ground arith

  ensure_label-state :
      (name : String) (w w' : World) (id : String)
      → ensure_label lib env name w ≡ (ok id, w')
      → (w'.state ≡ with_creation name (known_label name w.state) w.state)
        × (id ≡ ensured_id name w.state.sent (known_label name w.state))
  unfolding ensure_label
  ensure_label-state name w w' id h =
      let (labels, v, e, h') = >>=-eq-ok (call env (list_labels lib env)) _ w id w' h in
      let (same_labels, same) =
        list_labels-state w.state v.state labels (call-eq-ok env _ w labels v e) in
      let (after, which) = label_or_create-state name (find_label lib name labels) v w' id h' in
      (
        after ∙ ap₂ (λ ls s. with_creation name (find_label lib name ls) s) same_labels same,
        which
            ∙ ap₂ (λ ls (s : State). ensured_id name s.sent (find_label lib name ls)) same_labels
                same,
      )

  modify_state :
      (id : String) (added removed : List String) (s t : State) (u : Unit {0})
      → send_modify lib env id added removed s ≡ (ok u, t)
      → t ≡ record s { sent = s.sent ++ modify_message id added removed ∷ [] }
  unfolding send_modify
  modify_state id added removed s t u h = ground arith

  marked_state :
      (time : ℕ) (user id name : String) (s t : State) (u : Unit {0})
      → mark_email_label_applied time user id name s ≡ (ok u, t)
      → t
        ≡ with_db s (record s.db {
          email_messages = update_emails (as_applied name time) user id s.db.email_messages;
        })
  unfolding mark_email_label_applied
  marked_state time user id name s t u h = ground arith

  now_state : (v v' : World) (time : ℕ) → now env v ≡ (ok time, v') → v'.state ≡ v.state
  unfolding now
  now_state v v' time h = ground arith

  module _ (codec : Codec) (event : ClassifiedEmailEvent) where
    abbrev name_of : String
    name_of = event.classification.predicted_label

    abbrev id_of : String
    id_of = event.classification.gmail_message_id

    abbrev modified_to : String → State → State
    modified_to label s = record s {
      sent = s.sent ++ modify_message id_of (label ∷ []) (removed_labels event.mark_read) ∷ [];
    }

    abbrev marked_to : ℕ → State → State
    marked_to time s = with_db s (record s.db {
      email_messages =
          update_emails (as_applied name_of time) event.user_id id_of s.db.email_messages;
    })

    mark_applied-state :
        (w w' : World) (u : Unit {0})
        → mark_applied lib codec env event w ≡ (ok u, w')
        → (time : ℕ) × (w'.state ≡ marked_to time w.state)
    unfolding mark_applied
    mark_applied-state w w' u h =
        let (time, v, e, h') = >>=-eq-ok (now env) _ w u w' h in
        let marked =
          marked_state time event.user_id id_of name_of v.state w'.state u
            (call-eq-ok env _ v u w' h') in
        (time, marked ∙ ap (marked_to time) (now_state w v time e))

    apply_label-state :
        (w w' : World) (u : Unit {0})
        → apply_label lib codec env event w ≡ (ok u, w')
        → (time : ℕ) × (w'.state ≡ labelled_state event time w.state)
    unfolding apply_label apply_label_to_message
    apply_label-state w w' u h =
        let (id, v, e, h1) =
          >>=-eq-ok (catch (ensure_label lib env name_of) (drop_if is_permanent_error)) _ w u w'
            h in
        let (a, v2, e2, h2) =
          >>=-eq-ok
            (catch (apply_label_to_message lib env id_of id event.mark_read)
              (drop_if is_permanent_error))
            _ v u w' h1 in
        let (ensured, which) = ensure_label-state name_of w v id (
          catch-eq-ok (ensure_label lib env name_of) _ w id v
            (λ x y. drop_if-fails is_permanent_error x y id v) e) in
        let modified : v2.state ≡ modified_to id v.state =
          modify_state id_of (id ∷ []) (removed_labels event.mark_read) v.state v2.state a (
            call-eq-ok env _ v a v2 (
              catch-eq-ok (apply_label_to_message lib env id_of id event.mark_read) _ v a v2
                (λ x y. drop_if-fails is_permanent_error x y a v2) e2)) in
        let (time, marked) = mark_applied-state v2 w' u (
          catch-eq-ok (mark_applied lib codec env event) _ v2 u w'
            (λ x y. drop_if-fails is_not_found x y u w') h2) in
        (time, marked ∙ ap (marked_to time) (modified ∙ ap₂ modified_to which ensured))

-- When the label worker processes a body that reads as `event` with success, then one of two
-- things is so. In apply mode the label was created if the mailbox knew none of its name, the
-- message was given the label and taken out of the inbox, and was marked as read if the event asks
-- for it, and its row is marked as applied with that label. In another mode nothing was done.
pub process_classified_email-state :
    (lib : GoLib) (codec : Codec) (env : Env) (body : Body) (event : ClassifiedEmailEvent)
    (w w' : World)
    → codec.unmarshal_classified body ≡ some event
    → process_classified_email lib codec env body w ≡ (ok tt, w')
    → ((event.mode ≡ "apply")
        × ((time : ℕ) × (w'.state ≡ labelled_state lib env event time w.state)))
      ⊎ ((event.mode ≢ "apply") × (w' ≡ w))
unfolding process_classified_email apply_event
process_classified_email-state lib codec env body event w w' read h =
    elim (Bool-cases (event.mode == "apply")) [
      | inl apply ↦ inl (
        (eq_iff event.mode "apply").0 apply,
        apply_label-state lib env codec event w w' tt (rw apply at (rw read at h)),
      )
      | inr other ↦ inr (not_apply other, idle (rw other at (rw read at h)))
    ]
  where
    not_apply : (event.mode == "apply") ≡ false → event.mode ≢ "apply"
    not_apply other e = ground (arith, eq_iff event.mode "apply")

    idle : Path (Result (Unit {0}) × World) (ok tt, w) (ok tt, w') → w' ≡ w
    idle e = cc
