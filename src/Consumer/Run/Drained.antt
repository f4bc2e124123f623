-- ===== src/Consumer/Run/Drained.antt =====
-- The classifier worker's `Run` over all that waits in the raw queue.
use email_triage_system.Common.{
  ◌+◌, String, ◌≡◌, ◌≢◌, refl, ap, subst, subst⁻¹, sym, ◌∙◌, true, Option, none, some, Option-cases,
  inl, inr, List, [], ◌∷◌, ◌++◌, All, arith, map, eq_refl,
}
use email_triage_system.Text.{GoLib}
use email_triage_system.Models.{EmailMessage, ScanRun}
use email_triage_system.Events.{
  Body, bytes, text, number, truth, no_fields, field, same_body, Codec, RawEmailEvent,
}
use email_triage_system.World.{Env, State, World, ok, call}
use email_triage_system.World.Runs.{FaultFree, call_ok}
use email_triage_system.Storage.{has_run, find_email, upsert_rows}
use email_triage_system.Storage.Emails.{find_email-upsert_rows}
use email_triage_system.Broker.{remove_one, ack_raw}
use email_triage_system.Consumer.{
  is_drop, settled, handle, process_raw_email, handle_raw_delivery, row_of,
}
use email_triage_system.Consumer.Outcome.{result_in}
use email_triage_system.Consumer.Success.{process_raw_email-FaultFree}
use email_triage_system.Consumer.Run.{stopped, delivery, returned, go_on, receive, run}

-- What is read is no event, or an event of a scan run that is stored.
abbrev pub IsKnown : List ScanRun → Option RawEmailEvent → Type 0
IsKnown runs none = Unit
IsKnown runs (some event) = has_run (some event.scan_run_id) runs ≡ true

-- Where it is an event, its message has a row.
abbrev pub IsStored : List EmailMessage → Option RawEmailEvent → Type 0
IsStored rows none = Unit
IsStored rows (some event) = find_email event.user_id event.message.gmail_message_id rows ≢ none

-- Every row stays, under its key.
abbrev pub KeepsRows : State → State → Type 0
KeepsRows s t =
    (u g : String)
    → find_email u g s.db.email_messages ≢ none
    → find_email u g t.db.email_messages ≢ none

upsert_rows-KeepsRows :
    (m : EmailMessage) (rows : List EmailMessage) (u g : String)
    → find_email u g rows ≢ none
    → find_email u g (upsert_rows m rows) ≢ none
upsert_rows-KeepsRows m rows u g h e = ground (arith, find_email-upsert_rows m u g rows)

upsert_rows-there :
    (m : EmailMessage) (rows : List EmailMessage)
    → find_email m.user_id m.gmail_message_id (upsert_rows m rows) ≢ none
upsert_rows-there m rows e = ground (
  arith,
  find_email-upsert_rows m m.user_id m.gmail_message_id rows,
  eq_refl m.user_id,
  eq_refl m.gmail_message_id,
)

same_body_refl : (b : Body) → same_body b b ≡ true
unfolding same_body
same_body_refl (bytes a) = eq_refl a
same_body_refl (text a) = eq_refl a
same_body_refl (number n) = ground arith
same_body_refl (truth b) = ground arith
same_body_refl no_fields = refl
same_body_refl (field key a rest) = rw (eq_refl key, same_body_refl a, same_body_refl rest) refl

remove_one_first : (b : Body) (queue : List Body) → remove_one b (b ∷ queue) ≡ queue
unfolding remove_one
remove_one_first b queue = rw (same_body_refl b) refl

-- One delivery, processed or dropped, and acknowledged.
record Delivered (lib : GoLib) (codec : Codec) (env : Env) (body : Body) (w : World) : Type 0 where
  after : World
  handled : handle_raw_delivery lib codec env body w ≡ (ok tt, after)
  queue : after.state.raw_queue ≡ remove_one body w.state.raw_queue
  runs : after.state.db.scan_runs ≡ w.state.db.scan_runs
  stored : IsStored after.state.db.email_messages (codec.unmarshal_raw body)
  keeps : KeepsRows w.state after.state

IsStored-KeepsRows :
    (s t : State) (read : Option RawEmailEvent)
    → KeepsRows s t
    → IsStored s.db.email_messages read
    → IsStored t.db.email_messages read
IsStored-KeepsRows s t none keeps h = tt
IsStored-KeepsRows s t (some event) keeps h = keeps event.user_id event.message.gmail_message_id h

module _ (lib : GoLib) (codec : Codec) (env : Env) (free : FaultFree env) where
  abbrev acked : World → Body → World
  acked w body = record {
    state = record w.state { raw_queue = remove_one body w.state.raw_queue };
    calls = w.calls + 1;
  }

  ack_ok : (body : Body) (w : World) → call env (ack_raw body) w ≡ (ok tt, acked w body)
  unfolding ack_raw
  ack_ok body w = call_ok env (ack_raw body) w tt _ free refl

  dropped :
      (body : Body) (w : World)
      → codec.unmarshal_raw body ≡ none
      → handle_raw_delivery lib codec env body w ≡ (ok tt, acked w body)
  unfolding handle_raw_delivery handle process_raw_email is_drop
  dropped body w read = rw read (ack_ok body w)

  processed :
      (body : Body) (event : RawEmailEvent) (w w' : World)
      → process_raw_email lib codec env body w ≡ (ok tt, w')
      → handle_raw_delivery lib codec env body w ≡ (ok tt, acked w' body)
  unfolding handle_raw_delivery handle
  processed body event w w' h = ap (settled env (call env (ack_raw body))) h ∙ ack_ok body w'

  delivered :
      (body : Body) (w : World)
      → IsKnown w.state.db.scan_runs (codec.unmarshal_raw body)
      → Delivered lib codec env body w
  delivered body w known = elim (Option-cases (codec.unmarshal_raw body)) [
    | inl read ↦ record {
      after = acked w body;
      handled = dropped body w read;
      queue = refl;
      runs = refl;
      stored = rw read tt;
      keeps = λ u g h. h;
    }
    | inr (event, read) ↦
        let (w', done, (stored, published, same)) =
          process_raw_email-FaultFree lib codec env body event w free read (rw read at known) in
        let row : EmailMessage = row_of event (result_in lib event w.state) stored in
        let rows : w'.state.db.email_messages ≡ upsert_rows row w.state.db.email_messages =
          ap (λ (s : State). s.db.email_messages) same in
        record {
          after = acked w' body;
          handled = processed body event w w' done;
          queue = ap (λ (s : State). remove_one body s.raw_queue) same;
          runs = ap (λ (s : State). s.db.scan_runs) same;
          stored = rw read (
              subst⁻¹ (λ r. find_email event.user_id event.message.gmail_message_id r ≢ none) rows
                (upsert_rows-there row w.state.db.email_messages));
          keeps = λ u g h.
              subst⁻¹ (λ r. find_email u g r ≢ none) rows
                (upsert_rows-KeepsRows row w.state.db.email_messages u g h);
        }
  ]

  drained :
      (bodies : List Body) (w : World)
      → w.state.raw_queue ≡ bodies
      → All (λ b. IsKnown w.state.db.scan_runs (codec.unmarshal_raw b)) bodies
      → (v : World) × (receive lib codec env (map delivery bodies ++ stopped ∷ []) w
          ≡ (returned (ok tt), v))
        × (v.state.raw_queue ≡ [])
        × All (λ b. IsStored v.state.db.email_messages (codec.unmarshal_raw b)) bodies
        × KeepsRows w.state v.state
  unfolding receive
  drained [] w queue known = (w, refl, queue, tt, λ u g h. h)
  drained (body ∷ bodies) w queue known =
      let d = delivered body w known.0 in
      let rest : d.after.state.raw_queue ≡ bodies =
        d.queue ∙ ap (remove_one body) queue ∙ remove_one_first body bodies in
      let still : All (λ b. IsKnown d.after.state.db.scan_runs (codec.unmarshal_raw b)) bodies =
        subst (λ runs. All (λ b. IsKnown runs (codec.unmarshal_raw b)) bodies) (sym d.runs)
          known.1 in
      let (v, e, empty, stored, keeps) = drained bodies d.after rest still in
      (
        v,
        ap (λ r. go_on r (receive lib codec env (map delivery bodies ++ stopped ∷ []))) d.handled
            ∙ e,
        empty,
        (
          IsStored-KeepsRows d.after.state v.state (codec.unmarshal_raw body) keeps d.stored,
          stored,
        ),
        λ u g h. keeps u g (d.keeps u g h),
      )

-- With no fault: subscribed, given every body of the raw queue as a delivery in order, and stopped
-- then, the classifier worker's `Run` returns `nil` and leaves the raw queue empty, if each body
-- is no event or an event of a stored scan run; each body that is an event then has a row for its
-- message in `email_messages`, and every row that was there still has one of its key.
pub run_drains :
    (lib : GoLib) (codec : Codec) (env : Env) (w : World)
    → FaultFree env
    → All (λ b. IsKnown w.state.db.scan_runs (codec.unmarshal_raw b)) w.state.raw_queue
    → (v : World) × (run lib codec env (ok tt) (map delivery w.state.raw_queue ++ stopped ∷ []) w
        ≡ (returned (ok tt), v))
      × (v.state.raw_queue ≡ [])
      × All (λ b. IsStored v.state.db.email_messages (codec.unmarshal_raw b)) w.state.raw_queue
      × KeepsRows w.state v.state
unfolding run
run_drains lib codec env w free known = drained lib codec env free w.state.raw_queue w refl known
