-- ===== src/Broker/Connection/Handles.antt =====
-- The handles that are open after a connection was tried, used and closed.
use mathlib.Core.List.{append_assoc}
use email_triage_system.Common.{
  subst, ℕ, ◌+◌, ◌-◌, ◌≡◌, refl, ap, ◌∙◌, inl, inr, Option, none, some, Option-cases, [], ◌∷◌, ◌++◌,
  arith,
}
use email_triage_system.World.{Error, Result, ok, err}
use email_triage_system.Broker.Connection.{
  Amqp, Server, Session, email_events_exchange, email_raw_routing_key, email_raw_queue,
  email_classified_key, email_classified_queue, request, release, bind_classified,
  declare_classified, bind_raw, declare_raw, declare_exchange, new_rabbitmq, close, or_close,
  or_close_both, or_fail, close_channel, close_connection, open_channel, dial,
}

-- What a success leaves, and as many handles as these after an error.
abbrev pub Ends : ℕ → ℕ → (Server → Type 0) → Result (Unit {0}) × Server → Type 0
Ends connections channels Q (ok done, s) = Q s
Ends connections channels Q (err e, s) = (s.connections ≡ connections) × (s.channels ≡ channels)

-- The exchange, the queues and the bindings of the two workers, beside what was there, and the two
-- handles.
pub record IsOpened (before after : Server) : Type 0 where
  pub one_connection : after.connections ≡ before.connections + 1
  pub one_channel : after.channels ≡ before.channels + 1
  pub one_exchange : after.exchanges ≡ before.exchanges ++ email_events_exchange ∷ []
  pub two_queues : after.queues ≡ before.queues ++ (email_raw_queue ∷ email_classified_queue ∷ [])
  pub two_bindings :
      after.bindings
      ≡ before.bindings
        ++ (record {
          queue = email_raw_queue;
          key = email_raw_routing_key;
          exchange = email_events_exchange;
        }
            ∷ record {
              queue = email_classified_queue;
              key = email_classified_key;
              exchange = email_events_exchange;
            }
            ∷ [])

abbrev pub first_failure : Option Error → Option Error → Result (Unit {0})
first_failure none none = ok tt
first_failure none (some e) = err e
first_failure (some e) later = err e

abbrev both_open : Server → Server
both_open s = record s {
  requests = s.requests + 1 + 1;
  connections = s.connections + 1;
  channels = s.channels + 1;
}

add-sub_one : (n : ℕ) → n + 1 - 1 ≡ n
add-sub_one n = omega arith

module _ (amqp : Amqp) where
  release_lem :
      (effect : Server → Server) (s : Server)
      → (release amqp effect s).1 ≡ effect (record s { requests = s.requests + 1 })
  unfolding release
  release_lem effect s = elim (Option-cases (amqp.failure s.requests)) [
    | inl fine ↦ rw fine refl
    | inr (e, fails) ↦ rw fails refl
  ]

  closes_both :
      (s : Server)
      → ((close_connection amqp (close_channel amqp s).1).1.connections ≡ s.connections - 1)
        × ((close_connection amqp (close_channel amqp s).1).1.channels ≡ s.channels - 1)
  closes_both s =
      let shut : Server → Server =
        λ t. record t { requests = t.requests + 1; connections = t.connections - 1 } in
      let e =
        release_lem (λ t. record t { connections = t.connections - 1 }) (close_channel amqp s).1
        ∙ ap shut (release_lem (λ t. record t { channels = t.channels - 1 }) s) in
      (ap (λ (t : Server). t.connections) e, ap (λ (t : Server). t.channels) e)

  module _ (Q : Server → Type 0) (effect : Server → Server) (next : Session) (s : Server) where
    or_close_both-Ends :
        Ends
          (s.connections - 1)
          (s.channels - 1)
          Q
          (next (effect (record s { requests = s.requests + 1 })))
        → Ends
            (s.connections - 1)
            (s.channels - 1)
            Q
            (or_close_both amqp (request amqp effect s) next)
    unfolding request
    or_close_both-Ends h = elim (Option-cases (amqp.failure s.requests)) [
      | inl fine ↦ rw fine h
      | inr (e, fails) ↦ rw fails (closes_both (record s { requests = s.requests + 1 }))
    ]

  -- After `Dial` and `Channel`: the exchange, the queues and the bindings.
  declare_exchange-Ends :
      (s : Server)
      → Ends
          (s.connections + 1 - 1)
          (s.channels + 1 - 1)
          (IsOpened s)
          (declare_exchange amqp (both_open s))
  unfolding declare_exchange declare_raw bind_raw declare_classified bind_classified
  declare_exchange-Ends s = or_close_both-Ends (IsOpened s) _ _ (both_open s) (
      or_close_both-Ends (IsOpened s) _ _ _ (
        or_close_both-Ends (IsOpened s) _ _ _ (
          or_close_both-Ends (IsOpened s) _ _ _ (
            or_close_both-Ends (IsOpened s) _ _ _ record {
              one_connection = refl;
              one_channel = refl;
              one_exchange = refl;
              two_queues = append_assoc s.queues _ _;
              two_bindings = append_assoc s.bindings _ _;
            }))))

  or_close-Ends :
      (Q : Server → Type 0) (next : Session) (s : Server)
      → Ends
          (s.connections - 1)
          s.channels
          Q
          (next (record s { requests = s.requests + 1; channels = s.channels + 1 }))
      → Ends (s.connections - 1) s.channels Q (or_close amqp (open_channel amqp s) next)
  unfolding request
  or_close-Ends Q next s h = elim (Option-cases (amqp.failure s.requests)) [
    | inl fine ↦ rw fine h
    | inr (e, fails) ↦
        let closed =
          release_lem (λ t. record t { connections = t.connections - 1 })
            (record s { requests = s.requests + 1 }) in
        rw fails (ap (λ (t : Server). t.connections) closed, ap (λ (t : Server). t.channels) closed)
  ]

  or_fail-Ends :
      (Q : Server → Type 0) (next : Session) (s : Server)
      → Ends s.connections s.channels Q
          (next (record s { requests = s.requests + 1; connections = s.connections + 1 }))
      → Ends s.connections s.channels Q (or_fail (dial amqp s) next)
  unfolding request
  or_fail-Ends Q next s h = elim (Option-cases (amqp.failure s.requests)) [
    | inl fine ↦ rw fine h
    | inr (e, fails) ↦ rw fails (refl, refl)
  ]

  -- Whichever requests fail: `NewRabbitMQ` either succeeds and has opened one connection and one
  -- channel and declared the exchange, the two queues and their two bindings, or it returns an
  -- error and as many connections and channels are open as before.
  pub new_rabbitmq-Ends :
      (s : Server) → Ends s.connections s.channels (IsOpened s) (new_rabbitmq amqp s)
  unfolding new_rabbitmq
  new_rabbitmq-Ends s =
      let both =
        subst
          (λ k. Ends (s.connections + 1 - 1) k (IsOpened s) (declare_exchange amqp (both_open s)))
          (add-sub_one s.channels) (declare_exchange-Ends s) in
      let opened : Server = record s {
        requests = s.requests + 1;
        connections = s.connections + 1;
      } in
      or_fail-Ends (IsOpened s) _ s (
        subst
          (λ c.
            Ends c s.channels (IsOpened s)
              (or_close amqp (open_channel amqp opened) (declare_exchange amqp)))
          (add-sub_one s.connections)
          (or_close-Ends (IsOpened s) (declare_exchange amqp) opened both))

  close-first_failure :
      (t : Server)
      → (close amqp t).0 ≡ first_failure (amqp.failure t.requests) (amqp.failure (t.requests + 1))
  unfolding close release
  close-first_failure t = elim (Option-cases (amqp.failure t.requests)) [
    | inl fine ↦ elim (Option-cases (amqp.failure (t.requests + 1))) [
      | inl also ↦ rw fine (rw also refl)
      | inr (e, fails) ↦ rw fine (rw fails refl)
    ]
    | inr (e, fails) ↦ rw fails refl
  ]

  -- Once `NewRabbitMQ` has succeeded, `Close` leaves as many connections and channels open as
  -- there were before, whichever requests fail, its own included; it returns the error of the
  -- channel's `Close`, or else that of the connection's, or else none.
  pub close-new_rabbitmq :
      (s t : Server)
      → new_rabbitmq amqp s ≡ (ok tt, t)
      → ((close amqp t).1.connections ≡ s.connections)
        × ((close amqp t).1.channels ≡ s.channels)
        × ((close amqp t).0
            ≡ first_failure (amqp.failure t.requests) (amqp.failure (t.requests + 1)))
  unfolding close
  close-new_rabbitmq s t opened =
      let o : IsOpened s t =
        subst (Ends s.connections s.channels (IsOpened s)) opened (new_rabbitmq-Ends s) in
      let (c, k) = closes_both t in
      (c ∙ omega (arith, o.one_connection), k ∙ omega (arith, o.one_channel), close-first_failure t)
