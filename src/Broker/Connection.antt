-- ===== src/Broker/Connection.antt =====
-- internal/broker/rabbitmq.go: opening a connection with the exchange, the queues and their
-- bindings, subscribing to a queue, and closing. The AMQP server is what it has been asked for;
-- `Amqp` says which requests fail. A handle is released by its `Close`, whether or not that
-- returns an error.
pub mod Handles
use email_triage_system.Common.{
  ℕ, ◌+◌, ◌-◌, String, Bool, true, false, Option, none, some, List, [], ◌∷◌, ◌++◌, ◌==◌,
  if◌then◌else◌,
}
use email_triage_system.World.{Error, Result, ok, err}

-- The error of a request, by the number of requests before it.
pub record Amqp : Type 0 where
  pub failure : ℕ → Option Error

pub record Binding : Type 0 where
  pub queue : String
  pub key : String
  pub exchange : String

pub record Subscription : Type 0 where
  pub queue : String
  pub consumer : String

-- The handles that are open, and what the server has been told.
pub record Server : Type 0 where
  pub requests : ℕ
  pub connections : ℕ
  pub channels : ℕ
  pub exchanges : List String
  pub queues : List String
  pub bindings : List Binding
  pub prefetch : ℕ
  pub consumers : List Subscription

abbrev pub Session : Type 0
Session = Server → Result (Unit {0}) × Server

abbrev pub email_events_exchange : String
email_events_exchange = "email.events"

abbrev pub email_raw_routing_key : String
email_raw_routing_key = "email.raw"

abbrev pub email_raw_queue : String
email_raw_queue = "email.raw"

abbrev pub email_classified_key : String
email_classified_key = "email.classified"

abbrev pub email_classified_queue : String
email_classified_queue = "email.classified"

-- A handle is closed once.
abbrev closed_connection : Server → Server
closed_connection s = record s { connections = s.connections - 1 }

abbrev closed_channel : Server → Server
closed_channel s = record s { channels = s.channels - 1 }

-- A request that fails leaves the second server.
abbrev outcome : Option Error → Server → Server → Result (Unit {0}) × Server
outcome none done s = (ok tt, done)
outcome (some e) done s = (err e, s)

abbrev counted : Server → Server
counted s = record s { requests = s.requests + 1 }

abbrev pub or_fail : Result (Unit {0}) × Server → Session → Result (Unit {0}) × Server
or_fail (ok done, s) next = next s
or_fail (err e, s) next = (err e, s)

-- The first of two errors.
abbrev pub first_error : Result (Unit {0}) → Result (Unit {0}) → Result (Unit {0})
first_error (ok done) later = later
first_error (err e) later = err e

module _ (amqp : Amqp) where
  unfoldable pub request : (Server → Server) → Session
  request effect s = outcome (amqp.failure s.requests) (effect (counted s)) (counted s)

  -- A request whose effect does not wait for the answer.
  unfoldable pub release : (Server → Server) → Session
  release effect s = outcome (amqp.failure s.requests) (effect (counted s)) (effect (counted s))

  abbrev pub dial : Session
  dial = request (λ s. record s { connections = s.connections + 1 })

  abbrev pub open_channel : Session
  open_channel = request (λ s. record s { channels = s.channels + 1 })

  abbrev pub exchange_declare : String → Session
  exchange_declare name = request (λ s. record s { exchanges = s.exchanges ++ name ∷ [] })

  abbrev pub queue_declare : String → Session
  queue_declare name = request (λ s. record s { queues = s.queues ++ name ∷ [] })

  abbrev pub queue_bind : String → String → String → Session
  queue_bind name key exchange_name = request (λ s. record s {
    bindings = s.bindings ++ record { queue = name; key = key; exchange = exchange_name } ∷ [];
  })

  abbrev pub close_channel : Session
  close_channel = release closed_channel

  abbrev pub close_connection : Session
  close_connection = release closed_connection

  -- On an error: close the channel, close the connection, and return the error; else go on.
  abbrev pub or_close_both : Result (Unit {0}) × Server → Session → Result (Unit {0}) × Server
  or_close_both (ok done, s) next = next s
  or_close_both (err e, s) next = (err e, (close_connection (close_channel s).1).1)

  -- On an error of `conn.Channel`, there is only the connection to close.
  abbrev pub or_close : Result (Unit {0}) × Server → Session → Result (Unit {0}) × Server
  or_close (ok done, s) next = next s
  or_close (err e, s) next = (err e, (close_connection s).1)

  unfoldable pub bind_classified : Session
  bind_classified s =
      or_close_both (queue_bind email_classified_queue email_classified_key email_events_exchange s)
        (λ s. (ok tt, s))

  unfoldable pub declare_classified : Session
  declare_classified s = or_close_both (queue_declare email_classified_queue s) bind_classified

  unfoldable pub bind_raw : Session
  bind_raw s =
      or_close_both (queue_bind email_raw_queue email_raw_routing_key email_events_exchange s)
        declare_classified

  unfoldable pub declare_raw : Session
  declare_raw s = or_close_both (queue_declare email_raw_queue s) bind_raw

  unfoldable pub declare_exchange : Session
  declare_exchange s = or_close_both (exchange_declare email_events_exchange s) declare_raw

  unfoldable pub new_rabbitmq : Session
  new_rabbitmq s = or_fail (dial s) (λ s. or_close (open_channel s) declare_exchange)

  abbrev pub qos : ℕ → Session
  qos prefetch_count = request (λ s. record s { prefetch = prefetch_count })

  abbrev pub consume : String → String → Session
  consume queue_name consumer_name = request (λ s. record s {
    consumers = s.consumers ++ record { queue = queue_name; consumer = consumer_name } ∷ [];
  })

  unfoldable pub consume_raw_emails : Session
  consume_raw_emails s = or_fail (qos 10 s) (consume email_raw_queue "classifier-worker")

  unfoldable pub consume_classified_emails : Session
  consume_classified_emails s = or_fail (qos 10 s) (consume email_classified_queue "label-worker")

  -- `Close`, of a broker that has both handles.
  unfoldable pub close : Session
  close s =
      let (first, s2) = close_channel s in
      let (second, s3) = close_connection s2 in (first_error first second, s3)
