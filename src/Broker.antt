-- ===== src/Broker.antt =====
-- internal/broker/rabbitmq.go: publishing to the two durable queues, and settling a delivery. The
-- broker holds a message until it is acknowledged; a requeued one stays and is delivered again.
pub mod Connection
use email_triage_system.Common.{List, [], ◌∷◌, ◌++◌, if◌then◌else◌}
use email_triage_system.Events.{Body, same_body, Codec, RawEmailEvent, ClassifiedEmailEvent}
use email_triage_system.World.{ok, Op}

unfoldable pub publish_raw_email : Codec → RawEmailEvent → Op (Unit {0})
publish_raw_email codec event s =
    (ok tt, record s { raw_queue = s.raw_queue ++ codec.marshal_raw event ∷ [] })

unfoldable pub publish_classified_email : Codec → ClassifiedEmailEvent → Op (Unit {0})
publish_classified_email codec event s = (
  ok tt,
  record s { classified_queue = s.classified_queue ++ codec.marshal_classified event ∷ [] },
)

unfoldable pub remove_one : Body → List Body → List Body
remove_one body [] = []
remove_one body (other ∷ queue) =
    if same_body other body then queue else other ∷ remove_one body queue

-- `delivery.Ack(false)` on the raw queue
unfoldable pub ack_raw : Body → Op (Unit {0})
ack_raw body s = (ok tt, record s { raw_queue = remove_one body s.raw_queue })

-- `delivery.Ack(false)` on the classified queue
unfoldable pub ack_classified : Body → Op (Unit {0})
ack_classified body s = (ok tt, record s { classified_queue = remove_one body s.classified_queue })

-- `delivery.Nack(false, true)`
unfoldable pub nack_requeue : Op (Unit {0})
nack_requeue s = (ok tt, s)
