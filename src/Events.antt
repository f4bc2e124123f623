-- ===== src/Events.antt =====
-- internal/broker/events.go: the events of the two queues. `Codec` is `encoding/json` at these types:
-- what is on the wire is the document that a body holds.
use email_triage_system.Common.{
  ℕ, String, ◌≡◌, Bool, true, false, not, ◌||◌, ◌&&◌, Option, some, ◌==◌, eqb,
}

-- A body on a queue: the document as a tree, or bytes that hold none. `field` is the first field
-- of an object, by its key and its value, before the other fields.
pub data Body : Type 0 where
  bytes text : String → Body
  number : ℕ → Body
  truth : Bool → Body
  no_fields : Body
  field : String → Body → Body → Body

-- The same document, field by field.
unfoldable pub same_body : Body → Body → Bool
same_body (bytes a) (bytes b) = a == b
same_body (text a) (text b) = a == b
same_body (number a) (number b) = eqb a b
same_body (truth a) (truth b) = (a && b) || (not a && not b)
same_body no_fields no_fields = true
same_body (field key a rest) (field key' a' rest') =
    key == key' && same_body a a' && same_body rest rest'
same_body _ _ = false

pub record RawEmailMessage : Type 0 where
  pub gmail_message_id : String
  pub thread_id : String
  pub from : String
  pub subject : String
  pub body_snippet : String

pub record RawEmailEvent : Type 0 where
  pub scan_run_id : ℕ
  pub user_id : String
  pub mode : String
  pub mark_read : Bool
  pub published_at : ℕ
  pub message : RawEmailMessage

pub record ClassifiedEmailMessage : Type 0 where
  pub gmail_message_id : String
  pub predicted_label : String
  pub confidence : ℕ

pub record ClassifiedEmailEvent : Type 0 where
  pub scan_run_id : ℕ
  pub user_id : String
  pub mode : String
  pub mark_read : Bool
  pub classified_at : ℕ
  pub classification : ClassifiedEmailMessage

pub record Codec : Type 0 where
  pub marshal_raw : RawEmailEvent → Body
  pub unmarshal_raw : Body → Option RawEmailEvent
  pub marshal_classified : ClassifiedEmailEvent → Body
  pub unmarshal_classified : Body → Option ClassifiedEmailEvent

pub record RoundTrips (codec : Codec) : Type 0 where
  pub raw : (event : RawEmailEvent) → codec.unmarshal_raw (codec.marshal_raw event) ≡ some event
  pub classified :
      (event : ClassifiedEmailEvent)
      → codec.unmarshal_classified (codec.marshal_classified event) ≡ some event
