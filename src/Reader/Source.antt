-- ===== src/Reader/Source.antt =====
-- internal/reader/source.go and mock_reader.go: the source of messages, and the walk over its pages.
-- The callback of `IterateMessages` changes variables that outlive its error, so the walk carries
-- them beside the result. The page loop takes fuel.
pub mod Listed
pub mod Walk
pub mod Pages
use email_triage_system.Common.{
  ℕ, zero, suc, String, Bool, true, false, ◌||◌, ◌&&◌, not, Option, none, some, List, [], ◌∷◌, ◌++◌,
  ◌==◌, if◌then◌else◌, map,
}
use email_triage_system.Common.Int.{ℤ, pos, leb_ℤ}
use email_triage_system.Text.{GoLib}
use email_triage_system.Reader.{Message}
use email_triage_system.Gmail
use email_triage_system.Gmail.{list_messages_page}
use email_triage_system.World.{Env, Error, other, out_of_fuel, Result, ok, err, World}

abbrev pub source_mock : String
source_mock = "mock"

abbrev pub source_gmail : String
source_gmail = "gmail"

-- Whether the readers are there stands for the two pointers.
pub record Source : Type 0 where
  pub source : String
  pub mock : Bool
  pub gmail : Bool
  pub max_results : ℤ
  pub query : String

unfoldable pub new_source : String → Bool → Bool → ℤ → String → Result Source
new_source source mock gmail max_results query =
    if not (source == source_mock) && not (source == source_gmail)
    then err (other "unsupported email source")
    else if source == source_mock && not mock
    then err (other "mock reader is required")
    else if source == source_gmail && not gmail
    then err (other "gmail client is required")
    else ok (record {
      source = source;
      mock = mock;
      gmail = gmail;
      max_results = if leb_ℤ max_results (pos 0) then pos 20 else max_results;
      query = query;
    })

unfoldable pub with_query : Source → String → Result Source
with_query s query = new_source s.source s.mock s.gmail s.max_results query

unfoldable pub to_messages : List Gmail.Message → List Message
to_messages [] = []
to_messages (item ∷ items) =
    record {
      id = item.id;
      thread_id = item.thread_id;
      from = item.from;
      subject = item.subject;
      body_snippet = item.snippet;
    }
    ∷ to_messages items

abbrev pub mock_messages : List Message
mock_messages =
    record {
      id = "msg_1001";
      thread_id = "thr_9001";
      from = "jobs@company.com";
      subject = "Backend Go Engineer opportunity";
      body_snippet = "We reviewed your profile and would like to schedule an interview.";
    }
    ∷ record {
      id = "msg_1002";
      thread_id = "thr_9002";
      from = "alerts@bank.com";
      subject = "Your card transaction was approved";
      body_snippet = "Transaction amount $42.15 at Coffee Shop.";
    }
    ∷ record {
      id = "msg_1003";
      thread_id = "thr_9003";
      from = "security@google.com";
      subject = "New sign-in detected";
      body_snippet = "We noticed a new sign-in to your account.";
    }
    ∷ record {
      id = "msg_1004";
      thread_id = "thr_9004";
      from = "newsletter@store.com";
      subject = "Weekend sale 50% off";
      body_snippet = "Promo code inside. Limited offer.";
    }
    ∷ record {
      id = "msg_1005";
      thread_id = "thr_9005";
      from = "friend@social.app";
      subject = "You have new notifications";
      body_snippet = "5 new likes and 2 comments.";
    }
    ∷ []

-- A result, the callback's variables, and the world.
abbrev pub Walked {ℓ} : Type ℓ → Type ℓ
Walked V = Result (Unit {0}) × V × World

module _ {ℓ} {V : Type ℓ} (visit : V → List Message → World → Walked V) where
  -- An empty batch is not visited.
  abbrev pub visit_batch : V → List Message → World → Walked V
  visit_batch v [] w = (ok tt, v, w)
  visit_batch v (m ∷ ms) w = visit v (m ∷ ms) w

  abbrev pub next_page : (V → World → Walked V) → Bool → Walked V → Walked V
  next_page rest stop (err e, v, w) = (err e, v, w)
  next_page rest stop (ok done, v, w) = if stop then (ok tt, v, w) else rest v w

  abbrev pub on_page :
      (String → V → World → Walked V)
      → String
      → V
      → Result (List Gmail.Message × String) × World
      → Walked V
  on_page rest token v (err e, w) = (err e, v, w)
  on_page rest token v (ok (items, next), w) =
      next_page (rest next) (next == "" || next == token) (visit_batch v (to_messages items) w)

  unfoldable pub iterate_pages : GoLib → Env → Source → ℕ → String → V → World → Walked V
  iterate_pages lib env s zero token v w = (err out_of_fuel, v, w)
  iterate_pages lib env s (suc fuel) token v w =
      on_page (iterate_pages lib env s fuel) token v
        (list_messages_page lib env s.max_results s.query token w)

  unfoldable pub iterate_messages : GoLib → Env → ℕ → Source → V → World → Walked V
  iterate_messages lib env fuel s v w =
      if s.source == source_mock
      then visit_batch v mock_messages w
      else iterate_pages lib env s fuel "" v w

-- The callback of `ListMessages`.
abbrev pub collect : List Message → List Message → World → Walked (List Message)
collect result batch w = (ok tt, result ++ batch, w)

abbrev pub collected : Walked (List Message) → Result (List Message) × World
collected (ok done, result, w) = (ok result, w)
collected (err e, result, w) = (err e, w)

unfoldable pub list_messages : GoLib → Env → ℕ → Source → World → Result (List Message) × World
list_messages lib env fuel s w = collected (iterate_messages collect lib env fuel s [] w)
