-- ===== src/World.antt =====
-- What the program's components share: the tables, the two queues and the mailbox, and the calls that
-- reach them. A call may be refused, with no effect, or its answer may be lost, with its effect made;
-- the environment says which, by the number of the call. An action returns the world that it leaves
-- beside its result, also where it fails.
pub mod Keeps
pub mod Runs
use email_triage_system.Common.{ℕ, ◌+◌, String, Bool, Option, List, [], ◌∷◌, ◌++◌}
use email_triage_system.Common.Int.{ℤ}
use email_triage_system.Events.{Body}
use email_triage_system.Models.{EmailMessage, ScanRun, UserRule, User}

pub data Error : Type 0 where
  database broker drop_delivery : Error
  email_message_not_found scan_run_not_found user_not_found : Error
  invalid_token invalid_telegram_login : Error
  -- `googleapi.Error` with its status code
  api : ℕ → Error
  other : String → Error
  -- a loop of the model ran out of its bound; no code returns it
  out_of_fuel : Error

pub data Result {ℓ} (A : Type ℓ) : Type ℓ where
  ok : A → Result A
  err : Error → Result A

pub data Fault : Type 0 where
  fine : Fault
  refused lost : Error → Fault

-- A label of the mailbox, as `users.labels.list` returns it.
pub record Label : Type 0 where
  pub id : String
  pub name : String

-- A message of `users.messages.list` and `users.messages.get`.
pub record Header : Type 0 where
  pub name : String
  pub value : String

pub record ApiMessage : Type 0 where
  pub id : String
  pub thread_id : String
  pub snippet : String
  -- `Payload.Headers`; `none` for a missing payload, and for a nil header
  pub payload : Option (List (Option Header))

pub record ApiPage : Type 0 where
  -- `none` for a nil entry
  pub message_ids : List (Option String)
  pub next_page_token : String

pub data Request : Type 0 where
  -- the name, `LabelListVisibility` and `MessageListVisibility`
  create_label : String → String → String → Request
  -- the message, the labels that are added, and those that are removed
  modify_message : String → List String → List String → Request

-- What the code cannot decide: faults, the clock, and the answers of the Gmail API, which may depend
-- on all requests that changed the mailbox before.
pub record Env : Type 0 where
  pub fault : ℕ → Fault
  pub clock : ℕ → ℕ
  pub labels : List Request → List (Option Label)
  pub created_id : List Request → String → String
  -- the answer to a page size, a query and a page token
  pub page : ℤ → String → String → ApiPage
  pub message : String → ApiMessage

pub record Database : Type 0 where
  pub email_messages : List EmailMessage
  pub scan_runs : List ScanRun
  pub next_run_id : ℕ
  pub user_rules : List UserRule
  pub users : List User

-- What the services hold: the tables, the queues, and in `sent` the requests that changed the
-- mailbox.
pub record State : Type 0 where
  pub db : Database
  pub raw_queue : List Body
  pub classified_queue : List Body
  pub sent : List Request

-- `calls` counts the calls made so far.
pub record World : Type 0 where
  pub state : State
  pub calls : ℕ

abbrev pub Exec {ℓ} : Type ℓ → Type ℓ
Exec A = World → Result A × World

abbrev pub pure {ℓ} : {A : Type ℓ} → A → Exec A
pure a w = (ok a, w)

abbrev pub fail {ℓ} : {A : Type ℓ} → Error → Exec A
fail e w = (err e, w)

abbrev pub continue {ℓ κ} :
    {A : Type ℓ} {B : Type κ} → Result A × World → (A → Exec B) → Result B × World
continue (ok a, w) f = f a w
continue (err e, w) f = (err e, w)

infixl 5 ◌>>=◌ ◌>>◌
unfoldable pub ◌>>=◌ {ℓ κ} : {A : Type ℓ} {B : Type κ} → Exec A → (A → Exec B) → Exec B
◌>>=◌ m f w = continue (m w) f

abbrev pub ◌>>◌ {ℓ κ} : {A : Type ℓ} {B : Type κ} → Exec A → Exec B → Exec B
m >> k = m >>= λ _. k

abbrev pub recover {ℓ} : {A : Type ℓ} → Result A × World → (Error → Exec A) → Result A × World
recover (ok a, w) h = (ok a, w)
recover (err e, w) h = h e w

-- A handler for the error of an action.
unfoldable pub catch {ℓ} : {A : Type ℓ} → Exec A → (Error → Exec A) → Exec A
catch m h w = recover (m w) h

abbrev pub tick : World → World
tick w = record w { calls = w.calls + 1 }

-- What a service does with a request.
abbrev pub Op {ℓ} : Type ℓ → Type ℓ
Op A = State → Result A × State

abbrev pub answer {ℓ} : {A : Type ℓ} → Result A × State → ℕ → Result A × World
answer (r, s) n = (r, record { state = s; calls = n })

-- What the caller sees, from the answer that the service made and from the world with no effect.
abbrev pub under {ℓ} : {A : Type ℓ} → Fault → Result A × World → World → Result A × World
under fine r w = r
under (refused e) r w = (err e, w)
under (lost e) r w = (err e, r.1)

-- A call that reaches another service.
unfoldable pub call {ℓ} : {A : Type ℓ} → Env → Op A → Exec A
call env op w = under (env.fault w.calls) (answer (op w.state) (w.calls + 1)) (tick w)

-- `time.Now().UTC()`, which cannot fail
unfoldable pub now : Env → Exec ℕ
now env w = (ok (env.clock w.calls), tick w)
