-- ===== src/Gmail.antt =====
-- internal/gmail/client.go: reading pages of messages, and labels. The Gmail service is `Env`.
use email_triage_system.Common.{
  String, Bool, false, ◌&&◌, not, Option, none, some, List, [], ◌∷◌, ◌++◌, ◌==◌, if◌then◌else◌, leb,
  ltb, eqb,
}
use email_triage_system.Common.Int.{ℤ}
use email_triage_system.Text.{GoLib, equal_fold}
use email_triage_system.World.{
  Env, Error, api, ok, Label, Header, ApiMessage, ApiPage, create_label, modify_message, Op, Exec,
  call, pure, ◌>>=◌,
}

pub record Message : Type 0 where
  pub id : String
  pub thread_id : String
  pub from : String
  pub subject : String
  pub snippet : String

-- Client errors but 429. What is no `googleapi.Error` is not permanent.
unfoldable pub is_permanent_error : Error → Bool
is_permanent_error (api code) = leb 400 code && ltb code 500 && not (eqb code 429)
is_permanent_error _ = false

module _ (lib : GoLib) where
  unfoldable pub find_label : String → List (Option Label) → Option String
  find_label name [] = none
  find_label name (none ∷ labels) = find_label name labels
  find_label name (some label ∷ labels) =
      if equal_fold lib label.name name then some label.id else find_label name labels

  unfoldable pub find_header : String → List (Option Header) → String
  find_header key [] = ""
  find_header key (none ∷ headers) = find_header key headers
  find_header key (some header ∷ headers) =
      if equal_fold lib header.name key then header.value else find_header key headers

  unfoldable pub header_value : ApiMessage → String → String
  header_value message key = elim message.payload [
    | none ↦ ""
    | some headers ↦ find_header key headers
  ]

module _ (lib : GoLib) (env : Env) where
  -- `users.labels.list`
  unfoldable pub list_labels : Op (List (Option Label))
  list_labels s = (ok (env.labels s.sent), s)

  -- `users.labels.create`
  unfoldable pub send_create_label : String → Op String
  send_create_label name s = (
    ok (env.created_id s.sent name),
    record s { sent = s.sent ++ create_label name "labelShow" "show" ∷ [] },
  )

  -- `users.messages.modify`
  unfoldable pub send_modify : String → List String → List String → Op (Unit {0})
  send_modify message_id added removed s =
      (ok tt, record s { sent = s.sent ++ modify_message message_id added removed ∷ [] })

  -- The label that the list holds, or a new one.
  unfoldable pub label_or_create : String → Option String → Exec String
  label_or_create name (some id) = pure id
  label_or_create name none = call env (send_create_label name)

  unfoldable pub ensure_label : String → Exec String
  ensure_label name = do
    labels ← call env list_labels
    label_or_create name (find_label lib name labels)

  unfoldable pub apply_label_to_message : String → String → Bool → Exec (Unit {0})
  apply_label_to_message message_id label_id mark_read =
      let removed : List String = if mark_read then "INBOX" ∷ "UNREAD" ∷ [] else "INBOX" ∷ [] in
      call env (send_modify message_id (label_id ∷ []) removed)

  -- `users.messages.list`
  unfoldable pub list_page : ℤ → String → String → Op ApiPage
  list_page max_results query page_token s = (ok (env.page max_results query page_token), s)

  -- `users.messages.get`
  unfoldable pub get_message : String → Op ApiMessage
  get_message id s = (ok (env.message id), s)

  unfoldable pub to_message : ApiMessage → Message
  to_message response = record {
    id = response.id;
    thread_id = response.thread_id;
    from = header_value lib response "From";
    subject = header_value lib response "Subject";
    snippet = response.snippet;
  }

  unfoldable pub read_messages : List (Option String) → Exec (List Message)
  read_messages [] = pure []
  read_messages (none ∷ ids) = read_messages ids
  read_messages (some id ∷ ids) = if id == "" then read_messages ids else do
    response ← call env (get_message id)
    messages ← read_messages ids
    pure (to_message response ∷ messages)

  unfoldable pub list_messages_page : ℤ → String → String → Exec (List Message × String)
  list_messages_page max_results query page_token = do
    page ← call env (list_page max_results query page_token)
    messages ← read_messages page.message_ids
    pure (messages, page.next_page_token)
