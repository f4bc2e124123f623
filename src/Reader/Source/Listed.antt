-- ===== src/Reader/Source/Listed.antt =====
-- Where the messages of a walk come from.
use mathlib.Core.List.{Memᴰ}
use email_triage_system.Common.{
  String, ◌≡◌, ◌≢◌, refl, sym, ◌∙◌, subst, ap, ◌⊎◌, ◌||◌, false, eq_iff, arith, All-map, inl, inr,
  Bool-cases, Option, none, some, List, [], ◌∷◌, ◌==◌, All,
}
use email_triage_system.Text.{GoLib}
use email_triage_system.Reader.{Message}
use email_triage_system.Gmail
use email_triage_system.Gmail.{
  list_page, get_message, to_message, read_messages, list_messages_page,
}
use email_triage_system.World.{Env, State, World, ApiMessage, ApiPage, ok, call}
use email_triage_system.World.Runs.{pure-eq-ok, >>=-eq-ok, call-eq-ok}
use email_triage_system.Common.Int.{ℤ}
use email_triage_system.Reader.Source.{Source, source_mock, mock_messages, to_messages}

-- The tokens of the pages that the walk asks for.
pub data OnPages (env : Env) (s : Source) : String → Type 0 where
  first_page : OnPages env s ""
  next_one :
      {token : String}
      → OnPages env s token
      → ((env.page s.max_results s.query token).next_page_token == ""
          || (env.page s.max_results s.query token).next_page_token == token)
        ≡ false
      → OnPages env s (env.page s.max_results s.query token).next_page_token

-- A message with the id that the API gives to one of these ids.
abbrev pub IsGotten : Env → List (Option String) → Message → Type 0
IsGotten env ids message =
    (id : String) × Memᴰ (some id) ids × (id ≢ "") × (message.id ≡ (env.message id).id)

-- What a source can list: the fixed messages, if it is the mock; else the messages that the Gmail API
-- gives to the ids on the pages of its query.
abbrev pub IsListed : Env → Source → Message → Type 0
IsListed env s message =
    ((s.source ≡ source_mock) × Memᴰ message mock_messages)
    ⊎ ((s.source ≢ source_mock)
        × ((token : String) × OnPages env s token
            × IsGotten env (env.page s.max_results s.query token).message_ids message))

All-Memᴰ_self :
    (P : Message → Type 0) (xs : List Message) → ((x : Message) → Memᴰ x xs → P x) → All P xs
All-Memᴰ_self P [] h = tt
All-Memᴰ_self P (x ∷ xs) h = (h x (Memᴰ.head refl), All-Memᴰ_self P xs (λ y m. h y (Memᴰ.tail m)))

pub mock_messages-IsListed :
    (env : Env) (s : Source) → s.source ≡ source_mock → All (IsListed env s) mock_messages
mock_messages-IsListed env s mock =
    All-Memᴰ_self (IsListed env s) mock_messages (λ x m. inl (mock, m))

IsGotten-cons :
    (env : Env) (o : Option String) (ids : List (Option String)) (ms : List Message)
    → All (IsGotten env ids) ms
    → All (IsGotten env (o ∷ ids)) ms
IsGotten-cons env o ids ms = All-map (λ message (id, m, named, e). (id, Memᴰ.tail m, named, e)) ms

module _ (lib : GoLib) (env : Env) where
  get_message-state :
      (id : String) (s t : State) (response : ApiMessage)
      → get_message lib env id s ≡ (ok response, t)
      → response ≡ env.message id
  unfolding get_message
  get_message-state id s t response h = cc

  list_page-state :
      (max_results : ℤ) (query token : String) (s t : State) (page : ApiPage)
      → list_page lib env max_results query token s ≡ (ok page, t)
      → page ≡ env.page max_results query token
  unfolding list_page
  list_page-state max_results query token s t page h = cc

  read_messages-IsGotten :
      (ids : List (Option String)) (w w' : World) (messages : List Gmail.Message)
      → read_messages lib env ids w ≡ (ok messages, w')
      → All (IsGotten env ids) (to_messages messages)
  unfolding read_messages to_messages to_message
  read_messages-IsGotten [] w w' messages h =
      let none_read : [] ≡ messages = pure-eq-ok [] messages w w' h in
      subst (λ (ms : List Gmail.Message). All (IsGotten env []) (to_messages ms)) none_read tt
  read_messages-IsGotten (none ∷ ids) w w' messages h =
      IsGotten-cons env none ids (to_messages messages) (read_messages-IsGotten ids w w' messages h)
  read_messages-IsGotten (some id ∷ ids) w w' messages h = elim (Bool-cases (id == "")) [
    | inl empty ↦
        IsGotten-cons env (some id) ids (to_messages messages)
          (read_messages-IsGotten ids w w' messages (rw empty at h))
    | inr named ↦
        let (response, v, e, h1) =
          >>=-eq-ok (call env (get_message lib env id)) _ w messages w' (rw named at h) in
        let (rest, v2, e2, h2) = >>=-eq-ok (read_messages lib env ids) _ v messages w' h1 in
        let all_read : to_message lib env response ∷ rest ≡ messages =
          pure-eq-ok (to_message lib env response ∷ rest) messages v2 w' h2 in
        subst (λ (ms : List Gmail.Message). All (IsGotten env (some id ∷ ids)) (to_messages ms))
          all_read
          (
            (
              id,
              Memᴰ.head refl,
              ground (arith, eq_iff id ""),
              ap (λ (r : ApiMessage). r.id)
                  (get_message-state id w.state v.state response (call-eq-ok env _ w response v e)),
            ),
            IsGotten-cons env (some id) ids (to_messages rest)
                (read_messages-IsGotten ids v v2 rest e2),
          )
  ]

  -- What a page that was read holds, and the token of the next one.
  pub list_messages_page-IsGotten :
      (max_results : ℤ) (query token next : String) (w w' : World) (messages : List Gmail.Message)
      → list_messages_page lib env max_results query token w ≡ (ok (messages, next), w')
      → All (IsGotten env (env.page max_results query token).message_ids) (to_messages messages)
        × (next ≡ (env.page max_results query token).next_page_token)
  unfolding list_messages_page
  list_messages_page-IsGotten max_results query token next w w' messages h =
      let (page, v, e, h1) =
        >>=-eq-ok (call env (list_page lib env max_results query token)) _ w (messages, next) w'
          h in
      let (read, v2, e2, h2) =
        >>=-eq-ok (read_messages lib env page.message_ids) _ v (messages, next) w' h1 in
      let same : (read, page.next_page_token) ≡ (messages, next) =
        pure-eq-ok (read, page.next_page_token) (messages, next) v2 w' h2 in
      let asked : page ≡ env.page max_results query token =
        list_page-state max_results query token w.state v.state page
          (call-eq-ok env _ w page v e) in
      (
        subst (λ (p : ApiPage). All (IsGotten env p.message_ids) (to_messages messages)) asked
            (subst
              (λ (r : List Gmail.Message × String).
                All (IsGotten env page.message_ids) (to_messages (r.0)))
              same (read_messages-IsGotten page.message_ids v v2 read e2)),
        sym (ap (λ (r : List Gmail.Message × String). r.1) same)
            ∙ ap (λ (p : ApiPage). p.next_page_token) asked,
      )
