-- ===== src/Tests/Allowed.antt =====
-- An apply-mode scan of two pages of a Gmail source, beside an apply-mode event that waits.
use mathlib.Core.List.{Memᴰ}
use mathlib.Core.Option.{some-injective}
use email_triage_system.Common.{
  String, ◌≡◌, ◌≢◌, ◌⊎◌, refl, sym, ap, ◌∙◌, subst, inl, inr, true, false, some, none, [], ◌∷◌,
  ◌==◌, ◌||◌, if◌then◌else◌,
}
use email_triage_system.Common.Int.{pos}
use email_triage_system.Events.{Body, RawEmailEvent}
use email_triage_system.Reader.{Message}
use email_triage_system.Reader.Source.{Source, new_source, with_query}
use email_triage_system.Reader.Source.Listed.{OnPages, IsGotten, IsListed}
use email_triage_system.World.{ApiPage, Env, World, Result, ok}
use email_triage_system.Consumer.{handle_raw_delivery}
use email_triage_system.Consumer.Permission.{IsAllowed}
use email_triage_system.Scans.Enqueue.{source_for}
use email_triage_system.Scans.{Job, enqueue_scan}
use email_triage_system.Pipeline.{enqueue, classify, here, next}
use email_triage_system.Pipeline.Permission.{Covers, Reach-IsAllowed}
use email_triage_system.Tests.Fixtures.{
  plain, in_order, in_order-RoundTrips, calm, write_raw, invoice_event, waiting_world,
}

-- The API gives every id back. The query of the job has two pages; any other lists "m9".
abbrev bills : String → ApiPage
bills token =
    if token == ""
    then record { message_ids = some "m1" ∷ none ∷ some "" ∷ []; next_page_token = "p2" }
    else if token == "p2"
    then record { message_ids = some "m3" ∷ []; next_page_token = "" }
    else record { message_ids = some "m9" ∷ []; next_page_token = "" }

abbrev other_mail : ApiPage
other_mail = record { message_ids = some "m9" ∷ []; next_page_token = "" }

abbrev mailbox : Env
mailbox = record calm {
  page = λ size query token. if query == "label:bills" then bills token else other_mail;
}

abbrev inbox : Source
inbox = record {
  source = "gmail";
  mock = false;
  gmail = true;
  max_results = pos 20;
  query = "in:inbox";
}

abbrev bills_job : Job
bills_job = record {
  run_id = 1;
  user_id = "u1";
  mode = "apply";
  query = "label:bills";
  mark_read = true;
}

abbrev bills_source : Source
bills_source = record inbox { query = "label:bills" }

abbrev IsBill : String → Type 0
IsBill id = (id ≡ "m1") ⊎ (id ≡ "m3")

bills_job-source : source_for inbox bills_job ≡ ok bills_source
unfolding with_query new_source
bills_job-source = refl

bills_tokens : {token : String} → OnPages mailbox bills_source token → (token ≡ "") ⊎ (token ≡ "p2")
bills_tokens OnPages.first_page = inl refl
bills_tokens (OnPages.next_one {token} on more) = elim (bills_tokens on) [
  | inl first ↦ inr (ap (λ t. (bills t).next_page_token) first)
  | inr second ↦ cc (
      subst
        (λ (t : String).
          ((bills t).next_page_token == "" || (bills t).next_page_token == t) ≡ false)
        second more)
]

first_ids : (id : String) → Memᴰ (some id) (bills "").message_ids → id ≢ "" → id ≡ "m1"
first_ids id (Memᴰ.head e) named = some-injective id "m1" e
first_ids id (Memᴰ.tail (Memᴰ.head e)) named = cc
first_ids id (Memᴰ.tail (Memᴰ.tail (Memᴰ.head e))) named = absurd (named (some-injective id "" e))
first_ids id (Memᴰ.tail (Memᴰ.tail (Memᴰ.tail m))) named = elim m [ ]

second_ids : (id : String) → Memᴰ (some id) (bills "p2").message_ids → id ≡ "m3"
second_ids id (Memᴰ.head e) = some-injective id "m3" e
second_ids id (Memᴰ.tail m) = elim m [ ]

gotten-IsBill :
    (token : String) (message : Message)
    → (token ≡ "") ⊎ (token ≡ "p2")
    → IsGotten mailbox (bills token).message_ids message
    → IsBill message.id
gotten-IsBill token message (inl first) (id, m, named, e) =
    inl (
      e ∙ first_ids id (subst (λ (t : String). Memᴰ (some id) (bills t).message_ids) first m) named)
gotten-IsBill token message (inr second) (id, m, named, e) =
    inr (e ∙ second_ids id (subst (λ (t : String). Memᴰ (some id) (bills t).message_ids) second m))

bills_job-Covers : Covers plain in_order mailbox inbox IsBill in_order-RoundTrips bills_job
bills_job-Covers apply message (source, from, of_reader, listed) =
    let same : source ≡ bills_source = source_eq (sym from ∙ bills_job-source) in
    elim (subst (λ (s : Source). IsListed mailbox s message) same listed) [
      | inl (mock, m) ↦ cc mock
      | inr (gmail, (token, on, gotten)) ↦ gotten-IsBill token message (bills_tokens on) gotten
    ]
  where
    source_eq : {a b : Source} → ◌≡◌ {A = Result Source} (ok a) (ok b) → a ≡ b
    source_eq e = cc

waiting-IsAllowed : IsAllowed in_order IsBill waiting_world.state
waiting-IsAllowed = record {
  raw = (
    λ event read mode. inl (
        ap (λ (e : RawEmailEvent). e.message.gmail_message_id)
          (sym (some-injective invoice_event event read))),
    tt,
  );
  classified = tt;
  sent = tt;
}

abbrev body : Body
body = write_raw invoice_event

abbrev classified_world : World
classified_world = (handle_raw_delivery plain in_order mailbox body waiting_world).1

abbrev scanned_world : World
scanned_world = enqueue_scan plain in_order mailbox inbox 2 bills_job classified_world

Reach-IsAllowed_example : IsAllowed in_order IsBill scanned_world.state
Reach-IsAllowed_example =
    Reach-IsAllowed plain in_order mailbox inbox IsBill in_order-RoundTrips waiting_world
      scanned_world
      (next (next here (classify body waiting_world (Memᴰ.head refl)))
        (enqueue 2 bills_job classified_world bills_job-Covers))
      waiting-IsAllowed
