-- ===== src/Reader/Source/Pages/Complete.antt =====
-- What `ListMessages` has read by the end of the walk.
use mathlib.Core.List.{append-nil, append_assoc}
use email_triage_system.Common.{
  ℕ, zero, suc, ◌+◌, ◌≤◌, String, ◌≡◌, ◌≢◌, refl, sym, ap, ◌∙◌, inl, inr, false, Option, none, some,
  List, [], ◌∷◌, ◌++◌, ◌==◌, eq_iff, arith, if◌then◌else◌, Bool-cases,
}
use email_triage_system.Text.{GoLib}
use email_triage_system.Reader.{Message}
use email_triage_system.Gmail
use email_triage_system.Gmail.{
  list_page, get_message, to_message, read_messages, list_messages_page,
}
use email_triage_system.World.{Env, World, ok, call}
use email_triage_system.World.Runs.{FaultFree, bind_ok, call_ok}
use email_triage_system.Reader.Source.{
  Source, source_mock, to_messages, visit_batch, next_page, on_page, iterate_pages,
  iterate_messages, collect, collected, list_messages,
}
use email_triage_system.Reader.Source.Pages.{page_at, is_last, EndsWithin, iterate_pages-enough}

-- What the pages hold, read with no fault: each message that has an id.
module _ (lib : GoLib) (env : Env) where
  unfoldable pub listed : List (Option String) → List Gmail.Message
  listed [] = []
  listed (none ∷ ids) = listed ids
  listed (some id ∷ ids) =
      let rest = listed ids in if id == "" then rest else to_message lib env (env.message id) ∷ rest

  unfoldable pub pages_items : Source → ℕ → String → List Gmail.Message
  pages_items s zero token = []
  pages_items s (suc n) token =
      let rest = pages_items s n ((page_at env s token).next_page_token) in
      listed ((page_at env s token).message_ids) ++ (if is_last env s token then [] else rest)

get_message_ok :
    (lib : GoLib) (env : Env) (id : String) (w : World)
    → get_message lib env id w.state ≡ (ok (env.message id), w.state)
unfolding get_message
get_message_ok lib env id w = refl

read_messages-listed :
    (lib : GoLib) (env : Env) (ids : List (Option String)) (w : World)
    → FaultFree env
    → (v : World) × (read_messages lib env ids w ≡ (ok (listed lib env ids), v))
unfolding read_messages listed
read_messages-listed lib env [] w free = (w, refl)
read_messages-listed lib env (none ∷ ids) w free = read_messages-listed lib env ids w free
read_messages-listed lib env (some id ∷ ids) w free =
    let there = read_messages-listed lib env ids w free in
    let read : World = record { state = w.state; calls = w.calls + 1 } in
    let (v, e) = read_messages-listed lib env ids read free in
    elim (Bool-cases (id == "")) [
      | inl empty ↦ rw empty there
      | inr named ↦ rw named (
        v,
        bind_ok (call env (get_message lib env id)) _ w (env.message id) read (
              call_ok env (get_message lib env id) w (env.message id) w.state free
                (get_message_ok lib env id w))
            ∙ bind_ok (read_messages lib env ids) _ read (listed lib env ids) v e,
      )
    ]

pub list_messages_page-listed :
    (lib : GoLib) (env : Env) (s : Source) (token : String) (w : World)
    → FaultFree env
    → (v : World) × (list_messages_page lib env s.max_results s.query token w ≡ (
      ok (
        listed lib env ((page_at env s token).message_ids),
        (page_at env s token).next_page_token,
      ),
      v,
    ))
unfolding list_messages_page list_page
list_messages_page-listed lib env s token w free =
    let read : World = record { state = w.state; calls = w.calls + 1 } in
    let (v, e) = read_messages-listed lib env ((page_at env s token).message_ids) read free in
    (
      v,
      bind_ok (call env (list_page lib env s.max_results s.query token)) _ w (page_at env s token)
            read
            (call_ok env (list_page lib env s.max_results s.query token) w (page_at env s token)
              w.state free refl)
          ∙ bind_ok (read_messages lib env ((page_at env s token).message_ids)) _ read
              (listed lib env ((page_at env s token).message_ids)) v e,
    )

visit_batch-collect :
    (result batch : List Message) (w : World)
    → visit_batch collect result batch w ≡ (ok tt, result ++ batch, w)
visit_batch-collect result [] w = ap (λ l. (ok tt, l, w)) (sym (append-nil result))
visit_batch-collect result (m ∷ ms) w = refl

pub to_messages-append :
    (xs ys : List Gmail.Message) → to_messages (xs ++ ys) ≡ to_messages xs ++ to_messages ys
unfolding to_messages
to_messages-append [] ys = refl
to_messages-append (x ∷ xs) ys = rw (to_messages-append xs ys) refl

iterate_pages-collect :
    (lib : GoLib) (env : Env) (s : Source) (n : ℕ) (token : String) (result : List Message)
    (w : World)
    → FaultFree env
    → EndsWithin env s n token
    → (v : World) × (iterate_pages collect lib env s n token result w
        ≡ (ok tt, result ++ to_messages (pages_items lib env s n token), v))
unfolding iterate_pages pages_items
iterate_pages-collect lib env s zero token result w free ends = absurd ends
iterate_pages-collect lib env s (suc n) token result w free ends =
    let p = page_at env s token in
    let items = listed lib env p.message_ids in
    let (v, e) = list_messages_page-listed lib env s token w free in
    let read : iterate_pages collect lib env s (suc n) token result w
        ≡ next_page collect (iterate_pages collect lib env s n p.next_page_token)
            (is_last env s token) (ok tt, result ++ to_messages items, v) =
      ap (on_page collect (iterate_pages collect lib env s n) token result) e
      ∙ ap
          (next_page collect (iterate_pages collect lib env s n p.next_page_token)
            (is_last env s token))
          (visit_batch-collect result (to_messages items) v) in
    let later : (is_last env s token ≡ false) → EndsWithin env s n p.next_page_token =
      λ more. elim ends [ inl last ↦ cc | inr later ↦ later ] in
    let rest = λ (h : is_last env s token ≡ false).
      iterate_pages-collect lib env s n ((page_at env s token).next_page_token)
        (result ++ to_messages items) v free (later h) in
    elim (Bool-cases (is_last env s token)) [
      | inl last ↦ rw last (
        v,
        read
            ∙ ap
                (λ b.
                  next_page collect (iterate_pages collect lib env s n p.next_page_token) b
                    (ok tt, result ++ to_messages items, v))
                last
            ∙ rw (append-nil items) refl,
      )
      | inr more ↦
          let (v2, e2) = rest more in
          rw more (
            v2,
            read
                ∙ ap
                    (λ b.
                      next_page collect (iterate_pages collect lib env s n p.next_page_token) b
                        (ok tt, result ++ to_messages items, v))
                    more
                ∙ e2
                ∙ rw
                    (
                      to_messages-append items (pages_items lib env s n p.next_page_token),
                      append_assoc result (to_messages items)
                          (to_messages (pages_items lib env s n p.next_page_token)),
                    )
                    refl,
          )
    ]

-- With no fault, from a source that is not the mock, where at most `k` pages follow one another
-- before a last one and the fuel is for `k` pages or more, `ListMessages` returns with success, and
-- what it returns are the messages of all these pages in order, those without an id left out.
pub list_messages_complete :
    (lib : GoLib) (env : Env) (s : Source) (k fuel : ℕ) (w : World)
    → FaultFree env
    → s.source ≢ source_mock
    → EndsWithin env s k ""
    → k ≤ fuel
    → (v : World) × (list_messages lib env fuel s w
        ≡ (ok (to_messages (pages_items lib env s k "")), v))
unfolding list_messages iterate_messages
list_messages_complete lib env s k fuel w free read ends le =
    let (v, e) = iterate_pages-collect lib env s k "" [] w free ends in
    let gmail : (s.source == source_mock) ≡ false = ground (arith, eq_iff s.source source_mock) in
    let same = iterate_pages-enough collect lib env s k fuel "" [] w ends le in
    rw gmail (v, ap collected (same ∙ e))
