-- ===== src/Scans/Complete/Listing.antt =====
-- The walk of a scan over all that its source lists, with no fault.
use mathlib.Core.List.{append-nil, append_assoc}
use email_triage_system.Common.{
  ℕ, zero, suc, ◌≤◌, String, ◌≡◌, refl, sym, ap, subst, subst⁻¹, ◌∙◌, false, ◌⊎◌, inl, inr, List,
  [], ◌∷◌, ◌++◌, arith, ◌==◌, eq_iff, if◌then◌else◌, Bool-cases,
}
use email_triage_system.Text.{GoLib}
use email_triage_system.Reader.{Message}
use email_triage_system.Reader.Source.{
  Source, Walked, source_mock, mock_messages, to_messages, visit_batch, next_page, on_page,
  iterate_pages, iterate_messages,
}
use email_triage_system.Reader.Source.Walk.{list_messages_page-Keeps}
use email_triage_system.Reader.Source.Pages.{page_at, is_last, EndsWithin, iterate_pages-enough}
use email_triage_system.Reader.Source.Pages.Complete.{
  listed, pages_items, list_messages_page-listed, to_messages-append,
}
use email_triage_system.Gmail
use email_triage_system.Gmail.{list_messages_page}
use email_triage_system.Events.{Codec}
use email_triage_system.World.{Env, State, World, Result, ok}
use email_triage_system.World.Runs.{FaultFree}
use email_triage_system.Storage.{Totals}
use email_triage_system.Scans.{Job, no_totals, visit}
use email_triage_system.Scans.Complete.{Enqueued, visit_ok}

-- What the source lists, `k` pages at most.
abbrev pub messages_of : GoLib → Env → Source → ℕ → List Message
messages_of lib env source k =
    if source.source == source_mock
    then mock_messages
    else to_messages (pages_items lib env source k "")

module _ (codec : Codec) (env : Env) (free : FaultFree env) (job : Job) where
  module _ (lib : GoLib) (source : Source) (before : State) where
    -- The walk has gone on over these messages.
    abbrev pub Walks : List Message → List Message → Walked Totals → Type 0
    Walks seen messages r =
        (after : Totals) × (v : World) × (r ≡ (ok tt, after, v))
        × Enqueued codec job before (seen ++ messages) after v.state

    visit_batch_ok :
        (seen batch : List Message) (totals : Totals) (w : World)
        → Enqueued codec job before seen totals w.state
        → Walks seen batch (visit_batch (visit codec env job) totals batch w)
    visit_batch_ok seen [] totals w h = (
      totals,
      w,
      refl,
      subst (λ l. Enqueued codec job before l totals w.state) (sym (append-nil seen)) h,
    )
    visit_batch_ok seen (m ∷ ms) totals w h =
        visit_ok codec env free job before seen (m ∷ ms) totals w h

    iterate_pages_ok :
        (n : ℕ) (token : String) (seen : List Message) (totals : Totals) (w : World)
        → EndsWithin env source n token
        → Enqueued codec job before seen totals w.state
        → Walks seen
            (to_messages (pages_items lib env source n token))
            (iterate_pages (visit codec env job) lib env source n token totals w)
    unfolding iterate_pages pages_items
    iterate_pages_ok zero token seen totals w ends h = absurd ends
    iterate_pages_ok (suc n) token seen totals w ends h =
        let p = page_at env source token in
        let items = to_messages (listed lib env p.message_ids) in
        let (v, e) = list_messages_page-listed lib env source token w free in
        let same : v.state ≡ w.state =
          ap (λ (x : Result (List Gmail.Message × String) × World). x.1.state) (sym e)
          ∙ (list_messages_page-Keeps {P = λ t. t ≡ w.state} lib env source.max_results source.query
                token).after
              w refl in
        let (totals2, v2, visited, h2) =
          visit_batch_ok seen items totals v
            (subst⁻¹ (Enqueued codec job before seen totals) same h) in
        let rest = iterate_pages (visit codec env job) lib env source n p.next_page_token in
        let later : (is_last env source token ≡ false) → EndsWithin env source n p.next_page_token =
          λ more. elim ends [ inl last ↦ cc | inr later ↦ later ] in
        let go_on = λ (more : is_last env source token ≡ false).
          iterate_pages_ok n ((page_at env source token).next_page_token) (seen ++ items) totals2 v2
            (later more) h2 in
        let stepped =
          ap
            (on_page (visit codec env job) (iterate_pages (visit codec env job) lib env source n)
              token totals)
            e
          ∙ ap (next_page (visit codec env job) rest (is_last env source token)) visited in
        elim (Bool-cases (is_last env source token)) [
          | inl last ↦ rw last (
            totals2,
            v2,
            stepped ∙ ap (λ b. next_page (visit codec env job) rest b (ok tt, totals2, v2)) last,
            rw (append-nil (listed lib env p.message_ids)) h2,
          )
          | inr more ↦
              let (totals3, v3, walked_on, h3) = go_on more in
              rw more (
                totals3,
                v3,
                stepped
                    ∙ ap (λ b. next_page (visit codec env job) rest b (ok tt, totals2, v2)) more
                    ∙ walked_on,
                subst (λ l. Enqueued codec job before l totals3 v3.state)
                    (append_assoc seen items
                        (to_messages (pages_items lib env source n p.next_page_token))
                      ∙ ap (λ l. seen ++ l)
                          (sym (
                            to_messages-append (listed lib env p.message_ids)
                              (pages_items lib env source n p.next_page_token))))
                    h3,
              )
        ]

    pub iterate_messages_ok :
        (k fuel : ℕ) (w : World)
        → (source.source ≡ source_mock) ⊎ EndsWithin env source k ""
        → k ≤ fuel
        → Enqueued codec job before [] no_totals w.state
        → Walks []
            (messages_of lib env source k)
            (iterate_messages (visit codec env job) lib env fuel source no_totals w)
    unfolding iterate_messages
    iterate_messages_ok k fuel w ends le h = elim (Bool-cases (source.source == source_mock)) [
      | inl mock ↦ rw mock (visit_ok codec env free job before [] mock_messages no_totals w h)
      | inr other ↦ elim ends [
        | inl mock ↦ absurd (ground (arith, eq_iff source.source source_mock))
        | inr within ↦
            let (after, v, e, done) = iterate_pages_ok k "" [] no_totals w within h in
            rw other (
              after,
              v,
              iterate_pages-enough (visit codec env job) lib env source k fuel "" no_totals w within
                    le
                  ∙ e,
              done,
            )
      ]
    ]
