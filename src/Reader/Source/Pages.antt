-- ===== src/Reader/Source/Pages.antt =====
-- The end of the walk over the pages.
pub mod Complete
use mathlib.Core.List.{append-nil, append_assoc}
use email_triage_system.Common.{
  ℕ, zero, suc, ◌+◌, ◌≤◌, String, ◌≡◌, ◌≢◌, refl, sym, ap, subst, subst⁻¹, ◌∙◌, ◌⊎◌, inl, inr, Bool,
  true, false, ◌||◌, Option, none, some, List, [], ◌∷◌, ◌++◌, ◌==◌, eq_iff, arith, if◌then◌else◌,
  Bool-cases,
}
use email_triage_system.Text.{GoLib}
use email_triage_system.Reader.{Message}
use email_triage_system.Gmail
use email_triage_system.Gmail.{
  list_page, get_message, to_message, read_messages, list_messages_page,
}
use email_triage_system.World.{Env, State, World, ApiPage, Result, ok, err, call}
use email_triage_system.World.Runs.{FaultFree, >>=-eq-ok, call-eq-ok, pure-eq-ok, bind_ok, call_ok}
use email_triage_system.Reader.Source.{
  Source, source_mock, Walked, to_messages, visit_batch, next_page, on_page, iterate_pages,
  iterate_messages, collect, collected, list_messages,
}

module _ (env : Env) (s : Source) where
  abbrev pub page_at : String → ApiPage
  page_at token = env.page s.max_results s.query token

  -- The walk stops behind the page of this token.
  abbrev pub is_last : String → Bool
  is_last token = (page_at token).next_page_token == "" || (page_at token).next_page_token == token

  -- At most so many pages are read from this token on.
  abbrev pub EndsWithin : ℕ → String → Type 0
  EndsWithin zero token = ⊥
  EndsWithin (suc n) token = (is_last token ≡ true) ⊎ EndsWithin n ((page_at token).next_page_token)

list_page-eq-ok :
    (lib : GoLib) (env : Env) (s : Source) (token : String) (a b : State) (page : ApiPage)
    → list_page lib env s.max_results s.query token a ≡ (ok page, b)
    → page ≡ page_at env s token
unfolding list_page
list_page-eq-ok lib env s token a b page h = cc

list_page_next :
    (lib : GoLib) (env : Env) (s : Source) (token : String) (w w' : World)
    (items : List Gmail.Message) (next : String)
    → list_messages_page lib env s.max_results s.query token w ≡ (ok (items, next), w')
    → next ≡ (page_at env s token).next_page_token
unfolding list_messages_page
list_page_next lib env s token w w' items next h =
    let (page, v, e, h1) =
      >>=-eq-ok (call env (list_page lib env s.max_results s.query token)) _ w (items, next) w' h in
    let (read, v2, e2, h2) =
      >>=-eq-ok (read_messages lib env page.message_ids) _ v (items, next) w' h1 in
    let same : page.next_page_token ≡ next =
      ap (λ (r : List Gmail.Message × String). r.1)
        (pure-eq-ok (read, page.next_page_token) (items, next) v2 w' h2) in
    sym same
    ∙ ap (λ (p : ApiPage). p.next_page_token)
        (list_page-eq-ok lib env s token w.state v.state page (call-eq-ok env _ w page v e))

module _ {ℓ} {V : Type ℓ} (visit : V → List Message → World → Walked V) where
  next_page-rest :
      (rest rest' : V → World → Walked V) (stop : Bool) (r : Walked V)
      → (stop ≡ false → (v : V) (w : World) → rest v w ≡ rest' v w)
      → next_page visit rest stop r ≡ next_page visit rest' stop r
  next_page-rest rest rest' stop (err e, v, w) h = refl
  next_page-rest rest rest' true (ok done, v, w) h = refl
  next_page-rest rest rest' false (ok done, v, w) h = h refl v w

  on_page-rest :
      (rest rest' : String → V → World → Walked V) (token : String) (v : V)
      (r : Result (List Gmail.Message × String) × World)
      → ((items : List Gmail.Message) (next : String) (w : World)
          → r ≡ (ok (items, next), w)
          → (next == "" || next == token) ≡ false
          → (v : V) (w : World) → rest next v w ≡ rest' next v w)
      → on_page visit rest token v r ≡ on_page visit rest' token v r
  on_page-rest rest rest' token v (err e, w) h = refl
  on_page-rest rest rest' token v (ok (items, next), w) h =
      next_page-rest (rest next) (rest' next) (next == "" || next == token) _
        (λ more. h items next w refl more)

  module _ (lib : GoLib) (env : Env) (s : Source) where
    -- More fuel than there are pages changes nothing.
    pub iterate_pages-enough :
        (k fuel : ℕ) (token : String) (v : V) (w : World)
        → EndsWithin env s k token
        → k ≤ fuel
        → iterate_pages visit lib env s fuel token v w ≡ iterate_pages visit lib env s k token v w
    unfolding iterate_pages
    iterate_pages-enough zero fuel token v w ends le = absurd ends
    iterate_pages-enough (suc k) zero token v w ends le = absurd (omega arith)
    iterate_pages-enough (suc k) (suc fuel) token v w ends le =
        on_page-rest (iterate_pages visit lib env s fuel) (iterate_pages visit lib env s k) token v
          (list_messages_page lib env s.max_results s.query token w)
          (λ items next w' e more v2 w2.
            let there : next ≡ (page_at env s token).next_page_token =
              list_page_next lib env s token w w' items next e in
            let rest : iterate_pages visit lib env s fuel ((page_at env s token).next_page_token) v2
                  w2
                ≡ iterate_pages visit lib env s k ((page_at env s token).next_page_token) v2 w2 =
              elim ends [
                | inl last ↦
                    let more2 : is_last env s token ≡ false =
                      subst (λ t. (t == "" || t == token) ≡ false) there more in
                    cc
                | inr later ↦
                    iterate_pages-enough k fuel ((page_at env s token).next_page_token) v2 w2 later
                      (omega arith)
              ] in
            subst⁻¹
              (λ t.
                iterate_pages visit lib env s fuel t v2 w2
                ≡ iterate_pages visit lib env s k t v2 w2)
              there rest)

-- Where at most `k` pages follow one another before a last one, a walk with fuel for `k` pages or
-- more ends as a walk with fuel for exactly `k` does, whatever the callback does and whatever fails.
pub iterate_messages-enough {ℓ} :
    {V : Type ℓ} (visit : V → List Message → World → Walked V) (lib : GoLib) (env : Env)
    (s : Source) (k fuel : ℕ) (v : V) (w : World)
    → EndsWithin env s k ""
    → k ≤ fuel
    → iterate_messages visit lib env fuel s v w ≡ iterate_messages visit lib env k s v w
unfolding iterate_messages
iterate_messages-enough visit lib env s k fuel v w ends le =
    elim (Bool-cases (s.source == source_mock)) [
      | inl mock ↦ rw mock refl
      | inr read ↦ rw read (iterate_pages-enough visit lib env s k fuel "" v w ends le)
    ]
