-- ===== src/Reader/Source/Walk.antt =====
-- Invariants of the walk over the pages: of the callback's variables and of the services.
use email_triage_system.Common.{
  All, All-map, ◌≡◌, ◌≢◌, refl, sym, subst, eq_iff, arith, ℕ, zero, suc, String, Bool, true, false,
  ◌||◌, Option, none, some, List, [], ◌∷◌, ◌==◌, Bool-cases, inl, inr,
}
use email_triage_system.Text.{GoLib}
use email_triage_system.Reader.{Message}
use email_triage_system.Gmail
use email_triage_system.Gmail.{list_page, get_message, read_messages, list_messages_page}
use email_triage_system.World.{Env, State, World, Result, ok, err}
use email_triage_system.World.Keeps.{Keeps, Keeps-call, Keeps-pure, Keeps-bind, Keeps-if}
use email_triage_system.Reader.Source.Listed.{
  OnPages, first_page, next_one, IsListed, mock_messages-IsListed, list_messages_page-IsGotten,
}
use email_triage_system.Reader.Source.{
  Source, source_mock, mock_messages, Walked, to_messages, visit_batch, next_page, on_page,
  iterate_pages, iterate_messages,
}

module _ {P : State → Type 0} (lib : GoLib) (env : Env) where
  read_messages-Keeps : (ids : List (Option String)) → Keeps P (read_messages lib env ids)
  unfolding read_messages get_message
  read_messages-Keeps [] = Keeps-pure []
  read_messages-Keeps (none ∷ ids) = read_messages-Keeps ids
  read_messages-Keeps (some id ∷ ids) =
      Keeps-if (id == "") _ _ (λ _. read_messages-Keeps ids)
        (λ _.
          Keeps-bind _ _ (Keeps-call env _ (record { after_op = λ s h. h }))
            (λ _. Keeps-bind _ _ (read_messages-Keeps ids) (λ _. Keeps-pure _)))

  -- Reading a page changes nothing that the services hold.
  pub list_messages_page-Keeps :
      (max_results : _) (query token : String)
      → Keeps P (list_messages_page lib env max_results query token)
  unfolding list_messages_page list_page
  list_messages_page-Keeps max_results query token =
      Keeps-bind _ _ (Keeps-call env _ (record { after_op = λ s h. h }))
        (λ page. Keeps-bind _ _ (read_messages-Keeps page.message_ids) (λ _. Keeps-pure _))

module _ {ℓ} {V : Type ℓ} (visit : V → List Message → World → Walked V) (I : V → Type 0)
    (P : State → Type 0) (lib : GoLib) (env : Env) (s : Source)
    (step : (v : V) (batch : List Message) (w : World)
      → All (IsListed env s) batch
      → I v
      → P w.state
      → I (visit v batch w).1 × P (visit v batch w).2.state) where
  abbrev Held : Walked V → Type 0
  Held r = I r.1 × P r.2.state

  visit_batch-keeps :
      (v : V) (batch : List Message) (w : World)
      → All (IsListed env s) batch
      → I v
      → P w.state
      → Held (visit_batch visit v batch w)
  visit_batch-keeps v [] w l i p = (i, p)
  visit_batch-keeps v (m ∷ ms) w l i p = step v (m ∷ ms) w l i p

  next_page-keeps :
      (rest : V → World → Walked V) (stop : Bool) (r : Walked V)
      → (stop ≡ false → (v : V) (w : World) → I v → P w.state → Held (rest v w))
      → Held r
      → Held (next_page visit rest stop r)
  next_page-keeps rest stop (err e, v, w) h k = k
  next_page-keeps rest true (ok done, v, w) h k = k
  next_page-keeps rest false (ok done, v, w) h k = h refl v w k.0 k.1

  on_page-keeps :
      (rest : String → V → World → Walked V) (token : String) (v : V)
      (r : Result (List Gmail.Message × String) × World)
      → ((next : String)
          → OnPages env s next
          → (v : V) (w : World) → I v
          → P w.state
          → Held (rest next v w))
      → ((items : List Gmail.Message) (next : String) (w : World)
          → r ≡ (ok (items, next), w)
          → All (IsListed env s) (to_messages items)
            × ((next == "" || next == token) ≡ false → OnPages env s next))
      → I v
      → P r.1.state
      → Held (on_page visit rest token v r)
  on_page-keeps rest token v (err e, w) h l i p = (i, p)
  on_page-keeps rest token v (ok (items, next), w) h l i p =
      let (listed, on) = l items next w refl in
      next_page-keeps (rest next) (next == "" || next == token) _ (λ more. h next (on more))
        (visit_batch-keeps v (to_messages items) w listed i p)

  page-IsListed :
      (token : String) (w : World)
      → s.source ≢ source_mock
      → OnPages env s token
      → (items : List Gmail.Message) (next : String) (w' : World)
      → list_messages_page lib env s.max_results s.query token w ≡ (ok (items, next), w')
      → All (IsListed env s) (to_messages items)
        × ((next == "" || next == token) ≡ false → OnPages env s next)
  page-IsListed token w gmail on items next w' h =
      let (gotten, same) =
        list_messages_page-IsGotten lib env s.max_results s.query token next w w' items h in
      (
        All-map (λ message g. inr (gmail, (token, on, g))) (to_messages items) gotten,
        λ more.
            subst (λ (t : String). OnPages env s t) (sym same)
              (next_one on (subst (λ (t : String). (t == "" || t == token) ≡ false) same more)),
      )

  iterate_pages-keeps :
      (fuel : ℕ) (token : String)
      → s.source ≢ source_mock
      → OnPages env s token
      → (v : V) (w : World) → I v
      → P w.state
      → Held (iterate_pages visit lib env s fuel token v w)
  unfolding iterate_pages
  iterate_pages-keeps zero token gmail on v w i p = (i, p)
  iterate_pages-keeps (suc fuel) token gmail on v w i p =
      on_page-keeps (iterate_pages visit lib env s fuel) token v _
        (λ next on'. iterate_pages-keeps fuel next gmail on') (page-IsListed token w gmail on) i
        ((list_messages_page-Keeps {P = P} lib env s.max_results s.query token).after w p)

  -- What every visit keeps, the walk keeps, however it ends.
  pub iterate_messages-keeps :
      (fuel : ℕ) (v : V) (w : World)
      → I v
      → P w.state
      → I (iterate_messages visit lib env fuel s v w).1
        × P (iterate_messages visit lib env fuel s v w).2.state
  unfolding iterate_messages
  iterate_messages-keeps fuel v w i p = elim (Bool-cases (s.source == source_mock)) [
    | inl mock ↦ rw mock (
        visit_batch-keeps v mock_messages w
          (mock_messages-IsListed env s ((eq_iff s.source source_mock).0 mock)) i p)
    | inr gmail ↦ rw gmail (
        iterate_pages-keeps fuel "" (ground (arith, eq_iff s.source source_mock)) first_page v w i
          p)
  ]
