-- ===== src/Consumer/Pool/Returning.antt =====
-- The label worker's `Run` cannot get stuck.
use email_triage_system.Common.{
  ℕ, zero, suc, ◌+◌, ◌<◌, ◌≡◌, refl, ap, ◌⊎◌, inl, inr, Bool, true, false, ◌||◌, not, Option, arith,
  Bool-cases, ◌*◌,
}
use email_triage_system.World.{Error}
use email_triage_system.Consumer.Pool.{Main, selecting, draining, returned, Pool, Step, Reach}
use email_triage_system.Consumer.Pool.Counts.{Counts, Step-Counts}
use email_triage_system.Consumer.Pool.Safety.{Reach-Counts}

-- What may follow a pool, in any number of steps.
pub data Leads (c : ℕ) : Pool → Pool → Type 0 where
  here : {p : Pool} → Leads c p p
  then_step : {p q r : Pool} → Step c p q → Leads c q r → Leads c p r

-- The workers have been told to end.
abbrev pub IsEnding : Pool → Type 0
IsEnding p = (p.stopped || p.cancelled || p.closed) ≡ true

abbrev one_if : Bool → ℕ
one_if true = 1
one_if false = 0

abbrev main_rank : Main → ℕ
main_rank selecting = 1
main_rank (draining r) = 1
main_rank (returned r) = 0

-- How many steps are left at most, where no delivery is taken.
abbrev rank : Pool → ℕ
rank p = 3 * p.busy + p.waiting + p.reported + one_if (not p.done) + main_rank p.main

abbrev pub IsBack : Pool → Type 0
IsBack p = (r : Option Error) × (p.main ≡ returned r)

-- A step that takes the pool nearer to its end, and leaves it ending.
abbrev Nearer : ℕ → Pool → Type 0
Nearer c p = (q : Pool) × Step c p q × (rank q < rank p) × IsEnding q

end_or_cancel : (p : Pool) → IsEnding p → (p.closed ≡ true) ⊎ ((p.stopped || p.cancelled) ≡ true)
end_or_cancel p e = ground arith

cancelled-IsEnding : (stopped closed : Bool) → (stopped || true || closed) ≡ true
cancelled-IsEnding stopped closed = ground arith

suc_of : (n : ℕ) → (n ≡ 0) ⊎ ((k : ℕ) × (n ≡ suc k))
suc_of zero = inl refl
suc_of (suc k) = inr (k, refl)

main_Nearer :
    {c : ℕ} (p : Pool) (m : Main) → p.main ≡ m → p.done ≡ true → IsEnding p → IsBack p ⊎ Nearer c p
main_Nearer p selecting h done e =
    inr
      (_, Step.on_done h done, omega (arith, ap main_rank h), cancelled-IsEnding p.stopped p.closed)
main_Nearer p (draining r) h done e =
    inr (_, Step.drained r h done, omega (arith, ap main_rank h), e)
main_Nearer p (returned r) h done e = inl (r, h)

Nearer-of_ending : {c : ℕ} (p : Pool) → Counts c p → IsEnding p → IsBack p ⊎ Nearer c p
Nearer-of_ending p n e = elim (suc_of p.busy) [
  | inr (k, h) ↦ inr (_, Step.handled h, omega (arith, h), e)
  | inl idle ↦ elim (suc_of p.reported) [
    | inr (k, h) ↦ inr (_, Step.cancel h, omega (arith, h), cancelled-IsEnding p.stopped p.closed)
    | inl none_reported ↦ elim (suc_of p.waiting) [
      | inr (k, h) ↦ elim (end_or_cancel p e) [
        | inl closed ↦ inr (_, Step.leave_closed h closed, omega (arith, h), e)
        | inr cancelled ↦ inr (_, Step.leave h cancelled, omega (arith, h), e)
      ]
      | inl none_waits ↦ elim (Bool-cases p.done) [
        | inl done ↦ main_Nearer p p.main refl done e
        | inr open_done ↦ inr (
          _,
          Step.all_done (omega (arith, n.total)),
          omega (arith, ap (λ b. one_if (not b)) open_done),
          e,
        )
      ]
    ]
  ]
]

Leads-of_rank :
    {c : ℕ} (fuel : ℕ) (p : Pool)
    → rank p < fuel
    → Counts c p
    → IsEnding p
    → (q : Pool) × Leads c p q × IsBack q
Leads-of_rank zero p small n e = absurd (omega arith)
Leads-of_rank (suc fuel) p small n e = elim (Nearer-of_ending p n e) [
  | inl back ↦ (p, here, back)
  | inr (q, s, less, e2) ↦
      let (r, path, back) = Leads-of_rank fuel q (omega (arith, less)) (Step-Counts s n) e2 in
      (r, then_step s path, back)
]

-- From every state that `Run` can be in once the context is done, `cancel()` was called or the
-- deliveries' channel is closed, some steps lead to a state in which `Run` has returned, even if no
-- further delivery is taken: no worker and no channel blocks it.
pub Run-can_return :
    {c : ℕ} {p : Pool} → Reach c p → IsEnding p → (q : Pool) × Leads c p q × IsBack q
Run-can_return {c} {p} reach e = Leads-of_rank (suc (rank p)) p (omega arith) (Reach-Counts reach) e
