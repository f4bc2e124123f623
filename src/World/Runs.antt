-- ===== src/World/Runs.antt =====
-- What a successful run says of its parts, and what an environment with no faults makes of a call.
use email_triage_system.Common.{ℕ, ◌+◌, ◌≡◌, refl, ap, ◌∙◌}
use email_triage_system.World.{
  pure, Env, State, Fault, fine, refused, lost, World, Error, Result, ok, err, Exec, Op, continue,
  recover, ◌>>=◌, catch, call, answer, under, tick,
}

module _ {ℓ κ} {A : Type ℓ} {B : Type κ} where
  continue-eq-ok :
      (r : Result A × World) (f : A → Exec B) (b : B) (w' : World)
      → continue r f ≡ (ok b, w')
      → (a : A) × (v : World) × (r ≡ (ok a, v)) × (f a v ≡ (ok b, w'))
  continue-eq-ok (ok a, v) f b w' h = (a, v, refl, h)
  continue-eq-ok (err e, v) f b w' h = cc

  -- A chain succeeds only if each part does.
  pub >>=-eq-ok :
      (m : Exec A) (f : A → Exec B) (w : World) (b : B) (w' : World)
      → (m >>= f) w ≡ (ok b, w')
      → (a : A) × (v : World) × (m w ≡ (ok a, v)) × (f a v ≡ (ok b, w'))
  unfolding ◌>>=◌
  >>=-eq-ok m f w b w' h = continue-eq-ok (m w) f b w' h

module _ {ℓ} {A : Type ℓ} where
  under-eq-ok :
      (fault : Fault) (r : Result A × World) (w : World) (a : A) (w' : World)
      → under fault r w ≡ (ok a, w')
      → r ≡ (ok a, w')
  under-eq-ok fine r w a w' h = h
  under-eq-ok (refused e) r w a w' h = cc
  under-eq-ok (lost e) r w a w' h = cc

  -- A call that succeeds has had its whole effect.
  pub call-eq-ok :
      (env : Env) (op : Op A) (w : World) (a : A) (w' : World)
      → call env op w ≡ (ok a, w')
      → op w.state ≡ (ok a, w'.state)
  unfolding call
  call-eq-ok env op w a w' h =
      let e : answer (op w.state) (w.calls + 1) ≡ (ok a, w') =
        under-eq-ok (env.fault w.calls) (answer (op w.state) (w.calls + 1)) (tick w) a w' h in
      ap (λ (r : Result A × World). (r.0, r.1.state)) e

  recover-eq-ok :
      (r : Result A × World) (h : Error → Exec A) (a : A) (w' : World)
      → ((e : Error) (v : World) → ¬ (h e v ≡ (ok a, w')))
      → recover r h ≡ (ok a, w')
      → r ≡ (ok a, w')
  recover-eq-ok (ok b, v) h a w' fails e = e
  recover-eq-ok (err x, v) h a w' fails e = absurd (fails x v e)

  -- A handler that always fails again changes no success.
  pub catch-eq-ok :
      (m : Exec A) (h : Error → Exec A) (w : World) (a : A) (w' : World)
      → ((e : Error) (v : World) → ¬ (h e v ≡ (ok a, w')))
      → catch m h w ≡ (ok a, w')
      → m w ≡ (ok a, w')
  unfolding catch
  catch-eq-ok m h w a w' fails e = recover-eq-ok (m w) h a w' fails e

pub pure-eq-ok {ℓ} : {A : Type ℓ} (a b : A) (v w : World) → pure a v ≡ (ok b, w) → a ≡ b
pure-eq-ok a b v w h = cc

-- No call is refused, and no answer is lost.
pub record FaultFree (env : Env) : Type 0 where
  pub fine_call : (n : ℕ) → env.fault n ≡ fine

pub call-FaultFree {ℓ} :
    {A : Type ℓ} (env : Env) (op : Op A) (w : World)
    → FaultFree env
    → call env op w ≡ answer (op w.state) (w.calls + 1)
unfolding call
call-FaultFree env op w free =
    ap (λ f. under f (answer (op w.state) (w.calls + 1)) (tick w)) (free.fine_call w.calls)

pub bind_ok {ℓ κ} :
    {A : Type ℓ} {B : Type κ} (m : Exec A) (f : A → Exec B) (w : World) (a : A) (v : World)
    → m w ≡ (ok a, v)
    → (m >>= f) w ≡ f a v
unfolding ◌>>=◌
bind_ok m f w a v e = ap (λ r. continue r f) e

pub call_ok {ℓ} :
    {A : Type ℓ} (env : Env) (op : Op A) (w : World) (a : A) (t : State)
    → FaultFree env
    → op w.state ≡ (ok a, t)
    → call env op w ≡ (ok a, record { state = t; calls = w.calls + 1 })
call_ok env op w a t free e = call-FaultFree env op w free ∙ ap (λ r. answer r (w.calls + 1)) e
