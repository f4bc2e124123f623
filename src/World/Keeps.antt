-- ===== src/World/Keeps.antt =====
-- Rules for invariants of actions: one for each way in which an action is built.
use email_triage_system.Common.{◌+◌, ◌≡◌, refl, Bool, true, false, if◌then◌else◌}
use email_triage_system.World.{
  State, World, Env, Fault, fine, refused, lost, Error, Result, ok, err, Exec, pure, fail, continue,
  recover, answer, under, tick, ◌>>=◌, catch, Op, call, now,
}

-- `m` keeps `P`, whether it succeeds or fails.
pub record Keeps {ℓ} {A : Type ℓ} (P : State → Type 0) (m : Exec A) : Type ℓ where
  pub after : (w : World) → P w.state → P (m w).1.state

-- What holds of the services before a request holds after it.
pub record OpKeeps {ℓ} {A : Type ℓ} (P : State → Type 0) (op : Op A) : Type ℓ where
  pub after_op : (s : State) → P s → P (op s).1

under-keeps {ℓ} :
    {A : Type ℓ} (Q : State → Type 0) (fault : Fault) (r : Result A × World) (w : World)
    → Q r.1.state
    → Q w.state
    → Q (under fault r w).1.state
under-keeps Q fine r w h k = h
under-keeps Q (refused e) r w h k = k
under-keeps Q (lost e) r w h k = h

module _ {ℓ} {A : Type ℓ} {P : State → Type 0} where
  pub Keeps-pure : (a : A) → Keeps P (pure a)
  Keeps-pure a = record { after = λ w h. h }

  pub Keeps-fail : (e : Error) → Keeps P (fail {A = A} e)
  Keeps-fail e = record { after = λ w h. h }

  pub Keeps-call : (env : Env) (op : Op A) → OpKeeps P op → Keeps P (call env op)
  unfolding call
  Keeps-call env op k = record {
    after = λ w h.
        under-keeps P (env.fault w.calls) (answer (op w.state) (w.calls + 1)) (tick w)
          (k.after_op w.state h) h;
  }

  pub Keeps-catch :
      (m : Exec A) (handler : Error → Exec A)
      → Keeps P m
      → ((e : Error) → Keeps P (handler e))
      → Keeps P (catch m handler)
  unfolding catch
  Keeps-catch m handler km kh = record { after = λ w h. recovered (m w) (km.after w h) }
    where
      recovered : (r : Result A × World) → P r.1.state → P (recover r handler).1.state
      recovered (ok a, w) h = h
      recovered (err e, w) h = (kh e).after w h

  pub Keeps-if :
      (test : Bool) (then_act else_act : Exec A)
      → (test ≡ true → Keeps P then_act)
      → (test ≡ false → Keeps P else_act)
      → Keeps P (if test then then_act else else_act)
  Keeps-if true then_act else_act holds fails = holds refl
  Keeps-if false then_act else_act holds fails = fails refl

module _ {ℓ κ} {A : Type ℓ} {B : Type κ} {P : State → Type 0} where
  pub Keeps-bind :
      (first : Exec A) (rest : A → Exec B)
      → Keeps P first
      → ((value : A) → Keeps P (rest value))
      → Keeps P (first >>= rest)
  unfolding ◌>>=◌
  Keeps-bind first rest keep keep_rest = record {
    after = λ w h. continued (first w) (keep.after w h);
  }
    where
      continued : (r : Result A × World) → P r.1.state → P (continue r rest).1.state
      continued (ok value, w) h = (keep_rest value).after w h
      continued (err e, w) h = h

pub Keeps-now : {P : State → Type 0} (env : Env) → Keeps P (now env)
unfolding now
Keeps-now env = record { after = λ w h. h }

pub ruleset keeps_rules =
    (Keeps-pure, Keeps-fail, Keeps-call, Keeps-catch, Keeps-if, Keeps-bind, Keeps-now)
