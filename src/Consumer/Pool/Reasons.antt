-- ===== src/Consumer/Pool/Reasons.antt =====
-- The label worker's `Run`: why a worker ends, and why `Run` returns.
use email_triage_system.Common.{
  ℕ, ◌<◌, ◌≡◌, ◌≢◌, refl, subst, ◌⊎◌, inl, inr, Bool, true, ◌||◌, none, some, List, [], ◌∷◌, ◌++◌,
  All, All-append, arith, Bool-cases,
}
use email_triage_system.World.{Error}
use email_triage_system.Consumer.Pool.{Main, selecting, draining, returned, Pool, Step}
use email_triage_system.Consumer.Pool.Counts.{Counts}

-- The error is in the list.
abbrev pub Has : Error → List Error → Type 0
Has e [] = ⊥
Has e (x ∷ xs) = (e ≡ x) ⊎ Has e xs

-- Why the workers may end: the context is done, the channel is closed, or a handler failed.
abbrev pub HasCause : (stopped closed : Bool) (failures : List Error) → Type 0
HasCause stopped closed failures = (stopped ≡ true) ⊎ ((closed ≡ true) ⊎ (failures ≢ []))

-- What `Run` returns or is going to return has a reason.
abbrev pub Explained : (stopped closed cancelled done : Bool) → List Error → Main → Type 0
Explained stopped closed cancelled done failures selecting = cancelled ≡ true → failures ≢ []
Explained stopped closed cancelled done failures (draining none) = stopped ≡ true
Explained stopped closed cancelled done failures (draining (some e)) = Has e failures
Explained stopped closed cancelled done failures (returned none) =
    HasCause stopped closed failures × (done ≡ true)
Explained stopped closed cancelled done failures (returned (some e)) =
    Has e failures × (done ≡ true)

pub record Reasons (p : Pool) : Type 0 where
  pub told : All (λ e. Has e p.failures) p.errors
  pub failed : 0 < p.reported → p.failures ≢ []
  pub cause : 0 < p.exited → HasCause p.stopped p.closed p.failures
  pub explained : Explained p.stopped p.closed p.cancelled p.done p.failures p.main

Has-append_left : (e : Error) (xs ys : List Error) → Has e xs → Has e (xs ++ ys)
Has-append_left e [] ys h = absurd h
Has-append_left e (x ∷ xs) ys (inl h) = inl h
Has-append_left e (x ∷ xs) ys (inr h) = inr (Has-append_left e xs ys h)

Has-append_last : (e : Error) (xs : List Error) → Has e (xs ++ e ∷ [])
Has-append_last e [] = inl refl
Has-append_last e (x ∷ xs) = inr (Has-append_last e xs)

append-nonempty : (e : Error) (xs : List Error) → (xs ++ e ∷ []) ≢ []
append-nonempty e [] h = cc
append-nonempty e (x ∷ xs) h = cc

Has-nonempty : (e : Error) (xs : List Error) → Has e xs → xs ≢ []
Has-nonempty e [] h = absurd h
Has-nonempty e (x ∷ xs) h = λ q. cc

module _ (p : Pool) where
  Explained-HasCause :
      (m : Main)
      → Explained p.stopped p.closed p.cancelled p.done p.failures m
      → p.cancelled ≡ true
      → HasCause p.stopped p.closed p.failures
  Explained-HasCause selecting h c = inr (inr (h c))
  Explained-HasCause (draining none) h c = inl h
  Explained-HasCause (draining (some e)) h c = inr (inr (Has-nonempty e p.failures h))
  Explained-HasCause (returned none) h c = h.0
  Explained-HasCause (returned (some e)) h c = inr (inr (Has-nonempty e p.failures h.0))

  Explained-stop :
      (m : Main)
      → Explained p.stopped p.closed p.cancelled p.done p.failures m
      → Explained true p.closed p.cancelled p.done p.failures m
  Explained-stop selecting h = h
  Explained-stop (draining none) h = refl
  Explained-stop (draining (some e)) h = h
  Explained-stop (returned none) h = (inl refl, h.1)
  Explained-stop (returned (some e)) h = h

  Explained-close :
      (m : Main)
      → Explained p.stopped p.closed p.cancelled p.done p.failures m
      → Explained p.stopped true p.cancelled p.done p.failures m
  Explained-close selecting h = h
  Explained-close (draining none) h = h
  Explained-close (draining (some e)) h = h
  Explained-close (returned none) h = (inr (inl refl), h.1)
  Explained-close (returned (some e)) h = h

  Explained-fail :
      (x : Error) (m : Main)
      → Explained p.stopped p.closed p.cancelled p.done p.failures m
      → Explained p.stopped p.closed p.cancelled p.done (p.failures ++ x ∷ []) m
  Explained-fail x selecting h = λ c. append-nonempty x p.failures
  Explained-fail x (draining none) h = h
  Explained-fail x (draining (some e)) h = Has-append_left e p.failures (x ∷ []) h
  Explained-fail x (returned none) h = (inr (inr (append-nonempty x p.failures)), h.1)
  Explained-fail x (returned (some e)) h = (Has-append_left e p.failures (x ∷ []) h.0, h.1)

  Explained-cancel :
      (m : Main)
      → p.failures ≢ []
      → Explained p.stopped p.closed p.cancelled p.done p.failures m
      → Explained p.stopped p.closed true p.done p.failures m
  Explained-cancel selecting f h = λ c. f
  Explained-cancel (draining none) f h = h
  Explained-cancel (draining (some e)) f h = h
  Explained-cancel (returned none) f h = h
  Explained-cancel (returned (some e)) f h = h

  Explained-done :
      (m : Main)
      → Explained p.stopped p.closed p.cancelled p.done p.failures m
      → Explained p.stopped p.closed p.cancelled true p.failures m
  Explained-done selecting h = h
  Explained-done (draining none) h = h
  Explained-done (draining (some e)) h = h
  Explained-done (returned none) h = (h.0, refl)
  Explained-done (returned (some e)) h = (h.0, refl)

told-append :
    (x : Error) (failures errors : List Error)
    → All (λ e. Has e failures) errors
    → All (λ e. Has e (failures ++ x ∷ [])) errors
told-append x failures [] h = tt
told-append x failures (e ∷ errors) h =
    (Has-append_left e failures (x ∷ []) h.0, told-append x failures errors h.1)

leave-HasCause :
    (p : Pool)
    → Explained p.stopped p.closed p.cancelled p.done p.failures p.main
    → (p.stopped || p.cancelled) ≡ true
    → HasCause p.stopped p.closed p.failures
leave-HasCause p h e = elim (Bool-cases p.stopped) [
  | inl stop ↦ inl stop
  | inr goes ↦ let c : p.cancelled ≡ true = rw goes at e in Explained-HasCause p p.main h c
]

pub Step-Reasons : {c : ℕ} {p q : Pool} → 0 < c → Step c p q → Counts c p → Reasons p → Reasons q
Step-Reasons {c} {p} pos Step.stop n i = record {
  told = i.told;
  failed = i.failed;
  cause = λ h. inl refl;
  explained = Explained-stop p p.main i.explained;
}
Step-Reasons {c} {p} pos Step.close n i = record {
  told = i.told;
  failed = i.failed;
  cause = λ h. inr (inl refl);
  explained = Explained-close p p.main i.explained;
}
Step-Reasons pos (Step.take h) n i = record {
  told = i.told;
  failed = i.failed;
  cause = i.cause;
  explained = i.explained;
}
Step-Reasons pos (Step.handled h) n i = record {
  told = i.told;
  failed = i.failed;
  cause = i.cause;
  explained = i.explained;
}
Step-Reasons {c} {p} pos (Step.report e h free) n i = record {
  told =
      All-append _ p.errors (e ∷ []) (told-append e p.failures p.errors i.told)
        (Has-append_last e p.failures, tt);
  failed = λ h. append-nonempty e p.failures;
  cause = λ h. inr (inr (append-nonempty e p.failures));
  explained = Explained-fail p e p.main i.explained;
}
Step-Reasons {c} {p} pos (Step.report_full e h full) n i = record {
  told = told-append e p.failures p.errors i.told;
  failed = λ h. append-nonempty e p.failures;
  cause = λ h. inr (inr (append-nonempty e p.failures));
  explained = Explained-fail p e p.main i.explained;
}
Step-Reasons {c} {p} pos (Step.cancel h) n i =
    let f : p.failures ≢ [] = i.failed (omega (arith, h)) in
    record {
      told = i.told;
      failed = λ h. f;
      cause = λ h. inr (inr f);
      explained = Explained-cancel p p.main f i.explained;
    }
Step-Reasons {c} {p} pos (Step.leave h e) n i = record {
  told = i.told;
  failed = i.failed;
  cause = λ h. leave-HasCause p i.explained e;
  explained = i.explained;
}
Step-Reasons {c} {p} pos (Step.leave_closed h e) n i = record {
  told = i.told;
  failed = i.failed;
  cause = λ h. inr (inl e);
  explained = i.explained;
}
Step-Reasons {c} {p} pos (Step.all_done h) n i = record {
  told = i.told;
  failed = i.failed;
  cause = i.cause;
  explained = Explained-done p p.main i.explained;
}
Step-Reasons pos (Step.on_stop m h) n i = record {
  told = i.told;
  failed = i.failed;
  cause = i.cause;
  explained = h;
}
Step-Reasons {c} {p} pos (Step.on_error m h) n i =
    let told = subst (All (λ e. Has e p.failures)) h i.told in
    record { told = told.1; failed = i.failed; cause = i.cause; explained = told.0 }
Step-Reasons {c} {p} pos (Step.on_done m h) n i = record {
  told = i.told;
  failed = i.failed;
  cause = i.cause;
  explained = (i.cause (omega (arith, n.ended h)), h);
}
Step-Reasons {c} {p} pos (Step.drained none m h) n i = record {
  told = i.told;
  failed = i.failed;
  cause = i.cause;
  explained =
      (inl (subst (Explained p.stopped p.closed p.cancelled p.done p.failures) m i.explained), h);
}
Step-Reasons {c} {p} pos (Step.drained (some e) m h) n i = record {
  told = i.told;
  failed = i.failed;
  cause = i.cause;
  explained = (subst (Explained p.stopped p.closed p.cancelled p.done p.failures) m i.explained, h);
}
