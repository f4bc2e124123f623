-- ===== src/Router/Callers.antt =====
-- Who the callers of the protected endpoints are.
use mathlib.Core.List.{Memᴰ}
use email_triage_system.Common.{
  ℕ, String, ◌≡◌, ◌≢◌, refl, sym, ap, ◌∙◌, inl, inr, true, not, ◌||◌, Option, some, none, ◌==◌,
  arith, Bool-cases,
}
use email_triage_system.Text.{GoLib, cut, equal_fold, trim_space}
use email_triage_system.World.{Env, Result, ok, err, World, now, tick}
use email_triage_system.Auth.{Principal, Config, Crypto, normalized}
use email_triage_system.Auth.Tokens.{TokenManager, new_token_manager, claims_of, issue, verify}
use email_triage_system.Auth.Tokens.Admitted.{verify_claims_iff}
use email_triage_system.Auth.Tokens.Accepted.{IsAccepted, verify_iff}
use email_triage_system.Auth.Tokens.Laws.{CryptoLaws, verify-issue}
use email_triage_system.Login.{me}
use email_triage_system.Text.Decimal.{parse_int}
use mathlib.Core.Option.{some-injective}
use email_triage_system.Scans.{
  get_scan, Response, RequestBody, CreateScanResponse, Job, reply, create_scan,
}
use email_triage_system.Scans.Access.{IsOwnScan, create_scan-IsOwnScan}
use email_triage_system.Router.{
  Endpoint, healthz, get_me, post_telegram, get_scans, Authenticated, granted, refused, verified_as,
  bearer, authenticate, post_scans, Answer, user, scan, unauthorized, scan_created, answered,
  with_principal, require_auth, serve,
}

-- The job that an answer's handler has spawned.
abbrev pub job_in : Answer → Option Job
job_in (scan_created (response, job)) = job
job_in _ = none

-- A header with the scheme Bearer and, behind one space, an accepted token between white space.
pub record IsBearer (lib : GoLib) (crypto : Crypto) (tokens : TokenManager) (audience : String)
    (now : ℕ) (header : String) (p : Principal) : Type 0 where
  pub scheme : String
  pub padded : String
  pub split : cut header 32 ≡ some (scheme, padded)
  pub is_bearer : equal_fold lib scheme "Bearer" ≡ true
  pub accepted : IsAccepted crypto tokens now audience (trim_space padded) p

module _ (lib : GoLib) (crypto : Crypto) (tokens : TokenManager) (audience : String)
    (time : ℕ) where
  verified_as-granted :
      (r : Result Principal) (p : Principal) → verified_as r ≡ granted p → r ≡ ok p
  verified_as-granted (ok q) p h = cc
  verified_as-granted (err e) p h = cc

  bearer-IsBearer :
      (header : String) (p : Principal) (read : Option (String × String))
      → cut header 32 ≡ read
      → bearer lib crypto tokens audience time read ≡ granted p
      → IsBearer lib crypto tokens audience time header p
  bearer-IsBearer header p none e h = cc
  bearer-IsBearer header p (some (scheme, padded)) e h =
      elim (Bool-cases (not (equal_fold lib scheme "Bearer") || trim_space padded == "")) [
        | inl bad ↦ cc (rw bad at h)
        | inr good ↦ record {
          scheme = scheme;
          padded = padded;
          split = e;
          is_bearer = ground arith;
          accepted =
              (verify_iff crypto tokens time audience p (trim_space padded)).0
                (verified_as-granted _ p (rw good at h));
        }
      ]

  pub authenticate-IsBearer :
      (header : String) (p : Principal)
      → authenticate lib crypto tokens audience time header ≡ granted p
      → IsBearer lib crypto tokens audience time header p
  unfolding authenticate
  authenticate-IsBearer header p h = elim (Bool-cases (header == "")) [
    | inl missing ↦ cc (rw missing at h)
    | inr there ↦ bearer-IsBearer header p (cut header 32) refl (rw there at h)
  ]

module _ (lib : GoLib) (crypto : Crypto) (env : Env) (config : Config) where
  abbrev pub tokens_of : TokenManager
  tokens_of = new_token_manager (normalized config)

  abbrev pub issuer_of : String
  issuer_of = (normalized config).jwt_issuer

  -- What an answer that starts a job has to be.
  abbrev pub StartsOwn : Answer → Job → ℕ → String → Type 0
  StartsOwn a job time header =
      (answer : CreateScanResponse) × (a ≡ scan_created (reply 202 answer, some job))
      × ((p : Principal) × IsBearer lib crypto tokens_of issuer_of time header p
          × IsOwnScan p answer job)

  created_by :
      (time : ℕ) (header : String) (a : Authenticated)
      → authenticate lib crypto tokens_of issuer_of time header ≡ a
      → (body : RequestBody) (w : World) (job : Job)
      → job_in
          (with_principal lib crypto env config a
            (λ p v. answered scan_created (create_scan env p body v))
            w).0
        ≡ some job
      → StartsOwn
          (with_principal lib crypto env config a
            (λ p v. answered scan_created (create_scan env p body v))
            w).0
          job
          time
          header
  created_by time header (refused message) e body w job h = cc
  created_by time header (granted p) e body w job h =
      let (q, same, (answer, replied, own)) = create_scan-IsOwnScan env (some p) body w job h in
      (
        answer,
        ap (λ r. scan_created r) (pair replied h),
        (
          q,
          authenticate-IsBearer lib crypto tokens_of issuer_of time header q
              (e ∙ ap (λ x. granted x) (some-injective p q same)),
          own,
        ),
      )
    where
      pair : {x y : Response CreateScanResponse × Option Job} → x.0 ≡ y.0 → x.1 ≡ y.1 → x ≡ y
      pair h k = cc

  no_job :
      (header : String) (w : World) (job : Job) (next : Option Principal → World → Answer × World)
      → ((p : Option Principal) (v : World) → job_in (next p v).0 ≡ none)
      → ¬ (job_in (require_auth lib crypto env config header next w).0 ≡ some job)
  unfolding require_auth now
  no_job header w job next h =
      by_case (authenticate lib crypto tokens_of issuer_of (env.clock w.calls) header)
    where
      by_case :
          (a : Authenticated)
          → ¬ (job_in (with_principal lib crypto env config a next (tick w)).0 ≡ some job)
      by_case (refused message) e = cc
      by_case (granted p) e = cc (h (some p) (tick w))

  -- If a request starts a scan, whatever its endpoint and whatever the answer, then it is a POST to
  -- the scans with a bearer token that the server's token manager accepts at the reading of the
  -- clock that the request makes, for its issuer as audience; it is answered with 202, and the scan
  -- is that of the token's subject, in a valid mode.
  pub serve-IsOwnScan :
      (endpoint : Endpoint) (header : String) (w : World) (job : Job)
      → job_in (serve lib crypto env config endpoint header w).0 ≡ some job
      → ((body : RequestBody) × (endpoint ≡ post_scans body))
        × StartsOwn (serve lib crypto env config endpoint header w).0 job (env.clock w.calls) header
  unfolding serve require_auth now
  serve-IsOwnScan healthz header w job h = cc
  serve-IsOwnScan (post_telegram body) header w job h = cc
  serve-IsOwnScan get_me header w job h =
      absurd (no_job header w job (λ p v. answered user (me env p v)) (λ p v. refl) h)
  serve-IsOwnScan (get_scans id) header w job h =
      absurd (
        no_job header w job (λ p v. answered scan (get_scan env p (parse_int id) v)) (λ p v. refl)
          h)
  serve-IsOwnScan (post_scans body) header w job h =
      ((body, refl), created_by (env.clock w.calls) header _ refl body (tick w) job h)

  -- What `requireAuth` does with a token of the server itself, by what `Verify` gives.
  not_granted :
      (laws : CryptoLaws crypto) (issued_at : ℕ) (time : ℕ) (p q : Principal)
      (header scheme padded : String)
      → ¬ Memᴰ issuer_of tokens_of.audience
      → issuer_of ≢ ""
      → cut header 32 ≡ some (scheme, padded)
      → issue crypto tokens_of issued_at p ≡ ok (trim_space padded)
      → ¬ IsBearer lib crypto tokens_of issuer_of time header q
  not_granted laws issued_at time p q header scheme padded apart named split issued b =
      let same : b.padded ≡ padded =
        ap (λ (x : String × String). x.1) (some_eq (sym b.split ∙ split)) in
      let ok_q : verify crypto tokens_of time (trim_space padded) issuer_of ≡ ok q =
        ap (λ t. verify crypto tokens_of time (trim_space t) issuer_of) (sym same)
        ∙ (verify_iff crypto tokens_of time issuer_of q (trim_space b.padded)).1 b.accepted in
      let (a, e) =
        (verify_claims_iff tokens_of time issuer_of (claims_of tokens_of issued_at p) q).0 (
          sym (
            verify-issue crypto laws tokens_of issued_at time p issuer_of (trim_space padded)
              issued)
          ∙ ok_q) in
      elim a.audience [ inl empty ↦ named empty | inr heard ↦ apart heard ]
    where
      some_eq :
          {a b : String × String} → ◌≡◌ {A = Option (String × String)} (some a) (some b) → a ≡ b
      some_eq e = cc

  refused_by :
      (time : ℕ) (header : String) (a : Authenticated)
      → authenticate lib crypto tokens_of issuer_of time header ≡ a
      → ((q : Principal) → ¬ IsBearer lib crypto tokens_of issuer_of time header q)
      → (next : Option Principal → World → Answer × World) (w : World)
      → (message : String) × (with_principal lib crypto env config a next w
          ≡ (unauthorized message, w))
  refused_by time header (refused message) e none_granted next w = (message, refl)
  refused_by time header (granted q) e none_granted next w =
      absurd (none_granted q (authenticate-IsBearer lib crypto tokens_of issuer_of time header q e))

  -- Where the issuer is not among the audiences of the configuration, every protected endpoint
  -- answers 401 to every header with a token that the server's own token manager has issued, to
  -- whomever and whenever, and its handler does not run.
  pub require_auth-refused :
      (next : Option Principal → World → Answer × World) (header scheme padded : String)
      (issued_at : ℕ) (p : Principal) (w : World)
      → CryptoLaws crypto
      → ¬ Memᴰ issuer_of tokens_of.audience
      → issuer_of ≢ ""
      → cut header 32 ≡ some (scheme, padded)
      → issue crypto tokens_of issued_at p ≡ ok (trim_space padded)
      → (message : String) × (require_auth lib crypto env config header next w
          ≡ (unauthorized message, tick w))
  unfolding require_auth now
  require_auth-refused next header scheme padded issued_at p w laws apart named split issued =
      refused_by (env.clock w.calls) header _ refl
        (λ q.
          not_granted laws issued_at (env.clock w.calls) p q header scheme padded apart named split
            issued)
        next (tick w)
