-- ===== src/Router.antt =====
-- internal/api/router.go and internal/auth/middleware.go: the endpoints, and the bearer token in
-- front of three of them. The matching of a method and a path is `http.ServeMux`; an `Endpoint` is
-- what it has matched, with what the handler reads.
pub mod Callers
use email_triage_system.Common.{ℕ, String, Bool, not, ◌||◌, Option, none, some, ◌==◌, if◌then◌else◌}
use email_triage_system.Text.Decimal.{parse_int}
use email_triage_system.Text.{GoLib, cut, equal_fold, trim_space}
use email_triage_system.World.{Env, Result, ok, err, World, now}
use email_triage_system.Auth.{Principal, Config, Crypto, normalized}
use email_triage_system.Auth.Tokens.{TokenManager, new_token_manager, verify}
use email_triage_system.Auth.Telegram.{TelegramLogin}
use email_triage_system.Login.{AuthUserView, TelegramAuthResponse, telegram_auth, me}
use email_triage_system.Scans.{
  Response, RequestBody, CreateScanResponse, ScanResponse, Job, create_scan, get_scan,
}

pub data Authenticated : Type 0 where
  granted : Principal → Authenticated
  -- with status 401
  refused : String → Authenticated

-- What `Verify` gives.
abbrev pub verified_as : Result Principal → Authenticated
verified_as (ok principal) = granted principal
verified_as (err e) = refused "invalid bearer token"

module _ (lib : GoLib) (crypto : Crypto) (tokens : TokenManager) (audience : String) where
  abbrev pub bearer : ℕ → Option (String × String) → Authenticated
  bearer now none = refused "invalid authorization header"
  bearer now (some (scheme, token)) =
      if not (equal_fold lib scheme "Bearer") || trim_space token == ""
      then refused "invalid authorization header"
      else verified_as (verify crypto tokens now (trim_space token) audience)

  -- The header is empty where it is missing.
  unfoldable pub authenticate : ℕ → String → Authenticated
  authenticate now header =
      if header == "" then refused "missing bearer token" else bearer now (cut header 32)

pub data Endpoint : Type 0 where
  healthz get_me : Endpoint
  post_telegram : Option TelegramLogin → Endpoint
  post_scans : RequestBody → Endpoint
  -- the id of the path
  get_scans : String → Endpoint

pub data Answer : Type 0 where
  healthy : Answer
  unauthorized : String → Answer
  login : Response TelegramAuthResponse → Answer
  user : Response AuthUserView → Answer
  -- with the job that is spawned
  scan_created : Response CreateScanResponse × Option Job → Answer
  scan : Response ScanResponse → Answer

abbrev pub answered {ℓ} : {A : Type ℓ} → (A → Answer) → A × World → Answer × World
answered f (a, w) = (f a, w)

module _ (lib : GoLib) (crypto : Crypto) (env : Env) (config : Config) where
  -- The middleware puts the principal into the context that the handler reads.
  abbrev pub with_principal :
      Authenticated → (Option Principal → World → Answer × World) → World → Answer × World
  with_principal (refused message) next w = (unauthorized message, w)
  with_principal (granted principal) next w = next (some principal) w

  abbrev pub authenticated_at :
      String → (Option Principal → World → Answer × World) → Result ℕ × World → Answer × World
  authenticated_at header next (err e, w) = (unauthorized "invalid bearer token", w)
  authenticated_at header next (ok time, w) =
      with_principal
        (authenticate lib crypto (new_token_manager (normalized config))
          (normalized config).jwt_issuer time header)
        next w

  -- The expected audience is the issuer.
  unfoldable pub require_auth :
      String → (Option Principal → World → Answer × World) → World → Answer × World
  require_auth header next w = authenticated_at header next (now env w)

  -- A request with its `Authorization` header.
  unfoldable pub serve : Endpoint → String → World → Answer × World
  serve healthz header w = (healthy, w)
  serve (post_telegram body) header w =
      answered login (telegram_auth lib crypto env (normalized config) body w)
  serve get_me header w = require_auth header (λ p v. answered user (me env p v)) w
  serve (post_scans body) header w =
      require_auth header (λ p v. answered scan_created (create_scan env p body v)) w
  serve (get_scans id) header w =
      require_auth header (λ p v. answered scan (get_scan env p (parse_int id) v)) w
