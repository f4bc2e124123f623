-- ===== src/Login.antt =====
-- internal/api/auth.go: the login by Telegram, and the view of the caller's own user. The
-- request's body is as the JSON decoder reads it, or its error.
pub mod Grants
use email_triage_system.Common.{ℕ, ◌/◌, String, Bool, not, Option, none, some, if◌then◌else◌}
use email_triage_system.Common.Int.{ℤ, pos_part}
use email_triage_system.Text.{GoLib}
use email_triage_system.Models.{User}
use email_triage_system.World.{Env, Error, user_not_found, Result, ok, err, World, call, now}
use email_triage_system.Storage.{get_user_by_telegram_id, get_user_by_id}
use email_triage_system.Auth.{Principal, Config, Crypto}
use email_triage_system.Auth.Tokens.{new_token_manager, issue, second}
use email_triage_system.Auth.Telegram.{TelegramLogin, verify_telegram_login}
use email_triage_system.Scans.{Response, reply, json_error}

pub record AuthUserView : Type 0 where
  pub id : String
  pub telegram_id : ℤ
  pub telegram_username : Option String
  pub display_name : Option String
  pub role : String

pub record TelegramAuthResponse : Type 0 where
  pub access_token : String
  pub token_type : String
  pub expires_in : ℕ
  pub user : AuthUserView

unfoldable pub user_view : User → AuthUserView
user_view user = record {
  id = user.id;
  telegram_id = user.telegram_id;
  telegram_username = user.telegram_username;
  display_name = user.display_name;
  role = user.role;
}

-- Whom a token is issued to.
abbrev pub telegram_principal : User → Principal
telegram_principal user = record { user_id = user.id; role = user.role; provider = "telegram" }

module _ (lib : GoLib) (crypto : Crypto) (env : Env) (cfg : Config) where
  -- The handler's configuration is normalised, so its time to live is positive.
  abbrev pub auth_response : User → String → TelegramAuthResponse
  auth_response user token = record {
    access_token = token;
    token_type = "Bearer";
    expires_in = pos_part cfg.token_ttl / second;
    user = user_view user;
  }

  abbrev pub token_reply : User → Result String → Response TelegramAuthResponse
  token_reply user (err e) = json_error 500 "failed to issue token"
  token_reply user (ok token) = reply 200 (auth_response user token)

  abbrev pub issue_at : User → Result ℕ × World → Response TelegramAuthResponse × World
  issue_at user (err e, w) = (json_error 500 "failed to issue token", w)
  issue_at user (ok time, w) =
      (token_reply user (issue crypto (new_token_manager cfg) time (telegram_principal user)), w)

  -- `errors.Is(err, storage.ErrUserNotFound)`
  abbrev pub login_error : Error → Response TelegramAuthResponse
  login_error user_not_found = json_error 403 "user is not allowed"
  login_error _ = json_error 500 "failed to load user"

  abbrev pub logged_in : Result User × World → Response TelegramAuthResponse × World
  logged_in (err e, w) = (login_error e, w)
  logged_in (ok user, w) =
      if not user.enabled then (json_error 403 "user is disabled", w) else issue_at user (now env w)

  abbrev pub verified :
      TelegramLogin → Result (Unit {0}) → World → Response TelegramAuthResponse × World
  verified login (err e) w = (json_error 401 "invalid telegram login", w)
  verified login (ok done) w = logged_in (call env (get_user_by_telegram_id login.id) w)

  unfoldable pub telegram_auth :
      Option TelegramLogin → World → Response TelegramAuthResponse × World
  telegram_auth none w = (json_error 400 "invalid request body", w)
  telegram_auth (some login) w =
      verified login (verify_telegram_login lib crypto login cfg.telegram_bot_token) w

module _ (env : Env) where
  abbrev pub me_error : Error → Response AuthUserView
  me_error user_not_found = json_error 401 "user not found"
  me_error _ = json_error 500 "failed to load user"

  abbrev pub shown_user : Result User × World → Response AuthUserView × World
  shown_user (err e, w) = (me_error e, w)
  shown_user (ok user, w) =
      if not user.enabled
      then (json_error 403 "user is disabled", w)
      else (reply 200 (user_view user), w)

  unfoldable pub me : Option Principal → World → Response AuthUserView × World
  me none w = (json_error 401 "missing principal", w)
  me (some principal) w = shown_user (call env (get_user_by_id principal.user_id) w)
