-- ===== src/Tests/Callers.antt =====
-- Tokens, Telegram logins and callers of the router at concrete inputs.
use mathlib.Core.List.{Memᴰ}
use email_triage_system.Common.{
  ℕ, String, ◌<>◌, ◌≡◌, ◌↔◌, refl, true, false, Option, some, none, [], ◌∷◌, dec_lt,
}
use email_triage_system.Common.Int.{pos}
use email_triage_system.Text.{
  split, cut, trim_space, equal_fold, join, to_lower, before, lower_ascii, is_space,
}
use email_triage_system.Text.Decimal.{format_int, decimal}
use email_triage_system.Models.{User}
use email_triage_system.World.{ok, World, tick, call, now, ◌>>=◌}
use email_triage_system.Storage.{get_user_by_telegram_id, get_user, find_user, create_scan_run}
use email_triage_system.Auth.{Principal, Config, normalized}
use email_triage_system.Auth.Tokens.{
  TokenManager, unix_after, slices_contains, issue, verify, verify_claims, signing_input,
  sign_hs256, new_token_manager,
}
use email_triage_system.Auth.Tokens.Accepted.{IsAccepted, verify_iff}
use email_triage_system.Auth.Tokens.Laws.{IsCurrent, verify-issue_iff}
use email_triage_system.Auth.Telegram.{
  TelegramLogin, verify_telegram_login, expected_hash, data_check_string, sort_values,
  insert_sorted,
}
use email_triage_system.Auth.Telegram.CheckString.{
  IsSigned, verify_telegram_login_iff, one_name, verify_telegram_login-line_feed,
}
use email_triage_system.Login.{TelegramAuthResponse, telegram_auth, user_view}
use email_triage_system.Login.Grants.{IsGranted, telegram_auth-IsGranted}
use email_triage_system.Scans.{RequestBody, empty, create_scan, start_scan, Job}
use email_triage_system.Router.{
  Endpoint, post_scans, unauthorized, healthy, serve, require_auth, authenticate,
}
use email_triage_system.Router.Callers.{StartsOwn, tokens_of, serve-IsOwnScan, require_auth-refused}
use email_triage_system.Tests.Crypto.{toy, toy-CryptoLaws}
use email_triage_system.Tests.Fixtures.{plain, calm, owner, waiting_world}

-- A token lives for one second.
abbrev settings : Config
settings = record {
  jwt_secret = "k";
  jwt_issuer = "email-triage-system";
  jwt_audience = "email-triage-system" ∷ [];
  telegram_bot_token = "bot";
  token_ttl = pos 1000000000;
}

abbrev manager : TokenManager
manager = record { secret = "k"; issuer = "me"; audience = "you" ∷ []; ttl = pos 1000000000 }

verify-issue_iff_example :
    (token : String) × (issue toy manager 5 owner ≡ ok token)
    × ((time : ℕ) (audience : String) (q : Principal)
        → (verify toy manager time token audience ≡ ok q)
          ↔ (IsCurrent manager 5 time audience owner × (q ≡ owner)))
verify-issue_iff_example = verify-issue_iff toy manager 5 owner toy-CryptoLaws (λ e. cc)

verify_iff_example :
    (verify toy manager 7 "header.claims.signature" "you" ≡ ok owner)
    ↔ IsAccepted toy manager 7 "you" "header.claims.signature" owner
verify_iff_example = verify_iff toy manager 7 "you" owner "header.claims.signature"

abbrev ann : TelegramLogin
ann = record {
  id = pos 1;
  username = "";
  first_name = "ann";
  last_name = "a";
  photo_url = "";
  auth_date = pos 5;
  hash = "botauth_date=5\nfirst_name=ann\nid=1\nlast_name=a";
}

verify_telegram_login_iff_example :
    (verify_telegram_login plain toy ann "bot" ≡ ok tt) ↔ IsSigned plain toy ann "bot"
verify_telegram_login_iff_example = verify_telegram_login_iff plain toy ann "bot"

abbrev split_name : TelegramLogin
split_name = record ann {
  username = "an";
  photo_url = "p";
  hash = "botauth_date=5\nfirst_name=x\nid=1\nlast_name=y\nid=2\nphoto_url=p\nusername=an";
}

verify_telegram_login-line_feed_example :
    verify_telegram_login plain toy (one_name split_name (pos 1) (pos 2) "x" "y") "bot" ≡ ok tt
unfolding verify_telegram_login expected_hash data_check_string sort_values insert_sorted before
    to_lower lower_ascii join format_int decimal dec_lt
verify_telegram_login-line_feed_example =
    verify_telegram_login-line_feed plain toy "bot" split_name (pos 1) (pos 2) "x" "y" (λ e. cc)
      (λ e. cc) refl refl

abbrev ann_user : User
ann_user = record {
  id = "u1";
  telegram_id = pos 1;
  telegram_username = none;
  display_name = some "ann";
  role = "user";
  enabled = true;
  created_at = 0;
  updated_at = 0;
}

abbrev with_ann : World
with_ann = record waiting_world {
  state = record waiting_world.state {
    db = record waiting_world.state.db { users = ann_user ∷ [] };
  };
}

abbrev token_of : TokenManager → ℕ → Principal → String
token_of m time p =
    signing_input toy m time p
    <> ("." <> toy.encode_base64 (sign_hs256 toy m.secret (signing_input toy m time p)))

abbrev ann_answer : TelegramAuthResponse
ann_answer = record {
  access_token = token_of (new_token_manager settings) 1 owner;
  token_type = "Bearer";
  expires_in = 1;
  user = user_view ann_user;
}

telegram_auth-IsGranted_example :
    (login : TelegramLogin) × (◌≡◌ {A = Option TelegramLogin} (some ann) (some login))
    × (◌≡◌ {A = ℕ} 200 200)
    × IsGranted plain toy settings (ann_user ∷ []) login ann_answer
unfolding telegram_auth verify_telegram_login expected_hash data_check_string sort_values
    insert_sorted before to_lower lower_ascii join format_int decimal dec_lt call now
    get_user_by_telegram_id get_user find_user issue new_token_manager normalized
telegram_auth-IsGranted_example =
    telegram_auth-IsGranted plain toy calm settings (some ann) with_ann 200 ann_answer refl

abbrev owner_header : String
owner_header = "Bearer " <> token_of (tokens_of plain toy calm settings) 0 owner

abbrev scan_job : Job
scan_job = record { run_id = 2; user_id = "u1"; mode = "dry_run"; query = ""; mark_read = false }

abbrev scan_request : Endpoint
scan_request = post_scans empty

serve-IsOwnScan_example :
    ((body : RequestBody) × (◌≡◌ {A = Endpoint} scan_request (post_scans body)))
    × StartsOwn plain toy calm settings
        (serve plain toy calm settings scan_request owner_header waiting_world).0
        scan_job
        0
        owner_header
unfolding serve require_auth authenticate now call cut trim_space is_space equal_fold lower_ascii
    dec_lt verify split verify_claims slices_contains signing_input sign_hs256 unix_after
    new_token_manager normalized create_scan start_scan create_scan_run ◌>>=◌
serve-IsOwnScan_example =
    serve-IsOwnScan plain toy calm settings scan_request owner_header waiting_world scan_job refl

abbrev other_audience : Config
other_audience = record settings { jwt_audience = "pg-ops-console" ∷ [] }

abbrev other_token : String
other_token = token_of (tokens_of plain toy calm other_audience) 0 owner

not_heard : ¬ Memᴰ {A = String} "email-triage-system" ("pg-ops-console" ∷ [])
not_heard (Memᴰ.head e) = cc
not_heard (Memᴰ.tail m) = nowhere m
  where
    nowhere : {x : String} → ¬ Memᴰ x []
    nowhere m = elim m [ ]

require_auth-refused_example :
    (message : String) × (require_auth plain toy calm other_audience
        ("Bearer " <> other_token)
        (λ p w. (healthy, w))
        waiting_world
      ≡ (unauthorized message, tick waiting_world))
unfolding cut trim_space is_space issue signing_input sign_hs256 unix_after new_token_manager
    normalized
require_auth-refused_example =
    require_auth-refused plain toy calm other_audience (λ p w. (healthy, w))
      ("Bearer " <> other_token) "Bearer" other_token 0 owner waiting_world toy-CryptoLaws not_heard
      (λ e. cc) refl refl
