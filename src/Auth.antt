-- ===== src/Auth.antt =====
-- internal/auth: who a request comes from. `principal.go`, and `Config` of jwt.go. A time is a
-- number of nanoseconds since 1970, and a byte string is a text with one character for each byte.
pub mod Tokens
pub mod Telegram
use email_triage_system.Common.{ℕ, ◌*◌, String, Option, List, [], ◌∷◌, ◌==◌, if◌then◌else◌}
use email_triage_system.Common.Int.{ℤ, pos, leb_ℤ}

pub record Principal : Type 0 where
  pub user_id : String
  pub role : String
  pub provider : String

pub record Config : Type 0 where
  pub jwt_secret : String
  pub jwt_issuer : String
  pub jwt_audience : List String
  pub telegram_bot_token : String
  pub token_ttl : ℤ

pub record Claims : Type 0 where
  pub issuer : String
  pub audience : List String
  pub subject : String
  pub role : String
  pub provider : String
  pub expiry : ℤ
  pub issued_at : ℤ

-- `crypto/hmac`, `crypto/sha256`, `encoding/hex`, `base64.RawURLEncoding`, and `encoding/json` at
-- the two segments of a token. `none` is a decoder's error.
pub record Crypto : Type 0 where
  -- the key and the message
  pub hmac_sha256 : String → String → String
  pub sha256 : String → String
  pub encode_hex : String → String
  pub encode_base64 : String → String
  pub decode_base64 : String → Option String
  -- `{"alg":…,"typ":…}`
  pub marshal_header : String → String → String
  -- the field `alg`
  pub unmarshal_header : String → Option String
  pub marshal_claims : Claims → String
  pub unmarshal_claims : String → Option Claims

abbrev pub hour : ℕ
hour = 3600000000000

abbrev pub default_audience : List String
default_audience = "email-triage-system" ∷ "pg-ops-console" ∷ []

abbrev pub or_default : List String → List String
or_default [] = default_audience
or_default (name ∷ names) = name ∷ names

unfoldable pub normalized : Config → Config
normalized cfg = record cfg {
  token_ttl = if leb_ℤ cfg.token_ttl (pos 0) then pos (24 * hour) else cfg.token_ttl;
  jwt_issuer = if cfg.jwt_issuer == "" then "email-triage-system" else cfg.jwt_issuer;
  jwt_audience = or_default cfg.jwt_audience;
}
