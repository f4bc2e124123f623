-- ===== src/Auth/Tokens.antt =====
-- internal/auth/jwt.go: issuing and verifying HS256 tokens. `json.Marshal` does not fail on a
-- header or claims. Every error of `Verify` but the first is `ErrInvalidToken`, also those that
-- wrap it.
pub mod Laws
pub mod Admitted
pub mod Accepted
use email_triage_system.Common.{
  ℕ, ◌+◌, ◌-◌, ◌/◌, String, ◌<>◌, Bool, true, false, not, ◌&&◌, ◌||◌, Option, none, some, List, [],
  ◌∷◌, ◌==◌, if◌then◌else◌, ltb,
}
use email_triage_system.Common.Int.{ℤ, pos, negsuc, leb_ℤ}
use email_triage_system.Text.{split}
use email_triage_system.Auth.{Principal, Config, Claims, Crypto, normalized}
use email_triage_system.World.{Result, ok, err, other, invalid_token}

abbrev pub jwt_algorithm : String
jwt_algorithm = "HS256"

-- `now` is read by the caller.
pub record TokenManager : Type 0 where
  pub secret : String
  pub issuer : String
  pub audience : List String
  pub ttl : ℤ

abbrev pub manager_of : Config → TokenManager
manager_of cfg = record {
  secret = cfg.jwt_secret;
  issuer = cfg.jwt_issuer;
  audience = cfg.jwt_audience;
  ttl = cfg.token_ttl;
}

unfoldable pub new_token_manager : Config → TokenManager
new_token_manager cfg = manager_of (normalized cfg)

abbrev pub second : ℕ
second = 1000000000

-- `now.Add(d).Unix()`, rounded down
unfoldable pub unix_after : ℕ → ℤ → ℤ
unix_after now (pos d) = pos ((now + d) / second)
unix_after now (negsuc d) =
    if ltb d now then pos ((now - (d + 1)) / second) else negsuc ((d - now) / second)

abbrev pub unix : ℕ → ℤ
unix now = pos (now / second)

-- `slices.Contains`
unfoldable pub slices_contains : List String → String → Bool
slices_contains [] v = false
slices_contains (x ∷ xs) v = x == v || slices_contains xs v

abbrev pub claims_of : TokenManager → ℕ → Principal → Claims
claims_of m now principal = record {
  issuer = m.issuer;
  audience = m.audience;
  subject = principal.user_id;
  role = principal.role;
  provider = principal.provider;
  expiry = unix_after now m.ttl;
  issued_at = unix now;
}

unfoldable pub verify_claims : TokenManager → ℕ → String → Claims → Result Principal
verify_claims m now expected_audience claims =
    if not (claims.issuer == m.issuer) || claims.subject == "" || claims.role == ""
    then err invalid_token
    else if leb_ℤ claims.expiry (unix now)
    then err invalid_token
    else if not (expected_audience == "") && not (slices_contains claims.audience expected_audience)
    then err invalid_token
    else if not (claims.role == "user") && not (claims.role == "admin")
    then err invalid_token
    else ok (record { user_id = claims.subject; role = claims.role; provider = claims.provider })

module _ (crypto : Crypto) where
  abbrev pub decode_segment {ℓ} : {A : Type ℓ} → (String → Option A) → Option String → Option A
  decode_segment unmarshal none = none
  decode_segment unmarshal (some bytes) = unmarshal bytes

  unfoldable pub sign_hs256 : String → String → String
  sign_hs256 secret input = crypto.hmac_sha256 secret input

  unfoldable pub signing_input : TokenManager → ℕ → Principal → String
  signing_input m now principal =
      crypto.encode_base64 (crypto.marshal_header jwt_algorithm "JWT")
      <> ("." <> crypto.encode_base64 (crypto.marshal_claims (claims_of m now principal)))

  unfoldable pub issue : TokenManager → ℕ → Principal → Result String
  issue m now principal =
      if m.secret == ""
      then err (other "jwt secret is not configured")
      else ok (
          signing_input m now principal
          <> ("." <> crypto.encode_base64 (sign_hs256 m.secret (signing_input m now principal))))

  abbrev pub verify_body : TokenManager → ℕ → String → Option Claims → Result Principal
  verify_body m now expected_audience none = err invalid_token
  verify_body m now expected_audience (some claims) = verify_claims m now expected_audience claims

  abbrev pub verify_header : TokenManager → ℕ → String → String → Option String → Result Principal
  verify_header m now expected_audience body none = err invalid_token
  verify_header m now expected_audience body (some algorithm) =
      if algorithm == jwt_algorithm
      then verify_body m now expected_audience
          (decode_segment crypto.unmarshal_claims (crypto.decode_base64 body))
      else err invalid_token

  abbrev pub verify_signature :
      TokenManager → ℕ → String → String → String → Option String → Result Principal
  verify_signature m now expected_audience header body none = err invalid_token
  verify_signature m now expected_audience header body (some signature) =
      if signature == sign_hs256 m.secret (header <> ("." <> body))
      then verify_header m now expected_audience body
          (decode_segment crypto.unmarshal_header (crypto.decode_base64 header))
      else err invalid_token

  -- A token has three parts.
  abbrev pub verify_parts : TokenManager → ℕ → String → List String → Result Principal
  verify_parts m now expected_audience (header ∷ body ∷ signature ∷ []) =
      verify_signature m now expected_audience header body (crypto.decode_base64 signature)
  verify_parts m now expected_audience _ = err invalid_token

  unfoldable pub verify : TokenManager → ℕ → String → String → Result Principal
  verify m now token expected_audience =
      if m.secret == ""
      then err (other "jwt secret is not configured")
      else verify_parts m now expected_audience (split token 46)
