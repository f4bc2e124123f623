-- ===== src/Auth/Tokens/Accepted.antt =====
-- Which tokens `Verify` accepts, without the code's order of checks.
use email_triage_system.Common.{
  ℕ, String, ◌<>◌, ◌≡◌, ◌≢◌, ◌↔◌, refl, ap, inl, inr, false, Option, some, none, List, [], ◌∷◌,
  ◌==◌, arith, eq_iff, eq_refl, Bool-cases,
}
use email_triage_system.Text.{split}
use email_triage_system.Auth.{Principal, Claims, Crypto}
use email_triage_system.World.{ok}
use email_triage_system.Auth.Tokens.{
  TokenManager, jwt_algorithm, sign_hs256, decode_segment, verify_body, verify_header,
  verify_signature, verify_parts, verify,
}
use email_triage_system.Auth.Tokens.Admitted.{
  Admits, principal_of, admitted_sound, admitted_complete,
}

-- The three parts of an accepted token and what they hold.
pub record IsAccepted (crypto : Crypto) (m : TokenManager) (now : ℕ)
    (expected_audience token : String) (p : Principal) : Type 0 where
  pub header : String
  pub body : String
  pub signature : String
  pub claims : Claims
  pub secret : m.secret ≢ ""
  pub parts : split token 46 ≡ header ∷ body ∷ signature ∷ []
  pub signed :
      crypto.decode_base64 signature ≡ some (sign_hs256 crypto m.secret (header <> ("." <> body)))
  pub algorithm :
      decode_segment crypto crypto.unmarshal_header (crypto.decode_base64 header)
      ≡ some jwt_algorithm
  pub decoded :
      decode_segment crypto crypto.unmarshal_claims (crypto.decode_base64 body) ≡ some claims
  pub admitted : Admits m now expected_audience claims
  pub principal : p ≡ principal_of claims

module _ (crypto : Crypto) (m : TokenManager) (now : ℕ) (expected_audience : String)
    (p : Principal) where
  abbrev Found : String → String → Type 0
  Found header body =
      (claims : Claims) × (decode_segment crypto crypto.unmarshal_header
          (crypto.decode_base64 header)
        ≡ some jwt_algorithm)
      × (decode_segment crypto crypto.unmarshal_claims (crypto.decode_base64 body) ≡ some claims)
      × Admits m now expected_audience claims
      × (p ≡ principal_of claims)

  body_sound :
      (read : Option Claims)
      → verify_body crypto m now expected_audience read ≡ ok p
      → (claims : Claims) × (read ≡ some claims)
        × Admits m now expected_audience claims
        × (p ≡ principal_of claims)
  body_sound none h = cc
  body_sound (some claims) h =
      let (a, e) = admitted_sound m now expected_audience claims p h in (claims, refl, a, e)

  header_sound :
      (body : String) (read : Option String)
      → verify_header crypto m now expected_audience body read ≡ ok p
      → (read ≡ some jwt_algorithm)
        × ((claims : Claims) × (decode_segment crypto crypto.unmarshal_claims
                (crypto.decode_base64 body)
              ≡ some claims)
            × Admits m now expected_audience claims
            × (p ≡ principal_of claims))
  header_sound body none h = cc
  header_sound body (some algorithm) h = elim (Bool-cases (algorithm == jwt_algorithm)) [
    | inl hs ↦ (ap (λ a. some a) ((eq_iff algorithm jwt_algorithm).0 hs), body_sound _ (rw hs at h))
    | inr other ↦ cc (rw other at h)
  ]

  signature_sound :
      (header body : String) (read : Option String)
      → verify_signature crypto m now expected_audience header body read ≡ ok p
      → (read ≡ some (sign_hs256 crypto m.secret (header <> ("." <> body)))) × Found header body
  signature_sound header body none h = cc
  signature_sound header body (some signature) h =
      elim (Bool-cases (signature == sign_hs256 crypto m.secret (header <> ("." <> body)))) [
        | inl same ↦
            let (algorithm, (claims, decoded, a, e)) =
              header_sound body
                (decode_segment crypto crypto.unmarshal_header (crypto.decode_base64 header))
                (rw same at h) in
            (ap (λ s. some s) ((eq_iff signature _).0 same), (claims, algorithm, decoded, a, e))
        | inr other ↦ cc (rw other at h)
      ]

  parts_sound :
      (parts : List String)
      → verify_parts crypto m now expected_audience parts ≡ ok p
      → (header : String) × (body : String) × (signature : String) × (parts
          ≡ header ∷ body ∷ signature ∷ [])
        × (crypto.decode_base64 signature
            ≡ some (sign_hs256 crypto m.secret (header <> ("." <> body))))
        × Found header body
  parts_sound [] h = cc
  parts_sound (a ∷ []) h = cc
  parts_sound (a ∷ b ∷ []) h = cc
  parts_sound (a ∷ b ∷ c ∷ d ∷ rest) h = cc
  parts_sound (header ∷ body ∷ signature ∷ []) h =
      let (signed, found) = signature_sound header body (crypto.decode_base64 signature) h in
      (header, body, signature, refl, signed, found)

  verify_sound :
      (token : String)
      → verify crypto m now token expected_audience ≡ ok p
      → IsAccepted crypto m now expected_audience token p
  unfolding verify
  verify_sound token h = elim (Bool-cases (m.secret == "")) [
    | inl unset ↦ cc (rw unset at h)
    | inr set ↦
        let (header, body, signature, parts, signed, found) =
          parts_sound (split token 46) (rw set at h) in
        let (claims, algorithm, decoded, a, e) = found in
        record {
          header = header;
          body = body;
          signature = signature;
          claims = claims;
          secret = ground (arith, eq_iff m.secret "");
          parts = parts;
          signed = signed;
          algorithm = algorithm;
          decoded = decoded;
          admitted = a;
          principal = e;
        }
  ]

  verify_complete :
      (token : String)
      → IsAccepted crypto m now expected_audience token p
      → verify crypto m now token expected_audience ≡ ok p
  unfolding verify
  verify_complete token a =
      let set : (m.secret == "") ≡ false = ground (arith, eq_iff m.secret "", a.secret) in
      rw (set, a.parts, a.signed, eq_refl, a.algorithm, a.decoded, a.principal)
        (admitted_complete m now expected_audience a.claims a.admitted)

  -- A token is accepted for a principal exactly if a secret is set, the token has three parts
  -- between dots, the third decodes to the HMAC of the first two under the secret, the first
  -- decodes to a header of the algorithm HS256, and the second to claims of this issuer, not
  -- expired, for the expected audience if there is one, of a user with a name and the role user or
  -- admin; and the principal is the one that the claims name.
  pub verify_iff :
      (token : String)
      → (verify crypto m now token expected_audience ≡ ok p)
        ↔ IsAccepted crypto m now expected_audience token p
  verify_iff token = (verify_sound token, verify_complete token)
