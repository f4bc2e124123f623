-- ===== src/Auth/Tokens/Laws.antt =====
-- A token that is issued and then verified.
use mathlib.Core.List.{Memᴰ}
use text.Mathlib.TextLemmas.{cons-append, nil-append, append_assoc}
use email_triage_system.Common.{
  ℕ, String, ◌<>◌, ◌≡◌, ◌≢◌, ◌↔◌, refl, sym, ap, ◌∙◌, ◌⊎◌, inl, inr, false, some, [], ◌∷◌, ◌==◌,
  arith, eq_iff, eq_refl, Bool-cases,
}
use email_triage_system.Common.Int.{◌<ℤ◌}
use email_triage_system.Text.{split}
use email_triage_system.Text.Splitting.{Lacks, split-Lacks, split-append}
use email_triage_system.Auth.{Principal, Claims, Crypto}
use email_triage_system.World.{Result, ok}
use email_triage_system.Auth.Tokens.Admitted.{verify_claims_iff}
use email_triage_system.Auth.Tokens.{
  TokenManager, jwt_algorithm, unix, unix_after, claims_of, sign_hs256, signing_input, issue,
  verify_claims, verify_parts, verify,
}

-- What the code relies on of base64 and JSON: what is written reads back, and base64 writes no dot.
pub record CryptoLaws (crypto : Crypto) : Type 0 where
  pub base64 : (s : String) → crypto.decode_base64 (crypto.encode_base64 s) ≡ some s
  pub no_dot : (s : String) → Lacks 46 (crypto.encode_base64 s)
  pub header :
      (algorithm type : String)
      → crypto.unmarshal_header (crypto.marshal_header algorithm type) ≡ some algorithm
  pub claims : (c : Claims) → crypto.unmarshal_claims (crypto.marshal_claims c) ≡ some c

split_three :
    (a b c : String)
    → Lacks 46 a
    → Lacks 46 b
    → Lacks 46 c
    → split ((a <> ("." <> b)) <> ("." <> c)) 46 ≡ a ∷ b ∷ c ∷ []
split_three a b c ha hb hc =
    let dot : (s : String) → "." <> s ≡ Prim.Native.String.◌∷◌ (Prim.Native.Char.char 46 tt) s =
      λ s.
        cons-append _ "" s
        ∙ ap (λ r. Prim.Native.String.◌∷◌ (Prim.Native.Char.char 46 tt) r) (nil-append s) in
    rw (
      append_assoc,
      append_assoc,
      dot,
      dot,
      split-append 46 a _ _ ha refl,
      split-append 46 b _ _ hb refl,
      split-Lacks 46 c hc,
    )

module _ (crypto : Crypto) (laws : CryptoLaws crypto) (m : TokenManager) where
  verify_parts-issue :
      (issued_at now : ℕ) (p : Principal) (audience : String)
      → verify_parts crypto m now audience (
          crypto.encode_base64 (crypto.marshal_header jwt_algorithm "JWT")
          ∷ crypto.encode_base64 (crypto.marshal_claims (claims_of m issued_at p))
          ∷ crypto.encode_base64 (sign_hs256 crypto m.secret (signing_input crypto m issued_at p))
          ∷ [])
        ≡ verify_claims m now audience (claims_of m issued_at p)
  unfolding signing_input
  verify_parts-issue issued_at now p audience =
      rw (laws.base64, eq_refl, laws.base64, laws.header, laws.base64, laws.claims)

  pub verify-issue :
      (issued_at now : ℕ) (p : Principal) (audience token : String)
      → issue crypto m issued_at p ≡ ok token
      → verify crypto m now token audience ≡ verify_claims m now audience (claims_of m issued_at p)
  unfolding issue verify signing_input
  verify-issue issued_at now p audience token h = elim (Bool-cases (m.secret == "")) [
    | inl unset ↦ cc (rw unset at h)
    | inr set ↦
        let token_is : token
            ≡ signing_input crypto m issued_at p
              <> ("."
                  <> crypto.encode_base64
                      (sign_hs256 crypto m.secret (signing_input crypto m issued_at p))) =
          issued (rw set at h) in
        rw
          (
            set,
            token_is,
            split_three (crypto.encode_base64 (crypto.marshal_header jwt_algorithm "JWT"))
                (crypto.encode_base64 (crypto.marshal_claims (claims_of m issued_at p)))
                (crypto.encode_base64
                  (sign_hs256 crypto m.secret (signing_input crypto m issued_at p)))
                (laws.no_dot _) (laws.no_dot _) (laws.no_dot _),
          )
          (verify_parts-issue issued_at now p audience)
  ]
    where
      issued : {a : String} → ◌≡◌ {A = Result String} (ok a) (ok token) → token ≡ a
      issued e = cc

-- A principal with a name and one of the two roles, at a time before the token's expiry, and an
-- audience that is open or among those of the issuer.
pub record IsCurrent (m : TokenManager) (issued_at now : ℕ) (expected_audience : String)
    (p : Principal) : Type 0 where
  pub user_id : p.user_id ≢ ""
  pub role : (p.role ≡ "user") ⊎ (p.role ≡ "admin")
  pub fresh : unix now <ℤ unix_after issued_at m.ttl
  pub audience : (expected_audience ≡ "") ⊎ Memᴰ expected_audience m.audience

-- If what base64 and JSON write reads back and base64 writes no dot, and a secret is set, then
-- `Issue` gives a token for every principal, and `Verify` at any later or earlier time accepts
-- that token exactly for that principal, and exactly while it is current.
pub verify-issue_iff :
    (crypto : Crypto) (m : TokenManager) (issued_at : ℕ) (p : Principal)
    → CryptoLaws crypto
    → m.secret ≢ ""
    → (token : String) × (issue crypto m issued_at p ≡ ok token)
      × ((now : ℕ) (audience : String) (q : Principal)
          → (verify crypto m now token audience ≡ ok q)
            ↔ (IsCurrent m issued_at now audience p × (q ≡ p)))
unfolding issue
verify-issue_iff crypto m issued_at p laws set =
    (token_of, issued, λ now audience q. (sound now audience q, complete now audience q))
  where
    token_of : String
    token_of =
        signing_input crypto m issued_at p
        <> ("."
            <> crypto.encode_base64
                (sign_hs256 crypto m.secret (signing_input crypto m issued_at p)))

    unset : (m.secret == "") ≡ false
    unset = ground (arith, eq_iff m.secret "")

    issued : issue crypto m issued_at p ≡ ok token_of
    issued = rw unset refl

    sound :
        (now : ℕ) (audience : String) (q : Principal)
        → verify crypto m now token_of audience ≡ ok q
        → IsCurrent m issued_at now audience p × (q ≡ p)
    sound now audience q h =
        let (a, e) =
          (verify_claims_iff m now audience (claims_of m issued_at p) q).0
            (sym (verify-issue crypto laws m issued_at now p audience token_of issued) ∙ h) in
        (record { user_id = a.subject; role = a.role; fresh = a.expiry; audience = a.audience }, e)

    complete :
        (now : ℕ) (audience : String) (q : Principal)
        → IsCurrent m issued_at now audience p × (q ≡ p)
        → verify crypto m now token_of audience ≡ ok q
    complete now audience q (c, e) =
        verify-issue crypto laws m issued_at now p audience token_of issued
        ∙ (verify_claims_iff m now audience (claims_of m issued_at p) q).1 (
          record {
            issuer = refl;
            subject = c.user_id;
            role = c.role;
            expiry = c.fresh;
            audience = c.audience;
          },
          e,
        )
