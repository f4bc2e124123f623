-- ===== src/Auth/Tokens/Admitted.antt =====
-- Which claims `Verify` admits.
use mathlib.Core.List.{Memᴰ}
use email_triage_system.Common.{
  ℕ, String, ◌≡◌, ◌≢◌, ◌↔◌, refl, sym, ap, ◌∙◌, ◌⊎◌, inl, inr, Bool, true, false, not, ◌||◌, ◌&&◌,
  List, [], ◌∷◌, ◌==◌, if◌then◌else◌, arith, eq_iff, Bool-cases,
}
use email_triage_system.Common.Int.{leb_ℤ, ◌<ℤ◌}
use email_triage_system.Auth.{Principal, Claims}
use email_triage_system.World.{Result, ok, err, invalid_token}
use email_triage_system.Auth.Tokens.{TokenManager, unix, slices_contains, verify_claims}

slices_contains_sound : (xs : List String) (v : String) → slices_contains xs v ≡ true → Memᴰ v xs
unfolding slices_contains
slices_contains_sound [] v h = cc
slices_contains_sound (x ∷ xs) v h = elim (Bool-cases (x == v)) [
  | inl here ↦ Memᴰ.head (sym ((eq_iff x v).0 here))
  | inr there ↦ Memᴰ.tail (slices_contains_sound xs v (rw there at h))
]

slices_contains_complete : (xs : List String) (v : String) → Memᴰ v xs → slices_contains xs v ≡ true
unfolding slices_contains
slices_contains_complete [] v m = elim m [ ]
slices_contains_complete (x ∷ xs) v (Memᴰ.head e) = ground (arith, eq_iff x v)
slices_contains_complete (x ∷ xs) v (Memᴰ.tail m) = ground (arith, slices_contains_complete xs v m)

pub slices_contains_iff :
    (xs : List String) (v : String) → (slices_contains xs v ≡ true) ↔ Memᴰ v xs
slices_contains_iff xs v = (slices_contains_sound xs v, slices_contains_complete xs v)

abbrev pub principal_of : Claims → Principal
principal_of claims = record {
  user_id = claims.subject;
  role = claims.role;
  provider = claims.provider;
}

-- Claims of this issuer, for a named user in one of the two roles, that have not expired, and for
-- the expected audience.
pub record Admits (m : TokenManager) (now : ℕ) (expected_audience : String) (claims : Claims)
    : Type 0 where
  pub issuer : claims.issuer ≡ m.issuer
  pub subject : claims.subject ≢ ""
  pub role : (claims.role ≡ "user") ⊎ (claims.role ≡ "admin")
  pub expiry : unix now <ℤ claims.expiry
  pub audience : (expected_audience ≡ "") ⊎ Memᴰ expected_audience claims.audience

-- A ladder of guards lets a value through where each guard is off.
guards : Bool → Bool → Bool → Bool → Principal → Result Principal
guards a b c d q =
    if a
    then err invalid_token
    else if b
    then err invalid_token
    else if c
    then err invalid_token
    else if d
    then err invalid_token
    else ok q

guards_off :
    (a b c d : Bool) (q p : Principal)
    → guards a b c d q ≡ ok p
    → (a ≡ false) × (b ≡ false) × (c ≡ false) × (d ≡ false) × (q ≡ p)
unfolding guards
guards_off a b c d q p h = (ground arith, ground arith, ground arith, ground arith, ground arith)

module _ (m : TokenManager) (now : ℕ) (expected_audience : String) (claims : Claims) where
  pub admitted_sound :
      (p : Principal)
      → verify_claims m now expected_audience claims ≡ ok p
      → Admits m now expected_audience claims × (p ≡ principal_of claims)
  unfolding verify_claims guards
  admitted_sound p h =
      let (named, fresh, heard, known, same) =
        guards_off (not (claims.issuer == m.issuer) || claims.subject == "" || claims.role == "")
          (leb_ℤ claims.expiry (unix now))
          (not (expected_audience == "") && not (slices_contains claims.audience expected_audience))
          (not (claims.role == "user") && not (claims.role == "admin")) (principal_of claims) p h in
      (
        record {
          issuer = ground (arith, eq_iff claims.issuer m.issuer);
          subject = ground (arith, eq_iff claims.subject "");
          role = ground (arith, eq_iff claims.role "user", eq_iff claims.role "admin");
          expiry = ground arith;
          audience = heard_audience heard;
        },
        sym same,
      )
    where
      heard_audience :
          (not (expected_audience == "") && not (slices_contains claims.audience expected_audience))
            ≡ false
          → (expected_audience ≡ "") ⊎ Memᴰ expected_audience claims.audience
      heard_audience h = elim (Bool-cases (expected_audience == "")) [
        | inl any ↦ inl ((eq_iff expected_audience "").0 any)
        | inr one ↦ inr (slices_contains_sound claims.audience expected_audience (ground arith))
      ]

  pub admitted_complete :
      Admits m now expected_audience claims
      → verify_claims m now expected_audience claims ≡ ok (principal_of claims)
  unfolding verify_claims
  admitted_complete a =
      ground (arith, issued, named, a.expiry, eq_iff claims.subject "", roled, heard a.audience)
    where
      issued : (claims.issuer == m.issuer) ≡ true
      issued = (eq_iff claims.issuer m.issuer).1 a.issuer

      named : (claims.role == "") ≡ false
      named = elim a.role [ inl e ↦ rw e refl | inr e ↦ rw e refl ]

      roled : (not (claims.role == "user") && not (claims.role == "admin")) ≡ false
      roled = elim a.role [ inl e ↦ rw e refl | inr e ↦ rw e refl ]

      heard :
          (expected_audience ≡ "") ⊎ Memᴰ expected_audience claims.audience
          → (not (expected_audience == "")
              && not (slices_contains claims.audience expected_audience))
            ≡ false
      heard (inl e) = rw e refl
      heard (inr mem) =
          ground (arith, slices_contains_complete claims.audience expected_audience mem)

  pub verify_claims_iff :
      (p : Principal)
      → (verify_claims m now expected_audience claims ≡ ok p)
        ↔ (Admits m now expected_audience claims × (p ≡ principal_of claims))
  verify_claims_iff p = (admitted_sound p, λ (a, e). admitted_complete a ∙ ap (λ q. ok q) (sym e))
