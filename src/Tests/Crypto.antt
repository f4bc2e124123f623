-- ===== src/Tests/Crypto.antt =====
-- A concrete choice of the cryptography and the encodings: base64 writes two characters for each
-- one, a hash is the text itself, and the claims are written field by field.
use Prim.Native.Char.{Char, char, code}
use Prim.Native.String.{[], ◌∷◌}
use text.Mathlib.TextEquality.{Char-path}
use email_triage_system.Common.{
  ℕ, zero, suc, String, ◌<>◌, ◌≡◌, refl, inl, inr, Option, none, some, eqb, eqb_iff, if◌then◌else◌,
  Bool-cases, arith,
}
use mathlib.Core.List.{List}
use email_triage_system.Common.Int.{ℤ, pos, negsuc}
use email_triage_system.Text.Splitting.{Lacks}
use email_triage_system.Auth.{Claims, Crypto}
use email_triage_system.Auth.Tokens.Laws.{CryptoLaws}

abbrev more_mark : Char
more_mark = char 111 tt

abbrev end_mark : Char
end_mark = char 101 tt

abbrev dot_mark : Char
dot_mark = char 100 tt

abbrev dot : Char
dot = char 46 tt

abbrev push : Char → Option (String × String) → Option (String × String)
push c none = none
push c (some (s, rest)) = some (c ∷ s, rest)

abbrev keep : Char → Option String → Option String
keep c none = none
keep c (some s) = some (c ∷ s)

abbrev encode : String → String
encode [] = []
encode (c ∷ s) =
    if eqb (code c) 46 then dot_mark ∷ dot_mark ∷ encode s else more_mark ∷ c ∷ encode s

abbrev decode : String → Option String
decode [] = some []
decode (m ∷ []) = none
decode (m ∷ c ∷ s) = keep (if eqb (code m) 100 then dot else c) (decode s)

decode-encode : (s : String) → decode (encode s) ≡ some s
decode-encode [] = refl
decode-encode (c ∷ s) = elim (Bool-cases (eqb (code c) 46)) [
  | inl is_dot ↦
      let same : c ≡ dot = Char-path c dot ((eqb_iff (code c) 46).0 is_dot) in
      rw is_dot (rw (decode-encode s, same) refl)
  | inr other ↦ rw other (rw (decode-encode s) refl)
]

encode-Lacks : (s : String) → Lacks 46 (encode s)
encode-Lacks [] = tt
encode-Lacks (c ∷ s) = elim (Bool-cases (eqb (code c) 46)) [
  | inl is_dot ↦ rw is_dot (omega arith, (omega arith, encode-Lacks s))
  | inr other ↦ rw other (omega arith, (ground arith, encode-Lacks s))
]

abbrev write_text : String → String → String
write_text [] rest = end_mark ∷ rest
write_text (c ∷ s) rest = more_mark ∷ c ∷ write_text s rest

abbrev read_text : String → Option (String × String)
read_text [] = none
read_text (m ∷ []) = if eqb (code m) 101 then some ([], []) else none
read_text (m ∷ c ∷ s) =
    let rest = read_text s in if eqb (code m) 101 then some ([], c ∷ s) else push c rest

read_text-write_text : (s rest : String) → read_text (write_text s rest) ≡ some (s, rest)
read_text-write_text [] [] = refl
read_text-write_text [] (c ∷ rest) = refl
read_text-write_text (c ∷ s) rest = rw (read_text-write_text s rest) refl

abbrev push_name :
    Option (String × String) → Option (List String × String) → Option (List String × String)
push_name none later = none
push_name (some (s, rest)) none = none
push_name (some (s, rest)) (some (names, last)) = some (List.◌∷◌ s names, last)

-- The number of names, and the names one after another.
abbrev write_count : ℕ → String → String
write_count zero rest = end_mark ∷ rest
write_count (suc n) rest = more_mark ∷ write_count n rest

abbrev bump : Option (ℕ × String) → Option (ℕ × String)
bump none = none
bump (some (n, rest)) = some (suc n, rest)

abbrev read_count : String → Option (ℕ × String)
read_count [] = none
read_count (m ∷ s) = let rest = read_count s in if eqb (code m) 101 then some (0, s) else bump rest

read_count-write_count : (n : ℕ) (rest : String) → read_count (write_count n rest) ≡ some (n, rest)
read_count-write_count zero rest = refl
read_count-write_count (suc n) rest = rw (read_count-write_count n rest) refl

abbrev write_int : ℤ → String → String
write_int (pos n) rest = more_mark ∷ write_count n rest
write_int (negsuc n) rest = end_mark ∷ write_count n rest

abbrev signed : (ℕ → ℤ) → Option (ℕ × String) → Option (ℤ × String)
signed f none = none
signed f (some (n, rest)) = some (f n, rest)

abbrev read_int : String → Option (ℤ × String)
read_int [] = none
read_int (m ∷ s) = signed (if eqb (code m) 101 then negsuc else pos) (read_count s)

read_int-write_int : (a : ℤ) (rest : String) → read_int (write_int a rest) ≡ some (a, rest)
read_int-write_int (pos n) rest = rw (read_count-write_count n rest) refl
read_int-write_int (negsuc n) rest = rw (read_count-write_count n rest) refl

abbrev write_names : List String → String → String
write_names List.[] rest = rest
write_names (List.◌∷◌ s names) rest = write_text s (write_names names rest)

abbrev then_read {ℓ} :
    {A : Type ℓ} {B : Type 0} → Option (A × String) → (A → String → Option B) → Option B
then_read none next = none
then_read (some (a, rest)) next = next a rest

abbrev read_names : ℕ → String → Option (List String × String)
read_names zero s = some (List.[], s)
read_names (suc n) s =
    then_read (read_text s) (λ name rest. push_name (some (name, rest)) (read_names n rest))

abbrev length : List String → ℕ
length List.[] = 0
length (List.◌∷◌ s names) = suc (length names)

read_names-write_names :
    (names : List String) (rest : String)
    → read_names (length names) (write_names names rest) ≡ some (names, rest)
read_names-write_names List.[] rest = refl
read_names-write_names (List.◌∷◌ s names) rest =
    rw (read_text-write_text s (write_names names rest))
      (rw (read_names-write_names names rest) refl)

abbrev write_claims : Claims → String
write_claims c = write_text c.issuer (
    write_text c.subject (
      write_text c.role (
        write_text c.provider (
          write_int c.expiry (
            write_int c.issued_at (write_count (length c.audience) (write_names c.audience [])))))))

abbrev read_claims : String → Option Claims
read_claims s0 = then_read (read_text s0) (λ a s1. then_read (read_text s1) (λ b s2.
    then_read (read_text s2) (λ c s3. then_read (read_text s3) (λ d s4.
      then_read (read_int s4) (λ e s5. then_read (read_int s5) (λ f s6.
        then_read (read_count s6) (λ n s7. then_read (read_names n s7) (λ names s8. some (record {
          issuer = a;
          audience = names;
          subject = b;
          role = c;
          provider = d;
          expiry = e;
          issued_at = f;
        })))))))))

read_claims-write_claims : (c : Claims) → read_claims (write_claims c) ≡ some c
read_claims-write_claims c =
    rw
      (
        read_text-write_text, read_text-write_text, read_text-write_text, read_text-write_text,
        read_int-write_int, read_int-write_int, read_count-write_count, read_names-write_names,
      )
      refl

abbrev pub toy : Crypto
toy = record {
  hmac_sha256 = λ key message. key <> message;
  sha256 = λ s. s;
  encode_hex = λ s. s;
  encode_base64 = encode;
  decode_base64 = decode;
  marshal_header = λ algorithm type. algorithm;
  unmarshal_header = λ s. some s;
  marshal_claims = write_claims;
  unmarshal_claims = read_claims;
}

pub toy-CryptoLaws : CryptoLaws toy
toy-CryptoLaws = record {
  base64 = decode-encode;
  no_dot = encode-Lacks;
  header = λ algorithm type. refl;
  claims = read_claims-write_claims;
}
