-- ===== src/Auth/Telegram/CheckString.antt =====
-- The text that a Telegram login signs.
use email_triage_system.Common.{
  ap, ◌≢◌, ◌↔◌, ◌∙◌, eq_iff, eq_refl, sym, ◌||◌, Bool, arith, String, ◌<>◌, ◌≡◌, refl, false, [],
  ◌∷◌, ◌++◌, map, ◌==◌, if◌then◌else◌, Bool-cases, inl, inr,
}
use text.Mathlib.TextLemmas.{append_assoc}
use email_triage_system.Text.Laws.{nonempty-append}
use email_triage_system.Common.Int.{ℤ}
use email_triage_system.Text.{GoLib, to_lower, before, join}
use email_triage_system.Auth.{Crypto}
use email_triage_system.World.{ok}
use email_triage_system.Text.Decimal.{format_int}
use email_triage_system.Auth.Telegram.{
  TelegramLogin, Values, set_if, values_of, insert_sorted, sort_values, part_of, data_check_string,
  is_zero, expected_hash, verify_telegram_login,
}

-- The values in the order of their keys.
abbrev pub ordered_values : TelegramLogin → Values
ordered_values login =
    ("auth_date", format_int login.auth_date)
    ∷ (set_if "first_name" login.first_name
        ++ ("id", format_int login.id)
          ∷ (set_if "last_name" login.last_name
              ++ (set_if "photo_url" login.photo_url ++ set_if "username" login.username)))

-- A value with its key, unless it is left out.
abbrev given : Bool → String → String → Values
given left_out key value = if left_out then [] else (key, value) ∷ []

sorted_cases :
    (u f l p : Bool) (id auth_date username first_name last_name photo_url : String)
    → sort_values (
        ("id", id)
        ∷ ("auth_date", auth_date)
        ∷ (given u "username" username
            ++ (given f "first_name" first_name
                ++ (given l "last_name" last_name ++ given p "photo_url" photo_url))))
      ≡ ("auth_date", auth_date)
        ∷ (given f "first_name" first_name
            ++ ("id", id)
              ∷ (given l "last_name" last_name
                  ++ (given p "photo_url" photo_url ++ given u "username" username)))
unfolding sort_values insert_sorted before
sorted_cases u f l p id auth_date username first_name last_name photo_url = ground arith

-- The keys are sorted in the same order whichever of the optional values are there.
sort_values-values_of :
    (login : TelegramLogin) → sort_values (values_of login) ≡ ordered_values login
sort_values-values_of login =
    sorted_cases (login.username == "") (login.first_name == "") (login.last_name == "")
      (login.photo_url == "") (format_int login.id) (format_int login.auth_date) login.username
      login.first_name login.last_name login.photo_url

-- What a login is signed by: the values in the order of their keys, one to a line.
pub data_check_string-ordered :
    (login : TelegramLogin)
    → data_check_string login ≡ join (map part_of (ordered_values login)) "\n"
unfolding data_check_string
data_check_string-ordered login =
    ap (λ values. join (map part_of values) "\n") (sort_values-values_of login)

-- What a login has to be, for a bot token.
pub record IsSigned (lib : GoLib) (crypto : Crypto) (login : TelegramLogin) (token : String)
    : Type 0 where
  pub bot_token : token ≢ ""
  pub id : is_zero login.id ≡ false
  pub auth_date : is_zero login.auth_date ≡ false
  pub hash : login.hash ≢ ""
  pub signature :
      to_lower lib login.hash
      ≡ crypto.encode_hex (
          crypto.hmac_sha256 (crypto.sha256 token) (join (map part_of (ordered_values login)) "\n"))

expected_hash-ordered :
    (crypto : Crypto) (login : TelegramLogin) (token : String)
    → expected_hash crypto login token
      ≡ crypto.encode_hex (
          crypto.hmac_sha256 (crypto.sha256 token) (join (map part_of (ordered_values login)) "\n"))
unfolding expected_hash
expected_hash-ordered crypto login token =
    ap (λ text. crypto.encode_hex (crypto.hmac_sha256 (crypto.sha256 token) text))
      (data_check_string-ordered login)

module _ (lib : GoLib) (crypto : Crypto) (login : TelegramLogin) (token : String) where
  login_sound :
      verify_telegram_login lib crypto login token ≡ ok tt → IsSigned lib crypto login token
  unfolding verify_telegram_login
  login_sound h = elim (Bool-cases (token == "")) [
    | inl unset ↦ cc (rw unset at h)
    | inr set ↦
        elim (Bool-cases (is_zero login.id || is_zero login.auth_date || login.hash == "")) [
          | inl lacking ↦ cc (rw (set, lacking) at h)
          | inr full ↦
              elim (Bool-cases (expected_hash crypto login token == to_lower lib login.hash)) [
                | inr differs ↦ cc (rw (set, full, differs) at h)
                | inl same ↦ record {
                  bot_token = ground (arith, eq_iff token "");
                  id = ground arith;
                  auth_date = ground arith;
                  hash = ground (arith, eq_iff login.hash "");
                  signature =
                      sym ((eq_iff _ (to_lower lib login.hash)).0 same)
                      ∙ expected_hash-ordered crypto login token;
                }
              ]
        ]
  ]

  login_complete :
      IsSigned lib crypto login token → verify_telegram_login lib crypto login token ≡ ok tt
  unfolding verify_telegram_login
  login_complete s =
      let set : (token == "") ≡ false = ground (arith, eq_iff token "", s.bot_token) in
      let hashed : (login.hash == "") ≡ false = ground (arith, eq_iff login.hash "", s.hash) in
      let expected : expected_hash crypto login token ≡ to_lower lib login.hash =
        expected_hash-ordered crypto login token ∙ sym s.signature in
      rw (set, s.id, s.auth_date, hashed, expected, eq_refl) refl

  -- A login is accepted exactly if a bot token is set, the login has an id, a date and a hash, and
  -- the hash, in lower case, is the hexadecimal HMAC, under the SHA-256 of the bot token, of the
  -- values that are there, in the order auth_date, first_name, id, last_name, photo_url, username,
  -- each as key=value, one to a line.
  pub verify_telegram_login_iff :
      (verify_telegram_login lib crypto login token ≡ ok tt) ↔ IsSigned lib crypto login token
  verify_telegram_login_iff = (login_sound, login_complete)

-- The values of a login whose first and last name are there, and those of one that puts the lines
-- of the other's id and last name into its first name.
module _ (base : TelegramLogin) (a b : ℤ) (x y : String) where
  abbrev pub two_names : TelegramLogin
  two_names = record base {
    id = a;
    first_name = x;
    last_name = y <> ("\n" <> part_of ("id", format_int b));
  }

  abbrev pub one_name : TelegramLogin
  one_name = record base {
    id = b;
    first_name =
        x <> ("\n" <> (part_of ("id", format_int a) <> ("\n" <> part_of ("last_name", y))));
    last_name = "";
  }

  -- The values behind the id and the last name are the same ones.
  same_lines :
      (rest : Values)
      → join
          (map part_of (
            ("auth_date", format_int base.auth_date)
            ∷ ("first_name", x)
            ∷ ("id", format_int a)
            ∷ ("last_name", two_names.last_name)
            ∷ rest))
          "\n"
        ≡ join
            (map part_of (
              ("auth_date", format_int base.auth_date)
              ∷ ("first_name", one_name.first_name)
              ∷ ("id", format_int b)
              ∷ rest))
            "\n"
  unfolding join
  same_lines [] = simp append_assoc
  same_lines (kv ∷ rest) = simp append_assoc

  same_check_string : x ≢ "" → y ≢ "" → data_check_string two_names ≡ data_check_string one_name
  same_check_string hx hy =
      rw (data_check_string-ordered two_names, data_check_string-ordered one_name)
        (rw
          (
            nonempty-append x
                ("\n" <> (part_of ("id", format_int a) <> ("\n" <> part_of ("last_name", y)))) hx,
            nonempty-append y ("\n" <> part_of ("id", format_int b)) hy,
            named,
          )
          (same_lines (set_if "photo_url" base.photo_url ++ set_if "username" base.username)))
    where
      named : (x == "") ≡ false
      named = ground (arith, eq_iff x "")

-- If the login of account `a` with a first name and a last name is accepted, and the last name
-- ends in a line that reads as the id `b`, not 0, then with the same hash the login of account `b` is
-- accepted whose first name holds the lines of a's id and last name, and whose username, photo URL
-- and date are the same: the check string does not tell a line feed inside a value from the one
-- between two.
pub verify_telegram_login-line_feed :
    (lib : GoLib) (crypto : Crypto) (token : String) (base : TelegramLogin) (a b : ℤ) (x y : String)
    → x ≢ ""
    → y ≢ ""
    → is_zero b ≡ false
    → verify_telegram_login lib crypto (two_names base a b x y) token ≡ ok tt
    → verify_telegram_login lib crypto (one_name base a b x y) token ≡ ok tt
verify_telegram_login-line_feed lib crypto token base a b x y hx hy hb h =
    let s : IsSigned lib crypto (two_names base a b x y) token =
      login_sound lib crypto (two_names base a b x y) token h in
    login_complete lib crypto (one_name base a b x y) token (record {
      bot_token = s.bot_token;
      id = hb;
      auth_date = s.auth_date;
      hash = s.hash;
      signature =
          s.signature
          ∙ ap (λ text. crypto.encode_hex (crypto.hmac_sha256 (crypto.sha256 token) text))
              (sym (data_check_string-ordered (two_names base a b x y))
                ∙ same_check_string base a b x y hx hy
                ∙ data_check_string-ordered (one_name base a b x y));
    })
