-- ===== src/Auth/Telegram.antt =====
-- internal/auth/telegram.go: the check of a Telegram login, and its display name.
pub mod CheckString
use Prim.Native.Nat.{compare, Ordering}
use email_triage_system.Common.{
  ℕ, String, ◌<>◌, Bool, true, false, not, ◌&&◌, ◌||◌, List, [], ◌∷◌, ◌++◌, map, ◌==◌,
  if◌then◌else◌, eqb,
}
use email_triage_system.Common.Int.{ℤ, pos, negsuc}
use email_triage_system.Text.{GoLib, to_lower, join, before}
use email_triage_system.Text.Decimal.{format_int}
use email_triage_system.Auth.{Crypto}
use email_triage_system.World.{Result, ok, err, other, invalid_telegram_login}

pub record TelegramLogin : Type 0 where
  pub id : ℤ
  pub username : String
  pub first_name : String
  pub last_name : String
  pub photo_url : String
  pub auth_date : ℤ
  pub hash : String

abbrev pub is_zero : ℤ → Bool
is_zero (pos n) = eqb n 0
is_zero (negsuc n) = false

abbrev pub Values : Type 0
Values = List (String × String)

-- `values.Set(key, value)` where `value` is not empty; no key is set twice
abbrev pub set_if : String → String → Values
set_if key value = if value == "" then [] else (key, value) ∷ []

-- The values in the order in which they are set.
abbrev pub values_of : TelegramLogin → Values
values_of login =
    ("id", format_int login.id)
    ∷ ("auth_date", format_int login.auth_date)
    ∷ (set_if "username" login.username
        ++ (set_if "first_name" login.first_name
            ++ (set_if "last_name" login.last_name ++ set_if "photo_url" login.photo_url)))

unfoldable pub insert_sorted : String × String → Values → Values
insert_sorted kv [] = kv ∷ []
insert_sorted kv (first ∷ values) =
    if before kv.0 first.0 then kv ∷ first ∷ values else first ∷ insert_sorted kv values

-- `sort.Strings(keys)`, with the values that the keys have
unfoldable pub sort_values : Values → Values
sort_values [] = []
sort_values (kv ∷ values) = insert_sorted kv (sort_values values)

abbrev pub part_of : String × String → String
part_of (key, value) = key <> ("=" <> value)

unfoldable pub data_check_string : TelegramLogin → String
data_check_string login = join (map part_of (sort_values (values_of login))) "\n"

unfoldable pub expected_hash : Crypto → TelegramLogin → String → String
expected_hash crypto login bot_token =
    crypto.encode_hex (crypto.hmac_sha256 (crypto.sha256 bot_token) (data_check_string login))

module _ (lib : GoLib) (crypto : Crypto) where
  unfoldable pub verify_telegram_login : TelegramLogin → String → Result (Unit {0})
  verify_telegram_login login bot_token =
      if bot_token == ""
      then err (other "telegram bot token is not configured")
      else if is_zero login.id || is_zero login.auth_date || login.hash == ""
      then err invalid_telegram_login
      else if not (expected_hash crypto login bot_token == to_lower lib login.hash)
      then err invalid_telegram_login
      else ok tt

unfoldable pub display_name : TelegramLogin → String
display_name l =
    if not (l.first_name == "") && not (l.last_name == "")
    then l.first_name <> (" " <> l.last_name)
    else if not (l.first_name == "")
    then l.first_name
    else if not (l.last_name == "")
    then l.last_name
    else l.username
