-- ===== src/Login/Grants.antt =====
-- Whom a login gives a token.
use mathlib.Core.List.{Memᴰ}
use email_triage_system.Common.{
  String, ℕ, ◌≡◌, refl, sym, ap, ◌∙◌, inl, inr, Bool, true, ◌&&◌, Option, some, none, List, [], ◌∷◌,
  arith, eqb, Bool-cases, Option-cases,
}
use email_triage_system.Common.Int.{ℤ, pos_part, neg_part}
use email_triage_system.Text.{GoLib}
use email_triage_system.Models.{User}
use email_triage_system.World.{Env, State, Error, user_not_found, Result, ok, err, World, call, now}
use email_triage_system.World.Runs.{call-eq-ok}
use email_triage_system.Storage.{find_user, get_user, get_user_by_telegram_id}
use email_triage_system.Auth.{Config, Crypto}
use email_triage_system.Auth.Tokens.{new_token_manager, issue}
use email_triage_system.Auth.Telegram.{TelegramLogin, verify_telegram_login}
use email_triage_system.Auth.Telegram.CheckString.{IsSigned, verify_telegram_login_iff}
use email_triage_system.Scans.{reply}
use email_triage_system.Login.{
  user_view, TelegramAuthResponse, telegram_principal, auth_response, token_reply, issue_at,
  login_error, logged_in, verified, telegram_auth,
}

find_user-Memᴰ :
    (test : User → Bool) (users : List User) (user : User)
    → find_user test users ≡ some user
    → Memᴰ user users × (test user ≡ true)
unfolding find_user
find_user-Memᴰ test [] user h = cc
find_user-Memᴰ test (u ∷ users) user h = elim (Bool-cases (test u)) [
  | inl hit ↦
      let same : u ≡ user = cc (rw hit at h) in (Memᴰ.head (sym same), ap test (sym same) ∙ hit)
  | inr miss ↦ let (m, t) = find_user-Memᴰ test users user (rw miss at h) in (Memᴰ.tail m, t)
]

get_user_found :
    (test : User → Bool) (s t : State) (user : User)
    → get_user test s ≡ (ok user, t)
    → Memᴰ user s.db.users × (test user ≡ true)
unfolding get_user
get_user_found test s t user h = elim (Option-cases (find_user test s.db.users)) [
  | inl missing ↦ cc (rw (missing, get_user) at h)
  | inr (u, found) ↦
      let same : u ≡ user = cc (rw (found, get_user) at h) in
      find_user-Memᴰ test s.db.users user (found ∙ ap (λ v. some v) same)
]

same_id :
    (a b : ℤ) → (eqb (pos_part a) (pos_part b) && eqb (neg_part a) (neg_part b)) ≡ true → a ≡ b
same_id a b h = ground arith

pub get_user_by_telegram_id-Memᴰ :
    (id : ℤ) (s t : State) (user : User)
    → get_user_by_telegram_id id s ≡ (ok user, t)
    → Memᴰ user s.db.users × (user.telegram_id ≡ id)
unfolding get_user_by_telegram_id
get_user_by_telegram_id-Memᴰ id s t user h =
    let (m, e) = get_user_found _ s t user h in (m, same_id user.telegram_id id e)

-- A login that Telegram has signed, of an enabled user with its Telegram id, and the token that is
-- issued for that user.
pub record IsGranted (lib : GoLib) (crypto : Crypto) (cfg : Config) (users : List User)
    (login : TelegramLogin) (body : TelegramAuthResponse) : Type 0 where
  pub user : User
  pub time : ℕ
  pub signed : IsSigned lib crypto login cfg.telegram_bot_token
  pub stored : Memᴰ user users
  pub telegram_id : user.telegram_id ≡ login.id
  pub enabled : user.enabled ≡ true
  pub issued :
      issue crypto (new_token_manager cfg) time (telegram_principal user) ≡ ok body.access_token

module _ (lib : GoLib) (crypto : Crypto) (env : Env) (cfg : Config) (code : ℕ)
    (body : TelegramAuthResponse) where
  token_reply-issued :
      (user : User) (r : Result String)
      → token_reply lib crypto env cfg user r ≡ reply code body
      → (code ≡ 200) × (r ≡ ok body.access_token)
  token_reply-issued user (err e) h = cc
  token_reply-issued user (ok token) h =
      let same : auth_response lib crypto env cfg user token ≡ body = cc in
      (cc, ap (λ (b : TelegramAuthResponse). ok b.access_token) same)

  abbrev Issued : User → Type 0
  Issued user =
      (time : ℕ) × (code ≡ 200)
      × (issue crypto (new_token_manager cfg) time (telegram_principal user) ≡ ok body.access_token)

  issue_at-Issued :
      (user : User) (r : Result ℕ × World)
      → (issue_at lib crypto env cfg user r).0 ≡ reply code body
      → Issued user
  issue_at-Issued user (err e, w) h = cc
  issue_at-Issued user (ok time, w) h =
      let (c, e) =
        token_reply-issued user
          (issue crypto (new_token_manager cfg) time (telegram_principal user)) h in
      (time, c, e)

  login_error-json : (e : Error) → ¬ (login_error lib crypto env cfg e ≡ reply code body)
  login_error-json user_not_found h = cc
  login_error-json _ h = cc

  logged_in-Issued :
      (r : Result User × World)
      → (logged_in lib crypto env cfg r).0 ≡ reply code body
      → (user : User) × (r.0 ≡ ok user) × (user.enabled ≡ true) × Issued user
  unfolding user_view
  logged_in-Issued (err e, w) h = absurd (login_error-json e h)
  logged_in-Issued (ok user, w) h = elim (Bool-cases user.enabled) [
    | inl on ↦ (user, refl, on, issue_at-Issued user (now env w) (rw on at h))
    | inr off ↦ cc (rw off at h)
  ]

  verified-IsGranted :
      (login : TelegramLogin) (r : Result (Unit {0})) (w : World)
      → verify_telegram_login lib crypto login cfg.telegram_bot_token ≡ r
      → (verified lib crypto env cfg login r w).0 ≡ reply code body
      → (code ≡ 200) × IsGranted lib crypto cfg w.state.db.users login body
  verified-IsGranted login (err e) w v h = cc
  verified-IsGranted login (ok done) w v h =
      let (user, found, on, issuing) =
        logged_in-Issued (call env (get_user_by_telegram_id login.id) w) h in
      let (time, c, e) = issuing in
      let (m, id) = get_user_by_telegram_id-Memᴰ login.id w.state _ user (
        call-eq-ok env (get_user_by_telegram_id login.id) w user
          (call env (get_user_by_telegram_id login.id) w).1 (both found)) in
      (
        c,
        record {
          user = user;
          time = time;
          signed = (verify_telegram_login_iff lib crypto login cfg.telegram_bot_token).0 v;
          stored = m;
          telegram_id = id;
          enabled = on;
          issued = e;
        },
      )
    where
      both : {a : User} {r : Result User × World} → r.0 ≡ ok a → r ≡ (ok a, r.1)
      both e = cc

-- A login is answered with a token only at status 200, for a body that is a login signed under the
-- bot token, of a stored and enabled user with the login's Telegram id; and the token is one that
-- was issued for that user's id and role.
pub telegram_auth-IsGranted :
    (lib : GoLib) (crypto : Crypto) (env : Env) (cfg : Config) (req : Option TelegramLogin)
    (w : World) (code : ℕ) (body : TelegramAuthResponse)
    → (telegram_auth lib crypto env cfg req w).0 ≡ reply code body
    → (login : TelegramLogin) × (req ≡ some login)
      × (code ≡ 200)
      × IsGranted lib crypto cfg w.state.db.users login body
unfolding telegram_auth
telegram_auth-IsGranted lib crypto env cfg none w code body h = cc
telegram_auth-IsGranted lib crypto env cfg (some login) w code body h =
    let (c, g) = verified-IsGranted lib crypto env cfg code body login _ w refl h in
    (login, refl, c, g)
