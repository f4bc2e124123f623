-- ===== src/Config/Defaults.antt =====
-- Bounds on the settings that `Load` returns.
use email_triage_system.Common.{
  ◌-◌, ◌*◌, String, ◌≡◌, ◌≢◌, refl, false, Option, none, some, List, [], ◌∷◌, All, ◌==◌, eq_iff,
  arith, Bool-cases, inl, inr,
}
use email_triage_system.Common.Int.{ℤ, pos, ◌≤ℤ◌, ◌<ℤ◌, ltb_ℤ, two63}
use email_triage_system.Text.{trim_space, split}
use email_triage_system.Text.Decimal.{parse_int}
use email_triage_system.Text.Decimal.Laws.{parse_int_range}
use email_triage_system.Text.Normal.{trim_space_idem}
use email_triage_system.Auth.{hour}
use email_triage_system.Config
use email_triage_system.Config.{
  positive_or, list_or, trimmed_parts, get_env, get_env_int64, get_env_int, get_env_duration,
  get_env_string_slice, load, auth_config, email_reader, new_label_worker,
}

-- A name of the list is trimmed and not empty.
pub record IsName (name : String) : Type 0 where
  pub nonempty : name ≢ ""
  pub trimmed : trim_space name ≡ name

-- What the components rely on in the settings.
pub record IsUsable (cfg : Config.Config) : Type 0 where
  pub results_low : pos 0 <ℤ cfg.gmail_read_max_results
  pub results_high : cfg.gmail_read_max_results <ℤ pos two63
  pub concurrency_low : pos 0 <ℤ cfg.label_worker_concurrency
  pub concurrency_high : cfg.label_worker_concurrency <ℤ pos two63
  pub interval_low : pos 0 ≤ℤ cfg.scheduled_scan_interval
  pub ttl_low : pos 0 <ℤ cfg.auth_token_ttl
  pub issuer_there : cfg.jwt_issuer ≢ ""
  pub audience_there : cfg.jwt_audience ≢ []
  pub audience_names : All IsName cfg.jwt_audience

positive_or-low :
    (fallback : ℤ) (read : Option ℤ) → pos 0 <ℤ fallback → pos 0 <ℤ positive_or fallback read
positive_or-low fallback none h = h
positive_or-low fallback (some a) h = ground arith

positive_or-least :
    (fallback : ℤ) (read : Option ℤ) → pos 0 ≤ℤ fallback → pos 0 ≤ℤ positive_or fallback read
positive_or-least fallback none h = h
positive_or-least fallback (some a) h = ground arith

positive_or-high :
    (fallback : ℤ) (s : String)
    → fallback <ℤ pos two63
    → positive_or fallback (parse_int s) <ℤ pos two63
positive_or-high fallback s h = at (parse_int s) refl
  where
    at : (read : Option ℤ) → parse_int s ≡ read → positive_or fallback read <ℤ pos two63
    at none e = h
    at (some a) e = let (low, high) = parse_int_range s a e in ground arith

IsName-trimmed : (part : String) → (trim_space part == "") ≡ false → IsName (trim_space part)
IsName-trimmed part h = record {
  nonempty = λ e. ground (arith, eq_iff (trim_space part) "");
  trimmed = trim_space_idem part;
}

trimmed_parts-IsName : (parts : List String) → All IsName (trimmed_parts parts)
unfolding trimmed_parts
trimmed_parts-IsName [] = tt
trimmed_parts-IsName (part ∷ parts) = elim (Bool-cases (trim_space part == "")) [
  | inl blank ↦ rw blank (trimmed_parts-IsName parts)
  | inr name ↦ rw name (IsName-trimmed part name, trimmed_parts-IsName parts)
]

-- A list of names that is not empty.
abbrev AreNames : List String → Type 0
AreNames names = (names ≢ []) × All IsName names

list_or-AreNames :
    (fallback parts : List String)
    → AreNames fallback
    → All IsName parts
    → AreNames (list_or fallback parts)
list_or-AreNames fallback [] h names = h
list_or-AreNames fallback (part ∷ parts) h names = (λ e. cc, names)

module _ (environment : String → String) (key : String) where
  get_env-nonempty : (fallback : String) → fallback ≢ "" → get_env environment key fallback ≢ ""
  unfolding get_env
  get_env-nonempty fallback h = elim (Bool-cases (environment key == "")) [
    | inl unset ↦ rw unset h
    | inr there ↦ rw there (λ e. ground (arith, eq_iff (environment key) ""))
  ]

  get_env_int64-low :
      (fallback : ℤ) → pos 0 <ℤ fallback → pos 0 <ℤ get_env_int64 environment key fallback
  unfolding get_env_int64
  get_env_int64-low fallback h = elim (Bool-cases (environment key == "")) [
    | inl unset ↦ rw unset h
    | inr there ↦ rw there (positive_or-low fallback (parse_int (environment key)) h)
  ]

  get_env_int64-high :
      (fallback : ℤ) → fallback <ℤ pos two63 → get_env_int64 environment key fallback <ℤ pos two63
  unfolding get_env_int64
  get_env_int64-high fallback h = elim (Bool-cases (environment key == "")) [
    | inl unset ↦ rw unset h
    | inr there ↦ rw there (positive_or-high fallback (environment key) h)
  ]

  -- The test for a number that no `int` holds never fires.
  get_env_int-int64 :
      (fallback : ℤ)
      → fallback <ℤ pos two63
      → get_env_int environment key fallback ≡ get_env_int64 environment key fallback
  unfolding get_env_int
  get_env_int-int64 fallback h =
      let high = get_env_int64-high fallback h in
      let fits : ltb_ℤ (pos (two63 - 1)) (get_env_int64 environment key fallback) ≡ false =
        ground arith in
      rw fits refl

  module _ (parse_duration : String → Option ℤ) where
    get_env_duration-low :
        (fallback : ℤ)
        → pos 0 <ℤ fallback
        → pos 0 <ℤ get_env_duration environment parse_duration key fallback
    unfolding get_env_duration
    get_env_duration-low fallback h = elim (Bool-cases (environment key == "")) [
      | inl unset ↦ rw unset h
      | inr there ↦ rw there (positive_or-low fallback (parse_duration (environment key)) h)
    ]

    get_env_duration-least :
        (fallback : ℤ)
        → pos 0 ≤ℤ fallback
        → pos 0 ≤ℤ get_env_duration environment parse_duration key fallback
    unfolding get_env_duration
    get_env_duration-least fallback h = elim (Bool-cases (environment key == "")) [
      | inl unset ↦ rw unset h
      | inr there ↦ rw there (positive_or-least fallback (parse_duration (environment key)) h)
    ]

  get_env_string_slice-AreNames :
      (fallback : List String)
      → AreNames fallback
      → AreNames (get_env_string_slice environment key fallback)
  unfolding get_env_string_slice
  get_env_string_slice-AreNames fallback h = elim (Bool-cases (environment key == "")) [
    | inl unset ↦ rw unset h
    | inr there ↦ rw there (
        list_or-AreNames fallback (trimmed_parts (split (environment key) 44)) h
          (trimmed_parts-IsName _))
  ]

abbrev two_names : List String
two_names = "email-triage-system" ∷ "pg-ops-console" ∷ []

two_names-AreNames : AreNames two_names
unfolding trim_space
two_names-AreNames = (
  λ e. cc,
  (
    record { nonempty = λ e. cc; trimmed = refl },
    (record { nonempty = λ e. cc; trimmed = refl }, tt),
  ),
)

-- Whatever the environment holds and `time.ParseDuration` reads, `Load` returns settings in which the
-- size of a page and the label worker's concurrency are between 1 and 2 ^ 63 - 1, the interval of the
-- scheduled scans is not negative, a token's lifetime is above 0, the issuer is not empty, and the
-- audience is not empty, nor is any name in it, and each is trimmed.
pub load-IsUsable :
    (environment : String → String) (parse_duration : String → Option ℤ)
    → IsUsable (load environment parse_duration)
unfolding load
load-IsUsable environment parse_duration =
    let audience =
      get_env_string_slice-AreNames environment "JWT_AUDIENCE" two_names two_names-AreNames in
    let same = get_env_int-int64 environment "LABEL_WORKER_CONCURRENCY" (pos 4) (omega arith) in
    record {
      results_low = get_env_int64-low environment "GMAIL_READ_MAX_RESULTS" (pos 100) (omega arith);
      results_high =
          get_env_int64-high environment "GMAIL_READ_MAX_RESULTS" (pos 100) (omega arith);
      concurrency_low =
          rw same (get_env_int64-low environment "LABEL_WORKER_CONCURRENCY" (pos 4) (omega arith));
      concurrency_high =
          rw same (get_env_int64-high environment "LABEL_WORKER_CONCURRENCY" (pos 4) (omega arith));
      interval_low =
          get_env_duration-least environment "SCHEDULED_SCAN_INTERVAL" parse_duration (pos 0)
            (omega arith);
      ttl_low =
          get_env_duration-low environment "AUTH_TOKEN_TTL" parse_duration (pos (24 * hour))
            (omega arith);
      issuer_there = get_env-nonempty environment "JWT_ISSUER" "email-triage-system" (λ e. cc);
      audience_there = audience.0;
      audience_names = audience.1;
    }
