-- ===== src/Config/Kept.antt =====
-- How the components take over the settings of `Load`, and numbers that are set in the environment.
use email_triage_system.Common.{
  ◌-◌, String, ◌≡◌, ◌≢◌, refl, true, false, ◌||◌, Option, none, some, List, [], ◌∷◌, ◌==◌, eq_iff,
  arith, Bool-cases, inl, inr, if◌then◌else◌,
}
use email_triage_system.Common.Int.{ℤ, pos, ◌<ℤ◌, leb_ℤ, ltb_ℤ, two63}
use email_triage_system.Text.Decimal.{parse_int, format_int}
use email_triage_system.Text.Decimal.Laws.{parse_int-format_int}
use email_triage_system.World.{other, ok, err}
use email_triage_system.Reader.Source.{Source, source_mock, source_gmail, new_source}
use email_triage_system.Auth
use email_triage_system.Auth.{hour, normalized}
use email_triage_system.Config
use email_triage_system.Config.{
  positive_or, list_or, trimmed_parts, get_env, get_env_int64, get_env_int, get_env_duration,
  get_env_string_slice, load, auth_config, email_reader, new_label_worker,
}
use email_triage_system.Config.Defaults.{IsUsable, load-IsUsable}

or_default-there : (names : List String) → names ≢ [] → Auth.or_default names ≡ names
or_default-there [] h = absurd (h refl)
or_default-there (name ∷ names) h = refl

normalized_usable :
    (cfg : Config.Config) → IsUsable cfg → normalized (auth_config cfg) ≡ auth_config cfg
unfolding normalized
normalized_usable cfg u =
    let ttl : leb_ℤ cfg.auth_token_ttl (pos 0) ≡ false = ground (arith, u.ttl_low) in
    let issuer : (cfg.jwt_issuer == "") ≡ false =
      ground (arith, eq_iff cfg.jwt_issuer "", u.issuer_there) in
    rw (ttl, issuer, or_default-there cfg.jwt_audience u.audience_there) refl

-- The source of messages that the settings describe.
abbrev pub reader_of : Config.Config → Source
reader_of cfg = record {
  source = cfg.email_source;
  mock = true;
  gmail = cfg.email_source == source_gmail;
  max_results = cfg.gmail_read_max_results;
  query = cfg.gmail_read_query;
}

email_reader_usable :
    (cfg : Config.Config)
    → IsUsable cfg
    → email_reader cfg ≡ (
        if cfg.email_source == source_mock || cfg.email_source == source_gmail
        then ok (reader_of cfg)
        else err (other "unsupported email source"))
unfolding new_source
email_reader_usable cfg u =
    let low : leb_ℤ cfg.gmail_read_max_results (pos 0) ≡ false = ground (arith, u.results_low) in
    elim (Bool-cases (cfg.email_source == source_mock)) [
      | inl mock ↦ elim (Bool-cases (cfg.email_source == source_gmail)) [
        | inl gmail ↦ rw (mock, gmail, low) refl
        | inr neither ↦ rw (mock, neither, low) refl
      ]
      | inr read ↦ elim (Bool-cases (cfg.email_source == source_gmail)) [
        | inl gmail ↦ rw (read, gmail, low) refl
        | inr neither ↦ rw (read, neither) refl
      ]
    ]

new_label_worker_usable :
    (cfg : Config.Config)
    → IsUsable cfg
    → new_label_worker true true true cfg.label_worker_concurrency ≡ ok cfg.label_worker_concurrency
unfolding new_label_worker
new_label_worker_usable cfg u =
    let low : leb_ℤ cfg.label_worker_concurrency (pos 0) ≡ false =
      ground (arith, u.concurrency_low) in
    rw low refl

-- With the settings that `Load` returns, `auth.NewTokenManager` and `NewLabelWorker` put no
-- default of their own in the place of a setting, and the source of messages is built with the
-- page size and the query that are set if the setting for it is "mock" or "gmail", and refused
-- otherwise.
pub load-is_kept :
    (environment : String → String) (parse_duration : String → Option ℤ)
    → let cfg = load environment parse_duration in
      (normalized (auth_config cfg) ≡ auth_config cfg)
      × (new_label_worker true true true cfg.label_worker_concurrency
          ≡ ok cfg.label_worker_concurrency)
      × (email_reader cfg ≡ (
          if cfg.email_source == source_mock || cfg.email_source == source_gmail
          then ok (reader_of cfg)
          else err (other "unsupported email source")))
load-is_kept environment parse_duration =
    let cfg = load environment parse_duration in
    let u = load-IsUsable environment parse_duration in
    (normalized_usable cfg u, new_label_worker_usable cfg u, email_reader_usable cfg u)

parse_int-nonempty : (s : String) (n : ℤ) → parse_int s ≡ some n → (s == "") ≡ false
unfolding parse_int
parse_int-nonempty s n h = elim (Bool-cases (s == "")) [
  | inl blank ↦
      let empty : s ≡ "" = ground (arith, eq_iff s "") in
      let e : none ≡ some n = rw empty at h in cc
  | inr there ↦ there
]

-- A number above 0 that fits in 64 bits and stands in the environment as `strconv.FormatInt`
-- writes it is what `getEnvInt64` and `getEnvInt` return, whatever the fallback.
pub get_env_int-format_int :
    (environment : String → String) (key : String) (n fallback : ℤ)
    → pos 0 <ℤ n
    → n <ℤ pos two63
    → environment key ≡ format_int n
    → (get_env_int64 environment key fallback ≡ n) × (get_env_int environment key fallback ≡ n)
unfolding get_env_int get_env_int64
get_env_int-format_int environment key n fallback low high set =
    let read : parse_int (environment key) ≡ some n =
      rw set (parse_int-format_int n (omega arith) high) in
    let there : (environment key == "") ≡ false = parse_int-nonempty (environment key) n read in
    let above : leb_ℤ n (pos 0) ≡ false = ground arith in
    let fits : ltb_ℤ (pos (two63 - 1)) n ≡ false = ground arith in
    (rw (there, read, above) refl, rw (there, read, above, fits) refl)
