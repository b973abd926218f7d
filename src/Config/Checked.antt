-- ===== src/Config/Checked.antt =====
-- What `Validate` of config.go accepts, and what `GetEnvDurationOrDefault` returns.
use kkite.Prelude.{
  ℕ, String, ◌≡◌, ◌≢◌, ◌⊎◌, refl, Option, none, some, Bool, true, false, not, ◌==◌, contains, arith,
  inl, inr, Bool-cases, Option-cases, eq_iff, ◌≤◌, [], ◌∷◌,
}
use kkite.Config.{Config, check, is_bad_port, validate}
use kkite.Config.Environment.{get_env_duration_or_default}

pub record IsValidConfig (parse_port : String → Option ℕ) (c : Config) : Type 0 where
  pub port : ℕ
  pub parsed : parse_port c.server.port ≡ some port
  pub at_least : 1 ≤ port
  pub at_most : port ≤ 65535
  pub environment :
      contains ("development" ∷ "staging" ∷ "production" ∷ "test" ∷ []) c.server.environment ≡ true
  pub host : c.database.host ≢ ""
  pub user : c.database.user ≢ ""
  pub name : c.database.name ≢ ""
  pub level :
      contains ("debug" ∷ "info" ∷ "warn" ∷ "error" ∷ "fatal" ∷ "panic" ∷ []) c.logging.level ≡ true
  pub format : contains ("json" ∷ "text" ∷ []) c.logging.format ≡ true

check_passed :
    (b : Bool) (message : String) (rest : Option String)
    → check b message rest ≡ none
    → (b ≡ false) × (rest ≡ none)
check_passed true message rest e = absurd (ground arith)
check_passed false message rest e = (refl, e)

not-false : (b : Bool) → not b ≡ false → b ≡ true
not-false b e = ground arith

given : (s : String) → (s == "") ≡ false → s ≢ ""
given s h e = ground (arith, eq_iff s "")

good_port : (o : Option ℕ) → is_bad_port o ≡ false → (n : ℕ) × (o ≡ some n) × (1 ≤ n) × (n ≤ 65535)
good_port none e = absurd (ground arith)
good_port (some n) e = (n, refl, ground arith, ground arith)

-- A configuration that `Validate` accepts has a port from 1 to 65535, a known environment, log level
-- and log format, and a database with a host, a user and a name.
pub validate-IsValidConfig :
    (parse_port : String → Option ℕ) (c : Config)
    → validate parse_port c ≡ none
    → IsValidConfig parse_port c
unfolding validate
validate-IsValidConfig parse_port c e =
    let (_, e₁) = check_passed _ _ _ e in
    let (bad_port, e₂) = check_passed _ _ _ e₁ in
    let (environment, e₃) = check_passed _ _ _ e₂ in
    let (host, e₄) = check_passed _ _ _ e₃ in
    let (user, e₅) = check_passed _ _ _ e₄ in
    let (name, e₆) = check_passed _ _ _ e₅ in
    let (level, e₇) = check_passed _ _ _ e₆ in
    let (format, _) = check_passed _ _ _ e₇ in
    let (port, parsed, at_least, at_most) = good_port (parse_port c.server.port) bad_port in
    record {
      port = port;
      parsed = parsed;
      at_least = at_least;
      at_most = at_most;
      environment = not-false _ environment;
      host = given c.database.host host;
      user = given c.database.user user;
      name = given c.database.name name;
      level = not-false _ level;
      format = not-false _ format;
    }

-- Whatever the environment holds, `GetEnvDurationOrDefault` returns the default or 0: a duration that
-- is set there and parses is never taken.
pub get_env_duration_or_default_ignored :
    (parse_duration : String → Option ℕ) (env : String → String) (key : String) (default_value : ℕ)
    → let d = get_env_duration_or_default parse_duration env key default_value in
      (d ≡ default_value) ⊎ ((d ≡ 0) × (parse_duration (env key) ≡ none))
unfolding get_env_duration_or_default
get_env_duration_or_default_ignored parse_duration env key default_value =
    elim (Bool-cases (env key == "")) [
      | inl unset ↦ rw unset (inl refl)
      | inr set ↦ elim (Option-cases (parse_duration (env key))) [
        | inl failed ↦ rw (set, failed) (inr (refl, refl))
        | inr (d, parsed) ↦ rw (set, parsed) (inl refl)
      ]
    ]
