-- ===== src/Config/Environment.antt =====
-- The readers of environment variables of packages/backend/internal/config/config.go. The parsers of the
-- standard library are parameters: `parse_int` stands for `strconv.Atoi`, `parse_bool` for
-- `strconv.ParseBool` and `parse_duration` for `time.ParseDuration`, `none` for an error, with which the
-- last one returns the duration 0.
use kkite.Prelude.{ℕ, String, Option, none, some, Bool, ◌==◌, List, if◌then◌else◌}
use kkite.Config.{ℤ}

abbrev pub Env : Type 0
Env = String → String

abbrev or_default {ℓ} : {A : Type ℓ} → Option A → A → A
or_default none default_value = default_value
or_default (some a) default_value = a

unfoldable pub get_env_int_or_default : (String → Option ℤ) → Env → String → ℤ → ℤ
get_env_int_or_default parse_int env key default_value =
    if env key == "" then default_value else or_default (parse_int (env key)) default_value

unfoldable pub get_env_bool_or_default : (String → Option Bool) → Env → String → Bool → Bool
get_env_bool_or_default parse_bool env key default_value =
    if env key == "" then default_value else or_default (parse_bool (env key)) default_value

abbrev with_error : Option ℕ → ℕ → ℕ
with_error none default_value = 0
with_error (some d) default_value = default_value

-- The test is `err != nil`.
unfoldable pub get_env_duration_or_default : (String → Option ℕ) → Env → String → ℕ → ℕ
get_env_duration_or_default parse_duration env key default_value =
    if env key == "" then default_value else with_error (parse_duration (env key)) default_value

-- `split` is `strings.Split` at commas.
unfoldable pub get_env_slice_or_default :
    (String → List String) → Env → String → List String → List String
get_env_slice_or_default split env key default_value =
    if env key == "" then default_value else split (env key)
