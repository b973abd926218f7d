-- ===== src/Config.antt =====
-- The configuration of the backend, packages/backend/internal/config/config.go, and `Validate`.
-- `parse_port` stands for `strconv.Atoi`, `none` for an error or a negative number, both of which are
-- refused.
pub mod Environment
pub mod Load
pub mod Database
pub mod Retries
pub mod Unset
pub mod Checked
pub mod Tests
use kkite.Prelude.{
  ℕ, String, Option, none, some, Bool, true, not, ◌||◌, ◌==◌, ◌<>◌, List, [], ◌∷◌, contains,
  if◌then◌else◌, ltb,
}
use kkite.Handlers.Replies.{join}

pub data ℤ : Type 0 where
  pos : ℕ → ℤ
  negsuc : ℕ → ℤ

-- Durations are in nanoseconds.
pub record ServerConfig : Type 0 where
  pub host : String
  pub port : String
  pub read_timeout : ℕ
  pub write_timeout : ℕ
  pub idle_timeout : ℕ
  pub shutdown_timeout : ℕ
  pub environment : String

pub record DatabaseConfig : Type 0 where
  pub host : String
  pub port : String
  pub user : String
  pub password : String
  pub name : String
  pub ssl_mode : String

pub record LoggingConfig : Type 0 where
  pub level : String
  pub format : String

pub record SecurityConfig : Type 0 where
  pub enable_cors : Bool
  pub allowed_origins : List String
  pub rate_limit_rps : ℤ

pub record FeatureFlags : Type 0 where
  pub enable_namespace_checking : Bool
  pub enable_webhooks : Bool

pub record Config : Type 0 where
  pub server : ServerConfig
  pub database : DatabaseConfig
  pub logging : LoggingConfig
  pub security : SecurityConfig
  pub features : FeatureFlags

-- `if failed { return an error }`, before the rest.
abbrev pub check : Bool → String → Option String → Option String
check failed message rest = if failed then some message else rest

abbrev pub is_bad_port : Option ℕ → Bool
is_bad_port none = true
is_bad_port (some n) = ltb n 1 || ltb 65535 n

abbrev pub valid_environments : List String
valid_environments = "development" ∷ "staging" ∷ "production" ∷ "test" ∷ []

abbrev pub valid_log_levels : List String
valid_log_levels = "debug" ∷ "info" ∷ "warn" ∷ "error" ∷ "fatal" ∷ "panic" ∷ []

abbrev pub valid_log_formats : List String
valid_log_formats = "json" ∷ "text" ∷ []

abbrev one_of : String → String → List String → String
one_of what value values = what <> value <> " (must be one of: " <> join ", " values <> ")"

-- `none` for no error.
unfoldable pub validate : (String → Option ℕ) → Config → Option String
validate parse_port c = check (c.server.port == "") "server port is required" (
    check (is_bad_port (parse_port c.server.port)) ("invalid server port: " <> c.server.port) (
      check (not (contains valid_environments c.server.environment))
        (one_of "invalid project environment: " c.server.environment valid_environments)
        (check (c.database.host == "") "database host is required" (
          check (c.database.user == "") "database user is required" (
            check (c.database.name == "") "database name is requried" (
              check (not (contains valid_log_levels c.logging.level))
                (one_of "invalid log level: " c.logging.level valid_log_levels)
                (check (not (contains valid_log_formats c.logging.format))
                  (one_of "invalid log level: " c.logging.format valid_log_formats) none)))))))

unfoldable pub is_development : Config → Bool
is_development c = c.server.environment == "development"

unfoldable pub is_production : Config → Bool
is_production c = c.server.environment == "production"

unfoldable pub get_server_address : Config → String
get_server_address c = c.server.host <> ":" <> c.server.port
