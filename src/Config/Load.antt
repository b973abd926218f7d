-- ===== src/Config/Load.antt =====
-- `LoadConfig` of packages/backend/internal/config/config.go.
use kkite.Prelude.{ℕ, ◌*◌, String, Option, none, some, Bool, true, List, [], ◌∷◌, ◌<>◌}
use kkite.Store.{Result, ok, err}
use kkite.Handlers.Webhooks.{get_env_or_default}
use kkite.Config.{ℤ, pos, negsuc, Config, validate}
use kkite.Config.Environment.{
  Env, get_env_int_or_default, get_env_bool_or_default, get_env_duration_or_default,
  get_env_slice_or_default,
}

abbrev pub seconds : ℕ → ℕ
seconds n = n * 1000000000

-- A negative port is refused as one that does not parse.
abbrev pub not_negative : Option ℤ → Option ℕ
not_negative none = none
not_negative (some (pos n)) = some n
not_negative (some (negsuc n)) = none

-- The parsers of the standard library.
pub record Parsers : Type 0 where
  pub parse_int : String → Option ℤ
  pub parse_bool : String → Option Bool
  pub parse_duration : String → Option ℕ
  pub split : String → List String

module _ (p : Parsers) (env : Env) where
  unfoldable pub read_config : Config
  read_config = record {
    server = record {
      host = get_env_or_default env "KITE_HOST" "0.0.0.0";
      port = get_env_or_default env "KITE_PORT" "8080";
      read_timeout =
          get_env_duration_or_default p.parse_duration env "KITE_READ_TIMEOUT" (seconds 30);
      write_timeout =
          get_env_duration_or_default p.parse_duration env "KITE_WRITE_TIMEOUT" (seconds 30);
      idle_timeout =
          get_env_duration_or_default p.parse_duration env "KITE_IDLE_TIMEOUT" (seconds 60);
      shutdown_timeout =
          get_env_duration_or_default p.parse_duration env "KITE_SHUTDOWN_TIMEOUT" (seconds 10);
      environment = get_env_or_default env "KITE_PROJECT_ENV" "production";
    };
    database = record {
      host = get_env_or_default env "KITE_DB_HOST" "localhost";
      port = get_env_or_default env "KITE_DB_PORT" "5432";
      user = get_env_or_default env "KITE_DB_USER" "kite";
      password = get_env_or_default env "KITE_DB_PASSWORD" "postgres";
      name = get_env_or_default env "KITE_DB_NAME" "issuesdb";
      ssl_mode = get_env_or_default env "KITE_DB_SSL_MODE" "disable";
    };
    logging = record {
      level = get_env_or_default env "KITE_LOG_LEVEL" "info";
      format = get_env_or_default env "KITE_LOG_FORMAT" "json";
    };
    security = record {
      enable_cors = get_env_bool_or_default p.parse_bool env "KITE_ENABLE_CORS" true;
      allowed_origins = get_env_slice_or_default p.split env "KITE_ALLOWED_ORIGINS" ("*" ∷ []);
      rate_limit_rps = get_env_int_or_default p.parse_int env "KITE_RATE_LIMIT_RPS" (pos 100);
    };
    features = record {
      enable_namespace_checking =
          get_env_bool_or_default p.parse_bool env "KITE_FEATURE_NAMESPACE_CHECKING" true;
      enable_webhooks = get_env_bool_or_default p.parse_bool env "KITE_FEATURE_WEBHOOKS" true;
    };
  }

  abbrev pub if_valid : Config → Option String → Result Config
  if_valid c none = ok c
  if_valid c (some e) = err ("configuration validation failed: " <> e)

  unfoldable pub load_config : Result Config
  load_config = if_valid read_config (validate (λ s. not_negative (p.parse_int s)) read_config)
