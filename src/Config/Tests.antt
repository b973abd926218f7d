-- ===== src/Config/Tests.antt =====
-- The configuration at concrete values.
use kkite.Prelude.{
  ◌↔◌, arith, suc, ◌+◌, ◌*◌, ◌≤◌, ltb, if◌then◌else◌, ℕ, String, ◌≡◌, refl, Option, none, some,
  true, [], ◌∷◌,
}
use kkite.Config.{Config, pos, is_production, validate}
use kkite.Config.Checked.{IsValidConfig, validate-IsValidConfig}
use kkite.Config.Load.{Parsers, read_config}
use kkite.Config.Database.{
  Driver, attempt, connect_from, connect_with_retries, rounds, check_database_health,
}
use kkite.Config.Retries.{connect_with_retries_waits}
use kkite.Config.Unset.{setup_router_unset}
use kkite.Store.{Result, ok, err}
use kkite.Handlers.Health.{
  database_component, new_health_handler, HealthAnswer, new_health_handler-HealthAnswer,
}
use kkite.Middleware.Gates.{unguarded, setup_router}

-- Every text stands for the port 8080, and for no duration.
abbrev port_8080 : String → Option ℕ
port_8080 s = some 8080

abbrev defaults : Config
defaults = record {
  server = record {
    host = "0.0.0.0";
    port = "8080";
    read_timeout = 30;
    write_timeout = 30;
    idle_timeout = 60;
    shutdown_timeout = 10;
    environment = "production";
  };
  database = record {
    host = "localhost";
    port = "5432";
    user = "kite";
    password = "postgres";
    name = "issuesdb";
    ssl_mode = "disable";
  };
  logging = record { level = "info"; format = "json" };
  security = record { enable_cors = true; allowed_origins = "*" ∷ []; rate_limit_rps = pos 100 };
  features = record { enable_namespace_checking = true; enable_webhooks = true };
}

defaults_accepted : validate port_8080 defaults ≡ none
unfolding validate
defaults_accepted = refl

validate-IsValidConfig_example : IsValidConfig port_8080 defaults
validate-IsValidConfig_example = validate-IsValidConfig port_8080 defaults defaults_accepted

abbrev one_minute : String → Option ℕ
one_minute s = some 60

abbrev set_env : String → String
set_env key = "60s"

-- The state of a database: how often it was pinged, and the time.
pub record Pings : Type 0 where
  pub pinged : ℕ
  pub time : ℕ

abbrev ping_answer : ℕ → ℕ → Result (Unit {0})
ping_answer needed pinged = if ltb pinged needed then err "starting up" else ok tt

-- It answers pings after so many that it does not answer.
abbrev up_after : ℕ → Driver
up_after needed = record {
  World = Pings;
  Db = String;
  SqlDb = String;
  open_db = λ dsn w. (ok dsn, w);
  db = λ db w. (ok db, w);
  ping = λ sql_db w. (ping_answer needed w.pinged, record w { pinged = suc w.pinged });
  sleep = λ duration w. record w { time = w.time + duration };
  now = λ w. w.time;
  stats = λ sql_db w. record { open_connections = 1; idle = 1; max_open_connections = 100 };
  set_max_idle_conns = λ sql_db n w. w;
  set_max_open_conns = λ sql_db n w. w;
  set_conn_max_lifetime = λ sql_db n w. w;
}

abbrev started : Pings
started = record { pinged = 0; time = 0 }

third_round :
    connect_with_retries (up_after 2) "db" (pos 5) 10 started
    ≡ (ok "db", record { pinged = 3; time = 30 })
unfolding connect_with_retries connect_from attempt
third_round = refl

too_few_rounds :
    (connect_with_retries (up_after 2) "db" (pos 2) 10 started).0
    ≡ err "could not connect to database after 2 attempts: %!w(<nil>)"
unfolding connect_with_retries connect_from attempt
too_few_rounds = refl

never_back : (w : Pings) → w.time ≤ (attempt (up_after 2) "db" w).1.time
unfolding attempt
never_back w = ground arith

connect_with_retries_waits_example :
    2 * started.time + 10 * (rounds (pos 2) * suc (rounds (pos 2)))
    ≤ 2 * (connect_with_retries (up_after 2) "db" (pos 2) 10 started).1.time
connect_with_retries_waits_example =
    connect_with_retries_waits (up_after 2) "db" 10 (λ duration w. omega arith) never_back (pos 2)
      started "could not connect to database after 2 attempts: %!w(<nil>)" too_few_rounds

abbrev parsers : Parsers
parsers = record {
  parse_int = λ s. some (pos 8080);
  parse_bool = λ s. some true;
  parse_duration = one_minute;
  split = λ s. s ∷ [];
}

abbrev no_env : String → String
no_env key = ""

abbrev no_client : Option String
no_client = none

setup_router_unset_example :
    ((is_production (read_config parsers no_env) ≡ true)
      × (setup_router no_env no_client ≡ unguarded))
    ↔ (no_env "KITE_PROJECT_ENV" ≡ "")
setup_router_unset_example = setup_router_unset parsers no_env no_client

answers_503 : (new_health_handler (up_after 1) no_env "db" started).0.0 ≡ 503
unfolding new_health_handler database_component check_database_health
answers_503 = refl

new_health_handler-HealthAnswer_example :
    HealthAnswer (up_after 0) "db" started (new_health_handler (up_after 0) no_env "db" started).0
new_health_handler-HealthAnswer_example =
    new_health_handler-HealthAnswer (up_after 0) no_env "db" started
