-- ===== src/Config/Database.antt =====
-- The connection to the database, packages/backend/internal/config/database.go. The calls of gorm and of
-- database/sql are the fields of `Driver`; the pings end after five seconds, with an error. A duration is
-- in nanoseconds; that the product of `delay` and the number of the attempt is less than 2 ^ 63 is assumed.
use kkite.Prelude.{ℕ, zero, suc, ◌-◌, ◌*◌, String, ◌<>◌, Option, none, some}
use kkite.Store.{Result, ok, err, Action, pure, wrap, ◌>>=◌, ◌>>◌}
use kkite.Handlers.Replies.{decimal}
use kkite.Handlers.Webhooks.{get_env_or_default}
use kkite.Config.{ℤ, pos, negsuc, DatabaseConfig}
use kkite.Config.Environment.{Env, get_env_int_or_default, get_env_duration_or_default}
use kkite.Config.Load.{Parsers, seconds}

pub record Stats : Type 0 where
  pub open_connections : ℕ
  pub idle : ℕ
  pub max_open_connections : ℕ

pub record Driver : Type 1 where
  pub World : Type 0
  pub Db : Type 0
  pub SqlDb : Type 0
  pub open_db : String → Action World Db
  pub db : Db → Action World SqlDb
  pub ping : SqlDb → Action World (Unit {0})
  pub sleep : ℕ → World → World
  pub now : World → ℕ
  pub stats : SqlDb → World → Stats
  pub set_max_idle_conns : SqlDb → ℤ → World → World
  pub set_max_open_conns : SqlDb → ℤ → World → World
  pub set_conn_max_lifetime : SqlDb → ℕ → World → World

unfoldable pub get_database_config : Env → DatabaseConfig
get_database_config env = record {
  host = get_env_or_default env "KITE_DB_HOST" "localhost";
  port = get_env_or_default env "KITE_DB_PORT" "5432";
  user = get_env_or_default env "KITE_DB_USER" "postgres";
  password = get_env_or_default env "KITE_DB_PASSWORD" "postgres";
  name = get_env_or_default env "KITE_DB_NAME" "issuesdb";
  ssl_mode = get_env_or_default env "KITE_DB_SSL_MODE" "disable";
}

unfoldable pub connection_string : DatabaseConfig → String
connection_string c =
    "host=" <> c.host <> " user=" <> c.user <> " password=" <> c.password <> " dbname=" <> c.name
    <> " port=" <> c.port <> " sslmode=" <> c.ssl_mode <> " TimeZone=UTC"

-- How often `for i := 0; i < maxRetries; i++` runs.
abbrev pub rounds : ℤ → ℕ
rounds (pos n) = n
rounds (negsuc n) = zero

-- `%d`
abbrev pub signed : ℤ → String
signed (pos n) = decimal n
signed (negsuc n) = "-" <> decimal (suc n)

-- The `err` of the message is the one outside of the loop, which is still nil.
abbrev pub not_connected : ℤ → String
not_connected max_retries =
    "could not connect to database after " <> signed max_retries <> " attempts: %!w(<nil>)"

module _ (d : Driver) where
  -- One round: `Open`, `DB` and the ping.
  unfoldable pub attempt : String → Action d.World d.Db
  attempt dsn = do db ← d.open_db dsn; sql_db ← d.db db; d.ping sql_db; pure db

  -- The loop from its `i`-th round on.
  unfoldable pub connect_from : String → ℕ → ℕ → ℕ → String → Action d.World d.Db
  connect_from dsn delay i zero failure w = (err failure, w)
  connect_from dsn delay i (suc n) failure w =
      let (r, w₁) = attempt dsn w in
      let later = connect_from dsn delay (suc i) n failure (d.sleep (delay * suc i) w₁) in
      elim r [ ok db ↦ (ok db, w₁) | err e ↦ later ]

  unfoldable pub connect_with_retries : String → ℤ → ℕ → Action d.World d.Db
  connect_with_retries dsn max_retries delay =
      connect_from dsn delay 0 (rounds max_retries) (not_connected max_retries)

  unfoldable pub configure : Parsers → Env → d.SqlDb → d.World → d.World
  configure p env sql_db w =
      d.set_conn_max_lifetime sql_db
        (get_env_duration_or_default p.parse_duration env "KITE_DB_CONN_MAX_LIFETIME"
          (seconds 3600))
        (d.set_max_open_conns sql_db
          (get_env_int_or_default p.parse_int env "KITE_DB_MAX_OPEN_CONNS" (pos 100))
          (d.set_max_idle_conns sql_db
            (get_env_int_or_default p.parse_int env "KITE_DB_MAX_IDLE_CONNS" (pos 10)) w))

  unfoldable pub init_database : Parsers → Env → Action d.World d.Db
  init_database p env = do
    db ←
        connect_with_retries (connection_string (get_database_config env))
          (get_env_int_or_default p.parse_int env "KITE_DB_MAX_RETRIES" (pos 10))
          (get_env_duration_or_default p.parse_duration env "KITE_DB_RETRY_DELAY" (seconds 5))
    sql_db ← wrap "failed to get underlying sql.DB: " (d.db db)
    λ w. (ok db, configure p env sql_db w)

pub record DatabaseHealthDetails : Type 0 where
  pub connection_status : String
  pub response_time : ℕ
  pub open_connections : ℕ
  pub idle_connections : ℕ
  pub max_open_conns : ℕ

abbrev unhealthy : DatabaseHealthDetails
unhealthy = record {
  connection_status = "Unhealthy";
  response_time = 0;
  open_connections = 0;
  idle_connections = 0;
  max_open_conns = 0;
}

module _ (d : Driver) where
  abbrev details : ℕ → d.SqlDb → d.World → DatabaseHealthDetails
  details start sql_db w = record {
    connection_status = "Healthy";
    response_time = d.now w - start;
    open_connections = (d.stats sql_db w).open_connections;
    idle_connections = (d.stats sql_db w).idle;
    max_open_conns = (d.stats sql_db w).max_open_connections;
  }

  -- The details, or nil, and the error, or nil.
  abbrev pub after_ping :
      ℕ
      → d.SqlDb
      → Result (Unit {0}) × d.World
      → (Option DatabaseHealthDetails × Option String) × d.World
  after_ping start sql_db (ok u, w) = ((some (details start sql_db w), none), w)
  after_ping start sql_db (err e, w) = ((some unhealthy, some ("database ping failed: " <> e)), w)

  abbrev pub after_db :
      ℕ → Result d.SqlDb × d.World → (Option DatabaseHealthDetails × Option String) × d.World
  after_db start (ok sql_db, w) = after_ping start sql_db (d.ping sql_db w)
  after_db start (err e, w) = ((none, some ("failed to retrieve underlying database: " <> e)), w)

  unfoldable pub check_database_health :
      d.Db → d.World → (Option DatabaseHealthDetails × Option String) × d.World
  check_database_health db w = after_db (d.now w) (d.db db w)
