-- ===== src/Handlers/Health.antt =====
-- The health endpoint, packages/backend/internal/handlers/http/health_handlers.go: the status and the body
-- that are answered. The body's map of components is a record, and a duration is in nanoseconds.
use kkite.Prelude.{
  ℕ, ◌-◌, String, ◌==◌, ◌<>◌, ◌≡◌, refl, ap, subst, ◌⊎◌, inl, inr, Option, none, some,
  if◌then◌else◌,
}
use kkite.Store.{Result, ok, err}
use kkite.Config.Database.{
  Driver, DatabaseHealthDetails, after_ping, after_db, check_database_health,
}
use kkite.Handlers.Webhooks.{get_env_or_default}

pub data Details : Type 0 where
  database_details : Option DatabaseHealthDetails → Details
  failure_details : ℕ → String → Details
  version : String → Details
  duration : ℕ → Details

pub record ComponentHealth : Type 0 where
  pub status : String
  pub message : String
  pub details : Details

pub record HealthStatus : Type 0 where
  pub status : String
  pub message : String
  pub timestamp : ℕ
  pub database : ComponentHealth
  pub api : ComponentHealth
  pub response_time : ComponentHealth

abbrev component_health : ℕ → Option DatabaseHealthDetails × Option String → ComponentHealth
component_health taken (db_health, none) = record {
  status = "UP";
  message = "Database connection successful";
  details = database_details db_health;
}
component_health taken (db_health, some e) = record {
  status = "DOWN";
  message = e;
  details = failure_details taken ("Database ping failed: " <> e);
}

unfoldable pub check_api_health : (String → String) → ComponentHealth
check_api_health env = record {
  status = "UP";
  message = "API server is responding";
  details = version (get_env_or_default env "KITE_VERSION" "0.0.1");
}

module _ (d : Driver) where
  -- `checkDatabaseHealth`
  unfoldable pub database_component : d.Db → d.World → ComponentHealth × d.World
  database_component db w =
      let (found, w₁) = check_database_health d db w in
      (component_health (d.now w₁ - d.now w) found, w₁)

  abbrev health_of : (String → String) → ℕ → ℕ → ComponentHealth → ℕ × HealthStatus
  health_of env start end db_health = (
    if db_health.status == "UP" then 200 else 503,
    record {
      status = if db_health.status == "UP" then "UP" else "DOWN";
      message =
          if db_health.status == "UP"
          then "All systems operational"
          else "One or more components are unhealthy";
      timestamp = start;
      database = db_health;
      api = check_api_health env;
      response_time = record {
        status = "UP";
        message = "Response time measurement";
        details = duration (end - start);
      };
    },
  )

  unfoldable pub new_health_handler :
      (String → String) → d.Db → d.World → (ℕ × HealthStatus) × d.World
  new_health_handler env db w =
      let (db_health, w₁) = database_component db w in
      (health_of env (d.now w) (d.now w₁) db_health, w₁)

  -- The database answers a ping.
  abbrev pub Answers : d.Db → d.World → Type 0
  Answers db w =
      (sql_db : d.SqlDb) × ((d.db db w).0 ≡ ok sql_db) × ((d.ping sql_db (d.db db w).1).0 ≡ ok tt)

  abbrev pub Silent : d.Db → d.World → String → Type 0
  Silent db w message =
      ((e : String) × ((d.db db w).0 ≡ err e)
        × (message ≡ "failed to retrieve underlying database: " <> e))
      ⊎ ((sql_db : d.SqlDb) × ((d.db db w).0 ≡ ok sql_db)
          × (e : String) × ((d.ping sql_db (d.db db w).1).0 ≡ err e)
          × (message ≡ "database ping failed: " <> e))

  abbrev pub HealthAnswer : d.Db → d.World → ℕ × HealthStatus → Type 0
  HealthAnswer db w (code, health) =
      (Answers db w × (code ≡ 200) × (health.status ≡ "UP") × (health.database.status ≡ "UP"))
      ⊎ (Silent db w health.database.message
          × (code ≡ 503)
          × (health.status ≡ "DOWN")
          × (health.database.status ≡ "DOWN"))

  module _ (env : String → String) (db : d.Db) (w : d.World) where
    abbrev answered : (Option DatabaseHealthDetails × Option String) × d.World → ℕ × HealthStatus
    answered (found, w₁) =
        health_of env (d.now w) (d.now w₁) (component_health (d.now w₁ - d.now w) found)

    ping_answer :
        (sql_db : d.SqlDb)
        → (d.db db w).0 ≡ ok sql_db
        → (r : Result (Unit {0})) (w' : d.World) → (d.ping sql_db (d.db db w).1).0 ≡ r
        → HealthAnswer db w (answered (after_ping d (d.now w) sql_db (r, w')))
    ping_answer sql_db got (ok tt) w' pinged = inl ((sql_db, got, pinged), refl, refl, refl)
    ping_answer sql_db got (err e) w' pinged =
        inr (inr (sql_db, got, e, pinged, refl), refl, refl, refl)

    db_answer :
        (r : Result d.SqlDb) (w' : d.World)
        → d.db db w ≡ (r, w')
        → HealthAnswer db w (answered (after_db d (d.now w) (r, w')))
    db_answer (ok sql_db) w' got =
        subst (λ v. HealthAnswer db w (answered (after_ping d (d.now w) sql_db (d.ping sql_db v))))
          (ap (λ p. p.1) got)
          (ping_answer sql_db (ap (λ p. p.0) got) (d.ping sql_db (d.db db w).1).0
            (d.ping sql_db (d.db db w).1).1 refl)
    db_answer (err e) w' got = inr (inl (e, ap (λ p. p.0) got, refl), refl, refl, refl)

    -- The health endpoint answers 200 and UP when the database answers a ping, and otherwise 503 and DOWN,
    -- with the error as the message of the database.
    pub new_health_handler-HealthAnswer : HealthAnswer db w (new_health_handler env db w).0
    unfolding new_health_handler database_component check_database_health
    new_health_handler-HealthAnswer = db_answer (d.db db w).0 (d.db db w).1 refl
