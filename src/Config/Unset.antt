-- ===== src/Config/Unset.antt =====
-- What packages/backend/internal/config/config.go and packages/backend/internal/handlers/http/router.go make
-- of an environment without KITE_PROJECT_ENV.
use kkite.Prelude.{
  String, ◌==◌, ◌≡◌, ◌≢◌, ◌↔◌, Option, none, some, true, inl, inr, if◌then◌else◌, is_some, ap, sym,
  ◌∙◌, String-cases, eq_iff, eq_false, arith,
}
use kkite.Config.{is_production}
use kkite.Config.Environment.{Env}
use kkite.Handlers.Webhooks.{get_env_or_default}
use kkite.Config.Load.{Parsers, read_config}
use kkite.Middleware.Gates.{Setup, unguarded, guarded_routes, setup_panics, setup_router}

given_environment :
    (env : Env) (default : String)
    → env "KITE_PROJECT_ENV" ≢ ""
    → get_env_or_default env "KITE_PROJECT_ENV" default ≡ env "KITE_PROJECT_ENV"
given_environment env default set = rw (eq_false (env "KITE_PROJECT_ENV") "" set)

closed :
    {K : Type 0} (client : Option K)
    → (if is_some client then guarded_routes else setup_panics) ≢ unguarded
closed none e = ground arith
closed (some c) e = ground arith

other_environment :
    {K : Type 0} (p : Parsers) (env : Env) (client : Option K)
    → env "KITE_PROJECT_ENV" ≢ ""
    → is_production (read_config p env) ≡ true
    → setup_router env client ≢ unguarded
unfolding is_production read_config setup_router
other_environment p env client set production open_routes =
    let name : env "KITE_PROJECT_ENV" ≡ "production" =
      (eq_iff (env "KITE_PROJECT_ENV") "production").0
        (ap (λ s. s == "production") (sym (given_environment env "production" set)) ∙ production) in
    let left : Setup = if is_some client then guarded_routes else setup_panics in
    closed client (
      ap (λ s. if s == "development" then unguarded else left)
        (sym (given_environment env "development" set ∙ name))
      ∙ open_routes)

-- The configuration is that of production, and the routes have no guard, at the same time just where KITE_PROJECT_ENV
-- is not set.
pub setup_router_unset :
    {K : Type 0} (p : Parsers) (env : Env) (client : Option K)
    → ((is_production (read_config p env) ≡ true) × (setup_router env client ≡ unguarded))
      ↔ (env "KITE_PROJECT_ENV" ≡ "")
unfolding is_production read_config setup_router
setup_router_unset p env client = (
  λ (production, open_routes). elim (String-cases (env "KITE_PROJECT_ENV") "") [
    | inl unset ↦ unset
    | inr set ↦ absurd (other_environment p env client set production open_routes)
  ],
  λ unset. (rw (unset), rw (unset)),
)
