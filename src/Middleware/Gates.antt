-- ===== src/Middleware/Gates.antt =====
-- How packages/backend/internal/handlers/http/router.go sets up the middleware: `NewNamespaceChecker` of
-- packages/backend/internal/middleware/auth.go, and the chain in front of the routes of the issues and the
-- webhooks, with `ValidateID` of validation.go. A configuration of Kubernetes is a `C`, and a client a `K`.
use kkite.Prelude.{String, ◌==◌, Bool, Option, none, some, is_some, List, [], ◌∷◌, if◌then◌else◌, ℕ}
use kkite.Store.{Result, ok, err}
use kkite.Cache.{Cache}
use kkite.Handlers.Replies.{Handler, error}
use kkite.Handlers.Webhooks.{get_env_or_default}
use kkite.Middleware.Context.{Any, Keys, Request, Outcome, next, abort, and_then}
use kkite.Middleware.Authentication.{Call, authentication}
use kkite.Middleware.ImpersonatedData.{Kubernetes}
use kkite.Middleware.Impersonation.{impersonation}
use kkite.Middleware.Access.{check_namespacess_access}

-- Where `NewNamespaceChecker` looks for a configuration.
pub record ClientSources (C K : Type 0) : Type 0 where
  pub working_directory : Result String
  pub join : List String → String
  pub file_exists : String → Bool
  pub recommended_home_file : String
  pub in_cluster_config : Result C
  pub build_config_from_flags : String → Result C
  pub new_for_config : C → Result K

module _ {C K : Type 0} (s : ClientSources C K) where
  abbrev existing : String → String
  existing path = if s.file_exists path then path else ""

  abbrev kubeconfig_in : Result String → String
  kubeconfig_in (err e) = ""
  kubeconfig_in (ok directory) = existing (s.join (directory ∷ "configs" ∷ "kube-config.yaml" ∷ []))

  abbrev as_config : Result C → Option C
  as_config (ok c) = some c
  as_config (err e) = none

  abbrev file_config : String → Result C
  file_config path =
      s.build_config_from_flags (if path == "" then s.recommended_home_file else path)

  abbrev config_or_file : Result C → Option C
  config_or_file (ok c) = some c
  config_or_file (err e) = as_config (file_config (kubeconfig_in s.working_directory))

  abbrev as_client : Result K → Option K
  as_client (ok k) = some k
  as_client (err e) = none

  abbrev client_for : Option C → Option K
  client_for none = none
  client_for (some c) = as_client (s.new_for_config c)

  -- The client of the checker, or nil.
  unfoldable pub new_namespace_checker : Option K
  new_namespace_checker = client_for (config_or_file s.in_cluster_config)

-- What `SetupRouter` puts in front of the routes: nothing, or the chain. The set-up of the chain reads the
-- client, so that it panics when there is none.
pub data Setup : Type 0 where
  unguarded : Setup
  guarded_routes : Setup
  setup_panics : Setup

unfoldable pub setup_router : {K : Type 0} → (String → String) → Option K → Setup
setup_router env client =
    if get_env_or_default env "KITE_PROJECT_ENV" "development" == "development"
    then unguarded
    else if is_some client
    then guarded_routes
    else setup_panics

abbrev pub ten_seconds : ℕ
ten_seconds = 10000000000

module _ (k : Kubernetes) (path_unescape : String → Result String)
    (env hash : String → String) where
  unfoldable pub guard : Call → Cache Any → Outcome × Cache Any
  guard call items =
      let (authenticated, items') = authentication hash ten_seconds ten_seconds call items in
      (
        and_then
            (and_then authenticated
              (impersonation k path_unescape env (some call.cluster) call.request))
            (check_namespacess_access (some call.cluster) call.request),
        items',
      )

unfoldable pub validate_id : Request → Keys → Outcome
validate_id request keys =
    if request.param "id" == "" then abort (error 400 "Invalid ID parameter") else next keys

-- The handler at the end of a chain.
abbrev pub run : {W : Type 0} → Outcome → Handler W → Handler W
run (next keys) handler w = handler w
run (abort r) handler w = (r, w)
