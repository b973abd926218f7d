-- ===== src/Middleware/Admitted.antt =====
-- Which requests `CheckNamespacessAccess` of packages/backend/internal/middleware/auth.go lets go on.
use kkite.Prelude.{
  String, ◌==◌, ◌≡◌, refl, ◌⊎◌, inl, inr, Option, none, some, Bool, true, false, if◌then◌else◌,
}
use kkite.Store.{Result, ok, err, relabel}
use kkite.Handlers.Replies.{error}
use kkite.Middleware.Context.{UserInfo, Any, Keys, Request, Cluster, Outcome, next, abort}
use kkite.Middleware.Impersonation.{as_default_info, review_of}
use kkite.Middleware.Access.{
  namespace_of, get_pods, must_allow, check_pod_access, check_user_pod_access, allow, check_cast,
  check_user, check_client, check_namespacess_access,
}

-- The review answers that the access is allowed.
abbrev pub IsAllowed : Result Bool → Type 0
IsAllowed (ok true) = Unit
IsAllowed (ok false) = ⊥
IsAllowed (err e) = ⊥

abbrev pub forbidden : Outcome
forbidden = abort (error 403 "Access denied to this namespace")

abbrev ByVerdict : Result Bool → Keys → Outcome → Type 0
ByVerdict r keys outcome =
    (IsAllowed r × (outcome ≡ next keys)) ⊎ ((IsAllowed r → ⊥) × (outcome ≡ forbidden))

verdict :
    (denied prefix : String) (r : Result Bool) (keys : Keys)
    → ByVerdict r keys (allow keys (must_allow denied (relabel prefix r)))
verdict denied prefix (ok true) keys = inl (tt, refl)
verdict denied prefix (ok false) keys = inr ((λ none_of. none_of), refl)
verdict denied prefix (err e) keys = inr ((λ none_of. none_of), refl)

-- The access to a namespace, with a client, for what the context has as the user.
abbrev pub ClusterAnswer : Cluster → String → Keys → Outcome → Type 0
ClusterAnswer cluster namespace keys outcome =
    ((keys "user" ≡ none)
      × ByVerdict (cluster.create_self_subject_access_review (get_pods namespace)) keys outcome)
    ⊎ ((v : Any) × (keys "user" ≡ some v)
        × (((as_default_info v ≡ none)
              × (outcome ≡ abort (error 500 "Unexpected user type in context")))
            ⊎ ((u : UserInfo) × (as_default_info v ≡ some u)
                × ByVerdict
                    (cluster.create_subject_access_review (review_of u (get_pods namespace))) keys
                    outcome)))

abbrev pub AccessAnswer : Option Cluster → Request → Keys → Outcome → Type 0
AccessAnswer client request keys outcome =
    (((namespace_of request keys == "") ≡ true) × (outcome ≡ abort (error 400 "Missing namespace")))
    ⊎ (((namespace_of request keys == "") ≡ false)
        × (((client ≡ none) × (outcome ≡ next keys))
            ⊎ ((cluster : Cluster) × (client ≡ some cluster)
                × ClusterAnswer cluster (namespace_of request keys) keys outcome)))

module _ (cluster : Cluster) (namespace : String) (keys : Keys) where
  cast_answer :
      (v : Any)
      → keys "user" ≡ some v
      → (o : Option UserInfo) → as_default_info v ≡ o
      → ClusterAnswer cluster namespace keys (check_cast (some cluster) namespace keys o)
  unfolding check_user_pod_access
  cast_answer v found none cast = inr (v, found, inl (cast, refl))
  cast_answer v found (some u) cast = inr (v, found, inr (u, cast, verdict _ _ _ keys))

  user_answer :
      (o : Option Any)
      → keys "user" ≡ o
      → ClusterAnswer cluster namespace keys (check_user (some cluster) namespace keys o)
  unfolding check_pod_access
  user_answer none missing = inl (missing, verdict _ _ _ keys)
  user_answer (some v) found = cast_answer v found (as_default_info v) refl

module _ (request : Request) (keys : Keys) where
  given_answer :
      (client : Option Cluster)
      → (empty : Bool) → (namespace_of request keys == "") ≡ empty
      → AccessAnswer client request keys (
          if empty
          then abort (error 400 "Missing namespace")
          else check_client client (namespace_of request keys) keys)
  given_answer client true missing = inl (missing, refl)
  given_answer none false given = inr (given, inl (refl, refl))
  given_answer (some cluster) false given = inr (
    given,
    inr (cluster, refl, user_answer cluster (namespace_of request keys) keys (keys "user") refl),
  )

pub check_namespacess_access-AccessAnswer :
    (client : Option Cluster) (request : Request) (keys : Keys)
    → AccessAnswer client request keys (check_namespacess_access client request keys)
unfolding check_namespacess_access
check_namespacess_access-AccessAnswer client request keys = given_answer request keys client _ refl
