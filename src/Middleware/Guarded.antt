-- ===== src/Middleware/Guarded.antt =====
-- What the chain of the middleware in front of the routes of packages/backend/internal/handlers/http/router.go
-- guarantees of a request that reaches its handler.
use kkite.Prelude.{String, ◌≡◌, ◌⊎◌, none, some, List}
use kkite.Store.{Result, ok, err}
use kkite.Cache.{Cache}
use kkite.Cache.Writes.{IsCollisionFree}
use kkite.Handlers.Replies.{Reply, Handler}
use kkite.Middleware.Context.{UserInfo, Any, default_info, Keys, Outcome}
use kkite.Middleware.Authentication.{Call, token_of}
use kkite.Middleware.Reviews.{Some, Confirms, after}
use kkite.Middleware.Confirmed.{IsFresh}
use kkite.Middleware.ImpersonatedData.{
  Kubernetes, ImpersonatedData, Impersonated, impersonated, new_impersonated_data,
}
use kkite.Middleware.Reviewed.{AllAnswered}
use kkite.Middleware.Gates.{ten_seconds, run}
use kkite.Middleware.Stages.{no_keys, ServiceMayRead, UserMayRead}

-- Who the request acts as: the user of its token, or the one that the headers name, when each of their
-- attributes was reviewed for that user.
abbrev ActsAs : Call → Impersonated → UserInfo → UserInfo → Type 0
ActsAs call given user effective =
    (effective ≡ user)
    ⊎ ((imp : ImpersonatedData) × (given ≡ impersonated imp)
        × AllAnswered call.cluster user imp.resource_attributes
        × (effective ≡ imp.user_info))

-- The token is the user's, by a review of this call or of an earlier one that has not expired.
abbrev IsTokenOf : List Call → Call → String → UserInfo → Type 0
IsTokenOf calls call token user =
    Confirms token user call
    ⊎ Some (λ c. Confirms token user c × IsFresh call.read_at ten_seconds c) calls

abbrev pub Admits : List Call → Call → Impersonated → Keys → Type 0
Admits calls call given end =
    ((message : String) × (token_of call ≡ err message)
      × ServiceMayRead call.cluster call.request no_keys)
    ⊎ ((token : String) × (token_of call ≡ ok token)
        × (user : UserInfo) × IsTokenOf calls call token user
        × (effective : UserInfo) × ActsAs call given user effective
        × UserMayRead call.cluster call.request effective no_keys
        × (end "user" ≡ some (default_info effective)))

module _ (k : Kubernetes) (path_unescape : String → Result String) (env hash : String → String)
    (free : IsCollisionFree hash) (calls : List Call) (call : Call)
    (fresh : (key : String) → call.keys key ≡ none) where
  abbrev given_data : Impersonated
  given_data = new_impersonated_data k path_unescape call.request.headers

  -- What a guarded request does: it reaches its handler as one that is admitted, or the handler does not
  -- run at all.
  abbrev pub GuardAnswer : {W : Type 0} → Handler W → W → Outcome → Type 0
  GuardAnswer handler w o =
      ((end : Keys) × (run o handler w ≡ handler w) × Admits calls call given_data end)
      ⊎ ((r : Reply) × (run o handler w ≡ (r, w)))

  past : Cache Any
  past = after hash ten_seconds ten_seconds calls
