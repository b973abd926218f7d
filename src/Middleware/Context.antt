-- ===== src/Middleware/Context.antt =====
-- What the middleware of packages/backend/internal/middleware/auth.go shares: the values of gin's
-- context, the request, and the answers of the Kubernetes client. A client is not part of the code:
-- its calls are the fields of `Cluster`, as they answer during one request.
use kkite.Prelude.{String, ◌==◌, Bool, Option, List, [], ◌∷◌, if◌then◌else◌}
use kkite.Store.{Result}
use kkite.Handlers.Replies.{Reply}

-- `user.DefaultInfo` of Kubernetes.
pub record UserInfo : Type 0 where
  pub name : String
  pub uid : String
  pub groups : List String
  pub extra : List (String × List String)

-- The dynamic types of the values that the code puts into the context or casts from it. A map of Go
-- answers nil for a key that it does not have.
pub data Any : Type 0 where
  bool : Bool → Any
  default_info : UserInfo → Any
  words : String → Any
  nil : Any
  fields : (String → Any) → Any

-- `c.Get` reads this map, and `c.Set` puts into it.
abbrev pub Keys : Type 0
Keys = String → Option Any

abbrev pub Headers : Type 0
Headers = List (String × List String)

-- `Header.Values`, for a name in the canonical form that the keys of a header have.
abbrev pub values : Headers → String → List String
values [] name = []
values ((key, vs) ∷ rest) name = if key == name then vs else values rest name

abbrev first_value : List String → String
first_value [] = ""
first_value (v ∷ vs) = v

-- `Header.Get`
abbrev pub header : Headers → String → String
header headers name = first_value (values headers name)

pub record Request : Type 0 where
  pub method : String
  pub headers : Headers
  pub param : String → String
  pub query : String → String

-- `UserInfo` of the authentication API.
pub record AuthnUserInfo : Type 0 where
  pub username : String
  pub uid : String
  pub groups : List String
  pub extra : List (String × List String)

pub record TokenReviewStatus : Type 0 where
  pub authenticated : Bool
  pub user : AuthnUserInfo

pub record ResourceAttributes : Type 0 where
  pub group : String
  pub name : String
  pub namespace : String
  pub resource : String
  pub subresource : String
  pub verb : String

pub record SubjectAccessReviewSpec : Type 0 where
  pub user : String
  pub uid : String
  pub groups : List String
  pub resource_attributes : ResourceAttributes

-- A review that is created answers with its status: whether the access is allowed.
pub record Cluster : Type 0 where
  pub create_token_review : String → Result TokenReviewStatus
  pub create_subject_access_review : SubjectAccessReviewSpec → Result Bool
  pub create_self_subject_access_review : ResourceAttributes → Result Bool

-- A handler of the chain lets the next one run, with what is then in the context, or aborts.
pub data Outcome : Type 0 where
  next : Keys → Outcome
  abort : Reply → Outcome

abbrev pub and_then : Outcome → (Keys → Outcome) → Outcome
and_then (next keys) f = f keys
and_then (abort r) f = abort r
