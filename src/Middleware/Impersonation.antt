-- ===== src/Middleware/Impersonation.antt =====
-- `Impersonation` of packages/backend/internal/middleware/auth.go.
use kkite.Prelude.{
  String, ◌==◌, Bool, false, ◌||◌, not, Option, none, some, List, [], ◌∷◌, if◌then◌else◌,
}
use kkite.Store.{Result, ok, err, put}
use kkite.Handlers.Replies.{reply, panic, object, error, empty_object}
use kkite.Middleware.Context.{
  UserInfo, Any, bool, default_info, words, nil, fields, Keys, Request, ResourceAttributes,
  SubjectAccessReviewSpec, Cluster, Outcome, next, abort, and_then,
}
use kkite.Middleware.ImpersonatedData.{
  Kubernetes, ImpersonatedData, Impersonated, header_required, no_impersonation_data, impersonated,
  new_impersonated_data,
}

abbrev pub as_default_info : Any → Option UserInfo
as_default_info (default_info u) = some u
as_default_info (bool b) = none
as_default_info (words s) = none
as_default_info nil = none
as_default_info (fields f) = none

-- `user_type == "publisher"`, for the value that `c.Get` answers with.
abbrev pub is_publisher : Option Any → Bool
is_publisher (some (words s)) = s == "publisher"
is_publisher o = false

abbrev pub review_of : UserInfo → ResourceAttributes → SubjectAccessReviewSpec
review_of requester attributes = record {
  user = requester.name;
  uid = requester.uid;
  groups = requester.groups;
  resource_attributes = attributes;
}

-- The loop over the attributes: the reviews are created one by one, up to the first error.
abbrev pub after_review : Result Bool → Outcome → Outcome
after_review (err e) rest = abort (error 401 "User don't have permission to impersonate")
after_review (ok allowed) rest = rest

unfoldable pub review_all : Option Cluster → UserInfo → List ResourceAttributes → Keys → Outcome
review_all client requester [] keys = next keys
review_all none requester (a ∷ rest) keys = abort panic
review_all (some cluster) requester (a ∷ rest) keys =
    after_review (cluster.create_subject_access_review (review_of requester a))
      (review_all (some cluster) requester rest keys)

abbrev pub impersonate_as : Option Cluster → ImpersonatedData → Keys → Option UserInfo → Outcome
impersonate_as client imp keys none = abort (error 500 "Unexpected user type in context")
impersonate_as client imp keys (some requester) =
    and_then (review_all client requester imp.resource_attributes keys)
      (λ after. next (put "user" (default_info imp.user_info) after))

abbrev pub with_requester : Option Cluster → ImpersonatedData → Keys → Option Any → Outcome
with_requester client imp keys none = abort (error 500 "User not found in context")
with_requester client imp keys (some requester) =
    impersonate_as client imp keys (as_default_info requester)

abbrev pub with_data : Option Cluster → Keys → Impersonated → Outcome
with_data client keys (header_required message) =
    abort (reply 400 (object (("error", empty_object) ∷ [])))
with_data client keys no_impersonation_data = next keys
with_data client keys (impersonated imp) = with_requester client imp keys (keys "user")

unfoldable pub impersonation :
    Kubernetes
    → (String → Result String)
    → (String → String)
    → Option Cluster
    → Request
    → Keys
    → Outcome
impersonation k path_unescape env client request keys =
    if not (env "AUTH_IMPERSONATE" == "true") || is_publisher (keys "type")
    then next keys
    else with_data client keys (new_impersonated_data k path_unescape request.headers)
