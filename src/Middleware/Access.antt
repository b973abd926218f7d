-- ===== src/Middleware/Access.antt =====
-- `CheckNamespacessAccess` of packages/backend/internal/middleware/auth.go, and the two checks that it
-- calls. The errors of those are only logged.
use kkite.Prelude.{String, ◌==◌, ◌||◌, ◌<>◌, Bool, true, false, Option, none, some, if◌then◌else◌}
use kkite.Store.{Result, ok, err, relabel}
use kkite.Handlers.Replies.{error}
use kkite.Middleware.Context.{
  UserInfo, Any, bool, default_info, words, nil, fields, Keys, Request, ResourceAttributes, Cluster,
  Outcome, next, abort,
}
use kkite.Middleware.Impersonation.{as_default_info, review_of}

-- `body.(map[string]interface{})`, and in it `namespace` as a string; "" where a cast fails.
abbrev words_or_empty : Any → String
words_or_empty (words s) = s
words_or_empty (bool b) = ""
words_or_empty (default_info u) = ""
words_or_empty nil = ""
words_or_empty (fields f) = ""

abbrev namespace_in : Option Any → String
namespace_in (some (fields f)) = words_or_empty (f "namespace")
namespace_in o = ""

abbrev namespace_of_body : Request → Keys → String
namespace_of_body request keys =
    if request.method == "POST" || request.method == "PUT"
    then namespace_in (keys "requestBody")
    else ""

abbrev or_else : String → String → String
or_else s t = if s == "" then t else s

-- The namespace of the route, of the query or of the body.
unfoldable pub namespace_of : Request → Keys → String
namespace_of request keys =
    or_else (request.param "namespace")
      (or_else (request.query "namespace") (namespace_of_body request keys))

abbrev pub get_pods : String → ResourceAttributes
get_pods namespace = record {
  group = "";
  name = "";
  namespace = namespace;
  resource = "pods";
  subresource = "";
  verb = "get";
}

abbrev pub must_allow : String → Result Bool → Result (Unit {0})
must_allow denied (err e) = err e
must_allow denied (ok false) = err denied
must_allow denied (ok true) = ok tt

unfoldable pub check_pod_access : Option Cluster → String → Result (Unit {0})
check_pod_access none namespace = ok tt
check_pod_access (some cluster) namespace =
    must_allow ("access denied for kite to namespace " <> namespace) (
      relabel "failed to check kite namespace access: "
        (cluster.create_self_subject_access_review (get_pods namespace)))

unfoldable pub check_user_pod_access : Option Cluster → String → UserInfo → Result (Unit {0})
check_user_pod_access none namespace requester = ok tt
check_user_pod_access (some cluster) namespace requester =
    must_allow ("access denied for " <> requester.name <> " to namespace " <> namespace) (
      relabel "failed to check user namespace access: "
        (cluster.create_subject_access_review (review_of requester (get_pods namespace))))

abbrev pub allow : Keys → Result (Unit {0}) → Outcome
allow keys (err e) = abort (error 403 "Access denied to this namespace")
allow keys (ok u) = next keys

abbrev pub check_cast : Option Cluster → String → Keys → Option UserInfo → Outcome
check_cast client namespace keys none = abort (error 500 "Unexpected user type in context")
check_cast client namespace keys (some requester) =
    allow keys (check_user_pod_access client namespace requester)

abbrev pub check_user : Option Cluster → String → Keys → Option Any → Outcome
check_user client namespace keys none = allow keys (check_pod_access client namespace)
check_user client namespace keys (some requester) =
    check_cast client namespace keys (as_default_info requester)

abbrev pub check_client : Option Cluster → String → Keys → Outcome
check_client none namespace keys = next keys
check_client (some cluster) namespace keys = check_user (some cluster) namespace keys (keys "user")

unfoldable pub check_namespacess_access : Option Cluster → Request → Keys → Outcome
check_namespacess_access client request keys =
    if namespace_of request keys == ""
    then abort (error 400 "Missing namespace")
    else check_client client (namespace_of request keys) keys
