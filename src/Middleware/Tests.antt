-- ===== src/Middleware/Tests.antt =====
-- The cache and the middleware at concrete requests, and the theorems about them there.
use kkite.Prelude.{
  ℕ, ◌+◌, ◌≤◌, String, ◌==◌, ◌<>◌, ◌≡◌, ◌↔◌, refl, none, some, List, [], ◌∷◌, Bool, true, false,
  if◌then◌else◌,
}
use kkite.Store.{Result, ok, err}
use kkite.Cache.{Cache, empty_cache, get, set}
use kkite.Cache.Writes as Writes
use kkite.Cache.Writes.{IsCollisionFree, Write, IsReadable, get-after, get-set}
use kkite.Handlers.Replies.{Reply, reply, no_body, error}
use kkite.Middleware.Context.{
  UserInfo, default_info, Headers, Request, TokenReviewStatus, Cluster, Outcome,
}
use kkite.Middleware.Token.{split, extract_bearer_token}
use kkite.Middleware.Splitting.{IsBearer, extract_bearer_token_iff}
use kkite.Middleware.Authentication.{Call, as_consumer, authentication}
use kkite.Middleware.Reviews.{after}
use kkite.Middleware.ImpersonatedData.{Kubernetes, attributes_of, new_impersonated_data}
use kkite.Middleware.ImpersonatedData.{user_info_of}
use kkite.Middleware.Covered.{IsCovered, attributes_of-IsCovered}
use kkite.Middleware.Impersonation.{review_all, impersonation}
use kkite.Middleware.Denied.{impersonation-FailAlike}
use kkite.Middleware.Access.{namespace_of, check_user_pod_access, check_namespacess_access}
use kkite.Middleware.Gates.{guard, ten_seconds, run}
use kkite.Middleware.Stages.{no_keys}

-- A text is its own hash.
abbrev same : String → String
same s = s

same-IsCollisionFree : IsCollisionFree same
same-IsCollisionFree s t e = e

abbrev k8s : Kubernetes
k8s = record {
  impersonate_user_header = "Impersonate-User";
  impersonate_group_header = "Impersonate-Group";
  impersonate_uid_header = "Impersonate-Uid";
  impersonate_user_extra_header_prefix = "Impersonate-Extra-";
  authentication_group = "authentication.k8s.io";
  anonymous = "system:anonymous";
  all_authenticated = "system:authenticated";
  all_unauthenticated = "system:unauthenticated";
  split_username = λ name. err "not a service account";
  make_group_names = λ namespace. ("system:serviceaccounts:" <> namespace) ∷ [];
}

abbrev ann : UserInfo
ann = record { name = "ann"; uid = "1"; groups = []; extra = [] }

abbrev status_for : String → TokenReviewStatus
status_for token = record {
  authenticated = token == "t1";
  user = record { username = "ann"; uid = "1"; groups = []; extra = [] };
}

-- It confirms one token, and answers every other review with the verdict.
abbrev cluster : Bool → Cluster
cluster verdict = record {
  create_token_review = λ token. ok (status_for token);
  create_subject_access_review = λ review. ok verdict;
  create_self_subject_access_review = λ attributes. ok verdict;
}

abbrev request : Headers → Request
request headers = record {
  method = "POST";
  headers = headers;
  param = λ name. "";
  query = λ name. if name == "namespace" then "team-a" else "";
}

abbrev with_token : Headers
with_token = ("Authorization", "Bearer t1" ∷ []) ∷ []

abbrev as_bob : Headers
as_bob =
    ("Authorization", "Bearer t1" ∷ [])
    ∷ ("Impersonate-User", "bob" ∷ [])
    ∷ ("Impersonate-Extra-scopes", "view" ∷ "edit" ∷ [])
    ∷ []

abbrev call : Bool → Headers → ℕ → Call
call verdict headers time = record {
  cluster = cluster verdict;
  request = request headers;
  keys = no_keys;
  read_at = time;
  written_at = time;
}

-- Impersonation is switched on.
abbrev env : String → String
env name = if name == "AUTH_IMPERSONATE" then "true" else ""

abbrev unescape : String → Result String
unescape s = ok s

bearer : extract_bearer_token "Bearer t1" ≡ ok "t1"
unfolding extract_bearer_token split
bearer = refl

any_scheme : extract_bearer_token "Basic t1" ≡ ok "t1"
unfolding extract_bearer_token split
any_scheme = refl

three_parts :
    extract_bearer_token "Bearer t1 t2"
    ≡ err
        "incorrectly formatted authorization header, expected two strings separated by a space but found 3"
unfolding extract_bearer_token split
three_parts = refl

-- The handler at the end answers 200.
abbrev ok_handler : ℕ → Reply × ℕ
ok_handler w = (reply 200 no_body, w)

abbrev answered : Outcome → Reply
answered o = (run o ok_handler 0).0

guarded_ann :
    answered (guard k8s unescape env same (call true with_token 0) empty_cache).0
    ≡ reply 200 no_body
unfolding guard authentication extract_bearer_token split get set impersonation
    new_impersonated_data check_namespacess_access namespace_of check_user_pod_access
guarded_ann = refl

-- The reviews deny everything, and so the impersonation succeeds and the access to the namespace fails.
guarded_bob :
    answered (guard k8s unescape env same (call false as_bob 0) empty_cache).0
    ≡ error 403 "Access denied to this namespace"
unfolding guard authentication extract_bearer_token split get set impersonation
    new_impersonated_data review_all check_namespacess_access namespace_of check_user_pod_access
guarded_bob = refl

abbrev writes : List (Write String)
writes =
    record { key = "a"; value = "x"; duration = 5; at = 8 }
    ∷ record { key = "b"; value = "y"; duration = 5; at = 4 }
    ∷ record { key = "a"; value = "z"; duration = 5; at = 0 }
    ∷ []

get-after_example :
    (get same "a" 1 (Writes.after same writes) ≡ some "x") ↔ IsReadable writes "a" 1 "x"
get-after_example = get-after same same-IsCollisionFree writes "a" 1 "x"

abbrev no_entries : Cache String
no_entries = empty_cache

get-set_example :
    (3 ≤ 0 + ten_seconds → get same "a" 3 (set same "a" "x" ten_seconds 0 no_entries) ≡ some "x")
    × (0 + ten_seconds + 1000000000 ≤ 3
        → get same "a" 3 (set same "a" "x" ten_seconds 0 no_entries) ≡ none)
get-set_example = get-set same "a" "x" ten_seconds 0 3 no_entries

extract_bearer_token_iff_example :
    (extract_bearer_token "Bearer t1" ≡ ok "t1") ↔ IsBearer "Bearer t1" "t1"
extract_bearer_token_iff_example = extract_bearer_token_iff "Bearer t1" "t1"

attributes_of-IsCovered_example :
    IsCovered k8s unescape as_bob
      (attributes_of k8s unescape as_bob)
      (user_info_of k8s unescape as_bob)
attributes_of-IsCovered_example = attributes_of-IsCovered k8s unescape as_bob

impersonation-FailAlike_example :
    impersonation k8s unescape env
      (some (cluster true))
      (request as_bob)
      (as_consumer (default_info ann) no_keys)
    ≡ impersonation k8s unescape env
        (some (cluster false))
        (request as_bob)
        (as_consumer (default_info ann) no_keys)
impersonation-FailAlike_example =
    impersonation-FailAlike k8s unescape env (cluster true) (cluster false) (λ requester a. tt)
      (request as_bob) (as_consumer (default_info ann) no_keys)
