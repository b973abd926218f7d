-- ===== src/Middleware/Authentication.antt =====
-- `Authentication` of packages/backend/internal/middleware/auth.go. One call has the answers of the
-- cluster during the request, the request, the context, and the times at which it reads the cache and
-- writes to it.
use kkite.Prelude.{ℕ, String, Bool, true, false, Option, none, some, if◌then◌else◌}
use kkite.Store.{Result, ok, err, put}
use kkite.Cache.{Cache, get, set}
use kkite.Handlers.Replies.{error}
use kkite.Middleware.Context.{
  UserInfo, Any, bool, default_info, words, nil, fields, Keys, header, Request, AuthnUserInfo,
  TokenReviewStatus, Cluster, Outcome, next, abort,
}
use kkite.Middleware.Token.{extract_bearer_token}

abbrev pub new_default_info_from_authn : AuthnUserInfo → UserInfo
new_default_info_from_authn info = record {
  name = info.username;
  uid = info.uid;
  groups = info.groups;
  extra = info.extra;
}

pub record Call : Type 0 where
  pub cluster : Cluster
  pub request : Request
  pub keys : Keys
  pub read_at : ℕ
  pub written_at : ℕ

abbrev pub token_of : Call → Result String
token_of call = extract_bearer_token (header call.request.headers "Authorization")

abbrev pub as_publisher : Keys → Keys
as_publisher keys = put "type" (words "publisher") keys

abbrev pub as_consumer : Any → Keys → Keys
as_consumer user_info keys = put "type" (words "consumer") (put "user" user_info keys)

-- `userInfo == false`
abbrev pub is_false : Any → Bool
is_false (bool false) = true
is_false (bool true) = false
is_false (default_info u) = false
is_false (words s) = false
is_false nil = false
is_false (fields f) = false

abbrev pub unauthenticated : Outcome
unauthenticated = abort (error 401 "Authentication failed")

abbrev pub from_cache : Any → Keys → Outcome
from_cache user_info keys =
    if is_false user_info then unauthenticated else next (as_consumer user_info keys)

module _ (hash : String → String) (expiration_authorized expiration_unauthorized : ℕ) where
  abbrev pub from_status : Call → String → Bool → AuthnUserInfo → Cache Any → Outcome × Cache Any
  from_status call token false user items =
      (unauthenticated, set hash token (bool false) expiration_unauthorized call.written_at items)
  from_status call token true user items =
      let user_info = default_info (new_default_info_from_authn user) in
      (
        next (as_consumer user_info call.keys),
        set hash token user_info expiration_authorized call.written_at items,
      )

  abbrev pub from_review :
      Call → String → Result TokenReviewStatus → Cache Any → Outcome × Cache Any
  from_review call token (err e) items =
      (abort (error 500 "unexpected error on TokenReview"), items)
  from_review call token (ok status) items =
      from_status call token status.authenticated status.user items

  abbrev pub with_cached : Call → String → Option Any → Cache Any → Outcome × Cache Any
  with_cached call token (some user_info) items = (from_cache user_info call.keys, items)
  with_cached call token none items =
      from_review call token (call.cluster.create_token_review token) items

  abbrev pub with_token : Call → Result String → Cache Any → Outcome × Cache Any
  with_token call (err e) items = (next (as_publisher call.keys), items)
  with_token call (ok token) items =
      with_cached call token (get hash token call.read_at items) items

  unfoldable pub authentication : Call → Cache Any → Outcome × Cache Any
  authentication call items = with_token call (token_of call) items
