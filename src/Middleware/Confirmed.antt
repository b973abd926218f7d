-- ===== src/Middleware/Confirmed.antt =====
-- Where the users come from that `Authentication` of packages/backend/internal/middleware/auth.go puts
-- into the context, over any sequence of requests.
use kkite.Prelude.{ℕ, ◌+◌, ◌≤◌, String, ◌≡◌, ◌⊎◌, Option, List, false}
use kkite.Store.{ok, err}
use kkite.Cache.{Cache, CacheEntry, unix}
use kkite.Cache.Writes.{IsCollisionFree}
use kkite.Handlers.Replies.{error}
use kkite.Middleware.Context.{UserInfo, Any, bool, default_info, Outcome, next, abort}
use kkite.Middleware.Reviews.{Some, Confirms, Refuses, after}
use kkite.Middleware.Authentication.{Call, token_of, as_publisher, as_consumer, unauthenticated}

-- The call's answer was still to be read from the cache at this time.
abbrev pub IsFresh : ℕ → ℕ → Call → Type 0
IsFresh now expiration call = unix now ≤ unix (call.written_at + expiration)

module _ (hash : String → String) (expiration_authorized expiration_unauthorized : ℕ) where
  abbrev past : List Call → Cache Any
  past = after hash expiration_authorized expiration_unauthorized

  -- What `Authentication` answers, from the reviews of this call and of those before it: a publisher has
  -- no token; a consumer's token was confirmed for the user; a token that is refused was refused by a
  -- review; and an error of the review is a 500.
  abbrev pub AuthenticationAnswer : List Call → Call → Outcome → Type 0
  AuthenticationAnswer calls call outcome =
      ((message : String) × (token_of call ≡ err message)
        × (outcome ≡ next (as_publisher call.keys)))
      ⊎ ((token : String) × (token_of call ≡ ok token)
          × (((user : UserInfo) × (outcome ≡ next (as_consumer (default_info user) call.keys))
                × (Confirms token user call
                    ⊎ Some
                        (λ c. Confirms token user c × IsFresh call.read_at expiration_authorized c)
                        calls))
              ⊎ ((outcome ≡ unauthenticated)
                  × (Refuses token call
                      ⊎ Some (λ c. Refuses token c × IsFresh call.read_at expiration_unauthorized c)
                          calls))
              ⊎ ((message : String) × (call.cluster.create_token_review token ≡ err message)
                  × (outcome ≡ abort (error 500 "unexpected error on TokenReview")))))

  module _ (free : IsCollisionFree hash) (token : String) (now : ℕ) (entry : CacheEntry Any) where
    abbrev Origin : List Call → Type 0
    Origin calls =
        ((user : UserInfo) × (entry.value ≡ default_info user)
          × Some (λ c. Confirms token user c × IsFresh now expiration_authorized c) calls)
        ⊎ ((entry.value ≡ bool false)
            × Some (λ c. Refuses token c × IsFresh now expiration_unauthorized c) calls)
