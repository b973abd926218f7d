-- ===== src/Middleware/Reviews.antt =====
-- The reviews behind the entries of the cache that `Authentication` of
-- packages/backend/internal/middleware/auth.go keeps, over any sequence of requests.
use kkite.Prelude.{
  ℕ, ◌+◌, String, ◌≡◌, refl, sym, ap, ◌∙◌, ◌⊎◌, inl, inr, Option, none, some, List, [], ◌∷◌, Bool,
  true, false, String-cases, eq_refl, eq_false, subst,
}
use mathlib.Core.Option.{none-ne-some}
use kkite.Store.{Result, ok, err, put, or_keep}
use kkite.Cache.{Cache, CacheEntry, empty_cache, unix, get, set}
use kkite.Middleware.Context.{UserInfo, Any, bool, default_info, TokenReviewStatus}
use kkite.Middleware.Authentication.{
  Call, token_of, new_default_info_from_authn, authentication, from_status, from_review,
  with_cached, with_token,
}

-- A call of the list has the property.
abbrev pub Some : (Call → Type 0) → List Call → Type 0
Some P [] = ⊥
Some P (c ∷ cs) = P c ⊎ Some P cs

-- The review of the token, at this call, answers with this status.
abbrev pub Reviews : String → TokenReviewStatus → Call → Type 0
Reviews token status call =
    (token_of call ≡ ok token) × (call.cluster.create_token_review token ≡ ok status)

abbrev pub Confirms : String → UserInfo → Call → Type 0
Confirms token user call =
    (status : TokenReviewStatus) × Reviews token status call
    × (status.authenticated ≡ true)
    × (user ≡ new_default_info_from_authn status.user)

abbrev pub Refuses : String → Call → Type 0
Refuses token call =
    (status : TokenReviewStatus) × Reviews token status call × (status.authenticated ≡ false)

module _ (hash : String → String) (expiration_authorized expiration_unauthorized : ℕ) where
  -- The cache after the calls, the last one first.
  unfoldable pub after : List Call → Cache Any
  after [] = empty_cache
  after (c ∷ cs) =
      (authentication hash expiration_authorized expiration_unauthorized c (after cs)).1

  -- This call wrote the entry, under the hash of its token.
  abbrev pub Wrote : String → CacheEntry Any → Call → Type 0
  Wrote hashed_key entry call =
      (token : String) × (hash token ≡ hashed_key)
      × (((user : UserInfo) × Confirms token user call
            × (entry ≡ record {
              value = default_info user;
              expiration = unix (call.written_at + expiration_authorized);
            }))
          ⊎ (Refuses token call
              × (entry ≡ record {
                value = bool false;
                expiration = unix (call.written_at + expiration_unauthorized);
              })))

  abbrev pub IsHonest : List Call → Cache Any → Type 0
  IsHonest calls items =
      (hashed_key : String) (entry : CacheEntry Any)
      → items hashed_key ≡ some entry
      → Some (Wrote hashed_key entry) calls

  put-IsHonest :
      (call : Call) (calls : List Call) (items : Cache Any) (key : String) (entry : CacheEntry Any)
      → IsHonest calls items
      → Wrote key entry call
      → IsHonest (call ∷ calls) (put key entry items)
  put-IsHonest call calls items key entry honest wrote j e found = elim (String-cases j key) [
    | inl same ↦ inl (
        subst (λ k. Wrote k e call) (sym same)
          (subst (λ f. Wrote key f call) (same_entry same) wrote))
    | inr apart ↦ inr (honest j e (sym (kept apart) ∙ found))
  ]
    where
      here : j ≡ key → put key entry items j ≡ some entry
      here same = rw (same, eq_refl key)

      same_entry : j ≡ key → entry ≡ e
      same_entry same = ap (λ o. or_keep o entry) (sym (here same) ∙ found)

      kept : (j ≡ key → ⊥) → put key entry items j ≡ items j
      kept apart = rw (eq_false j key apart)

  status-IsHonest :
      (call : Call) (calls : List Call) (items : Cache Any) (token : String)
      (status : TokenReviewStatus)
      → Reviews token status call
      → (b : Bool) → status.authenticated ≡ b
      → IsHonest calls items
      → IsHonest
          (call ∷ calls)
          (from_status hash expiration_authorized expiration_unauthorized call token b status.user
            items).1
  unfolding set
  status-IsHonest call calls items token status reviews true answer honest =
      put-IsHonest call calls items (hash token) _ honest (
        token,
        refl,
        inl (new_default_info_from_authn status.user, (status, reviews, answer, refl), refl),
      )
  status-IsHonest call calls items token status reviews false answer honest =
      put-IsHonest call calls items (hash token) _ honest
        (token, refl, inr ((status, reviews, answer), refl))

  review-IsHonest :
      (call : Call) (calls : List Call) (items : Cache Any) (token : String)
      → token_of call ≡ ok token
      → (r : Result TokenReviewStatus) → call.cluster.create_token_review token ≡ r
      → IsHonest calls items
      → IsHonest
          (call ∷ calls)
          (from_review hash expiration_authorized expiration_unauthorized call token r items).1
  review-IsHonest call calls items token sent (err e) answer honest =
      λ j entry found. inr (honest j entry found)
  review-IsHonest call calls items token sent (ok status) answer honest =
      status-IsHonest call calls items token status (sent, answer) status.authenticated refl honest

  cached-IsHonest :
      (call : Call) (calls : List Call) (items : Cache Any) (token : String)
      → token_of call ≡ ok token
      → (o : Option Any) → IsHonest calls items
      → IsHonest
          (call ∷ calls)
          (with_cached hash expiration_authorized expiration_unauthorized call token o items).1
  cached-IsHonest call calls items token sent (some v) honest =
      λ j entry found. inr (honest j entry found)
  cached-IsHonest call calls items token sent none honest =
      review-IsHonest call calls items token sent (call.cluster.create_token_review token) refl
        honest

  token-IsHonest :
      (call : Call) (calls : List Call) (items : Cache Any) (t : Result String)
      → token_of call ≡ t
      → IsHonest calls items
      → IsHonest
          (call ∷ calls)
          (with_token hash expiration_authorized expiration_unauthorized call t items).1
  token-IsHonest call calls items (err e) sent honest = λ j entry found. inr (honest j entry found)
  token-IsHonest call calls items (ok token) sent honest =
      cached-IsHonest call calls items token sent (get hash token call.read_at items) honest

  -- Every entry of the cache was written by one of the calls, with the answer of the review of a token
  -- that has this hash.
  pub after-IsHonest : (calls : List Call) → IsHonest calls (after calls)
  unfolding after authentication
  after-IsHonest [] = λ j entry found. absurd (none-ne-some _ found)
  after-IsHonest (c ∷ cs) = token-IsHonest c cs (after cs) (token_of c) refl (after-IsHonest cs)
