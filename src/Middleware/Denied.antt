-- ===== src/Middleware/Denied.antt =====
-- What `Impersonation` of packages/backend/internal/middleware/auth.go does with the verdict of a review.
use kkite.Prelude.{
  String, ◌≡◌, refl, ap, ◌∙◌, Option, none, some, List, [], ◌∷◌, Bool, ◌||◌, not, ◌==◌,
  if◌then◌else◌,
}
use kkite.Store.{Result, ok, err, put}
use kkite.Middleware.Context.{
  UserInfo, Any, default_info, Keys, Request, ResourceAttributes, Cluster, Outcome, next, and_then,
}
use kkite.Middleware.ImpersonatedData.{
  Kubernetes, ImpersonatedData, Impersonated, header_required, no_impersonation_data, impersonated,
  new_impersonated_data,
}
use kkite.Middleware.Impersonation.{
  as_default_info, is_publisher, review_of, after_review, review_all, impersonate_as,
  with_requester, with_data, impersonation,
}

-- Both answer, or both fail.
abbrev pub FailTogether : Result Bool → Result Bool → Type 0
FailTogether (ok a) (ok b) = Unit
FailTogether (ok a) (err f) = ⊥
FailTogether (err e) (ok b) = ⊥
FailTogether (err e) (err f) = Unit

same_after :
    (r s : Result Bool) (o : Outcome) → FailTogether r s → after_review r o ≡ after_review s o
same_after (ok a) (ok b) o both = refl
same_after (ok a) (err f) o both = absurd both
same_after (err e) (ok b) o both = absurd both
same_after (err e) (err f) o both = refl

module _ (c d : Cluster) where
  abbrev pub FailAlike : Type 0
  FailAlike =
      (requester : UserInfo) (a : ResourceAttributes)
      → FailTogether (c.create_subject_access_review (review_of requester a))
          (d.create_subject_access_review (review_of requester a))

  module _ (alike : FailAlike) where
    same_reviews :
        (requester : UserInfo) (attributes : List ResourceAttributes) (keys : Keys)
        → review_all (some c) requester attributes keys
          ≡ review_all (some d) requester attributes keys
    unfolding review_all
    same_reviews requester [] keys = refl
    same_reviews requester (a ∷ rest) keys =
        ap (after_review (c.create_subject_access_review (review_of requester a)))
          (same_reviews requester rest keys)
        ∙ same_after _ _ (review_all (some d) requester rest keys) (alike requester a)

    same_impersonation :
        (imp : ImpersonatedData) (keys : Keys) (o : Option UserInfo)
        → impersonate_as (some c) imp keys o ≡ impersonate_as (some d) imp keys o
    same_impersonation imp keys none = refl
    same_impersonation imp keys (some requester) =
        ap (λ r. and_then r (λ after. next (put "user" (default_info imp.user_info) after)))
          (same_reviews requester imp.resource_attributes keys)

    same_requester :
        (imp : ImpersonatedData) (keys : Keys) (o : Option Any)
        → with_requester (some c) imp keys o ≡ with_requester (some d) imp keys o
    same_requester imp keys none = refl
    same_requester imp keys (some v) = same_impersonation imp keys (as_default_info v)

    same_data :
        (keys : Keys) (i : Impersonated) → with_data (some c) keys i ≡ with_data (some d) keys i
    same_data keys (header_required message) = refl
    same_data keys no_impersonation_data = refl
    same_data keys (impersonated imp) = same_requester imp keys (keys "user")

-- Two clusters whose reviews fail for the same attributes get the same answer for every request, whether
-- the reviews allow the impersonation or deny it.
pub impersonation-FailAlike :
    (k : Kubernetes) (path_unescape : String → Result String) (env : String → String)
    (c d : Cluster)
    → FailAlike c d
    → (request : Request) (keys : Keys)
    → impersonation k path_unescape env (some c) request keys
      ≡ impersonation k path_unescape env (some d) request keys
unfolding impersonation
impersonation-FailAlike k path_unescape env c d alike request keys =
    ap
      (λ o.
        if not (env "AUTH_IMPERSONATE" == "true") || is_publisher (keys "type")
        then next keys
        else o)
      (same_data c d alike keys (new_impersonated_data k path_unescape request.headers))
