-- ===== src/Middleware/Reviewed.antt =====
-- What is reviewed before `Impersonation` of packages/backend/internal/middleware/auth.go lets a request
-- go on as another user.
use kkite.Prelude.{String, ◌==◌, ◌≡◌, ◌⊎◌, none, some, List, [], ◌∷◌, Bool, true, false}
use kkite.Store.{ok, err, put}
use kkite.Handlers.Replies.{reply, object, error, empty_object}
use kkite.Middleware.Context.{
  UserInfo, Any, default_info, Keys, ResourceAttributes, Cluster, Outcome, next, abort,
}
use kkite.Middleware.ImpersonatedData.{
  ImpersonatedData, Impersonated, header_required, no_impersonation_data, impersonated,
}
use kkite.Middleware.Impersonation.{as_default_info, is_publisher, review_of}

module _ (cluster : Cluster) (requester : UserInfo) where
  -- The review of the attributes was answered, whatever it says.
  abbrev pub IsAnswered : ResourceAttributes → Type 0
  IsAnswered a =
      (allowed : Bool) × (cluster.create_subject_access_review (review_of requester a) ≡ ok allowed)

  abbrev pub AllAnswered : List ResourceAttributes → Type 0
  AllAnswered [] = Unit
  AllAnswered (a ∷ rest) = IsAnswered a × AllAnswered rest

  abbrev pub SomeFails : List ResourceAttributes → Type 0
  SomeFails [] = ⊥
  SomeFails (a ∷ rest) =
      ((e : String) × (cluster.create_subject_access_review (review_of requester a) ≡ err e))
      ⊎ SomeFails rest

  abbrev pub ReviewAnswer : List ResourceAttributes → Keys → Outcome → Type 0
  ReviewAnswer attributes keys outcome =
      (AllAnswered attributes × (outcome ≡ next keys))
      ⊎ (SomeFails attributes
          × (outcome ≡ abort (error 401 "User don't have permission to impersonate")))

module _ (cluster : Cluster) (keys : Keys) where
  -- A request with the data of an impersonation.
  abbrev pub DataAnswer : ImpersonatedData → Outcome → Type 0
  DataAnswer imp outcome =
      ((keys "user" ≡ none) × (outcome ≡ abort (error 500 "User not found in context")))
      ⊎ ((v : Any) × (keys "user" ≡ some v)
          × (((as_default_info v ≡ none)
                × (outcome ≡ abort (error 500 "Unexpected user type in context")))
              ⊎ ((requester : UserInfo) × (as_default_info v ≡ some requester)
                  × ((AllAnswered cluster requester imp.resource_attributes
                        × (outcome ≡ next (put "user" (default_info imp.user_info) keys)))
                      ⊎ (SomeFails cluster requester imp.resource_attributes
                          × (outcome
                              ≡ abort (error 401 "User don't have permission to impersonate")))))))

  abbrev pub ImpersonationAnswer : (String → String) → Impersonated → Outcome → Type 0
  ImpersonationAnswer env parsed outcome =
      ((((env "AUTH_IMPERSONATE" == "true") ≡ false) ⊎ (is_publisher (keys "type") ≡ true))
        × (outcome ≡ next keys))
      ⊎ (((env "AUTH_IMPERSONATE" == "true") ≡ true)
          × (is_publisher (keys "type") ≡ false)
          × (((parsed ≡ no_impersonation_data) × (outcome ≡ next keys))
              ⊎ ((message : String) × (parsed ≡ header_required message)
                  × (outcome ≡ abort (reply 400 (object (("error", empty_object) ∷ [])))))
              ⊎ ((imp : ImpersonatedData) × (parsed ≡ impersonated imp) × DataAnswer imp outcome)))
