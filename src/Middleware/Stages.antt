-- ===== src/Middleware/Stages.antt =====
-- What each stage of the middleware of packages/backend/internal/middleware/auth.go lets go on to the
-- next one.
use kkite.Prelude.{
  String, ◌==◌, ◌≡◌, refl, sym, ap, ◌∙◌, subst, ◌⊎◌, inl, inr, none, some, true, false,
  some_injective,
}
use mathlib.Core.Option.{none-ne-some}
use kkite.Store.{put}
use kkite.Handlers.Replies.{Reply}
use kkite.Middleware.Context.{
  UserInfo, default_info, Keys, Request, Cluster, Outcome, next, abort, and_then,
}
use kkite.Middleware.Reviews.{after}
use kkite.Middleware.ImpersonatedData.{ImpersonatedData, Impersonated, impersonated}
use kkite.Middleware.Impersonation.{as_default_info, is_publisher, review_of}
use kkite.Middleware.Reviewed.{AllAnswered, ImpersonationAnswer}
use kkite.Middleware.Access.{namespace_of, get_pods, check_namespacess_access}
use kkite.Middleware.Admitted.{IsAllowed, check_namespacess_access-AccessAnswer}

-- The context as gin starts a request.
abbrev pub no_keys : Keys
no_keys key = none

abort-ne-next : (r : Reply) (keys : Keys) → abort r ≡ next keys → ⊥
abort-ne-next r keys e = cc

kept_keys : Outcome → Keys
kept_keys (next keys) = keys
kept_keys (abort r) = no_keys

pub next_injective : {a b : Keys} → next a ≡ next b → a ≡ b
unfolding kept_keys
next_injective e = ap kept_keys e

pub passed :
    (o : Outcome) (f : Keys → Outcome) (after : Keys)
    → and_then o f ≡ next after
    → (keys : Keys) × (o ≡ next keys) × (f keys ≡ next after)
passed (next keys) f after e = (keys, refl, e)
passed (abort r) f after e = absurd (abort-ne-next r after e)

-- Both are what the same outcome goes on with.
pub same_keys : {o : Outcome} {a b : Keys} → o ≡ next a → o ≡ next b → a ≡ b
same_keys p q = next_injective (sym p ∙ q)

pub aborted : {A : Type 0} {o : Outcome} {r : Reply} {keys : Keys} → o ≡ abort r → o ≡ next keys → A
aborted {r = r} {keys = keys} p q = absurd (abort-ne-next r keys (sym p ∙ q))

module _ (cluster : Cluster) (request : Request) where
  -- The service itself, or the user, may get pods in the namespace of the request.
  abbrev pub ServiceMayRead : Keys → Type 0
  ServiceMayRead keys =
      ((namespace_of request keys == "") ≡ false)
      × IsAllowed (cluster.create_self_subject_access_review (get_pods (namespace_of request keys)))

  abbrev pub UserMayRead : UserInfo → Keys → Type 0
  UserMayRead user keys =
      ((namespace_of request keys == "") ≡ false)
      × IsAllowed (
          cluster.create_subject_access_review
            (review_of user (get_pods (namespace_of request keys))))

  pub service_admitted :
      (keys end : Keys)
      → keys "user" ≡ none
      → check_namespacess_access (some cluster) request keys ≡ next end
      → ServiceMayRead keys
  service_admitted keys end nobody goes =
      elim (check_namespacess_access-AccessAnswer (some cluster) request keys) [
        | inl (missing, is) ↦ aborted is goes
        | inr (given, inl (no_client, is)) ↦ absurd (none-ne-some cluster (sym no_client))
        | inr (given, inr (c, same, inl (missing, inl (allowed, is)))) ↦ (
          given,
          subst
              (λ d.
                IsAllowed
                  (d.create_self_subject_access_review (get_pods (namespace_of request keys))))
              (sym (some_injective same)) allowed,
        )
        | inr (given, inr (c, same, inl (missing, inr (denied, is)))) ↦ aborted is goes
        | inr (given, inr (c, same, inr (v, found, rest))) ↦
            absurd (none-ne-some v (sym nobody ∙ found))
      ]

  pub user_admitted :
      (user : UserInfo) (keys end : Keys)
      → keys "user" ≡ some (default_info user)
      → check_namespacess_access (some cluster) request keys ≡ next end
      → UserMayRead user keys × (end ≡ keys)
  user_admitted user keys end known goes =
      elim (check_namespacess_access-AccessAnswer (some cluster) request keys) [
        | inl (missing, is) ↦ aborted is goes
        | inr (given, inl (no_client, is)) ↦ absurd (none-ne-some cluster (sym no_client))
        | inr (given, inr (c, same, inl (missing, rest))) ↦
            absurd (none-ne-some _ (sym missing ∙ known))
        | inr (given, inr (c, same, inr (v, found, inl (uncast, is)))) ↦ aborted is goes
        | inr (given, inr (c, same, inr (v, found, inr (u, cast, inr (denied, is))))) ↦
            aborted is goes
        | inr (given, inr (c, same, inr (v, found, inr (u, cast, inl (allowed, is))))) ↦ (
          (
            given,
            subst
                (λ d. IsAllowed (
                  d.create_subject_access_review
                    (review_of user (get_pods (namespace_of request keys)))))
                (sym (some_injective same))
                (subst
                  (λ x. IsAllowed (
                    c.create_subject_access_review
                      (review_of x (get_pods (namespace_of request keys)))))
                  (some_injective
                    (sym cast ∙ ap as_default_info (some_injective (sym found ∙ known))))
                  allowed),
          ),
          same_keys goes is,
        )
      ]

  -- What `Impersonation` lets go on: the context as it was, or with the user of the headers.
  abbrev pub Effective : Impersonated → UserInfo → Keys → Keys → Type 0
  Effective given user keys mid =
      (mid ≡ keys)
      ⊎ ((imp : ImpersonatedData) × (given ≡ impersonated imp)
          × AllAnswered cluster user imp.resource_attributes
          × (mid ≡ put "user" (default_info imp.user_info) keys))

  pub user-Effective :
      (env : String → String) (given : Impersonated) (user : UserInfo) (keys mid : Keys)
      (o : Outcome)
      → keys "user" ≡ some (default_info user)
      → ImpersonationAnswer cluster keys env given o
      → o ≡ next mid
      → Effective given user keys mid
  user-Effective env given user keys mid o known (inl (off, is)) goes = inl (same_keys goes is)
  user-Effective env given user keys mid o known (inr (on, consumer, inl (nothing, is))) goes =
      inl (same_keys goes is)
  user-Effective env given user keys mid o known (inr (on, consumer, inr (inl (m, bad, is)))) goes =
      aborted is goes
  user-Effective env given user keys mid o known
        (inr (on, consumer, inr (inr (imp, is_imp, answer)))) goes =
      elim answer [
        | inl (missing, is) ↦ absurd (none-ne-some _ (sym missing ∙ known))
        | inr (v, found, inl (uncast, is)) ↦ aborted is goes
        | inr (v, found, inr (u, cast, inr (fails, is))) ↦ aborted is goes
        | inr (v, found, inr (u, cast, inl (answered, is))) ↦ inr (
          imp,
          is_imp,
          subst (λ x. AllAnswered cluster x imp.resource_attributes)
              (some_injective (sym cast ∙ ap as_default_info (some_injective (sym found ∙ known))))
              answered,
          same_keys goes is,
        )
      ]

  pub publisher_effective :
      (env : String → String) (given : Impersonated) (keys mid : Keys) (o : Outcome)
      → is_publisher (keys "type") ≡ true
      → ImpersonationAnswer cluster keys env given o
      → o ≡ next mid
      → mid ≡ keys
  publisher_effective env given keys mid o publisher (inl (off, is)) goes = same_keys goes is
  publisher_effective env given keys mid o publisher (inr (on, consumer, rest)) goes =
      absurd (apart (sym publisher ∙ consumer))
    where
      apart : true ≡ false → ⊥
      apart e = cc
