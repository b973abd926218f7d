-- ===== src/Handlers/Failures.antt =====
-- What the failure webhooks of webhook_handlers.go answer and store, over the service and the
-- repository.
use kkite.Prelude.{
  String, ◌≡◌, ◌⊎◌, refl, sym, ap, ◌∙◌, subst, Option, none, some, List, [], ◌∷◌, arith, inl, inr,
  is_some, if◌then◌else◌, ◌==◌, Bool-cases,
}
use kkite.Models.{LoadedIssue}
use kkite.Dto.{CreateIssueRequest, create}
use kkite.Store.{Tables, Action, Result, ok, err, pure, ◌>>=◌}
use kkite.Store.Gorm.{Gorm, GormLaws, Loads}
use kkite.Repository.Requests.{by_id_query}
use kkite.Repository.Operations.{create_or_update}
use kkite.Repository.Invariant.{IsSound}
use kkite.Repository.Stores.{Stores, Reloads}
use kkite.Repository.Present.{IsPlain}
use kkite.Repository.CreateOrUpdate.{create_or_update-Reloads}
use kkite.Repository.Twice.{create_or_update_twice}
use kkite.Service.{issue_service}
use kkite.Handlers.Replies.{Reply, reply, object, text, issue, error}
use kkite.Handlers.Webhooks.{
  PipelineFailureRequest, MintmakerRequest, ReleaseFailureRequest, pipeline_issue, mintmaker_issue,
  release_issue, missing_fields, stored_answer, store, pipeline_failure, release_failure,
}

pub bind_pure : {W A : Type 0} (m : Action W A) (w : W) → (m >>= pure) w ≡ m w
bind_pure {W} {A} m w = at (m w)
  where
    at : (p : Result A × W) → ((λ (_ : W). p) >>= pure) w ≡ p
    at (ok a, w') = refl
    at (err e, w') = refl

-- `201 Created` with the issue.
abbrev pub created : LoadedIssue → Reply
created l = reply 201 (object (("status", text "success") ∷ ("issue", issue l) ∷ []))

-- The answer of a webhook that stores an issue.
abbrev pub StoredAnswer : CreateIssueRequest → Tables → Reply → Tables → Type 0
StoredAnswer c t r u =
    ((l : LoadedIssue) × (r ≡ created l)
      × Stores (create c) (create c) t l.issue.id u
      × Loads (by_id_query l.issue.id) u l)
    ⊎ ((r ≡ error 500 "Failed to process webhook")
        × ((u ≡ t) ⊎ ((id : String) × Stores (create c) (create c) t id u)))

abbrev pub FailureAnswer :
    {A : Type 0} → (A → CreateIssueRequest) → Result A → Tables → Reply → Tables → Type 0
FailureAnswer f (err e) t r u = (r ≡ missing_fields e) × (u ≡ t)
FailureAnswer f (ok req) t r u = StoredAnswer (f req) t r u

module _ (g : Gorm) (laws : GormLaws g) where
  pub store_step :
      (c : CreateIssueRequest) (w : g.World)
      → store (issue_service g) c w
        ≡ (stored_answer (create_or_update g (create c) w).0, (create_or_update g (create c) w).1)
  store_step c w = ap (λ p. (stored_answer p.0, p.1)) (bind_pure (create_or_update g (create c)) w)

  answer_at :
      (c : CreateIssueRequest) (t u : Tables) (r : Result (Option LoadedIssue))
      → Reloads (Stores (create c) (create c)) t r u
      → StoredAnswer c t (stored_answer r) u
  answer_at c t u (ok none) h = absurd h
  answer_at c t u (ok (some l)) (stored, loaded) = inl (l, refl, stored, loaded)
  answer_at c t u (err e) h = inr (refl, h)

  pub store-StoredAnswer :
      (c : CreateIssueRequest) (w : g.World)
      → let (r, w') = store (issue_service g) c w in StoredAnswer c (g.tables w) r (g.tables w')
  store-StoredAnswer c w =
      subst (λ p. StoredAnswer c (g.tables w) p.0 (g.tables p.1)) (sym (store_step c w))
        (answer_at c (g.tables w) _ (create_or_update g (create c) w).0
          (create_or_update-Reloads g laws (create c) w))

  result_of :
      (r : Result (Option LoadedIssue)) (l : LoadedIssue)
      → stored_answer r ≡ created l
      → r ≡ ok (some l)
  result_of (ok none) l e = absurd (ground arith)
  result_of (ok (some k)) l e = ground arith
  result_of (err message) l e = absurd (ground arith)

  -- The result behind a `201 Created`.
  pub stored_result :
      (c : CreateIssueRequest) (w : g.World) (l : LoadedIssue)
      → (store (issue_service g) c w).0 ≡ created l
      → (create_or_update g (create c) w).0 ≡ ok (some l)
  stored_result c w l e =
      result_of (create_or_update g (create c) w).0 l (ap (λ p. p.0) (sym (store_step c w)) ∙ e)

pub own_namespace :
    (namespace : String) → (if namespace == "" then namespace else namespace) ≡ namespace
own_namespace namespace = elim (Bool-cases (namespace == "")) [ inl e ↦ rw e | inr e ↦ rw e ]

pub pipeline_failure-FailureAnswer :
    (g : Gorm) (laws : GormLaws g) (env : String → String) (body : Result PipelineFailureRequest)
    (w : g.World)
    → let (r, w') = pipeline_failure (issue_service g) env body w in
      FailureAnswer (pipeline_issue env) body (g.tables w) r (g.tables w')
unfolding pipeline_failure
pipeline_failure-FailureAnswer g laws env (err e) w = (refl, refl)
pipeline_failure-FailureAnswer g laws env (ok req) w =
    store-StoredAnswer g laws (pipeline_issue env req) w

-- The same of `ReleaseFailure`.
pub release_failure-FailureAnswer :
    (g : Gorm) (laws : GormLaws g) (body : Result ReleaseFailureRequest) (w : g.World)
    → let (r, w') = release_failure (issue_service g) body w in
      FailureAnswer release_issue body (g.tables w) r (g.tables w')
unfolding release_failure
release_failure-FailureAnswer g laws (err e) w = (refl, refl)
release_failure-FailureAnswer g laws (ok req) w = store-StoredAnswer g laws (release_issue req) w

pub IsPlain-pipeline_issue :
    (env : String → String) (req : PipelineFailureRequest)
    → IsPlain (create (pipeline_issue env req))
IsPlain-pipeline_issue env req = record {
  no_state = refl;
  own_namespace = own_namespace req.namespace;
}

-- In tables that are sound before (the foreign keys hold, there is one issue to a scope, and no two
-- ACTIVE or RESOLVED issues stand for the same problem): two failures of one pipeline in one
-- namespace, one after the other, whatever their reasons, severities and logs, are one issue. Where
-- both are answered with 201, the second has the id of the first, and the ids of
-- the issues are what they were after the first.
pub pipeline_failure_twice :
    (g : Gorm) (laws : GormLaws g) (env : String → String) (first second : PipelineFailureRequest)
    (w : g.World) (l l' : LoadedIssue)
    → IsSound (g.tables w)
    → first.pipeline_name ≡ second.pipeline_name
    → first.namespace ≡ second.namespace
    → let (r, w') = pipeline_failure (issue_service g) env (ok first) w in
      let (r', w'') = pipeline_failure (issue_service g) env (ok second) w' in
      r ≡ created l
      → r' ≡ created l'
      → (l'.issue.id ≡ l.issue.id)
        × ((k : String) → is_some ((g.tables w'').issue k) ≡ is_some ((g.tables w').issue k))
unfolding pipeline_failure
pipeline_failure_twice g laws env first second w l l' sound same_name same_namespace done again =
    let c = pipeline_issue env first in
    let d = pipeline_issue env second in
    let w₁ = (create_or_update g (create c) w).1 in
    let step : (store (issue_service g) c w).1 ≡ w₁ = ap (λ p. p.1) (store_step g laws c w) in
    let again_at : (store (issue_service g) d w₁).0 ≡ created l' =
      subst (λ v. (store (issue_service g) d v).0 ≡ created l') step again in
    let (same, kept) =
      create_or_update_twice g laws (create c) (create d) w l l' sound
        (IsPlain-pipeline_issue env first) (ground (arith)) (stored_result g laws c w l done)
        (stored_result g laws d w₁ l' again_at) in
    (
      same,
      λ k.
          subst
            (λ v.
              is_some ((g.tables (store (issue_service g) d v).1).issue k)
              ≡ is_some ((g.tables v).issue k))
            (sym step)
            (ap (λ p. is_some ((g.tables p.1).issue k)) (store_step g laws d w₁) ∙ kept k),
    )

abbrev LogsAnswer : List String → MintmakerRequest → Tables → Reply → Tables → Type 0
LogsAnswer [] req t r u =
    (r ≡ reply 200 (object (("info", text "No logs provided, no issue created") ∷ []))) × (u ≡ t)
LogsAnswer (l ∷ ls) req t r u = StoredAnswer (mintmaker_issue req) t r u

abbrev pub MintmakerAnswer : Result MintmakerRequest → Tables → Reply → Tables → Type 0
MintmakerAnswer (err e) t r u = (r ≡ missing_fields e) × (u ≡ t)
MintmakerAnswer (ok req) t r u = LogsAnswer req.logs req t r u
