-- ===== src/Handlers/Successes.antt =====
-- What the success webhooks of webhook_handlers.go answer and resolve, over the service and the
-- repository.
use kkite.Prelude.{
  ℕ, String, ◌≡◌, ◌≢◌, ◌⊎◌, refl, sym, ap, ◌∙◌, subst, some, false, arith, inl, inr, contains,
  eq_iff, Bool-cases, ◌==◌,
}
use kkite.Models.{Issue, LoadedIssue}
use kkite.Models.IssueState
use kkite.Dto.{create}
use kkite.Store.{Tables, Result, ok, err}
use kkite.Store.Gorm.{Gorm, GormLaws}
use kkite.Repository.Operations.{resolve_by_scope}
use kkite.Repository.Invariant.{StandsFor, problem_of, Problem}
use kkite.Repository.Resolve.{
  HasResolved, ResolvesOrFails, resolve_by_scope-ResolvesOrFails, is_active_in, resolved_row,
}
use kkite.Repository.Twice.{create_or_update-StandsFor}
use kkite.Service.{issue_service, count_or_zero}
use kkite.Handlers.Replies.{Reply}
use kkite.Handlers.Webhooks.{
  PipelineFailureRequest, PipelineSuccessRequest, ReleaseSuccessRequest, pipeline_issue,
  missing_fields, resolved_answer, resolve, store, pipeline_failure, pipeline_success,
  release_success,
}
use kkite.Handlers.Failures.{created, store_step, stored_result, IsPlain-pipeline_issue}

-- The answer of a webhook that resolves: 200 also where `ResolveByScope` has failed, as if there had
-- been no issue to resolve.
abbrev pub ResolvedAnswer :
    (g : Gorm) → String → String → String → String → g.World → Reply → Tables → Type 0
ResolvedAnswer g kind resource_type name namespace w r u =
    (n : ℕ) × (r ≡ resolved_answer kind name (ok n))
    × (HasResolved resource_type name namespace (g.tables w) n u
        ⊎ ((e : String) × ((resolve_by_scope g resource_type name namespace w).0 ≡ err e)
            × (n ≡ 0)
            × (u ≡ g.tables w)))

module _ (g : Gorm) (laws : GormLaws g) (kind resource_type name namespace : String)
    (w : g.World) where
  answer_at :
      (p : Result ℕ × g.World)
      → resolve_by_scope g resource_type name namespace w ≡ p
      → ResolvesOrFails resource_type name namespace (g.tables w) p.0 (g.tables p.1)
      → let (r, w') = count_or_zero p in
        ResolvedAnswer g kind resource_type name namespace w
          (resolved_answer kind name r)
          (g.tables w')
  answer_at (ok n, w') ran h = (n, refl, inl h)
  answer_at (err e, w') ran h = (0, refl, inr (e, ap (λ p. p.0) ran, refl, h))

  resolve-ResolvedAnswer :
      let (r, w') = resolve (issue_service g) kind resource_type name namespace w in
      ResolvedAnswer g kind resource_type name namespace w r (g.tables w')
  resolve-ResolvedAnswer =
      answer_at (resolve_by_scope g resource_type name namespace w) refl
        (resolve_by_scope-ResolvesOrFails g laws resource_type name namespace w)

abbrev pub PipelineSuccessAnswer :
    (g : Gorm) → Result PipelineSuccessRequest → g.World → Reply → Tables → Type 0
PipelineSuccessAnswer g (err e) w r u = (r ≡ missing_fields e) × (u ≡ g.tables w)
PipelineSuccessAnswer g (ok req) w r u =
    ResolvedAnswer g "pipeline" "pipelinerun" req.pipeline_name req.namespace w r u

abbrev pub ReleaseSuccessAnswer :
    (g : Gorm) → Result ReleaseSuccessRequest → g.World → Reply → Tables → Type 0
ReleaseSuccessAnswer g (err e) w r u = (r ≡ missing_fields e) × (u ≡ g.tables w)
ReleaseSuccessAnswer g (ok req) w r u =
    ResolvedAnswer g "application" "application" req.application req.namespace w r u

pub pipeline_success-PipelineSuccessAnswer :
    (g : Gorm) (laws : GormLaws g) (body : Result PipelineSuccessRequest) (w : g.World)
    → let (r, w') = pipeline_success (issue_service g) body w in
      PipelineSuccessAnswer g body w r (g.tables w')
unfolding pipeline_success
pipeline_success-PipelineSuccessAnswer g laws (err e) w = (refl, refl)
pipeline_success-PipelineSuccessAnswer g laws (ok req) w =
    resolve-ResolvedAnswer g laws "pipeline" "pipelinerun" req.pipeline_name req.namespace w

-- The same of `ReleaseSuccess`, for the issues of the application.
pub release_success-ReleaseSuccessAnswer :
    (g : Gorm) (laws : GormLaws g) (body : Result ReleaseSuccessRequest) (w : g.World)
    → let (r, w') = release_success (issue_service g) body w in
      ReleaseSuccessAnswer g body w r (g.tables w')
unfolding release_success
release_success-ReleaseSuccessAnswer g laws (err e) w = (refl, refl)
release_success-ReleaseSuccessAnswer g laws (ok req) w =
    resolve-ResolvedAnswer g laws "application" "application" req.application req.namespace w

other_namespace :
    (resource_type name namespace : String) (t u : Tables) (n : ℕ) (j : String) (i : Issue)
    → HasResolved resource_type name namespace t n u
    → t.issue j ≡ some i
    → i.namespace ≢ namespace
    → u.issue j ≡ some i
other_namespace resource_type name namespace t u n j i h stored apart =
    let other : (i.namespace == namespace) ≡ false = ground (arith, eq_iff i.namespace namespace) in
    let not_active : contains h.ids j ≡ false = h.active j ∙ rw stored (ground arith) in
    h.issue j ∙ rw (not_active, stored) refl

-- `PipelineSuccess` leaves the issues of every other namespace as they are, whatever their names.
pub pipeline_success_isolated :
    (g : Gorm) (laws : GormLaws g) (req : PipelineSuccessRequest) (w : g.World) (j : String)
    (i : Issue)
    → (g.tables w).issue j ≡ some i
    → i.namespace ≢ req.namespace
    → (g.tables (pipeline_success (issue_service g) (ok req) w).1).issue j ≡ some i
pipeline_success_isolated g laws req w j i stored apart =
    let u = g.tables (pipeline_success (issue_service g) (ok req) w).1 in
    elim (pipeline_success-PipelineSuccessAnswer g laws (ok req) w).2 [
      | inl h ↦
          other_namespace "pipelinerun" req.pipeline_name req.namespace (g.tables w) u _ j i h
            stored apart
      | inr (e, failed, nothing, same) ↦ ap (λ v. v.issue j) same ∙ stored
    ]

-- An issue that stands for a problem is RESOLVED once the issues of its scope have been resolved.
resolved_after :
    (p : Problem) (t u : Tables) (n : ℕ) (j : String)
    → StandsFor t p j
    → HasResolved p.resource_type p.resource_name p.namespace t n u
    → (i : Issue) × (u.issue j ≡ some i) × (i.state ≡ "RESOLVED")
resolved_after p t u n j here h = elim (Bool-cases (contains h.ids j)) [
  | inl taken ↦ (resolved_row h.time here.issue, h.issue j ∙ rw (taken, here.stored) refl, refl)
  | inr left ↦
      let not_active : is_active_in p.resource_type p.resource_name p.namespace t j ≡ false =
        sym (h.active j) ∙ left in
      let fields = rw (here.stored, here.scope_stored) at not_active in
      (
        here.issue,
        h.issue j ∙ rw (left, here.stored) refl,
        ground (
          arith,
          fields,
          here.known_state,
          eq_iff here.issue.namespace p.namespace,
          here.namespace,
          eq_iff here.scope.resource_type p.resource_type,
          here.resource_type,
          eq_iff here.scope.resource_name p.resource_name,
          here.resource_name,
          eq_iff here.issue.state "ACTIVE",
          eq_iff IssueState.active here.issue.state,
          eq_iff IssueState.resolved here.issue.state,
        ),
      )
]

resolve_issues_world :
    (g : Gorm) (resource_type name namespace : String) (w : g.World)
    → (count_or_zero (resolve_by_scope g resource_type name namespace w)).1
      ≡ (resolve_by_scope g resource_type name namespace w).1
resolve_issues_world g resource_type name namespace w =
    at (resolve_by_scope g resource_type name namespace w)
  where
    at : {W : Type 0} (p : Result ℕ × W) → (count_or_zero p).1 ≡ p.1
    at (ok n, w') = refl
    at (err e, w') = refl

-- A success of a pipeline ends what its failure began: where `PipelineFailure` is answered with 201
-- and the database then resolves the issues of the pipeline without an error, `PipelineSuccess`
-- leaves the issue of the failure RESOLVED.
pub pipeline_success_resolves :
    (g : Gorm) (laws : GormLaws g) (env : String → String) (failure : PipelineFailureRequest)
    (success : PipelineSuccessRequest) (w : g.World) (l : LoadedIssue) (n : ℕ)
    → success.pipeline_name ≡ failure.pipeline_name
    → success.namespace ≡ failure.namespace
    → let (r, w') = pipeline_failure (issue_service g) env (ok failure) w in
      r ≡ created l
      → (resolve_by_scope g "pipelinerun" success.pipeline_name success.namespace w').0 ≡ ok n
      → let u = g.tables (pipeline_success (issue_service g) (ok success) w').1 in
        (i : Issue) × (u.issue l.issue.id ≡ some i) × (i.state ≡ "RESOLVED")
unfolding pipeline_failure pipeline_success
pipeline_success_resolves g laws env failure success w l n same_name same_namespace done resolved =
    let c = pipeline_issue env failure in
    let name = success.pipeline_name in
    let namespace = success.namespace in
    let w' = (store (issue_service g) c w).1 in
    let here : StandsFor (g.tables w') (problem_of (create c)) l.issue.id =
      subst (λ v. StandsFor (g.tables v) (problem_of (create c)) l.issue.id)
        (ap (λ p. p.1) (sym (store_step g laws c w)))
        (create_or_update-StandsFor g laws (create c) w l (IsPlain-pipeline_issue env failure)
          (stored_result g laws c w l done)) in
    let v = (resolve_by_scope g "pipelinerun" name namespace w').1 in
    let h : HasResolved "pipelinerun" name namespace (g.tables w') n (g.tables v) =
      subst (λ r. ResolvesOrFails "pipelinerun" name namespace (g.tables w') r (g.tables v))
        resolved (resolve_by_scope-ResolvesOrFails g laws "pipelinerun" name namespace w') in
    let h' : HasResolved "pipelinerun" failure.pipeline_name failure.namespace (g.tables w') n
        (g.tables v) =
      subst (λ k. HasResolved "pipelinerun" k failure.namespace (g.tables w') n (g.tables v))
        same_name
        (subst (λ k. HasResolved "pipelinerun" name k (g.tables w') n (g.tables v)) same_namespace
          h) in
    subst (λ x. (i : Issue) × ((g.tables x).issue l.issue.id ≡ some i) × (i.state ≡ "RESOLVED"))
      (sym (resolve_issues_world g "pipelinerun" name namespace w'))
      (resolved_after (problem_of (create c)) (g.tables w') (g.tables v) n l.issue.id here h')
