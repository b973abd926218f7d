-- ===== src/Operator/Reports.antt =====
-- What the reconciler of pipelinerun_controller.go reports of a run that has failed.
use kkite.Prelude.{
  String, ◌≡◌, ◌≢◌, ◌⊎◌, refl, none, some, false, ◌==◌, ◌<>◌, List, [], ◌∷◌, contains, arith, inl,
  inr, Bool-cases, eq_iff, ◌↔◌, Option, Bool, true, ◌||◌, if◌then◌else◌, some_injective, sym, ap,
  ◌+◌, count, length-append, ◌∙◌,
}
use kkite.Models.Severity
use kkite.Store.{ok}
use kkite.Handlers.Replies.{join}
use kkite.Operator.Controller.{
  PipelineRun, Cluster, done, label, is_label, has_text, condition_reason, failed_tasks,
  tasks_reason, get_failure_reason, determine_severity, reconcile,
}

failed_text : (s : String) → "Failed pipeline tasks: " <> s ≢ ""
failed_text s e =
    let total : 23 + count s ≡ 0 = sym (length-append "Failed pipeline tasks: " s) ∙ ap count e in
    omega arith

reason_of_tasks : {W : Type 0} (c : Cluster W) (tasks : List String) → tasks_reason c tasks ≢ ""
reason_of_tasks c [] e = ground (arith, eq_iff "PipelineRun failed with unknown reason" "")
reason_of_tasks c (t ∷ ts) e = failed_text (join ", " (t ∷ ts)) e

-- The payload of a failure always has a reason, as the webhook requires: where neither the conditions
-- of the run nor its tasks give one, a default stands for it.
pub get_failure_reason_given :
    {W : Type 0} (c : Cluster W) (pr : PipelineRun) (w : W) → get_failure_reason c pr w ≢ ""
get_failure_reason_given c pr w e = elim (Bool-cases (condition_reason pr.conditions == "")) [
  | inl nothing ↦
      let tasks = failed_tasks c pr.namespace pr.child_references w in
      let same : tasks_reason c tasks ≡ "" = rw nothing at e in reason_of_tasks c tasks same
  | inr given ↦
      let same : condition_reason pr.conditions ≡ "" = rw given at e in
      ground (arith, eq_iff (condition_reason pr.conditions) "")
]

is_label_iff : (o : Option String) (value : String) → (is_label o value ≡ true) ↔ (o ≡ some value)
is_label_iff none value = (λ e. absurd (ground arith), λ e. absurd (ground arith))
is_label_iff (some v) value =
    (λ e. ap some ((eq_iff v value).0 e), λ e. (eq_iff v value).1 (some_injective e))

-- The severity is none of those that the backend knows.
abbrev pub IsUnknown : String → Type 0
IsUnknown severity =
    contains (Severity.info ∷ Severity.minor ∷ Severity.major ∷ Severity.critical ∷ []) severity
    ≡ false

severity-IsUnknown :
    (production release built : Bool)
    → IsUnknown (
        if production
        then "major"
        else if release
        then "critical"
        else if built
        then "medium"
        else "major")
      ↔ ((production ≡ false) × (release ≡ false) × (built ≡ true))
severity-IsUnknown true release built = (λ e. absurd (ground arith), λ h. absurd (ground arith))
severity-IsUnknown false true built = (λ e. absurd (ground arith), λ h. absurd (ground arith))
severity-IsUnknown false false true = (λ e. (refl, refl, refl), λ h. refl)
severity-IsUnknown false false false = (λ e. absurd (ground arith), λ h. absurd (ground arith))

-- A failed run is reported with a severity that is none of those that the backend knows just where its name has
-- neither "prod" nor "production" in it, its service is not a release, and its type is build or test.
pub determine_severity-IsUnknown :
    (pr : PipelineRun)
    → IsUnknown (determine_severity pr) ↔ (
        (has_text pr.name "prod" ≡ false)
        × (has_text pr.name "production" ≡ false)
        × (label "appstudio.openshift.io/service" pr.labels ≢ some "release")
        × ((label "pipelines.appstudio.openshift.io/type" pr.labels ≡ some "build")
            ⊎ (label "pipelines.appstudio.openshift.io/type" pr.labels ≡ some "test")))
determine_severity-IsUnknown pr =
    let service = label "appstudio.openshift.io/service" pr.labels in
    let kind = label "pipelines.appstudio.openshift.io/type" pr.labels in
    let unknown =
      severity-IsUnknown (has_text pr.name "prod" || has_text pr.name "production")
        (is_label service "release") (is_label kind "build" || is_label kind "test") in
    (
      λ e. ground (
        arith,
        unknown.0 e,
        is_label_iff service "release",
        is_label_iff kind "build",
        is_label_iff kind "test",
      ),
      λ h. unknown.1 (
          ground (
            arith,
            h,
            is_label_iff service "release",
            is_label_iff kind "build",
            is_label_iff kind "test",
          )),
    )

-- The run is reported only where it has completed and has a condition that says how it ended; a run
-- that is not there, or has not, changes nothing and is not tried again.
pub reconcile_silent :
    {W : Type 0} (c : Cluster W) (namespace name : String) (w : W)
    → (c.get_pipeline_run namespace name w ≡ ok none)
      ⊎ ((pr : PipelineRun) × (c.get_pipeline_run namespace name w ≡ ok (some pr))
          × ((pr.is_completed ≡ false) ⊎ (pr.conditions ≡ [])))
    → reconcile c namespace name w ≡ (done, w)
unfolding reconcile
reconcile_silent c namespace name w (inl missing) = rw missing refl
reconcile_silent c namespace name w (inr (pr, found, inl running)) = rw (found, running) refl
reconcile_silent c namespace name w (inr (pr, found, inr nothing)) =
    elim (Bool-cases pr.is_completed) [
      | inl completed ↦ rw (found, nothing, completed) refl
      | inr running ↦ rw (found, running) refl
    ]
