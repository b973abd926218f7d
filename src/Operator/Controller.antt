-- ===== src/Operator/Controller.antt =====
-- The reconciler of packages/operator/internal/controller/pipelinerun_controller.go and the payloads
-- of packages/operator/internal/clients/kite.go. The cluster and the client of the backend are a
-- parameter. A nil slice of conditions or references is the empty list: both are only ranged over.
use kkite.Prelude.{
  String, Option, none, some, is_some, Bool, true, false, ◌&&◌, ◌||◌, ◌==◌, ◌<>◌, List, [], ◌∷◌,
  if◌then◌else◌, find?,
}
use kkite.Store.{Action, Result, ok, err}
use kkite.Handlers.Replies.{join}

pub record Condition : Type 0 where
  pub kind : String
  pub status : String
  pub reason : String
  pub message : String

pub record ChildReference : Type 0 where
  pub kind : String
  pub name : String
  pub pipeline_task_name : String

pub record PipelineRun : Type 0 where
  pub name : String
  pub namespace : String
  pub uid : String
  pub labels : List (String × String)
  pub pipeline_ref : Option String
  pub is_completed : Bool
  pub conditions : List Condition
  pub child_references : List ChildReference

pub record PipelineFailurePayload : Type 0 where
  pub pipeline_name : String
  pub namespace : String
  pub failure_reason : String
  pub run_id : String
  pub severity : String

pub record PipelineSuccessPayload : Type 0 where
  pub pipeline_name : String
  pub namespace : String

-- `ok none` is a run that is not found. Of a task run the conditions of its status are read, and
-- `none` stands for any error.
pub record Cluster (W : Type 0) : Type 0 where
  pub get_pipeline_run : String → String → W → Result (Option PipelineRun)
  pub get_task_run : String → String → W → Option (List Condition)
  pub report_pipeline_failure : PipelineFailurePayload → Action W (Unit {0})
  pub report_pipeline_success : PipelineSuccessPayload → Action W (Unit {0})

-- What `Reconcile` returns: whether to run again in two minutes, and the error.
pub record Outcome : Type 0 where
  pub requeue : Bool
  pub error : Option String

abbrev pub done : Outcome
done = record { requeue = false; error = none }

abbrev pub retry : String → Outcome
retry message = record { requeue = true; error = some message }

abbrev pub label : String → List (String × String) → Option String
label key [] = none
label key ((k, v) ∷ rest) = if k == key then some v else label key rest

abbrev pub has_failed : Condition → Bool
has_failed c = c.kind == "Succeeded" && c.status == "False"

abbrev pub status_of : List Condition → String
status_of [] = "unknown"
status_of (c ∷ rest) =
    if c.kind == "Succeeded" && c.status == "True"
    then "succeeded"
    else if has_failed c
    then "failed"
    else status_of rest

abbrev or_name : PipelineRun → Option String → String
or_name pr none = pr.name
or_name pr (some name) = name

abbrev pub get_pipeline_name : PipelineRun → String
get_pipeline_name pr = elim pr.pipeline_ref [
  | none ↦ or_name pr (label "tekton.dev/pipeline" pr.labels)
  | some name ↦ if name == "" then or_name pr (label "tekton.dev/pipeline" pr.labels) else name
]

-- The first message or reason of a condition that says the run has failed, "" if there is none.
abbrev pub condition_reason : List Condition → String
condition_reason [] = ""
condition_reason (c ∷ rest) =
    if has_failed c
    then if c.message == ""
      then if c.reason == "" then condition_reason rest else c.reason
      else c.message
    else condition_reason rest

abbrev pub is_task_run_failed : List Condition → Bool
is_task_run_failed [] = false
is_task_run_failed (c ∷ rest) = has_failed c || is_task_run_failed rest

abbrev task_text : ChildReference → String → String
task_text child reason =
    if reason == ""
    then child.pipeline_task_name <> ": could not determine reason for failure."
    else child.pipeline_task_name <> ": " <> reason

abbrev failed_task : ChildReference → Option (List Condition) → List String → List String
failed_task child none rest = rest
failed_task child (some conditions) rest =
    if is_task_run_failed conditions
    then task_text child (condition_reason conditions) ∷ rest
    else rest

abbrev pub has_text : String → String → Bool
has_text s t = is_some (find? s t)

abbrev pub is_label : Option String → String → Bool
is_label none value = false
is_label (some v) value = v == value

abbrev pub determine_severity : PipelineRun → String
determine_severity pr =
    if has_text pr.name "prod" || has_text pr.name "production"
    then "major"
    else if is_label (label "appstudio.openshift.io/service" pr.labels) "release"
    then "critical"
    else if is_label (label "pipelines.appstudio.openshift.io/type" pr.labels) "build"
        || is_label (label "pipelines.appstudio.openshift.io/type" pr.labels) "test"
    then "medium"
    else "major"

module _ {W : Type 0} (c : Cluster W) where
  abbrev pub failed_tasks : String → List ChildReference → W → List String
  failed_tasks namespace [] w = []
  failed_tasks namespace (child ∷ rest) w =
      let others = failed_tasks namespace rest w in
      if child.kind == "TaskRun" && (if child.name == "" then false else true)
      then failed_task child (c.get_task_run child.name namespace w) others
      else others

  abbrev pub tasks_reason : List String → String
  tasks_reason [] = "PipelineRun failed with unknown reason"
  tasks_reason (t ∷ ts) = "Failed pipeline tasks: " <> join ", " (t ∷ ts)

  abbrev pub get_failure_reason : PipelineRun → W → String
  get_failure_reason pr w =
      let reason = condition_reason pr.conditions in
      if reason == ""
      then tasks_reason (failed_tasks pr.namespace pr.child_references w)
      else reason

  abbrev pub failure_payload : PipelineRun → W → PipelineFailurePayload
  failure_payload pr w = record {
    pipeline_name = get_pipeline_name pr;
    namespace = pr.namespace;
    failure_reason = get_failure_reason pr w;
    run_id = pr.uid;
    severity = determine_severity pr;
  }

  abbrev pub outcome : String → Result (Unit {0}) × W → Outcome × W
  outcome message (ok _, w) = (done, w)
  outcome message (err e, w) = (retry message, w)

  abbrev pub handle_failure : PipelineRun → W → Outcome × W
  handle_failure pr w =
      outcome "failed to report pipeline failure from controller"
        (c.report_pipeline_failure (failure_payload pr w) w)

  abbrev pub handle_success : PipelineRun → W → Outcome × W
  handle_success pr w = outcome "failed to report pipeline success from controller" (
      c.report_pipeline_success
        (record { pipeline_name = get_pipeline_name pr; namespace = pr.namespace }) w)

  abbrev pub reconcile_run : Result (Option PipelineRun) → W → Outcome × W
  reconcile_run (err e) w = (record { requeue = false; error = some e }, w)
  reconcile_run (ok none) w = (done, w)
  reconcile_run (ok (some pr)) w =
      let status = status_of pr.conditions in
      if pr.is_completed
      then if status == "failed"
        then handle_failure pr w
        else if status == "succeeded"
        then handle_success pr w
        else (done, w)
      else (done, w)

  unfoldable pub reconcile : String → String → W → Outcome × W
  reconcile namespace name w = reconcile_run (c.get_pipeline_run namespace name w) w
