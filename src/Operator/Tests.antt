-- ===== src/Operator/Tests.antt =====
-- The reconciler run on a cluster with one run, and the theorems about it there.
use kkite.Prelude.{◌↔◌, ◌⊎◌, ◌≢◌, ℕ, suc, ◌≡◌, refl, some, true, false, [], ◌∷◌}
use kkite.Store.{ok}
use kkite.Operator.Controller.{
  PipelineRun, Cluster, done, get_failure_reason, determine_severity, reconcile, has_text, label,
}
use kkite.Operator.Reports.{determine_severity-IsUnknown, IsUnknown}

abbrev failed_build : PipelineRun
failed_build = record {
  name = "build-1";
  namespace = "team-a";
  uid = "u1";
  labels = ("pipelines.appstudio.openshift.io/type", "build") ∷ [];
  pipeline_ref = some "build";
  is_completed = true;
  conditions = record { kind = "Succeeded"; status = "False"; reason = ""; message = "" } ∷ [];
  child_references = record { kind = "TaskRun"; name = "t1"; pipeline_task_name = "clone" } ∷ [];
}

-- The world counts the reports; the cluster has the run and one failed task.
abbrev cluster : Cluster ℕ
cluster = record {
  get_pipeline_run = λ namespace name w. ok (some failed_build);
  get_task_run = λ name namespace w.
      some
        (record { kind = "Succeeded"; status = "False"; reason = "OOMKilled"; message = "" } ∷ []);
  report_pipeline_failure = λ payload w. (ok tt, suc w);
  report_pipeline_success = λ payload w. (ok tt, w);
}

abbrev idle_cluster : Cluster ℕ
idle_cluster = record cluster {
  get_pipeline_run = λ namespace name w. ok (some (record failed_build { is_completed = false }));
}

reported : reconcile cluster "team-a" "build-1" 0 ≡ (done, 1)
unfolding reconcile
reported = refl

reason_text : get_failure_reason cluster failed_build 0 ≡ "Failed pipeline tasks: clone: OOMKilled"
reason_text = refl

determine_severity-IsUnknown_example : IsUnknown (determine_severity failed_build) ↔ (
    (has_text failed_build.name "prod" ≡ false)
    × (has_text failed_build.name "production" ≡ false)
    × (label "appstudio.openshift.io/service" failed_build.labels ≢ some "release")
    × ((label "pipelines.appstudio.openshift.io/type" failed_build.labels ≡ some "build")
        ⊎ (label "pipelines.appstudio.openshift.io/type" failed_build.labels ≡ some "test")))
determine_severity-IsUnknown_example = determine_severity-IsUnknown failed_build
