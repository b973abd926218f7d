-- ===== src/Handlers/Webhooks.antt =====
-- The webhooks of packages/backend/internal/handlers/http/webhook_handlers.go. The environment that
-- they read is a function from the names of its variables, "" for one that is not set.
use kkite.Prelude.{ℕ, String, Option, none, some, List, [], ◌∷◌, ◌<>◌, ◌==◌, length, if◌then◌else◌}
use kkite.Models.{LoadedIssue}
use kkite.Models.Severity
use kkite.Models.IssueType
use kkite.Dto.{CreateIssueRequest}
use kkite.Store.{Result, ok, err}
use kkite.Service.{IssueService}
use kkite.Handlers.Replies.{Reply, reply, panic, object, text, issue, Handler, error, decimal, join}

pub record PipelineFailureRequest : Type 0 where
  pub pipeline_name : String
  pub namespace : String
  pub severity : String
  pub failure_reason : String
  pub run_id : String
  pub logs_url : String

pub record PipelineSuccessRequest : Type 0 where
  pub pipeline_name : String
  pub namespace : String

pub record MintmakerRequest : Type 0 where
  pub pipeline_id : String
  pub namespace : String
  pub kind : String
  pub logs : List String

pub record ReleaseFailureRequest : Type 0 where
  pub application : String
  pub namespace : String
  pub failure_phase : String
  pub release_name : String
  pub pipeline_run_url : String

pub record ReleaseSuccessRequest : Type 0 where
  pub application : String
  pub namespace : String

-- `GetEnvOrDefault` of packages/backend/internal/config/config.go.
abbrev pub get_env_or_default : (String → String) → String → String → String
get_env_or_default env key default_value = if env key == "" then default_value else env key

abbrev logs_url_of : (String → String) → PipelineFailureRequest → String
logs_url_of env req =
    if req.logs_url == ""
    then get_env_or_default env "KITE_CLUSTER_URL" "https://konflux.dev"
      <> get_env_or_default env "KITE_LOGS_ENDPOINT" "/logs/pipelineruns/"
      <> req.run_id
    else req.logs_url

abbrev pub pipeline_issue : (String → String) → PipelineFailureRequest → CreateIssueRequest
pipeline_issue env req = record {
  title = "Pipeline run failed: " <> req.pipeline_name;
  description =
      "The pipeline run " <> req.pipeline_name <> " failed with reason: " <> req.failure_reason;
  severity = if req.severity == "" then Severity.major else req.severity;
  issue_type = IssueType.pipeline;
  state = "";
  namespace = req.namespace;
  scope = record {
    resource_type = "pipelinerun";
    resource_name = req.pipeline_name;
    resource_namespace = req.namespace;
  };
  links = record { title = "Pipeline Run Logs"; url = logs_url_of env req } ∷ [];
}

abbrev pub mintmaker_severity : String → String
mintmaker_severity kind =
    if kind == "error"
    then Severity.major
    else if kind == "warning"
    then Severity.minor
    else Severity.info

abbrev pub mintmaker_issue : MintmakerRequest → CreateIssueRequest
mintmaker_issue req = record {
  title = "Mintmaker " <> req.kind <> "(" <> decimal (length req.logs) <> "): " <> req.pipeline_id;
  description = join "\n--------------------------------\n" req.logs;
  severity = mintmaker_severity req.kind;
  issue_type = IssueType.dependency;
  state = "";
  namespace = req.namespace;
  scope = record {
    resource_type = "mintmaker-" <> req.kind;
    resource_name = req.pipeline_id;
    resource_namespace = req.namespace;
  };
  links =
      record { title = "Mintmaker docs"; url = "https://konflux-ci.dev/docs/mintmaker/user/" }
      ∷ record {
        title = "Renovate docs";
        url = "https://docs.renovatebot.com/configuration-options/";
      }
      ∷ [];
}

abbrev pub release_issue : ReleaseFailureRequest → CreateIssueRequest
release_issue req = record {
  title = "Release " <> req.release_name <> " failed for application " <> req.application;
  description =
      if req.pipeline_run_url == ""
      then "The release failed in phase: " <> req.failure_phase
      else "The release failed in phase: " <> req.failure_phase <> ". Link to logs: "
        <> req.pipeline_run_url;
  severity = Severity.major;
  issue_type = IssueType.release;
  state = "";
  namespace = req.namespace;
  scope = record {
    resource_type = "application";
    resource_name = req.application;
    resource_namespace = req.namespace;
  };
  links = [];
}

abbrev pub missing_fields : String → Reply
missing_fields e =
    reply 400 (object (("error", text "Missing required fields") ∷ ("details", text e) ∷ []))

-- The answer to a failure, after `CreateOrUpdateIssue`; `issue.ID` is read for the log.
abbrev pub stored_answer : Result (Option LoadedIssue) → Reply
stored_answer (err e) = error 500 "Failed to process webhook"
stored_answer (ok none) = panic
stored_answer (ok (some l)) =
    reply 201 (object (("status", text "success") ∷ ("issue", issue l) ∷ []))

-- The answer to a success, after `ResolveIssuesByScope`.
abbrev pub resolved_answer : String → String → Result ℕ → Reply
resolved_answer kind name (err e) = error 500 ("Failed to resolve " <> kind <> " issues")
resolved_answer kind name (ok n) = reply 200 (
    object (
      ("status", text "success")
      ∷ ("message", text ("Resolved " <> decimal n <> " issue(s) for " <> kind <> " " <> name))
      ∷ []))

module _ {W : Type 0} (s : IssueService W) where
  abbrev pub store : CreateIssueRequest → Handler W
  store c w = let (r, w') = s.create_or_update_issue c w in (stored_answer r, w')

  abbrev pub resolve : String → String → String → String → Handler W
  resolve kind resource_type name namespace w =
      let (r, w') = s.resolve_issues_by_scope resource_type name namespace w in
      (resolved_answer kind name r, w')

  unfoldable pub pipeline_failure : (String → String) → Result PipelineFailureRequest → Handler W
  pipeline_failure env (err e) w = (missing_fields e, w)
  pipeline_failure env (ok req) w = store (pipeline_issue env req) w

  unfoldable pub pipeline_success : Result PipelineSuccessRequest → Handler W
  pipeline_success (err e) w = (missing_fields e, w)
  pipeline_success (ok req) w = resolve "pipeline" "pipelinerun" req.pipeline_name req.namespace w

  abbrev pub mintmaker_with : MintmakerRequest → List String → Handler W
  mintmaker_with req [] w =
      (reply 200 (object (("info", text "No logs provided, no issue created") ∷ [])), w)
  mintmaker_with req (l ∷ ls) w = store (mintmaker_issue req) w

  unfoldable pub mintmaker_issues : Result MintmakerRequest → Handler W
  mintmaker_issues (err e) w = (missing_fields e, w)
  mintmaker_issues (ok req) w = mintmaker_with req req.logs w

  unfoldable pub release_failure : Result ReleaseFailureRequest → Handler W
  release_failure (err e) w = (missing_fields e, w)
  release_failure (ok req) w = store (release_issue req) w

  unfoldable pub release_success : Result ReleaseSuccessRequest → Handler W
  release_success (err e) w = (missing_fields e, w)
  release_success (ok req) w = resolve "application" "application" req.application req.namespace w
