-- ===== src/Handlers/Tests.antt =====
-- The handlers run on the database in memory, and the theorems about them at such runs.
use kkite.Prelude.{String, ◌≡◌, ◌≢◌, refl, some, none, is_some, [], ◌∷◌, arith, ◌==◌, false, eq_iff}
use kkite.Models.{Issue, LoadedIssue, zero_time}
use kkite.Models.IssueType
use kkite.Dto.{CreateIssueRequest, UpdateIssueRequest}
use kkite.Store.{ok}
use kkite.Store.Gorm.{clock}
use kkite.Store.Rows.{row_at, update_rows, delete_rows, matching, first}
use kkite.Store.Memory.{
  Memory, memory, first_issue, pluck_ids, save_links, create_issue, create_link, transaction,
}
use kkite.Store.Memory.Saving.{memory_laws}
use kkite.Repository.Operations.{
  find_duplicate_in_tx, find_by_id, create_new_issue_in_tx, create_links, replace_issue_links,
  update_issue_scope_in_tx, update_links_if_given, update_scope_if_given, resolved_at_update,
  apply_updates, update_issue_in_tx, create_or_update_branch, create_or_update, resolve_ids,
  resolve_by_scope,
}
use kkite.Repository.Tests.{empty, empty-IsSound, one_issue}
use kkite.Service.{IssueService, issue_service}
use kkite.Handlers.Replies.{Reply, reply, object, issue, decimal}
use kkite.Handlers.Webhooks.{
  PipelineFailureRequest, PipelineSuccessRequest, MintmakerRequest, ReleaseFailureRequest,
  ReleaseSuccessRequest, pipeline_failure, pipeline_success,
}
use kkite.Handlers.Failures.{created, pipeline_failure_twice}
use kkite.Handlers.Successes.{pipeline_success_isolated, pipeline_success_resolves}
use kkite.Handlers.Issues as Issues
use kkite.Handlers.Changing.{DeleteAnswer, delete_issue-DeleteAnswer}

abbrev service : IssueService Memory
service = issue_service memory

-- No variable is set.
abbrev no_env : String → String
no_env key = ""

abbrev build_failed : PipelineFailureRequest
build_failed = record {
  pipeline_name = "build";
  namespace = "team-a";
  severity = "";
  failure_reason = "timeout";
  run_id = "1";
  logs_url = "";
}

abbrev build_failed_again : PipelineFailureRequest
build_failed_again = record build_failed { failure_reason = "no memory"; severity = "critical" }

abbrev build_passed : PipelineSuccessRequest
build_passed = record { pipeline_name = "build"; namespace = "team-a" }

abbrev issue_in : Reply → LoadedIssue
issue_in (reply _ (object (_ ∷ (_, issue l) ∷ _))) = l
issue_in _ = record {
  issue = record {
    id = "";
    title = "";
    description = "";
    severity = "";
    issue_type = "";
    state = "";
    detected_at = zero_time;
    resolved_at = none;
    namespace = "";
    scope_id = "";
    created_at = zero_time;
    updated_at = zero_time;
  };
  scope = none;
  links = [];
  related_from = [];
  related_to = [];
}

abbrev failed_once : Memory
failed_once = (pipeline_failure service no_env (ok build_failed) empty).1

abbrev first_failure : LoadedIssue
first_failure = issue_in (pipeline_failure service no_env (ok build_failed) empty).0

abbrev second_failure : LoadedIssue
second_failure = issue_in (pipeline_failure service no_env (ok build_failed_again) failed_once).0

decimal_106 : decimal 106 ≡ "106"
decimal_106 = refl

first_created : (pipeline_failure service no_env (ok build_failed) empty).0 ≡ created first_failure
unfolding create_or_update find_duplicate_in_tx find_by_id create_new_issue_in_tx
    create_or_update_branch clock first_issue first matching row_at create_issue transaction
    save_links delete_rows update_issue_in_tx apply_updates resolved_at_update update_links_if_given
    replace_issue_links create_links create_link update_scope_if_given update_issue_scope_in_tx
    update_rows pipeline_failure
first_created = refl

second_created :
    (pipeline_failure service no_env (ok build_failed_again) failed_once).0 ≡ created second_failure
unfolding create_or_update find_duplicate_in_tx find_by_id create_new_issue_in_tx
    create_or_update_branch clock first_issue first matching row_at create_issue transaction
    save_links delete_rows update_issue_in_tx apply_updates resolved_at_update update_links_if_given
    replace_issue_links create_links create_link update_scope_if_given update_issue_scope_in_tx
    update_rows pipeline_failure
second_created = refl

abbrev release_failed : ReleaseFailureRequest
release_failed = record {
  application = "app";
  namespace = "team-a";
  failure_phase = "Validation";
  release_name = "r1";
  pipeline_run_url = "";
}

pipeline_failure_twice_example :
    (second_failure.issue.id ≡ first_failure.issue.id)
    × ((k : String)
        → is_some (
            (memory.tables
                (pipeline_failure service no_env (ok build_failed_again) failed_once).1).issue
              k)
          ≡ is_some ((memory.tables failed_once).issue k))
pipeline_failure_twice_example =
    pipeline_failure_twice memory memory_laws no_env build_failed build_failed_again empty
      first_failure second_failure empty-IsSound refl refl first_created second_created

abbrev mintmaker_logs : MintmakerRequest
mintmaker_logs = record {
  pipeline_id = "repo/main";
  namespace = "team-a";
  kind = "warning";
  logs = "one" ∷ "two" ∷ [];
}

abbrev app_released : ReleaseSuccessRequest
app_released = record { application = "app"; namespace = "team-a" }

abbrev other_passed : PipelineSuccessRequest
other_passed = record { pipeline_name = "build"; namespace = "team-b" }

failed_row : (memory.tables failed_once).issue "id" ≡ some first_failure.issue
unfolding create_or_update find_duplicate_in_tx find_by_id create_new_issue_in_tx
    create_or_update_branch clock first_issue first matching row_at create_issue transaction
    save_links delete_rows update_issue_in_tx apply_updates resolved_at_update update_links_if_given
    replace_issue_links create_links create_link update_scope_if_given update_issue_scope_in_tx
    update_rows pipeline_failure
failed_row = refl

differ : (a b : String) → (a == b) ≡ false → a ≢ b
differ a b h e = ground (arith, eq_iff a b)

failed_elsewhere : first_failure.issue.namespace ≢ "team-b"
unfolding create_or_update find_duplicate_in_tx find_by_id create_new_issue_in_tx
    create_or_update_branch clock first_issue first matching row_at create_issue transaction
    save_links delete_rows update_issue_in_tx apply_updates resolved_at_update update_links_if_given
    replace_issue_links create_links create_link update_scope_if_given update_issue_scope_in_tx
    update_rows pipeline_failure
failed_elsewhere = differ "team-a" "team-b" refl

pipeline_success_isolated_example :
    (memory.tables (pipeline_success service (ok other_passed) failed_once).1).issue "id"
    ≡ some first_failure.issue
pipeline_success_isolated_example =
    pipeline_success_isolated memory memory_laws other_passed failed_once "id" first_failure.issue
      failed_row failed_elsewhere

resolved_one : (resolve_by_scope memory "pipelinerun" "build" "team-a" failed_once).0 ≡ ok 1
unfolding create_or_update find_duplicate_in_tx find_by_id create_new_issue_in_tx
    create_or_update_branch clock first_issue first matching row_at create_issue transaction
    save_links delete_rows update_issue_in_tx apply_updates resolved_at_update update_links_if_given
    replace_issue_links create_links create_link update_scope_if_given update_issue_scope_in_tx
    update_rows pipeline_failure resolve_by_scope resolve_ids pluck_ids
resolved_one = refl

pipeline_success_resolves_example :
    (i : Issue) × ((memory.tables (pipeline_success service (ok build_passed) failed_once).1).issue
        first_failure.issue.id
      ≡ some i)
    × (i.state ≡ "RESOLVED")
pipeline_success_resolves_example =
    pipeline_success_resolves memory memory_laws no_env build_failed build_passed empty
      first_failure 1 refl refl first_created resolved_one

delete_issue-DeleteAnswer_example :
    DeleteAnswer "id" "team-a"
      (memory.tables one_issue)
      (Issues.delete_issue service "id" "team-a" one_issue).0
      (memory.tables (Issues.delete_issue service "id" "team-a" one_issue).1)
delete_issue-DeleteAnswer_example =
    delete_issue-DeleteAnswer memory memory_laws "id" "team-a" one_issue

abbrev retitled : UpdateIssueRequest
retitled = record {
  title = "Still failing";
  description = "";
  severity = "";
  issue_type = "";
  state = "";
  namespace = "";
  scope = record { resource_type = ""; resource_name = ""; resource_namespace = "" };
  links = [];
  resolved_at = zero_time;
}

abbrev wrong_severity : CreateIssueRequest
wrong_severity = record {
  title = "Broken";
  description = "It broke";
  severity = "medium";
  issue_type = IssueType.build;
  state = "";
  namespace = "team-a";
  scope = record { resource_type = "component"; resource_name = "api"; resource_namespace = "" };
  links = [];
}
