-- ===== src/Repository/Tests.antt =====
-- The operations of issue_repository.go run on the database in memory, and the theorems about them
-- at such runs.
pub mod Resolved
pub mod Related
pub mod Contents
use kkite.Prelude.{
  is_some, Option, String, ◌≡◌, ◌≢◌, refl, some, none, [], ◌∷◌, length, arith, false, ◌==◌, eq_iff,
}
use kkite.Models.{Issue, IssueScope, LoadedIssue, zero_time}
use kkite.Models.IssueState
use kkite.Models.Severity
use kkite.Models.IssueType
use kkite.Dto.{CreateIssueRequest, IssuePayload, create, update, ScopeReqBody}
use kkite.Store.{Result, ok}
use kkite.Store.Gorm.{clock}
use kkite.Store.Rows.{row_at, update_rows, delete_rows, matching, first}
use kkite.Store.Memory.{
  Memory, memory, first_issue, pluck_ids, save_links, create_issue, create_link, create_related,
  transaction,
}
use kkite.Store.Memory.Saving.{memory_laws}
use kkite.Repository.Operations as Operations
use kkite.Repository.Operations.{
  find_duplicate_in_tx, find_by_id, create_new_issue_in_tx, create_links, replace_issue_links,
  update_issue_scope_in_tx, update_links_if_given, update_scope_if_given, resolved_at_update,
  apply_updates, update_issue_in_tx, find_duplicate, create_or_update_branch, create_or_update,
  create_branch, update_found, update_issue, delete_in_tx, delete_found, delete, resolve_ids,
  resolve_by_scope,
}
use kkite.Repository.Relations.{add_new, add_between, add_related_issue, remove_related_issue}
use kkite.Repository.Invariant.{IsSound, StandsFor, problem_of}
use kkite.Repository.CreateOrUpdate.{
  create_or_update-Reloads, create_or_update-IsSound, create-IsSound,
}
use kkite.Repository.Present.{IsPlain}
use kkite.Repository.Twice.{create_or_update_twice}
use kkite.Repository.Content.{
  HasContent, create_or_update-HasContent, IsPatched, update_issue-IsPatched,
}
use kkite.Repository.Resolve.{ResolvesOrFails, resolve_by_scope-ResolvesOrFails}
use kkite.Repository.Deletion.{DeletesOrFails, delete-DeletesOrFails, delete-IsSound}
use kkite.Repository.Updating.{ChangesOrFails, update_issue-ChangesOrFails}
use kkite.Repository.Relating.{IsSimple}
use kkite.Repository.Unrelating.{UnrelatesOrFails}
use kkite.Repository.Stores.{Reloads, Stores}

abbrev pub empty : Memory
empty = record { issues = []; scopes = []; links = []; relations = []; time = 1; ids = 0 }

abbrev pub build_scope : ScopeReqBody
build_scope = record {
  resource_type = "pipelinerun";
  resource_name = "build";
  resource_namespace = "";
}

abbrev pub failure_body : CreateIssueRequest
failure_body = record {
  title = "Pipeline run failed: build";
  description = "The pipeline run failed";
  severity = Severity.major;
  issue_type = IssueType.pipeline;
  state = "";
  namespace = "team-a";
  scope = build_scope;
  links = record { title = "Logs"; url = "https://logs/1" } ∷ [];
}

abbrev pub failure : IssuePayload
failure = create failure_body

abbrev pub resolved_failure : IssuePayload
resolved_failure = create (record failure_body { state = IssueState.resolved })

abbrev pub one_issue : Memory
one_issue = (create_or_update memory failure empty).1

pub empty-IsSound : IsSound (memory.tables empty)
unfolding row_at
empty-IsSound = record {
  consistent = record {
    has_scope = λ j i e. absurd (ground arith);
    own_scope = λ j k a b e f same. absurd (ground arith);
    has_issue = λ j l e. absurd (ground arith);
    has_source = λ j r e. absurd (ground arith);
    has_target = λ j r e. absurd (ground arith);
  };
  duplicate_free = λ p j k a b. let e = a.stored in absurd (ground arith);
}

one_issue_after : length one_issue.issues ≡ 1
unfolding create_or_update find_duplicate_in_tx find_by_id create_new_issue_in_tx
    create_or_update_branch clock first_issue first matching row_at create_issue transaction
    save_links delete_rows
one_issue_after = refl

create_or_update-Reloads_example :
    Reloads
      (Stores failure failure)
      (memory.tables one_issue)
      (create_or_update memory failure one_issue).0
      (memory.tables (create_or_update memory failure one_issue).1)
create_or_update-Reloads_example = create_or_update-Reloads memory memory_laws failure one_issue

create_or_update-IsSound_example : IsSound (memory.tables (create_or_update memory failure empty).1)
create_or_update-IsSound_example =
    create_or_update-IsSound memory memory_laws failure empty empty-IsSound

pub one_issue-IsSound : IsSound (memory.tables one_issue)
one_issue-IsSound = create_or_update-IsSound memory memory_laws failure empty empty-IsSound

-- The issue that a call returns.
abbrev pub returned : Result (Option LoadedIssue) → LoadedIssue
returned (ok (some l)) = l
returned _ = record {
  issue = record {
    id = "";
    title = "";
    description = "";
    severity = "";
    issue_type = "";
    state = "";
    detected_at = zero_time;
    resolved_at = none;
    namespace = "";
    scope_id = "";
    created_at = zero_time;
    updated_at = zero_time;
  };
  scope = none;
  links = [];
  related_from = [];
  related_to = [];
}

abbrev pub issue_row : String → Memory → Issue
issue_row id m = (returned (find_by_id memory id m).0).issue

one_issue-StandsFor : StandsFor (memory.tables one_issue) (problem_of failure) "id"
unfolding create_or_update find_duplicate_in_tx find_by_id create_new_issue_in_tx
    create_or_update_branch clock first_issue first matching row_at create_issue transaction
    save_links delete_rows update_issue_in_tx apply_updates resolved_at_update update_links_if_given
    replace_issue_links create_links create_link update_scope_if_given update_issue_scope_in_tx
    update_rows
one_issue-StandsFor = record {
  issue = issue_row "id" one_issue;
  stored = refl;
  namespace = refl;
  issue_type = refl;
  known_state = refl;
  scope = record {
    id = "id";
    resource_type = "pipelinerun";
    resource_name = "build";
    resource_namespace = "team-a";
  };
  scope_stored = refl;
  resource_type = refl;
  resource_name = refl;
  resource_namespace = refl;
}

abbrev pub again : LoadedIssue
again = returned (create_or_update memory failure one_issue).0

pub again_returned : (create_or_update memory failure one_issue).0 ≡ ok (some again)
unfolding create_or_update find_duplicate_in_tx find_by_id create_new_issue_in_tx
    create_or_update_branch clock first_issue first matching row_at create_issue transaction
    save_links delete_rows update_issue_in_tx apply_updates resolved_at_update update_links_if_given
    replace_issue_links create_links create_link update_scope_if_given update_issue_scope_in_tx
    update_rows
again_returned = refl

create-IsSound_example : IsSound (memory.tables (Operations.create memory failure one_issue).1)
create-IsSound_example = create-IsSound memory memory_laws failure one_issue one_issue-IsSound

delete-DeletesOrFails_example :
    DeletesOrFails "id"
      (memory.tables one_issue)
      (delete memory "id" one_issue).0
      (memory.tables (delete memory "id" one_issue).1)
delete-DeletesOrFails_example = delete-DeletesOrFails memory memory_laws "id" one_issue

delete-IsSound_example : IsSound (memory.tables (delete memory "id" one_issue).1)
delete-IsSound_example = delete-IsSound memory memory_laws "id" one_issue one_issue-IsSound

-- An update that resolves the issue.
abbrev pub resolving : IssuePayload
resolving = update (record {
  title = "";
  description = "";
  severity = "";
  issue_type = "";
  state = IssueState.resolved;
  namespace = "";
  scope = record { resource_type = ""; resource_name = ""; resource_namespace = "" };
  links = [];
  resolved_at = zero_time;
})

update_issue-ChangesOrFails_example :
    ChangesOrFails "id" resolving
      (memory.tables one_issue)
      (update_issue memory "id" resolving one_issue).0
      (memory.tables (update_issue memory "id" resolving one_issue).1)
update_issue-ChangesOrFails_example =
    update_issue-ChangesOrFails memory memory_laws "id" resolving one_issue
