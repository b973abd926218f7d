-- ===== src/Repository/Tests/Resolved.antt =====
-- Issues that are resolved, at runs on the database in memory.
use kkite.Prelude.{◌≡◌, refl}
use kkite.Models.{LoadedIssue}
use kkite.Models.IssueState
use kkite.Dto.{IssuePayload, create}
use kkite.Store.{ok}
use kkite.Store.Gorm.{clock}
use kkite.Store.Rows.{row_at, update_rows, delete_rows, matching, first}
use kkite.Store.Memory.{
  Memory, memory, first_issue, pluck_ids, save_links, create_issue, create_link, transaction,
}
use kkite.Store.Memory.Saving.{memory_laws}
use kkite.Repository.Operations.{
  find_duplicate_in_tx, find_by_id, create_new_issue_in_tx, create_links, replace_issue_links,
  update_issue_scope_in_tx, update_links_if_given, update_scope_if_given, resolved_at_update,
  apply_updates, update_issue_in_tx, create_or_update_branch, create_or_update, resolve_ids,
  resolve_by_scope,
}
use kkite.Repository.Resolve.{ResolvesOrFails, resolve_by_scope-ResolvesOrFails}
use kkite.Repository.Tests.{
  empty, build_scope, failure_body, failure, resolved_failure, one_issue, returned,
}

-- An issue that was resolved, and the same failure after that.
abbrev one_resolved : Memory
one_resolved = (create_or_update memory resolved_failure empty).1

abbrev after_resolved : LoadedIssue
after_resolved = returned (create_or_update memory failure one_resolved).0

-- A failure whose scope is in another namespace.
abbrev foreign : IssuePayload
foreign =
    create (record failure_body { scope = record build_scope { resource_namespace = "team-b" } })

abbrev foreign_issue : LoadedIssue
foreign_issue = returned (create_or_update memory foreign empty).0

resolve_by_scope-ResolvesOrFails_example :
    ResolvesOrFails "pipelinerun" "build" "team-a"
      (memory.tables one_issue)
      (resolve_by_scope memory "pipelinerun" "build" "team-a" one_issue).0
      (memory.tables (resolve_by_scope memory "pipelinerun" "build" "team-a" one_issue).1)
resolve_by_scope-ResolvesOrFails_example =
    resolve_by_scope-ResolvesOrFails memory memory_laws "pipelinerun" "build" "team-a" one_issue

abbrev resolved_once : Memory
resolved_once = (resolve_by_scope memory "pipelinerun" "build" "team-a" one_issue).1

one_resolved_count : (resolve_by_scope memory "pipelinerun" "build" "team-a" one_issue).0 ≡ ok 1
unfolding create_or_update find_duplicate_in_tx find_by_id create_new_issue_in_tx
    create_or_update_branch clock first_issue first matching row_at create_issue transaction
    save_links delete_rows update_issue_in_tx apply_updates resolved_at_update update_links_if_given
    replace_issue_links create_links create_link update_scope_if_given update_issue_scope_in_tx
    update_rows resolve_by_scope resolve_ids pluck_ids
one_resolved_count = refl

none_resolved_count :
    (resolve_by_scope memory "pipelinerun" "build" "team-a" resolved_once).0 ≡ ok 0
unfolding create_or_update find_duplicate_in_tx find_by_id create_new_issue_in_tx
    create_or_update_branch clock first_issue first matching row_at create_issue transaction
    save_links delete_rows update_issue_in_tx apply_updates resolved_at_update update_links_if_given
    replace_issue_links create_links create_link update_scope_if_given update_issue_scope_in_tx
    update_rows resolve_by_scope resolve_ids pluck_ids
none_resolved_count = refl
