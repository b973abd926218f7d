-- ===== src/Repository/Tests/Related.antt =====
-- Related issues, at runs on the database in memory.
use kkite.Prelude.{◌≡◌, refl}
use kkite.Dto.{create}
use kkite.Store.{ok}
use kkite.Store.Gorm.{clock}
use kkite.Store.Rows.{row_at, update_rows, delete_rows, matching, first}
use kkite.Store.Memory.{
  Memory, memory, first_issue, save_links, create_issue, create_link, create_related, transaction,
}
use kkite.Repository.Operations.{
  find_duplicate_in_tx, find_by_id, create_new_issue_in_tx, create_links, replace_issue_links,
  update_issue_scope_in_tx, update_links_if_given, update_scope_if_given, resolved_at_update,
  apply_updates, update_issue_in_tx, create_or_update_branch, create_or_update,
}
use kkite.Repository.Relations.{add_new, add_between, add_related_issue}
use kkite.Repository.Tests.{build_scope, failure_body, one_issue}

-- Two issues for two problems.
abbrev two_issues : Memory
two_issues =
    (create_or_update memory
      (create (record failure_body { scope = record build_scope { resource_name = "test" } }))
      one_issue).1

related : (add_related_issue memory "id" "iiid" two_issues).0 ≡ ok tt
unfolding create_or_update find_duplicate_in_tx find_by_id create_new_issue_in_tx
    create_or_update_branch clock first_issue first matching row_at create_issue transaction
    save_links delete_rows update_issue_in_tx apply_updates resolved_at_update update_links_if_given
    replace_issue_links create_links create_link update_scope_if_given update_issue_scope_in_tx
    update_rows add_related_issue add_between add_new create_related
related = refl

abbrev two_related : Memory
two_related = (add_related_issue memory "id" "iiid" two_issues).1
