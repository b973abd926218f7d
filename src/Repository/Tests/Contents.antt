-- ===== src/Repository/Tests/Contents.antt =====
-- What is stored of a request, and of a second one, at runs on the database in memory.
use kkite.Prelude.{is_some, String, ◌≡◌, ◌≢◌, refl, some, none, arith}
use kkite.Models.{IssueScope, LoadedIssue}
use kkite.Store.{ok}
use kkite.Store.Gorm.{clock}
use kkite.Store.Rows.{row_at, update_rows, delete_rows, matching, first}
use kkite.Store.Memory.{memory, first_issue, save_links, create_issue, create_link, transaction}
use kkite.Store.Memory.Saving.{memory_laws}
use kkite.Repository.Operations.{
  find_duplicate_in_tx, find_by_id, create_new_issue_in_tx, create_links, replace_issue_links,
  update_issue_scope_in_tx, update_links_if_given, update_scope_if_given, resolved_at_update,
  apply_updates, update_issue_in_tx, create_or_update_branch, create_or_update, update_found,
  update_issue,
}
use kkite.Repository.Invariant.{StandsFor, problem_of}
use kkite.Repository.Present.{IsPlain}
use kkite.Repository.Twice.{create_or_update_twice}
use kkite.Repository.Content.{
  HasContent, create_or_update-HasContent, IsPatched, update_issue-IsPatched,
}
use kkite.Prelude.{List}
use kkite.Models.{Link}
use kkite.Dto.{get_links}
use kkite.Store.{find_link}
use kkite.Store.Gorm.{SavesLinks, found_or}
use kkite.Repository.Tests.{
  empty, failure, one_issue, empty-IsSound, returned, issue_row, again, again_returned, resolving,
}

abbrev first_issue_returned : LoadedIssue
first_issue_returned = returned (create_or_update memory failure empty).0

first_returned : (create_or_update memory failure empty).0 ≡ ok (some first_issue_returned)
unfolding create_or_update find_duplicate_in_tx find_by_id create_new_issue_in_tx
    create_or_update_branch clock first_issue first matching row_at create_issue transaction
    save_links delete_rows update_issue_in_tx apply_updates resolved_at_update update_links_if_given
    replace_issue_links create_links create_link update_scope_if_given update_issue_scope_in_tx
    update_rows
first_returned = refl

failure-IsPlain : IsPlain failure
failure-IsPlain = record { no_state = refl; own_namespace = refl }

create_or_update_twice_example :
    (again.issue.id ≡ first_issue_returned.issue.id)
    × ((k : String)
        → is_some ((memory.tables (create_or_update memory failure one_issue).1).issue k)
          ≡ is_some ((memory.tables one_issue).issue k))
create_or_update_twice_example =
    create_or_update_twice memory memory_laws failure failure empty first_issue_returned again
      empty-IsSound failure-IsPlain refl first_returned again_returned

nothing_failed : (j : String) → ¬ (StandsFor (memory.tables empty) (problem_of failure) j)
unfolding row_at
nothing_failed j n = let e = n.stored in absurd (ground arith)

create_or_update-HasContent_example :
    ((memory.tables empty).issue first_issue_returned.issue.id ≡ none)
    × (s : IssueScope) × (first_issue_returned.scope ≡ some s)
    × HasContent failure first_issue_returned.issue s
    × (ls : List Link) × SavesLinks
        (memory.tables empty).link
        first_issue_returned.issue.id
        (get_links failure)
        ls
    × ((j : String)
        → (memory.tables (create_or_update memory failure empty).1).link j
          ≡ found_or (find_link j ls) ((memory.tables empty).link j))
create_or_update-HasContent_example =
    create_or_update-HasContent memory memory_laws failure empty first_issue_returned nothing_failed
      first_returned

abbrev resolved_issue : LoadedIssue
resolved_issue = returned (update_issue memory "id" resolving one_issue).0

one_issue_row : (memory.tables one_issue).issue "id" ≡ some (issue_row "id" one_issue)
unfolding create_or_update find_duplicate_in_tx find_by_id create_new_issue_in_tx
    create_or_update_branch clock first_issue first matching row_at create_issue transaction
    save_links delete_rows update_issue_in_tx apply_updates resolved_at_update update_links_if_given
    replace_issue_links create_links create_link update_scope_if_given update_issue_scope_in_tx
    update_rows
one_issue_row = refl

resolved_returned : (update_issue memory "id" resolving one_issue).0 ≡ ok (some resolved_issue)
unfolding create_or_update find_duplicate_in_tx find_by_id create_new_issue_in_tx
    create_or_update_branch clock first_issue first matching row_at create_issue transaction
    save_links delete_rows update_issue_in_tx apply_updates resolved_at_update update_links_if_given
    replace_issue_links create_links create_link update_scope_if_given update_issue_scope_in_tx
    update_rows update_issue update_found
resolved_returned = refl

update_issue-IsPatched_example :
    IsPatched resolving (issue_row "id" one_issue) resolved_issue.issue
    × ((j : String)
        → j ≢ "id"
        → (memory.tables (update_issue memory "id" resolving one_issue).1).issue j
          ≡ (memory.tables one_issue).issue j)
update_issue-IsPatched_example =
    update_issue-IsPatched memory memory_laws "id" resolving one_issue (issue_row "id" one_issue)
      resolved_issue one_issue_row resolved_returned
