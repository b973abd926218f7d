-- ===== src/Handlers/Listing/Tests.antt =====
-- The list of issues on the database in memory.
use kkite.Prelude.{ℕ, String, ◌≡◌, refl, Option, some, List, [], ◌∷◌, ◌==◌, if◌then◌else◌, length}
use kkite.Config.{ℤ, pos}
use kkite.Store.Rows.{row_at, matching, first, delete_rows}
use kkite.Store.Gorm.{clock}
use kkite.Store.Sorting.{insert, sort}
use kkite.Store.Memory.{memory, first_issue, create_issue, transaction, count_issues, find_issues}
use kkite.Repository.Filters.{find_all}
use kkite.Repository.Operations.{
  create_or_update, find_duplicate_in_tx, create_or_update_branch, create_new_issue_in_tx,
  find_by_id,
}
use kkite.Repository.Tests.{one_issue}
use kkite.Service.{issue_service}
use kkite.Handlers.Replies.{Reply, reply, document, page}
use kkite.Handlers.Listing.{get_issues}

-- Every number is read as 2.
abbrev two : String → Option ℤ
two value = some (pos 2)

abbrev in_team : String → String → String
in_team team name = if name == "namespace" then team else ""

abbrev totals : Reply → List ℕ
totals (reply code (document (page p))) = code ∷ p.total ∷ length p.issues ∷ p.limit ∷ []
totals r = []

one_found :
    totals (get_issues (issue_service memory) two (in_team "team-a") one_issue).0
    ≡ 200 ∷ 1 ∷ 1 ∷ 50 ∷ []
unfolding get_issues find_all count_issues find_issues matching insert sort row_at delete_rows
    create_or_update transaction find_duplicate_in_tx first_issue create_or_update_branch first
    create_new_issue_in_tx clock create_issue find_by_id
one_found = refl

none_found :
    totals (get_issues (issue_service memory) two (in_team "team-z") one_issue).0
    ≡ 200 ∷ 0 ∷ 0 ∷ 50 ∷ []
unfolding get_issues find_all count_issues find_issues matching insert sort row_at delete_rows
    create_or_update transaction find_duplicate_in_tx first_issue create_or_update_branch first
    create_new_issue_in_tx clock create_issue find_by_id
none_found = refl
