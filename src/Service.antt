-- ===== src/Service.antt =====
-- The issue service of packages/backend/internal/services: the interface that the handlers call,
-- and its implementation over the repository.
use kkite.Prelude.{ℕ, String, Option, List}
use kkite.Models.{LoadedIssue}
use kkite.Dto.{CreateIssueRequest, UpdateIssueRequest, IssueResponse, create, update}
use kkite.Store.{Action, Result, ok, err, pure, ◌>>=◌}
use kkite.Store.Gorm.{Gorm}
use kkite.Repository.Filters.{IssueQueryFilters, find_all}
use kkite.Repository.Operations as Operations
use kkite.Repository.Relations as Relations

pub record IssueService (W : Type 0) : Type 0 where
  pub find_duplicate_issue : CreateIssueRequest → Action W (Option LoadedIssue)
  pub create_or_update_issue : CreateIssueRequest → Action W (Option LoadedIssue)
  pub find_issues : IssueQueryFilters → Action W IssueResponse
  pub find_issue_by_id : String → Action W (Option LoadedIssue)
  pub create_issue : CreateIssueRequest → Action W (Option LoadedIssue)
  pub update_issue : String → UpdateIssueRequest → Action W (Option LoadedIssue)
  pub delete_issue : String → Action W (Unit {0})
  pub add_related_issue : String → String → Action W (Unit {0})
  pub remove_related_issue : String → String → Action W (Unit {0})
  pub resolve_issues_by_scope : String → String → String → Action W ℕ

-- The error of the repository is dropped: `return 0, nil`.
abbrev pub count_or_zero : {W : Type 0} → Result ℕ × W → Result ℕ × W
count_or_zero (ok n, w) = (ok n, w)
count_or_zero (err e, w) = (ok 0, w)

abbrev pub response : IssueQueryFilters → List LoadedIssue × ℕ → IssueResponse
response filters (issues, total) = record {
  issues = issues;
  total = total;
  limit = filters.limit;
  offset = filters.offset;
}

abbrev pub issue_service : (g : Gorm) → IssueService g.World
issue_service g = record {
  find_duplicate_issue = λ req. Operations.find_duplicate g (create req) >>= pure;
  create_or_update_issue = λ req. Operations.create_or_update g (create req) >>= pure;
  find_issues = λ filters. find_all g filters >>= λ found. pure (response filters found);
  find_issue_by_id = λ id. Operations.find_by_id g id >>= pure;
  create_issue = λ req. Operations.create g (create req) >>= pure;
  update_issue = λ id req. Operations.update_issue g id (update req) >>= pure;
  delete_issue = λ id. Operations.delete g id >>= pure;
  add_related_issue =
      λ source_id target_id. Relations.add_related_issue g source_id target_id >>= pure;
  remove_related_issue =
      λ source_id target_id. Relations.remove_related_issue g source_id target_id >>= pure;
  resolve_issues_by_scope = λ resource_type resource_name namespace w.
      count_or_zero (Operations.resolve_by_scope g resource_type resource_name namespace w);
}
