-- ===== src/Repository/Filters.antt =====
-- `FindAll` of packages/backend/internal/repository/issue_repository.go. The limit and the offset are not
-- negative, as `GetIssues` makes them.
use kkite.Prelude.{
  ℕ, String, Option, none, some, Bool, true, ◌==◌, ◌&&◌, ◌||◌, ◌<>◌, if◌then◌else◌, List, nat_eq,
}
use kkite.Models.{Issue, IssueScope, LoadedIssue}
use kkite.Store.{IssueQuery, Action, pure, wrap, ◌>>=◌}
use kkite.Store.Gorm.{Gorm}

pub record IssueQueryFilters : Type 0 where
  pub namespace : String
  pub severity : Option String
  pub issue_type : Option String
  pub state : Option String
  pub resource_type : String
  pub resource_name : String
  pub search : String
  pub limit : ℕ
  pub offset : ℕ

-- `if wanted != "" { … = wanted }`
abbrev pub when_set : String → String → Bool
when_set wanted actual = if wanted == "" then true else actual == wanted

-- `if wanted != nil { … = *wanted }`
abbrev pub when_given : Option String → String → Bool
when_given none actual = true
when_given (some wanted) actual = actual == wanted

abbrev pub when_found : (String → String → Bool) → String → Issue → Bool
when_found like search i =
    if search == ""
    then true
    else like i.title ("%" <> search <> "%") || like i.description ("%" <> search <> "%")

abbrev pub scope_filter : IssueQueryFilters → Option (IssueScope → Bool)
scope_filter f =
    if f.resource_type == "" && f.resource_name == ""
    then none
    else some
        (λ s. when_set f.resource_type s.resource_type && when_set f.resource_name s.resource_name)

abbrev pub filter_query : (String → String → Bool) → IssueQueryFilters → IssueQuery
filter_query like f = record {
  preload_scope = true;
  preload_links = true;
  preload_related = true;
  where_issue = λ i.
      when_set f.namespace i.namespace
      && (when_given f.severity i.severity
          && (when_given f.issue_type i.issue_type
              && (when_given f.state i.state && when_found like f.search i)));
  where_scope = scope_filter f;
}

abbrev pub limit_of : IssueQueryFilters → ℕ
limit_of f = if nat_eq f.limit 0 then 50 else f.limit

module _ (g : Gorm) where
  unfoldable pub find_all : IssueQueryFilters → Action g.World (List LoadedIssue × ℕ)
  find_all f = do
    total ← wrap "failed to count issues: " (g.count_issues (filter_query g.like f))
    issues ←
        wrap "failed to find issues: " (g.find_issues (filter_query g.like f) f.offset (limit_of f))
    pure (issues, total)
