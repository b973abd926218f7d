-- ===== src/Repository/Pages.antt =====
-- The pages that `FindAll` of packages/backend/internal/repository/issue_repository.go finds.
use kkite.Prelude.{
  ℕ, String, ◌≡◌, ◌↔◌, sym, ◌∙◌, subst, some, Bool, true, List, contains, IsNodup, length, take,
  drop,
}
use kkite.Models.{Issue, LoadedIssue}
use kkite.Store.{Tables, Action, Result, ok, err, pure, wrap, ◌>>=◌}
use kkite.Store.Gorm.{Gorm, GormLaws, Ensures, Counted, detected, IsDescending, LoadsAll, Paged}
use kkite.Store.Rules.{bind_rule, wrap_rule}
use kkite.Repository.Filtering.{Meets, row-Meets}
use kkite.Repository.Filters.{IssueQueryFilters, filter_query, limit_of, find_all}

-- The ids of all issues that meet the filters, the latest first, and each once; the page is what comes
-- after the offset, up to the limit.
abbrev pub PageAnswer :
    (String → String → Bool) → IssueQueryFilters → Tables → Result (List LoadedIssue × ℕ) → Type 0
PageAnswer like f t (ok (issues, total)) =
    (ids : List String) × IsNodup ids
    × ((j : String)
        → (contains ids j ≡ true) ↔ ((i : Issue) × (t.issue j ≡ some i) × Meets like f t i))
    × IsDescending (λ j. detected (t.issue j)) ids
    × (total ≡ length ids)
    × LoadsAll (filter_query like f) t (take (limit_of f) (drop f.offset ids)) issues
PageAnswer like f t (err e) = Unit

module _ (g : Gorm) (laws : GormLaws g) (f : IssueQueryFilters) (t : Tables) where
  page_answer :
      (total : ℕ) (issues : List LoadedIssue)
      → Counted (filter_query g.like f) t (ok total)
      → Paged (filter_query g.like f) f.offset (limit_of f) t (ok issues)
      → PageAnswer g.like f t (ok (issues, total))
  page_answer total issues counted (ids, (nodup, same), sorted, loaded) = (
    ids,
    nodup,
    λ j. (
      λ listed. (row-Meets g.like f t (t.issue j)).0 (sym (same j) ∙ listed),
      λ meets. same j ∙ (row-Meets g.like f t (t.issue j)).1 meets,
    ),
    sorted,
    counted ids (nodup, same),
    loaded,
  )

  abbrev counting : Action g.World ℕ
  counting = wrap "failed to count issues: " (g.count_issues (filter_query g.like f))

  abbrev finding : Action g.World (List LoadedIssue)
  finding =
      wrap "failed to find issues: " (g.find_issues (filter_query g.like f) f.offset (limit_of f))

  abbrev Counting : Result ℕ → Tables → Type 0
  Counting r u = (u ≡ t) × Counted (filter_query g.like f) t r

  abbrev Finding : Result (List LoadedIssue) → Tables → Type 0
  Finding r u = (u ≡ t) × Paged (filter_query g.like f) f.offset (limit_of f) t r

  abbrev pub Answer : Result (List LoadedIssue × ℕ) → Tables → Type 0
  Answer r u = (u ≡ t) × PageAnswer g.like f t r

  counting-Counting : Ensures g counting t Counting
  counting-Counting =
      wrap_rule g "failed to count issues: " (g.count_issues (filter_query g.like f)) t Counting
        Counting (laws.count_issues_law (filter_query g.like f) t) (λ n u h. h) (λ e e' u h. h)

  finding-Finding : Ensures g finding t Finding
  finding-Finding =
      wrap_rule g "failed to find issues: "
        (g.find_issues (filter_query g.like f) f.offset (limit_of f)) t Finding Finding
        (laws.find_issues_law (filter_query g.like f) f.offset (limit_of f) t) (λ ls u h. h)
        (λ e e' u h. h)

  after_count :
      (total : ℕ)
      → Counted (filter_query g.like f) t (ok total)
      → Ensures g (finding >>= (λ issues. pure (issues, total))) t Answer
  after_count total counted =
      bind_rule g finding (λ issues. pure (issues, total)) t Finding Answer finding-Finding
        (λ issues u found w at. (at ∙ found.0, page_answer total issues counted found.1))
        (λ e u h. (h.0, tt))

  -- Without a limit 50 issues are taken. The page has, loaded, the issues that meet the filters, the latest
  -- first, from the offset on and up to the limit, the total is the number of all that meet them, and
  -- nothing is changed.
  pub find_all-PageAnswer : Ensures g (find_all g f) t Answer
  unfolding find_all
  find_all-PageAnswer =
      bind_rule g counting (λ total. finding >>= (λ issues. pure (issues, total))) t Counting Answer
        counting-Counting
        (λ total u counted.
          subst (λ v. Ensures g (finding >>= (λ issues. pure (issues, total))) v Answer)
            (sym counted.0) (after_count total counted.1))
        (λ e u h. (h.0, tt))
