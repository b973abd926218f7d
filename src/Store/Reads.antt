-- ===== src/Store/Reads.antt =====
-- What gorm and SQL document of the statements that read: the rows that a query finds, how many they are,
-- and a page of them.
use kkite.Prelude.{
  ℕ, ◌≤◌, String, ◌≡◌, Option, none, some, Bool, true, false, ◌==◌, if◌then◌else◌, List, [], ◌∷◌,
  contains, IsNodup, length, take, drop,
}
use kkite.Models.{Issue, RelatedIssue, LoadedIssue}
use kkite.Store.Defs.{
  Tables, IssueQuery, Result, ok, err, selects, selected, only, find_link, find_related,
}

-- What a query returns for a row that it selects.
pub record Loads (q : IssueQuery) (t : Tables) (l : LoadedIssue) : Type 0 where
  pub stored : t.issue l.issue.id ≡ some l.issue
  pub chosen : selects q t (some l.issue) ≡ true
  pub scope : l.scope ≡ (if q.preload_scope then t.scope l.issue.scope_id else none)
  pub links :
      (j : String)
      → find_link j l.links
        ≡ (if q.preload_links then only (λ k. k.issue_id == l.issue.id) (t.link j) else none)
  pub related_from :
      (j : String)
      → find_related j l.related_from
        ≡ (if q.preload_related then only (λ r. r.source_id == l.issue.id) (t.related j) else none)
  pub related_to :
      (j : String)
      → find_related j l.related_to
        ≡ (if q.preload_related then only (λ r. r.target_id == l.issue.id) (t.related j) else none)

abbrev pub Found : IssueQuery → Tables → Result (Option LoadedIssue) → Type 0
Found q t (ok none) = (j : String) → selects q t (t.issue j) ≡ false
Found q t (ok (some l)) = Loads q t l
Found q t (err e) = Unit

abbrev pub FoundRelated : (RelatedIssue → Bool) → Tables → Result (Option RelatedIssue) → Type 0
FoundRelated p t (ok none) = (j : String) → selected p (t.related j) ≡ false
FoundRelated p t (ok (some r)) = (t.related r.id ≡ some r) × (p r ≡ true)
FoundRelated p t (err e) = Unit

abbrev pub Plucked : IssueQuery → Tables → Result (List String) → Type 0
Plucked q t (ok ids) = IsNodup ids × ((j : String) → contains ids j ≡ selects q t (t.issue j))
Plucked q t (err e) = Unit

abbrev pub IsSelection : IssueQuery → Tables → List String → Type 0
IsSelection q t ids = IsNodup ids × ((j : String) → contains ids j ≡ selects q t (t.issue j))

abbrev pub Counted : IssueQuery → Tables → Result ℕ → Type 0
Counted q t (ok n) = (ids : List String) → IsSelection q t ids → n ≡ length ids
Counted q t (err e) = Unit

-- The time of a row, 0 where there is none.
abbrev pub detected : Option Issue → ℕ
detected none = 0
detected (some i) = i.detected_at

abbrev pub NotLater : (String → ℕ) → String → List String → Type 0
NotLater time j [] = Unit
NotLater time j (k ∷ ks) = (time k ≤ time j) × NotLater time j ks

abbrev pub IsDescending : (String → ℕ) → List String → Type 0
IsDescending time [] = Unit
IsDescending time (j ∷ js) = NotLater time j js × IsDescending time js

-- The issues with these ids, loaded one by one.
abbrev pub LoadsAll : IssueQuery → Tables → List String → List LoadedIssue → Type 0
LoadsAll q t [] [] = Unit
LoadsAll q t [] (l ∷ ls) = ⊥
LoadsAll q t (j ∷ js) [] = ⊥
LoadsAll q t (j ∷ js) (l ∷ ls) = (l.issue.id ≡ j) × Loads q t l × LoadsAll q t js ls

-- `ORDER BY detected_at DESC OFFSET … LIMIT …`: in which order rows of the same time come is not said.
abbrev pub Paged : IssueQuery → ℕ → ℕ → Tables → Result (List LoadedIssue) → Type 0
Paged q offset limit t (ok ls) =
    (ids : List String) × IsSelection q t ids
    × IsDescending (λ j. detected (t.issue j)) ids
    × LoadsAll q t (take limit (drop offset ids)) ls
Paged q offset limit t (err e) = Unit
