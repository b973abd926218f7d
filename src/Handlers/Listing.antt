-- ===== src/Handlers/Listing.antt =====
-- `GetIssues` of packages/backend/internal/handlers/http/issue_handlers.go. `query` has the parameters of
-- the query, "" for one that is not given; `parse_int` stands for `strconv.Atoi`, `none` for an error.
pub mod Tests
use kkite.Prelude.{
  ℕ, ◌≤◌, String, ◌==◌, ◌≡◌, refl, ◌⊎◌, inl, inr, Option, none, some, Bool, if◌then◌else◌, nat_eq,
  ◌≢◌, sym, subst, String-cases, eq_false, eq_iff,
}
use kkite.Dto.{IssueResponse}
use kkite.Store.{Tables, Result, ok, err, Action}
use kkite.Store.Gorm.{Gorm, GormLaws}
use kkite.Config.{ℤ, pos, negsuc}
use kkite.Repository.Filters.{IssueQueryFilters, find_all}
use kkite.Repository.Pages.{PageAnswer}
use kkite.Service.{IssueService}
use kkite.Handlers.Replies.{Reply, reply, document, page, Handler, error}

abbrev pub optional : String → Option String
optional value = if value == "" then none else some value

-- A number that is not negative, and 0 for any other text.
abbrev pub natural : Option ℤ → ℕ
natural none = 0
natural (some (pos n)) = n
natural (some (negsuc n)) = 0

abbrev pub number : (String → Option ℤ) → String → ℕ
number parse_int value = if value == "" then 0 else natural (parse_int value)

abbrev pub or_fifty : ℕ → ℕ
or_fifty n = if nat_eq n 0 then 50 else n

abbrev pub filters_of : (String → Option ℤ) → (String → String) → IssueQueryFilters
filters_of parse_int query = record {
  namespace = query "namespace";
  severity = optional (query "severity");
  issue_type = optional (query "issueType");
  state = optional (query "state");
  resource_type = query "resourceType";
  resource_name = query "resourceName";
  search = query "search";
  limit = or_fifty (number parse_int (query "limit"));
  offset = number parse_int (query "offset");
}

abbrev pub listed_answer : Result IssueResponse → Reply
listed_answer (err e) = error 500 "Failed to fetch issues"
listed_answer (ok p) = reply 200 (document (page p))

unfoldable pub get_issues :
    {W : Type 0} → IssueService W → (String → Option ℤ) → (String → String) → Handler W
get_issues s parse_int query w =
    let (r, w') = s.find_issues (filters_of parse_int query) w in (listed_answer r, w')

-- A parameter that is empty is not given.
abbrev pub IsGiven : String → Option String → Type 0
IsGiven text none = text ≡ ""
IsGiven text (some value) = (text ≢ "") × (value ≡ text)

-- The parameter is the text of a number that is not negative.
abbrev pub IsNumber : (String → Option ℤ) → String → ℕ → Type 0
IsNumber parse_int text n = (text ≢ "") × (parse_int text ≡ some (pos n))

-- A positive number, or 50 where none is given.
abbrev pub IsLimit : (String → Option ℤ) → String → ℕ → Type 0
IsLimit parse_int text limit =
    (IsNumber parse_int text limit × (1 ≤ limit))
    ⊎ (((n : ℕ) → IsNumber parse_int text n → n ≡ 0) × (limit ≡ 50))

-- A number that is not negative, or 0 where none is given.
abbrev pub IsOffset : (String → Option ℤ) → String → ℕ → Type 0
IsOffset parse_int text offset =
    IsNumber parse_int text offset ⊎ (((n : ℕ) → ¬ IsNumber parse_int text n) × (offset ≡ 0))

-- The filters are what the parameters of the query ask for.
pub record IsAskedBy (parse_int : String → Option ℤ) (query : String → String)
    (f : IssueQueryFilters) : Type 0 where
  pub namespace : f.namespace ≡ query "namespace"
  pub severity : IsGiven (query "severity") f.severity
  pub issue_type : IsGiven (query "issueType") f.issue_type
  pub state : IsGiven (query "state") f.state
  pub resource_type : f.resource_type ≡ query "resourceType"
  pub resource_name : f.resource_name ≡ query "resourceName"
  pub search : f.search ≡ query "search"
  pub limit : IsLimit parse_int (query "limit") f.limit
  pub offset : IsOffset parse_int (query "offset") f.offset

pub optional-IsGiven : (text : String) → IsGiven text (optional text)
optional-IsGiven text = elim (String-cases text "") [
  | inl nothing ↦ subst (λ t. IsGiven t (optional t)) (sym nothing) refl
  | inr given ↦ subst (IsGiven text) (sym (set given)) (given, refl)
]
  where
    set : text ≢ "" → optional text ≡ some text
    set given = rw (eq_false text "" given)

-- The tables are as before, and the answer is a 500, where `FindAll` has failed, or the page that the filters ask
-- for, with the limit and the offset that were taken.
abbrev pub ListAnswer : (g : Gorm) → IssueQueryFilters → g.World → Reply → Tables → Type 0
ListAnswer g f w r t' =
    (t' ≡ g.tables w)
    × (((e : String) × ((find_all g f w).0 ≡ err e) × (r ≡ error 500 "Failed to fetch issues"))
        ⊎ ((p : IssueResponse) × (r ≡ reply 200 (document (page p)))
            × PageAnswer g.like f (g.tables w) (ok (p.issues, p.total))
            × (p.limit ≡ f.limit)
            × (p.offset ≡ f.offset)))

module _ (g : Gorm) (laws : GormLaws g) (parse_int : String → Option ℤ) (query : String → String)
    (w : g.World) where
  abbrev f : IssueQueryFilters
  f = filters_of parse_int query
