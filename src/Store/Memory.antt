-- ===== src/Store/Memory.antt =====
-- A database in memory, which shows that the laws of gorm can hold and runs the examples. Its
-- clock goes on by one at each reading and its ids are counted; only an id that is taken fails.
pub mod Laws
pub mod Saving
pub mod Paging
use kkite.Prelude.{
  ℕ, zero, suc, ◌+◌, String, ◌<>◌, ◌≡◌, refl, sym, ap, ◌∙◌, fun_ext, Option, none, some, Bool, true,
  false, not, ◌&&◌, ◌==◌, eq_iff, eq_refl, List, [], ◌∷◌, ◌++◌, contains, length, IsNodup, is_some,
  arith, if◌then◌else◌, inl, inr, Bool-cases, Option-cases, ◌||◌, nat_eq, ◌-◌, take, drop, find?,
}
use kkite.Models.{Issue, IssueScope, Link, RelatedIssue, Time, LoadedIssue, before_create}
use kkite.Dto.{ScopeReqBody, CreateLinkRequest}
use kkite.Store.Defs.{
  Tables, IssueQuery, IssueUpdates, Action, Result, ok, err, selects, set_columns,
  set_scope_columns, updated, kept, put, selected, only, find_link, find_related,
}
use kkite.Store.Gorm.{
  NewIssue, Gorm, GormLaws, Ensures, Committed, Found, FoundRelated, Loads, Plucked, Writes, Counts,
  SavesLinks, IsCreatedFrom, Created, CreatedLink, CreatedRelated, IsKeyed, found_or, put_created,
  detected,
}
use kkite.Store.Sorting.{sort}
use Prim.Native.String.{slice, len}
use kkite.Store.Rows.{
  row_at, key-row_at, update_rows, row_at-update_rows, delete_rows, row_at-delete_rows,
  row_at-only_rows, matching, IsNodup-matching, contains-matching, row_at-append, first, first-none,
  first-some, length_of_same,
}

pub record Memory : Type 0 where
  pub issues : List Issue
  pub scopes : List IssueScope
  pub links : List Link
  pub relations : List RelatedIssue
  pub time : Time
  pub ids : ℕ

abbrev issue_id : Issue → String
issue_id i = i.id

abbrev scope_id : IssueScope → String
scope_id s = s.id

abbrev link_id : Link → String
link_id l = l.id

abbrev related_id : RelatedIssue → String
related_id r = r.id

abbrev pub tables_of : Memory → Tables
tables_of m = record {
  issue = λ j. row_at issue_id j m.issues;
  scope = λ j. row_at scope_id j m.scopes;
  link = λ j. row_at link_id j m.links;
  related = λ j. row_at related_id j m.relations;
}

abbrev uuid : ℕ → String
uuid zero = "id"
uuid (suc n) = "i" <> uuid n

-- Rows that meet a condition, where the table has them under their key.
abbrev attached : {A : Type 0} → (A → String) → Bool → (A → Bool) → List A → List A
attached key false p rows = []
attached key true p rows = delete_rows key (λ a. not (p a)) rows rows

abbrev load : IssueQuery → Memory → Issue → LoadedIssue
load q m i = record {
  issue = i;
  scope = if q.preload_scope then row_at scope_id i.scope_id m.scopes else none;
  links = attached link_id q.preload_links (λ k. k.issue_id == i.id) m.links;
  related_from = attached related_id q.preload_related (λ r. r.source_id == i.id) m.relations;
  related_to = attached related_id q.preload_related (λ r. r.target_id == i.id) m.relations;
}

abbrev chosen : IssueQuery → Memory → Issue → Bool
chosen q m i = selects q (tables_of m) (some i)

abbrev load_found : IssueQuery → Memory → Option Issue → Option LoadedIssue
load_found q m none = none
load_found q m (some i) = some (load q m i)

unfoldable pub first_issue : IssueQuery → Action Memory (Option LoadedIssue)
first_issue q m = (ok (load_found q m (first issue_id (chosen q m) m.issues)), m)

unfoldable pub pluck_ids : IssueQuery → Action Memory (List String)
pluck_ids q m = (ok (matching issue_id (chosen q m) m.issues m.issues), m)

unfoldable pub count_issues : IssueQuery → Action Memory ℕ
count_issues q m = (ok (length (matching issue_id (chosen q m) m.issues m.issues)), m)

abbrev pub load_ids : IssueQuery → Memory → List String → List LoadedIssue
load_ids q m [] = []
load_ids q m (j ∷ js) =
    let rest = load_ids q m js in
    elim (row_at issue_id j m.issues) [ none ↦ rest | some i ↦ load q m i ∷ rest ]

abbrev pub time_of : Memory → String → Time
time_of m j = detected (row_at issue_id j m.issues)

unfoldable pub find_issues : IssueQuery → ℕ → ℕ → Action Memory (List LoadedIssue)
find_issues q offset limit m = (
  ok (
      load_ids q m (
        take limit
          (drop offset (sort (time_of m) (matching issue_id (chosen q m) m.issues m.issues))))),
  m,
)

-- A pattern of two `%` around a text asks for the text; upper and lower case are told apart here.
abbrev like : String → String → Bool
like text pattern = is_some (find? text (slice pattern 1 (len pattern - 1)))

-- The links of a new issue, unless one of their ids is taken.
unfoldable pub save_links : List Link → String → ℕ → List CreateLinkRequest → Option (List Link)
save_links old id n [] = some []
save_links old id n (q ∷ qs) =
    let l : Link = record { id = uuid n; title = q.title; url = q.url; issue_id = id } in
    elim (save_links old id (suc n) qs) [
      | none ↦ none
      | some ls ↦
          if is_some (row_at link_id (uuid n) old) || is_some (find_link (uuid n) ls)
          then none
          else some (l ∷ ls)
    ]

abbrev issue_of : NewIssue → String → String → Time → Issue
issue_of n id scope time = record {
  id = id;
  title = n.title;
  description = n.description;
  severity = n.severity;
  issue_type = n.issue_type;
  state = n.state;
  detected_at = n.detected_at;
  resolved_at = none;
  namespace = n.namespace;
  scope_id = scope;
  created_at = time;
  updated_at = time;
}

abbrev scope_of : NewIssue → String → IssueScope
scope_of n id = record {
  id = id;
  resource_type = n.scope.resource_type;
  resource_name = n.scope.resource_name;
  resource_namespace = n.scope.resource_namespace;
}

abbrev add_created : Issue → IssueScope → Memory → List Link → Memory
add_created i s m ls = record m {
  issues = i ∷ m.issues;
  scopes = s ∷ m.scopes;
  links = ls ++ m.links;
  ids = m.ids + length ls + 1;
}

abbrev create_with : NewIssue → Memory → Option (List Link) → Result LoadedIssue × Memory
create_with n m none = (err "duplicate key", m)
create_with n m (some ls) =
    let i = issue_of n (uuid m.ids) (uuid m.ids) m.time in
    let s = scope_of n (uuid m.ids) in
    if is_some (row_at issue_id (uuid m.ids) m.issues)
      || is_some (row_at scope_id (uuid m.ids) m.scopes)
    then (err "duplicate key", m)
    else (
      ok (record { issue = i; scope = some s; links = ls; related_from = []; related_to = [] }),
      add_created i s m ls,
    )

unfoldable pub create_issue : NewIssue → Action Memory LoadedIssue
unfolding save_links
create_issue n m = create_with n m (save_links m.links (uuid m.ids) (suc m.ids) n.links)

unfoldable pub create_link : Link → Action Memory (Unit {0})
create_link l m =
    let id = before_create (uuid m.ids) l.id in
    if is_some (row_at link_id id m.links)
    then (err "duplicate key", m)
    else (ok tt, record m { links = record l { id = id } ∷ m.links; ids = suc m.ids })

unfoldable pub create_related : RelatedIssue → Action Memory (Unit {0})
create_related r m =
    let id = before_create (uuid m.ids) r.id in
    if is_some (row_at related_id id m.relations)
    then (err "duplicate key", m)
    else (ok tt, record m { relations = record r { id = id } ∷ m.relations; ids = suc m.ids })

unfoldable pub transaction : {A : Type 0} → Action Memory A → Action Memory A
transaction body m = let (r, m') = body m in elim r [ ok a ↦ (ok a, m') | err e ↦ (err e, m) ]

abbrev affected : {A : Type 0} → (A → String) → (A → Bool) → List A → ℕ
affected key p rows = length (matching key p rows rows)

abbrev pub memory : Gorm
memory = record {
  World = Memory;
  tables = tables_of;
  now = λ m. (m.time, record m { time = suc m.time });
  transaction = transaction;
  first_issue = first_issue;
  pluck_ids = pluck_ids;
  count_issues = count_issues;
  find_issues = find_issues;
  like = like;
  create_issue = create_issue;
  update_issues = λ p u m. (
    ok (affected issue_id p m.issues),
    record m { issues = update_rows issue_id p (set_columns u) m.issues },
  );
  delete_issues = λ p m. (
    ok (affected issue_id p m.issues),
    record m { issues = delete_rows issue_id p m.issues m.issues },
  );
  update_scopes = λ p u m. (
    ok (affected scope_id p m.scopes),
    record m { scopes = update_rows scope_id p (set_scope_columns u) m.scopes },
  );
  delete_scopes = λ p m. (
    ok (affected scope_id p m.scopes),
    record m { scopes = delete_rows scope_id p m.scopes m.scopes },
  );
  create_link = create_link;
  delete_links = λ p m.
      (ok (affected link_id p m.links), record m { links = delete_rows link_id p m.links m.links });
  first_related = λ p m. (ok (first related_id p m.relations), m);
  create_related = create_related;
  delete_related = λ p m. (
    ok (affected related_id p m.relations),
    record m { relations = delete_rows related_id p m.relations m.relations },
  );
}
