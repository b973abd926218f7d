-- ===== src/Store/Defs.antt =====
-- Tables, queries, column updates and actions.
use kkite.Prelude.{
  String, Option, none, some, Bool, true, false, ◌&&◌, ◌<>◌, ◌==◌, if◌then◌else◌, List, [], ◌∷◌,
}
use kkite.Models.{Issue, IssueScope, Link, RelatedIssue, Time}
use kkite.Dto.{ScopeReqBody}

pub record Tables : Type 0 where
  pub issue : String → Option Issue
  pub scope : String → Option IssueScope
  pub link : String → Option Link
  pub related : String → Option RelatedIssue

-- `WHERE` conditions on `issues`, with those on the joined `issue_scopes` where the query joins
-- them, and the associations to preload.
pub record IssueQuery : Type 0 where
  pub preload_scope : Bool
  pub preload_links : Bool
  pub preload_related : Bool
  pub where_issue : Issue → Bool
  pub where_scope : Option (IssueScope → Bool)

abbrev pub scope_selects : Option (IssueScope → Bool) → Option IssueScope → Bool
scope_selects none s = true
scope_selects (some p) none = false
scope_selects (some p) (some s) = p s

-- Whether the query selects this row.
abbrev pub selects : IssueQuery → Tables → Option Issue → Bool
selects q t none = false
selects q t (some i) = q.where_issue i && scope_selects q.where_scope (t.scope i.scope_id)

-- The map of columns that `Updates` gets; `none` for a column that is not a key of the map.
pub record IssueUpdates : Type 0 where
  pub title : Option String
  pub description : Option String
  pub severity : Option String
  pub issue_type : Option String
  pub namespace : Option String
  pub state : Option String
  pub resolved_at : Option Time
  pub updated_at : Option Time

abbrev pub or_keep {ℓ} : {A : Type ℓ} → Option A → A → A
or_keep none a = a
or_keep (some b) a = b

abbrev or_keep_some {ℓ} : {A : Type ℓ} → Option A → Option A → Option A
or_keep_some none o = o
or_keep_some (some b) o = some b

-- One row under `UPDATE issues SET …`.
abbrev pub set_columns : IssueUpdates → Issue → Issue
set_columns u i = record i {
  title = or_keep u.title i.title;
  description = or_keep u.description i.description;
  severity = or_keep u.severity i.severity;
  issue_type = or_keep u.issue_type i.issue_type;
  namespace = or_keep u.namespace i.namespace;
  state = or_keep u.state i.state;
  resolved_at = or_keep_some u.resolved_at i.resolved_at;
  updated_at = or_keep u.updated_at i.updated_at;
}

-- `Updates` with a struct sets the fields that are not empty.
abbrev pub non_empty_or : String → String → String
non_empty_or new old = if new == "" then old else new

abbrev pub set_scope_columns : ScopeReqBody → IssueScope → IssueScope
set_scope_columns u s = record s {
  resource_type = non_empty_or u.resource_type s.resource_type;
  resource_name = non_empty_or u.resource_name s.resource_name;
  resource_namespace = non_empty_or u.resource_namespace s.resource_namespace;
}

-- A table after `UPDATE … WHERE p`, and after `DELETE … WHERE p`.
module _ {A : Type 0} where
  abbrev pub updated : (A → Bool) → (A → A) → Option A → Option A
  updated p u none = none
  updated p u (some a) = if p a then some (u a) else some a

  abbrev pub kept : (A → Bool) → Option A → Option A
  kept p none = none
  kept p (some a) = if p a then none else some a

  abbrev pub put : String → A → (String → Option A) → String → Option A
  put k a rows j = if j == k then some a else rows j

  abbrev pub selected : (A → Bool) → Option A → Bool
  selected p none = false
  selected p (some a) = p a

abbrev pub find_link : String → List Link → Option Link
find_link j [] = none
find_link j (l ∷ ls) = if l.id == j then some l else find_link j ls

abbrev pub find_related : String → List RelatedIssue → Option RelatedIssue
find_related j [] = none
find_related j (r ∷ rs) = if r.id == j then some r else find_related j rs

-- The rows that a preload attaches are those that meet a condition.
abbrev pub only {ℓ} : {A : Type ℓ} → (A → Bool) → Option A → Option A
only p none = none
only p (some a) = if p a then some a else none

pub data Result (A : Type 0) : Type 0 where
  ok : A → Result A
  err : String → Result A

abbrev pub relabel : {A : Type 0} → String → Result A → Result A
relabel prefix (ok a) = ok a
relabel prefix (err e) = err (prefix <> e)

-- A call changes the world also where it fails: what was committed stays.
abbrev pub Action : Type 0 → Type 0 → Type 0
Action W A = W → Result A × W

module _ {W A : Type 0} where
  abbrev pub pure : A → Action W A
  pure a w = (ok a, w)

  abbrev pub fail : String → Action W A
  fail e w = (err e, w)

  -- `fmt.Errorf("prefix: %w", err)`
  abbrev pub wrap : String → Action W A → Action W A
  wrap prefix m w = let (r, w') = m w in (relabel prefix r, w')

infixl 5 ◌>>=◌ ◌>>◌
abbrev pub ◌>>=◌ : {W A B : Type 0} → Action W A → (A → Action W B) → Action W B
◌>>=◌ m f w = let (r, w') = m w in elim r [ ok a ↦ f a w' | err e ↦ (err e, w') ]

abbrev pub ◌>>◌ : {W A B : Type 0} → Action W A → Action W B → Action W B
m >> k = m >>= λ _. k
