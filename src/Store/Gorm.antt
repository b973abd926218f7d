-- ===== src/Store/Gorm.antt =====
-- gorm and the database behind it, which the repository only calls: an interface with the
-- statements that the backend issues, and what gorm and SQL document of each. `World` also holds
-- the clock and all that decides whether a statement fails: every one may.
use kkite.Prelude.{
  ℕ, String, ◌≡◌, Option, none, some, Bool, false, List, [], ◌∷◌, contains, IsNodup, length,
}
use kkite.Models.{Issue, IssueScope, Link, RelatedIssue, Time, LoadedIssue, before_create}
use kkite.Dto.{ScopeReqBody, CreateLinkRequest}
use kkite.Store.Defs.{
  Tables, IssueQuery, IssueUpdates, Action, Result, ok, err, set_columns, set_scope_columns,
  updated, kept, put, selected, find_link,
}
pub use kkite.Store.Reads.{
  Loads, Found, FoundRelated, Plucked, IsSelection, Counted, detected, NotLater, IsDescending,
  LoadsAll, Paged,
}

-- The struct given to `Create`: the scope and the links are saved with it.
pub record NewIssue : Type 0 where
  pub title : String
  pub description : String
  pub severity : String
  pub issue_type : String
  pub state : String
  pub detected_at : Time
  pub namespace : String
  pub scope : ScopeReqBody
  pub links : List CreateLinkRequest

pub record Gorm : Type 1 where
  pub World : Type 0
  pub tables : World → Tables
  pub now : World → Time × World
  pub transaction : {A : Type 0} → Action World A → Action World A
  pub first_issue : IssueQuery → Action World (Option LoadedIssue)
  pub pluck_ids : IssueQuery → Action World (List String)
  pub count_issues : IssueQuery → Action World ℕ
  -- A page of the issues, the latest first: the query, the offset and the limit.
  pub find_issues : IssueQuery → ℕ → ℕ → Action World (List LoadedIssue)
  -- `LOWER(text) LIKE LOWER(pattern)`, for the text and the pattern.
  pub like : String → String → Bool
  pub create_issue : NewIssue → Action World LoadedIssue
  pub update_issues : (Issue → Bool) → IssueUpdates → Action World ℕ
  pub delete_issues : (Issue → Bool) → Action World ℕ
  pub update_scopes : (IssueScope → Bool) → ScopeReqBody → Action World ℕ
  pub delete_scopes : (IssueScope → Bool) → Action World ℕ
  pub create_link : Link → Action World (Unit {0})
  pub delete_links : (Link → Bool) → Action World ℕ
  pub first_related : (RelatedIssue → Bool) → Action World (Option RelatedIssue)
  pub create_related : RelatedIssue → Action World (Unit {0})
  pub delete_related : (RelatedIssue → Bool) → Action World ℕ

-- The tables after each statement that writes, where it succeeds.
abbrev pub update_issue_rows : (Issue → Bool) → IssueUpdates → Tables → Tables
update_issue_rows p u t = record t { issue = λ j. updated p (set_columns u) (t.issue j) }

abbrev pub delete_issue_rows : (Issue → Bool) → Tables → Tables
delete_issue_rows p t = record t { issue = λ j. kept p (t.issue j) }

abbrev pub update_scope_rows : (IssueScope → Bool) → ScopeReqBody → Tables → Tables
update_scope_rows p u t = record t { scope = λ j. updated p (set_scope_columns u) (t.scope j) }

abbrev pub delete_scope_rows : (IssueScope → Bool) → Tables → Tables
delete_scope_rows p t = record t { scope = λ j. kept p (t.scope j) }

abbrev pub delete_link_rows : (Link → Bool) → Tables → Tables
delete_link_rows p t = record t { link = λ j. kept p (t.link j) }

abbrev pub delete_related_rows : (RelatedIssue → Bool) → Tables → Tables
delete_related_rows p t = record t { related = λ j. kept p (t.related j) }

abbrev pub put_link : Link → Tables → Tables
put_link l t = record t { link = put l.id l t.link }

abbrev pub put_related : RelatedIssue → Tables → Tables
put_related r t = record t { related = put r.id r t.related }

abbrev pub found_or {ℓ} : {A : Type ℓ} → Option A → Option A → Option A
found_or none o = o
found_or (some a) o = some a

abbrev pub put_created : Issue → IssueScope → List Link → Tables → Tables
put_created i s ls t = record {
  issue = put i.id i t.issue;
  scope = put s.id s t.scope;
  link = λ j. found_or (find_link j ls) (t.link j);
  related = t.related;
}

-- Every row is found under its own primary key.
pub record IsKeyed (t : Tables) : Type 0 where
  pub issue : (j : String) (i : Issue) → t.issue j ≡ some i → i.id ≡ j
  pub scope : (j : String) (s : IssueScope) → t.scope j ≡ some s → s.id ≡ j
  pub link : (j : String) (l : Link) → t.link j ≡ some l → l.id ≡ j
  pub related : (j : String) (r : RelatedIssue) → t.related j ≡ some r → r.id ≡ j

-- A statement that writes does all of it and reports the rows affected, or fails and does nothing.
abbrev pub Writes : {A : Type 0} → Tables → Tables → Result A → Tables → Type 0
Writes t t' (ok n) u = u ≡ t'
Writes t t' (err e) u = u ≡ t

-- The number of rows affected is that of the rows selected.
abbrev pub Counts : {A : Type 0} → (A → Bool) → (String → Option A) → Result ℕ → Type 0
Counts p rows (ok n) =
    ((ids : List String)
      → IsNodup ids
      → ((j : String) → contains ids j ≡ selected p (rows j))
      → n ≡ length ids)
    × (n ≡ 0 → (j : String) → selected p (rows j) ≡ false)
Counts p rows (err e) = Unit

-- Links are saved in order, each under an id of its own.
abbrev pub SavesLinks :
    (String → Option Link) → String → List CreateLinkRequest → List Link → Type 0
SavesLinks rows id [] [] = Unit
SavesLinks rows id (q ∷ qs) (l ∷ ls) =
    (l.title ≡ q.title)
    × (l.url ≡ q.url)
    × (l.issue_id ≡ id)
    × (rows l.id ≡ none)
    × (find_link l.id ls ≡ none)
    × SavesLinks rows id qs ls
SavesLinks rows id _ _ = ⊥

pub record IsCreatedFrom (n : NewIssue) (t : Tables) (i : Issue) (s : IssueScope) (ls : List Link)
    : Type 0 where
  -- The ids come from the `BeforeCreate` hooks; the structs are created with empty ones.
  pub issue_uuid : String
  pub scope_uuid : String
  pub id : i.id ≡ before_create issue_uuid ""
  pub scope_id : s.id ≡ before_create scope_uuid ""
  pub owned_scope : i.scope_id ≡ s.id
  pub fresh_issue : t.issue i.id ≡ none
  pub fresh_scope : t.scope s.id ≡ none
  pub title : i.title ≡ n.title
  pub description : i.description ≡ n.description
  pub severity : i.severity ≡ n.severity
  pub issue_type : i.issue_type ≡ n.issue_type
  pub state : i.state ≡ n.state
  pub detected_at : i.detected_at ≡ n.detected_at
  pub resolved_at : i.resolved_at ≡ none
  pub namespace : i.namespace ≡ n.namespace
  pub resource_type : s.resource_type ≡ n.scope.resource_type
  pub resource_name : s.resource_name ≡ n.scope.resource_name
  pub resource_namespace : s.resource_namespace ≡ n.scope.resource_namespace
  pub links : SavesLinks t.link i.id n.links ls

abbrev pub Created : NewIssue → Tables → Result LoadedIssue → Tables → Type 0
Created n t (ok l) u =
    (s : IssueScope) × (l.scope ≡ some s)
    × IsCreatedFrom n t l.issue s l.links
    × (u ≡ put_created l.issue s l.links t)
Created n t (err e) u = u ≡ t

-- A link or a relation is saved under a fresh id from its hook.
abbrev pub CreatedLink : Link → Tables → Result (Unit {0}) → Tables → Type 0
CreatedLink l t (ok _) u =
    (uuid : String) × (t.link (before_create uuid l.id) ≡ none)
    × (u ≡ put_link (record l { id = before_create uuid l.id }) t)
CreatedLink l t (err e) u = u ≡ t

abbrev pub CreatedRelated : RelatedIssue → Tables → Result (Unit {0}) → Tables → Type 0
CreatedRelated r t (ok _) u =
    (uuid : String) × (t.related (before_create uuid r.id) ≡ none)
    × (u ≡ put_related (record r { id = before_create uuid r.id }) t)
CreatedRelated r t (err e) u = u ≡ t

-- A transaction that returns a value has committed; one that fails has changed nothing.
abbrev pub Committed :
    {A : Type 0} → (Result A → Tables → Type 0) → Tables → Result A → Tables → Type 0
Committed Q t (ok a) u = Q (ok a) u
Committed Q t (err e) u = u ≡ t

module _ (g : Gorm) where
  open g use {World, tables}

  -- `time.Now()`, as an action.
  unfoldable pub clock : Action World Time
  clock w = let (t, w') = g.now w in (ok t, w')

  -- Run on the tables `t`, the action ends with a result and tables of which `Q` holds.
  abbrev pub Ensures :
      {A : Type 0} → Action World A → Tables → (Result A → Tables → Type 0) → Type 0
  Ensures m t Q = (w : World) → tables w ≡ t → Q (m w).0 (tables (m w).1)

pub record GormLaws (g : Gorm) : Type 1 where
  pub keyed : (w : g.World) → IsKeyed (g.tables w)
  pub now_law : (w : g.World) → g.tables (g.now w).1 ≡ g.tables w
  pub transaction_law :
      {A : Type 0} (body : Action g.World A) (t : Tables) (Q : Result A → Tables → Type 0)
      → Ensures g body t Q
      → Ensures g (g.transaction body) t (Committed Q t)
  pub first_issue_law :
      (q : IssueQuery) (t : Tables) → Ensures g (g.first_issue q) t (λ r u. (u ≡ t) × Found q t r)
  pub pluck_ids_law :
      (q : IssueQuery) (t : Tables) → Ensures g (g.pluck_ids q) t (λ r u. (u ≡ t) × Plucked q t r)
  pub count_issues_law :
      (q : IssueQuery) (t : Tables)
      → Ensures g (g.count_issues q) t (λ r u. (u ≡ t) × Counted q t r)
  pub find_issues_law :
      (q : IssueQuery) (offset limit : ℕ) (t : Tables)
      → Ensures g (g.find_issues q offset limit) t (λ r u. (u ≡ t) × Paged q offset limit t r)
  pub create_issue_law : (n : NewIssue) (t : Tables) → Ensures g (g.create_issue n) t (Created n t)
  pub update_issues_law :
      (p : Issue → Bool) (u : IssueUpdates) (t : Tables)
      → Ensures g
          (g.update_issues p u)
          t
          (λ r t'. Writes t (update_issue_rows p u t) r t' × Counts p t.issue r)
  pub delete_issues_law :
      (p : Issue → Bool) (t : Tables)
      → Ensures g
          (g.delete_issues p)
          t
          (λ r t'. Writes t (delete_issue_rows p t) r t' × Counts p t.issue r)
  pub update_scopes_law :
      (p : IssueScope → Bool) (u : ScopeReqBody) (t : Tables)
      → Ensures g
          (g.update_scopes p u)
          t
          (λ r t'. Writes t (update_scope_rows p u t) r t' × Counts p t.scope r)
  pub delete_scopes_law :
      (p : IssueScope → Bool) (t : Tables)
      → Ensures g
          (g.delete_scopes p)
          t
          (λ r t'. Writes t (delete_scope_rows p t) r t' × Counts p t.scope r)
  pub create_link_law : (l : Link) (t : Tables) → Ensures g (g.create_link l) t (CreatedLink l t)
  pub delete_links_law :
      (p : Link → Bool) (t : Tables)
      → Ensures g
          (g.delete_links p)
          t
          (λ r t'. Writes t (delete_link_rows p t) r t' × Counts p t.link r)
  pub first_related_law :
      (p : RelatedIssue → Bool) (t : Tables)
      → Ensures g (g.first_related p) t (λ r u. (u ≡ t) × FoundRelated p t r)
  pub create_related_law :
      (r : RelatedIssue) (t : Tables) → Ensures g (g.create_related r) t (CreatedRelated r t)
  pub delete_related_law :
      (p : RelatedIssue → Bool) (t : Tables)
      → Ensures g
          (g.delete_related p)
          t
          (λ r t'. Writes t (delete_related_rows p t) r t' × Counts p t.related r)
