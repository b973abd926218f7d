-- ===== src/Repository/Content.antt =====
-- Which values `CreateOrUpdate` and `Update` of issue_repository.go leave in the columns.
use kkite.Prelude.{
  String, ◌≡◌, ◌≢◌, refl, sym, ap, ◌∙◌, subst, Option, none, some, is_some, true, arith, inl, inr,
  eq_iff, eq_refl, List, ◌==◌, Option-cases, false,
}
use kkite.Models.{Link, Issue, IssueScope, LoadedIssue}
use kkite.Models.IssueState
use kkite.Dto.{
  IssuePayload, get_title, get_description, get_severity, get_issue_type, get_state, get_namespace,
  get_links, get_scope, get_resource_type, get_resource_name, get_resource_namespace,
}
use kkite.Store.{Tables, ok, or_keep, set_columns, find_link}
use kkite.Store.Gorm.{Gorm, GormLaws, IsKeyed, SavesLinks, found_or}
use kkite.Repository.Requests.{if_given, issue_updates}
use kkite.Repository.Operations.{create_or_update, update_issue}
use kkite.Repository.Invariant.{StandsFor, problem_of, StandsFor-of_Loads}
use kkite.Repository.CreateKeeps.{HasCreated, new_issue_row, link_row}
use kkite.Repository.Updates.{IsUpdated}
use kkite.Repository.Stores.{Stores, Reloads}
use kkite.Repository.Updating.{ChangesOrFails, update_issue-ChangesOrFails}
use kkite.Repository.CreateOrUpdate.{create_or_update-Reloads}

-- A new issue and its scope have the values of the request.
pub record HasContent (req : IssuePayload) (i : Issue) (s : IssueScope) : Type 0 where
  pub title : i.title ≡ get_title req
  pub description : i.description ≡ get_description req
  pub severity : i.severity ≡ get_severity req
  pub issue_type : i.issue_type ≡ get_issue_type req
  pub namespace : i.namespace ≡ get_namespace req
  pub default_state : get_state req ≡ "" → i.state ≡ "ACTIVE"
  pub given_state : get_state req ≢ "" → i.state ≡ get_state req
  pub not_resolved : i.resolved_at ≡ none
  pub resource_type : s.resource_type ≡ get_resource_type (get_scope req)
  pub resource_name : s.resource_name ≡ get_resource_name (get_scope req)
  pub default_namespace :
      get_resource_namespace (get_scope req) ≡ "" → s.resource_namespace ≡ get_namespace req
  pub given_namespace :
      get_resource_namespace (get_scope req) ≢ ""
      → s.resource_namespace ≡ get_resource_namespace (get_scope req)

created_content :
    (req : IssuePayload) (t u : Tables) (l : LoadedIssue) (h : HasCreated req t l u)
    → HasContent req l.issue h.scope
created_content req t u l h = record {
  title = h.created.title;
  description = h.created.description;
  severity = h.created.severity;
  issue_type = h.created.issue_type;
  namespace = h.created.namespace;
  default_state = λ e. h.created.state ∙ rw e refl;
  given_state = λ n. ground (arith, h.created.state, eq_iff (get_state req) "");
  not_resolved = h.created.resolved_at;
  resource_type = h.created.resource_type;
  resource_name = h.created.resource_name;
  default_namespace = λ e. h.created.resource_namespace ∙ rw e refl;
  given_namespace = λ n.
      ground
        (arith, h.created.resource_namespace, eq_iff (get_resource_namespace (get_scope req)) "");
}

scope_stored :
    (req : IssuePayload) (t u : Tables) (l : LoadedIssue) (h : HasCreated req t l u)
    → u.scope l.issue.scope_id ≡ some h.scope
scope_stored req t u l h =
    ap u.scope h.created.owned_scope
    ∙ ap (λ v. v.scope h.scope.id) h.result
    ∙ ground (arith, eq_refl h.scope.id)

-- Where no issue stands for the problem of the request and `CreateOrUpdate` succeeds, it returns a
-- new issue with the values of the request, loaded with its scope: ACTIVE where the request gives no
-- state, not resolved, and in a scope of the request's namespace where the scope names none. The
-- links of the request are saved for it, in order and under ids of their own; other links stay.
pub create_or_update-HasContent :
    (g : Gorm) (laws : GormLaws g) (req : IssuePayload) (w : g.World) (l : LoadedIssue)
    → ((j : String) → ¬ (StandsFor (g.tables w) (problem_of req) j))
    → (create_or_update g req w).0 ≡ ok (some l)
    → ((g.tables w).issue l.issue.id ≡ none)
      × (s : IssueScope) × (l.scope ≡ some s)
      × HasContent req l.issue s
      × (ls : List Link) × SavesLinks (g.tables w).link l.issue.id (get_links req) ls
      × ((j : String)
          → (g.tables (create_or_update g req w).1).link j
            ≡ found_or (find_link j ls) ((g.tables w).link j))
create_or_update-HasContent g laws req w l nothing done =
    let t = g.tables w in
    let u = g.tables (create_or_update g req w).1 in
    let (stored, loaded) =
      subst (λ r. Reloads (Stores req req) t r u) done (create_or_update-Reloads g laws req w) in
    elim stored [
      | inl (k, h, same, _) ↦
          let row : u.issue l.issue.id ≡ some k.issue = ap u.issue same ∙ new_issue_row h in
          let one : k.issue ≡ l.issue = ground (arith, row, loaded.stored) in
          let scope : l.scope ≡ some h.scope =
            loaded.scope ∙ ap (λ i. u.scope i.scope_id) (sym one) ∙ scope_stored req t u k h in
          (
            ap t.issue same ∙ h.created.fresh_issue,
            h.scope,
            scope,
            subst (λ i. HasContent req i h.scope) one (created_content req t u k h),
            k.links,
            subst (λ i. SavesLinks t.link i.id (get_links req) k.links) one h.created.links,
            link_row h,
          )
      | inr (k, found, _, _) ↦ absurd (nothing k.issue.id (StandsFor-of_Loads t req k found))
    ]

-- A column after an update that may give it a value.
abbrev pub Patches : String → String → String → Type 0
Patches given old new = (given ≡ "" → new ≡ old) × (given ≢ "" → new ≡ given)

patches : (given old : String) → Patches given old (or_keep (if_given given) old)
patches given old = (λ e. rw e refl, λ n. ground (arith, eq_iff given ""))

pub record IsPatched (req : IssuePayload) (old new : Issue) : Type 0 where
  pub id : new.id ≡ old.id
  pub scope_id : new.scope_id ≡ old.scope_id
  pub detected_at : new.detected_at ≡ old.detected_at
  pub created_at : new.created_at ≡ old.created_at
  pub title : Patches (get_title req) old.title new.title
  pub description : Patches (get_description req) old.description new.description
  pub severity : Patches (get_severity req) old.severity new.severity
  pub issue_type : Patches (get_issue_type req) old.issue_type new.issue_type
  pub namespace : Patches (get_namespace req) old.namespace new.namespace
  pub state : Patches (get_state req) old.state new.state
  pub kept_time : get_state req ≡ "" → new.resolved_at ≡ old.resolved_at
  pub set_time :
      get_state req ≡ "RESOLVED" → old.state ≢ "RESOLVED" → is_some new.resolved_at ≡ true

patched :
    (req : IssuePayload) (i : Issue) (t u : Tables) (h : IsUpdated i req t u)
    → IsPatched req i (set_columns (issue_updates req h.time h.resolved) i)
patched req i t u h = record {
  id = refl;
  scope_id = refl;
  detected_at = refl;
  created_at = refl;
  title = patches (get_title req) i.title;
  description = patches (get_description req) i.description;
  severity = patches (get_severity req) i.severity;
  issue_type = patches (get_issue_type req) i.issue_type;
  namespace = patches (get_namespace req) i.namespace;
  state = patches (get_state req) i.state;
  kept_time = λ e.
      let unset : h.resolved ≡ none = ground (arith, h.resolves, eq_iff (get_state req) "") in
      rw unset refl;
  set_time = λ e n.
      let other : (i.state == IssueState.resolved) ≡ false =
        ground (arith, eq_iff i.state IssueState.resolved) in
      let set : is_some h.resolved ≡ true = rw (e, other) at h.resolves in
      elim (Option-cases h.resolved) [
        | inl unset ↦ absurd (ground arith)
        | inr (time, given) ↦ rw given refl
      ];
}

abbrev row_or : Issue → Option Issue → Issue
row_or d none = d
row_or d (some i) = i

changed_row :
    (id : String) (req : IssuePayload) (t u : Tables) (k : Issue) (h : IsUpdated k req t u)
    → t.issue id ≡ some k
    → k.id ≡ id
    → u.issue id ≡ some (set_columns (issue_updates req h.time h.resolved) k)
changed_row id req t u k h found own = ground (arith, h.applied.issue id, found, own, eq_refl id)

other_row :
    (id : String) (req : IssuePayload) (t u : Tables) (k : Issue) (h : IsUpdated k req t u)
    → IsKeyed t
    → k.id ≡ id
    → (j : String) → j ≢ id
    → u.issue j ≡ t.issue j
other_row id req t u k h keyed own j apart = h.applied.issue j ∙ elim (Option-cases (t.issue j)) [
  | inl missing ↦ rw missing refl
  | inr (a, at) ↦
      let other : (a.id == k.id) ≡ false =
        ground (arith, keyed.issue j a at, own, eq_iff a.id k.id) in
      rw at (rw other refl)
]

IsPatched-row :
    (id : String) (req : IssuePayload) (t u : Tables) (i : Issue) (l : LoadedIssue)
    → IsKeyed t
    → t.issue id ≡ some i
    → ChangesOrFails id req t (ok (some l)) u
    → IsPatched req i l.issue × ((j : String) → j ≢ id → u.issue j ≡ t.issue j)
IsPatched-row id req t u i l keyed stored (here, loaded, (k, found, own, h)) =
    let one : some k ≡ some i = sym found ∙ stored in
    let same : k ≡ i = ap (row_or k) one in
    let row : u.issue id ≡ some l.issue =
      subst (λ x. u.issue x ≡ some l.issue) here loaded.stored in
    let now : some (set_columns (issue_updates req h.time h.resolved) k) ≡ some l.issue =
      sym (changed_row id req t u k h found own) ∙ row in
    let same_row : set_columns (issue_updates req h.time h.resolved) k ≡ l.issue =
      ap (row_or k) now in
    (
      subst (IsPatched req i) same_row (
          subst (λ x. IsPatched req x (set_columns (issue_updates req h.time h.resolved) k)) same
            (patched req k t u h)),
      other_row id req t u k h keyed own,
    )

-- Where `Update` succeeds, the issue that it returns has the values that the request gives, and its
-- old ones where the request gives none: also the id, the scope and the times at which it was
-- detected and created. The time of the resolution stays where the request gives no state, and is
-- set where it resolves an issue that was not. No other issue changes.
pub update_issue-IsPatched :
    (g : Gorm) (laws : GormLaws g) (id : String) (req : IssuePayload) (w : g.World) (i : Issue)
    (l : LoadedIssue)
    → (g.tables w).issue id ≡ some i
    → (update_issue g id req w).0 ≡ ok (some l)
    → IsPatched req i l.issue
      × ((j : String)
          → j ≢ id
          → (g.tables (update_issue g id req w).1).issue j ≡ (g.tables w).issue j)
update_issue-IsPatched g laws id req w i l stored done =
    let t = g.tables w in
    let u = g.tables (update_issue g id req w).1 in
    IsPatched-row id req t u i l (laws.keyed w) stored
      (subst (λ r. ChangesOrFails id req t r u) done (update_issue-ChangesOrFails g laws id req w))
