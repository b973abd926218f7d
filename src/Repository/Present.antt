-- ===== src/Repository/Present.antt =====
-- The issue that `CreateOrUpdate` of issue_repository.go stores for a request without a state, in a
-- scope of the request's own namespace, stands for the problem of the request.
use kkite.Prelude.{
  String, ◌≡◌, refl, sym, ap, ◌∙◌, subst, some, eq_iff, eq_refl, arith, inl, inr, if◌then◌else◌,
  ◌==◌, Bool-cases,
}
use kkite.Models.{IssueScope, LoadedIssue}
use kkite.Models.IssueState
use kkite.Dto.{
  IssuePayload, get_state, get_scope, get_namespace, get_resource_namespace, get_resource_type,
  get_resource_name, as_optional, differs_from_empty_optional,
}
use kkite.Store.{Tables, set_columns, set_scope_columns}
use kkite.Store.Gorm.{IsKeyed, Loads}
use kkite.Repository.Requests.{duplicate_query, issue_updates}
use kkite.Repository.Invariant.{StandsFor, problem_of, StandsFor-of_Loads}
use kkite.Repository.CreateKeeps.{HasCreated, new_issue_row}
use kkite.Repository.Updates.{IsUpdated}
use kkite.Repository.Stores.{Stores}

-- The request gives no state, and its scope no other namespace than its own.
pub record IsPlain (req : IssuePayload) : Type 0 where
  pub no_state : get_state req ≡ ""
  pub own_namespace :
      (if get_resource_namespace (get_scope req) == ""
        then get_namespace req
        else get_resource_namespace (get_scope req))
      ≡ get_namespace req

module _ (req : IssuePayload) (plain : IsPlain req) (t u : Tables) where
  StandsFor-of_new :
      (l : LoadedIssue) → HasCreated req t l u → StandsFor u (problem_of req) l.issue.id
  StandsFor-of_new l h =
      let active : l.issue.state ≡ IssueState.active = h.created.state ∙ rw plain.no_state refl in
      record {
        issue = l.issue;
        stored = new_issue_row h;
        namespace = h.created.namespace;
        issue_type = h.created.issue_type;
        known_state = rw active refl;
        scope = h.scope;
        scope_stored =
            ap u.scope h.created.owned_scope
            ∙ ap (λ v. v.scope h.scope.id) h.result
            ∙ ground (arith, eq_refl h.scope.id);
        resource_type = h.created.resource_type;
        resource_name = h.created.resource_name;
        resource_namespace = h.created.resource_namespace ∙ plain.own_namespace;
      }

  -- The scope of the issue after the update, and what it has in common with the problem.
  scope_kept :
      (l : LoadedIssue) (s : IssueScope)
      → IsKeyed t
      → IsUpdated l.issue req t u
      → t.scope l.issue.scope_id ≡ some s
      → s.resource_type ≡ get_resource_type (get_scope req)
      → s.resource_name ≡ get_resource_name (get_scope req)
      → s.resource_namespace ≡ get_namespace req
      → (s' : IssueScope) × (u.scope l.issue.scope_id ≡ some s')
        × (s'.resource_type ≡ get_resource_type (get_scope req))
        × (s'.resource_name ≡ get_resource_name (get_scope req))
        × (s'.resource_namespace ≡ get_namespace req)
  scope_kept l s keyed h row type_same name_same namespace_same =
      let own : s.id ≡ l.issue.scope_id = keyed.scope l.issue.scope_id s row in
      let body = as_optional (get_scope req) in
      elim (Bool-cases (differs_from_empty_optional (get_scope req))) [
        | inl given ↦ (
          set_scope_columns body s,
          ground (arith, h.applied.scope l.issue.scope_id, eq_iff s.id l.issue.scope_id),
          ground arith,
          ground arith,
          ground (arith, plain.own_namespace),
        )
        | inr not_given ↦ (
          s,
          ground (arith, h.applied.scope l.issue.scope_id),
          type_same,
          name_same,
          namespace_same,
        )
      ]

  StandsFor-of_updated :
      (l : LoadedIssue)
      → IsKeyed t
      → Loads (duplicate_query req) t l
      → IsUpdated l.issue req t u
      → StandsFor u (problem_of req) l.issue.id
  StandsFor-of_updated l keyed found h =
      let old = StandsFor-of_Loads t req l found in
      let same : old.issue ≡ l.issue = ground (arith, old.stored, found.stored) in
      let row : t.scope l.issue.scope_id ≡ some old.scope =
        ap (λ i. t.scope i.scope_id) (sym same) ∙ old.scope_stored in
      let (s, at, type_same, name_same, namespace_same) =
        scope_kept l old.scope keyed h row old.resource_type old.resource_name
          old.resource_namespace in
      let ups = issue_updates req h.time h.resolved in
      let unchanged : (set_columns ups l.issue).state ≡ old.issue.state =
        rw plain.no_state (ap (λ i. i.state) (sym same)) in
      record {
        issue = set_columns ups l.issue;
        stored = ground (arith, h.applied.issue l.issue.id, found.stored, eq_refl l.issue.id);
        namespace = ground (arith, old.namespace, ap (λ i. i.namespace) same);
        issue_type = ground (arith, old.issue_type, ap (λ i. i.issue_type) same);
        known_state = rw unchanged old.known_state;
        scope = s;
        scope_stored = at;
        resource_type = type_same;
        resource_name = name_same;
        resource_namespace = namespace_same;
      }

  pub StandsFor-of_Stores :
      (id : String) → IsKeyed t → Stores req req t id u → StandsFor u (problem_of req) id
  StandsFor-of_Stores id keyed (inl (l, h, same, nothing)) =
      subst (StandsFor u (problem_of req)) (sym same) (StandsFor-of_new l h)
  StandsFor-of_Stores id keyed (inr (l, found, h, same)) =
      subst (StandsFor u (problem_of req)) (sym same) (StandsFor-of_updated l keyed found h)
