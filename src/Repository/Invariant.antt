-- ===== src/Repository/Invariant.antt =====
-- What holds of the tables between the operations of issue_repository.go: the constraints of
-- packages/backend/migrations, and that no two issues stand for the same problem.
use kkite.Prelude.{
  String, ◌≡◌, some, true, eq_iff, [], ◌∷◌, contains, Option-cases, inl, inr, is_some, arith,
}
use kkite.Models.{Issue, IssueScope, Link, RelatedIssue, LoadedIssue}
use kkite.Models.IssueState
use kkite.Dto.{
  IssuePayload, get_namespace, get_issue_type, get_scope, get_resource_type, get_resource_name,
}
use kkite.Store.{Tables, selects}
use kkite.Store.Gorm.{Loads}
use kkite.Repository.Requests.{duplicate_query}

-- The foreign keys, and that two issues have two scopes.
pub record IsConsistent (t : Tables) : Type 0 where
  pub has_scope :
      (j : String) (i : Issue) → t.issue j ≡ some i → is_some (t.scope i.scope_id) ≡ true
  pub own_scope :
      (j k : String) (a b : Issue)
      → t.issue j ≡ some a
      → t.issue k ≡ some b
      → a.scope_id ≡ b.scope_id
      → j ≡ k
  pub has_issue : (j : String) (l : Link) → t.link j ≡ some l → is_some (t.issue l.issue_id) ≡ true
  pub has_source :
      (j : String) (r : RelatedIssue) → t.related j ≡ some r → is_some (t.issue r.source_id) ≡ true
  pub has_target :
      (j : String) (r : RelatedIssue) → t.related j ≡ some r → is_some (t.issue r.target_id) ≡ true

-- What identifies a problem: where it is, of which type it is and which resource has it.
pub record Problem : Type 0 where
  pub namespace : String
  pub issue_type : String
  pub resource_type : String
  pub resource_name : String

abbrev pub problem_of : IssuePayload → Problem
problem_of req = record {
  namespace = get_namespace req;
  issue_type = get_issue_type req;
  resource_type = get_resource_type (get_scope req);
  resource_name = get_resource_name (get_scope req);
}

-- The issue with the id `j` is ACTIVE or RESOLVED and stands for the problem, in a scope of the
-- problem's own namespace.
pub record StandsFor (t : Tables) (p : Problem) (j : String) : Type 0 where
  pub issue : Issue
  pub stored : t.issue j ≡ some issue
  pub namespace : issue.namespace ≡ p.namespace
  pub issue_type : issue.issue_type ≡ p.issue_type
  pub known_state : contains (IssueState.active ∷ IssueState.resolved ∷ []) issue.state ≡ true
  pub scope : IssueScope
  pub scope_stored : t.scope issue.scope_id ≡ some scope
  pub resource_type : scope.resource_type ≡ p.resource_type
  pub resource_name : scope.resource_name ≡ p.resource_name
  pub resource_namespace : scope.resource_namespace ≡ p.namespace

abbrev pub IsDuplicateFree : Tables → Type 0
IsDuplicateFree t = (p : Problem) (j k : String) → StandsFor t p j → StandsFor t p k → j ≡ k

pub record IsSound (t : Tables) : Type 0 where
  pub consistent : IsConsistent t
  pub duplicate_free : IsDuplicateFree t

-- The query of `findDuplicateInTx` selects the issues that stand for the problem of the request.
pub selects_of_StandsFor :
    (t : Tables) (req : IssuePayload) (j : String)
    → StandsFor t (problem_of req) j
    → selects (duplicate_query req) t (t.issue j) ≡ true
selects_of_StandsFor t req j h = ground (
  arith,
  eq_iff h.issue.namespace (get_namespace req),
  eq_iff h.issue.issue_type (get_issue_type req),
  eq_iff h.scope.resource_type (get_resource_type (get_scope req)),
  eq_iff h.scope.resource_name (get_resource_name (get_scope req)),
  eq_iff h.scope.resource_namespace (get_namespace req),
)

pub StandsFor-of_Loads :
    (t : Tables) (req : IssuePayload) (l : LoadedIssue)
    → Loads (duplicate_query req) t l
    → StandsFor t (problem_of req) l.issue.id
StandsFor-of_Loads t req l h = elim (Option-cases (t.scope l.issue.scope_id)) [
  | inl missing ↦ absurd (ground (arith, h.chosen))
  | inr (s, found) ↦
      let chosen = h.chosen in
      record {
        issue = l.issue;
        stored = h.stored;
        namespace = ground (arith, eq_iff l.issue.namespace (get_namespace req));
        issue_type = ground (arith, eq_iff l.issue.issue_type (get_issue_type req));
        known_state = ground arith;
        scope = s;
        scope_stored = found;
        resource_type = ground (arith, eq_iff s.resource_type (get_resource_type (get_scope req)));
        resource_name = ground (arith, eq_iff s.resource_name (get_resource_name (get_scope req)));
        resource_namespace = ground (arith, eq_iff s.resource_namespace (get_namespace req));
      }
]
