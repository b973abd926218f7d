-- ===== src/Repository/CreateKeeps.antt =====
-- Creating an issue for a problem that no issue stands for keeps the tables sound.
use kkite.Prelude.{
  String, ◌≡◌, ◌≢◌, ◌⊎◌, refl, sym, ap, ◌∙◌, subst, some, true, false, ◌==◌, eq_iff, eq_refl,
  is_some, arith, Option-cases, Bool-cases, String-cases, inl, inr, if◌then◌else◌,
}
use kkite.Models.{Time, Issue, IssueScope, LoadedIssue}
use kkite.Dto.{IssuePayload, get_links}
use kkite.Store.{Tables, selects, find_link, wrap}
use kkite.Store.Gorm.{Gorm, GormLaws, Ensures, found_or, put_created, IsCreatedFrom, Created, clock}
use kkite.Store.Rules.{OnSuccess, then_rule, wrap_rule, clock_rule, at_equal}
use kkite.Repository.Requests.{new_issue, duplicate_query}
use kkite.Repository.Operations.{create_new_issue_in_tx}
use kkite.Repository.Invariant.{
  IsConsistent, Problem, problem_of, StandsFor, IsDuplicateFree, IsSound, selects_of_StandsFor,
}
use kkite.Repository.UpdateKeeps.{issue_id_of_SavesLinks}

-- The tables after the creation of an issue for the request.
pub record HasCreated (req : IssuePayload) (t : Tables) (l : LoadedIssue) (u : Tables)
    : Type 0 where
  pub time : Time
  pub scope : IssueScope
  pub loaded_scope : l.scope ≡ some scope
  pub created : IsCreatedFrom (new_issue req time) t l.issue scope l.links
  pub result : u ≡ put_created l.issue scope l.links t

module _ {req : IssuePayload} {t u : Tables} {l : LoadedIssue} (h : HasCreated req t l u) where
  issue_row : (j : String) → u.issue j ≡ (if j == l.issue.id then some l.issue else t.issue j)
  issue_row j = ap (λ v. v.issue j) h.result

  scope_row : (j : String) → u.scope j ≡ (if j == h.scope.id then some h.scope else t.scope j)
  scope_row j = ap (λ v. v.scope j) h.result

  pub link_row : (j : String) → u.link j ≡ found_or (find_link j l.links) (t.link j)
  link_row j = ap (λ v. v.link j) h.result

  related_row : (j : String) → u.related j ≡ t.related j
  related_row j = ap (λ v. v.related j) h.result

  row_cases :
      (j : String) (a : Issue)
      → u.issue j ≡ some a
      → ((j ≡ l.issue.id) × (a ≡ l.issue)) ⊎ ((t.issue j ≡ some a) × (j ≢ l.issue.id))
  row_cases j a e = elim (Bool-cases (j == l.issue.id)) [
    | inl same ↦ inl ((eq_iff j l.issue.id).0 same, ground (arith, issue_row j))
    | inr other ↦ inr (ground (arith, issue_row j), λ x. ground (arith, eq_iff j l.issue.id))
  ]

  kept_issue : (j : String) → is_some (t.issue j) ≡ true → is_some (u.issue j) ≡ true
  kept_issue j e = ground (arith, issue_row j)

  kept_scope : (j : String) → is_some (t.scope j) ≡ true → is_some (u.scope j) ≡ true
  kept_scope j e = ground (arith, scope_row j)

  pub new_issue_row : u.issue l.issue.id ≡ some l.issue
  new_issue_row = ground (arith, issue_row l.issue.id, eq_refl l.issue.id)

  -- The new scope belongs to no old issue.
  apart_scope :
      (c : IsConsistent t) (j : String) (a : Issue) → t.issue j ≡ some a → a.scope_id ≢ h.scope.id
  apart_scope c j a e same = ground (arith, c.has_scope j a e, h.created.fresh_scope)

  old_scope :
      (c : IsConsistent t) (j : String) (a : Issue)
      → t.issue j ≡ some a
      → u.scope a.scope_id ≡ t.scope a.scope_id
  old_scope c j a e =
      ground (arith, scope_row a.scope_id, eq_iff a.scope_id h.scope.id, apart_scope c j a e)

  new_scope_id : (a : Issue) → a ≡ l.issue → a.scope_id ≡ h.scope.id
  new_scope_id a row = ap (λ i. i.scope_id) row ∙ h.created.owned_scope

  own_scope_after :
      (c : IsConsistent t) (j k : String) (a b : Issue)
      → u.issue j ≡ some a
      → u.issue k ≡ some b
      → a.scope_id ≡ b.scope_id
      → j ≡ k
  own_scope_after c j k a b e f same = elim (row_cases j a e) [
    | inl (here, row) ↦ elim (row_cases k b f) [
      | inl (here', row') ↦ here ∙ sym here'
      | inr (old, apart) ↦ absurd (apart_scope c k b old (sym same ∙ new_scope_id a row))
    ]
    | inr (old, apart) ↦ elim (row_cases k b f) [
      | inl (here', row') ↦ absurd (apart_scope c j a old (same ∙ new_scope_id b row'))
      | inr (old', apart') ↦ c.own_scope j k a b old old' same
    ]
  ]

  pub IsConsistent-of_HasCreated : IsConsistent t → IsConsistent u
  IsConsistent-of_HasCreated c = record {
    has_scope = λ j i e. elim (row_cases j i e) [
      | inl (here, row) ↦
          rw row
            (ground (arith, scope_row l.issue.scope_id, h.created.owned_scope, eq_refl h.scope.id))
      | inr (old, apart) ↦ kept_scope i.scope_id (c.has_scope j i old)
    ];
    own_scope = own_scope_after c;
    has_issue = λ j m e. elim (Option-cases (find_link j l.links)) [
      | inl none_new ↦ kept_issue m.issue_id (c.has_issue j m (ground (arith, link_row j)))
      | inr (n, found) ↦
          let mine : m.issue_id ≡ l.issue.id = ground (
            arith,
            link_row j,
            issue_id_of_SavesLinks t.link l.issue.id (get_links req) l.links j n h.created.links
                found,
          ) in
          rw (mine, new_issue_row) refl
    ];
    has_source = λ j r e. kept_issue r.source_id (c.has_source j r (sym (related_row j) ∙ e));
    has_target = λ j r e. kept_issue r.target_id (c.has_target j r (sym (related_row j) ∙ e));
  }

  pub StandsFor-of_old :
      (c : IsConsistent t) (p : Problem) (j : String)
      → StandsFor u p j
      → j ≢ l.issue.id
      → StandsFor t p j
  StandsFor-of_old c p j n apart =
      let old : t.issue j ≡ some n.issue =
        ground (arith, issue_row j, n.stored, eq_iff j l.issue.id) in
      record {
        issue = n.issue;
        stored = old;
        namespace = n.namespace;
        issue_type = n.issue_type;
        known_state = n.known_state;
        scope = n.scope;
        scope_stored = sym (old_scope c j n.issue old) ∙ n.scope_stored;
        resource_type = n.resource_type;
        resource_name = n.resource_name;
        resource_namespace = n.resource_namespace;
      }

  pub new_scope_of :
      (p : Problem) (j : String) (n : StandsFor u p j) → j ≡ l.issue.id → n.scope ≡ h.scope
  new_scope_of p j n here =
      let row : n.issue ≡ l.issue = ground (arith, n.stored, new_issue_row) in
      ground
        (arith, n.scope_stored, new_scope_id n.issue row, scope_row h.scope.id, eq_refl h.scope.id)

  problem_of_new :
      (p : Problem) (j : String) → StandsFor u p j → j ≡ l.issue.id → p ≡ problem_of req
  problem_of_new p j n here =
      let row : n.issue ≡ l.issue = ground (arith, n.stored, new_issue_row) in
      let at : n.scope ≡ h.scope = new_scope_of p j n here in
      ground (
        arith, n.namespace, n.issue_type, n.resource_type, n.resource_name, h.created.namespace,
        h.created.issue_type, h.created.resource_type, h.created.resource_name,
      )

  none_before :
      ((j : String) → selects (duplicate_query req) t (t.issue j) ≡ false)
      → (p : Problem) (j : String) → p ≡ problem_of req
      → ¬ (StandsFor t p j)
  none_before nothing p j same n =
      cc (nothing j, selects_of_StandsFor t req j (subst (λ q. StandsFor t q j) same n))

  new_alone :
      (c : IsConsistent t)
      → ((j : String) → selects (duplicate_query req) t (t.issue j) ≡ false)
      → (p : Problem) (j k : String) → StandsFor u p j
      → StandsFor u p k
      → j ≡ l.issue.id
      → ¬ (k ≢ l.issue.id)
  new_alone c nothing p j k a b here apart =
      none_before nothing p k (problem_of_new p j a here) (StandsFor-of_old c p k b apart)

  pub IsDuplicateFree-of_HasCreated :
      (c : IsConsistent t)
      → ((j : String) → selects (duplicate_query req) t (t.issue j) ≡ false)
      → IsDuplicateFree t
      → IsDuplicateFree u
  IsDuplicateFree-of_HasCreated c nothing free p j k a b = elim (String-cases j l.issue.id) [
    | inl here ↦ elim (String-cases k l.issue.id) [
      | inl there ↦ here ∙ sym there
      | inr apart ↦ absurd (new_alone c nothing p j k a b here apart)
    ]
    | inr apart ↦ elim (String-cases k l.issue.id) [
      | inl there ↦ absurd (new_alone c nothing p k j b a there apart)
      | inr apart' ↦ free p j k (StandsFor-of_old c p j a apart) (StandsFor-of_old c p k b apart')
    ]
  ]

pub IsSound-of_HasCreated :
    (req : IssuePayload) (t u : Tables) (l : LoadedIssue)
    → HasCreated req t l u
    → ((j : String) → selects (duplicate_query req) t (t.issue j) ≡ false)
    → IsSound t
    → IsSound u
IsSound-of_HasCreated req t u l h nothing sound = record {
  consistent = IsConsistent-of_HasCreated h sound.consistent;
  duplicate_free = IsDuplicateFree-of_HasCreated h sound.consistent nothing sound.duplicate_free;
}

module _ (g : Gorm) (laws : GormLaws g) where
  -- On success the new issue, its scope and its links are added, under fresh ids.
  pub create_new_issue_in_tx-HasCreated :
      (req : IssuePayload) (t : Tables)
      → Ensures g (create_new_issue_in_tx g req) t (OnSuccess (HasCreated req t))
  unfolding create_new_issue_in_tx
  create_new_issue_in_tx-HasCreated req t =
      then_rule g (clock g) _ t (λ _ u. u ≡ t) (HasCreated req t) (clock_rule g laws t)
        (λ time u₁ e₁.
          at_equal g (wrap "failed to create issue: " (g.create_issue (new_issue req time)))
            (OnSuccess (HasCreated req t)) e₁
            (wrap_rule g "failed to create issue: " (g.create_issue (new_issue req time)) t
              (Created (new_issue req time) t) (OnSuccess (HasCreated req t))
              (laws.create_issue_law (new_issue req time) t)
              (λ l u (s, loaded, created, result). record {
                time = time;
                scope = s;
                loaded_scope = loaded;
                created = created;
                result = result;
              })
              (λ e e' u q. tt)))
