-- ===== src/Repository/Deletion.antt =====
-- `Delete` of issue_repository.go.
use kkite.Prelude.{
  String, ◌≡◌, ◌≢◌, refl, sym, ap, ◌∙◌, subst, Option, none, some, Bool, true, false, ◌||◌, eq_iff,
  arith, inl, inr, ◌==◌, is_some, Bool-cases, ◌<>◌,
}
use kkite.Models.{Issue, IssueScope, Link, RelatedIssue, LoadedIssue}
use kkite.Store.{Tables, Action, pure, Result, ok, err, kept, wrap, ◌>>◌}
use kkite.Store.Gorm.{
  Gorm, GormLaws, Ensures, IsKeyed, Found, Writes, Counts, Committed, delete_related_rows,
  delete_link_rows, delete_issue_rows, delete_scope_rows,
}
use kkite.Store.Rules.{OnSuccess, bind_rule, step_rule, weaken, at_equal, pure_rule, fail_rule}
use kkite.Repository.Requests.{by_id_query}
use kkite.Repository.Operations.{find_by_id, delete_in_tx, delete_found, delete}
use kkite.Repository.Invariant.{IsConsistent, IsSound, StandsFor, Problem}
use kkite.Repository.Stores.{find_by_id_rule}

-- The tables without the issue, its relations in either direction, its links and its scope.
abbrev pub without : String → String → Tables → Tables
without id scope_id t = record {
  issue = λ j. kept (λ i. i.id == id) (t.issue j);
  scope = λ j. kept (λ s. s.id == scope_id) (t.scope j);
  link = λ j. kept (λ l. l.issue_id == id) (t.link j);
  related = λ j. kept (λ r. r.source_id == id || r.target_id == id) (t.related j);
}

abbrev pub DeletesOrFails : String → Tables → Result (Unit {0}) → Tables → Type 0
DeletesOrFails id t (ok _) u = (i : Issue) × (t.issue id ≡ some i) × (u ≡ without id i.scope_id t)
DeletesOrFails id t (err e) u = u ≡ t

module _ (g : Gorm) (laws : GormLaws g) (id : String) where
  delete_in_tx_rule :
      (scope_id : String) (t : Tables)
      → Ensures g (delete_in_tx g id scope_id) t (OnSuccess (λ _ u. u ≡ without id scope_id t))
  unfolding delete_in_tx
  delete_in_tx_rule scope_id t =
      let R : Unit {0} → Tables → Type 0 = λ _ u. u ≡ without id scope_id t in
      let of_related : RelatedIssue → Bool = λ r. r.source_id == id || r.target_id == id in
      let of_link : Link → Bool = λ l. l.issue_id == id in
      let of_issue : Issue → Bool = λ i. i.id == id in
      let of_scope : IssueScope → Bool = λ s. s.id == scope_id in
      let W = g.World in
      let drop_scope : Action W (Unit {0}) =
        wrap "failed to delete issue scope: " (g.delete_scopes of_scope) >> pure tt in
      let drop_issue : Action W (Unit {0}) =
        wrap "failed to delete issue: " (g.delete_issues of_issue) >> drop_scope in
      let drop_links : Action W (Unit {0}) =
        wrap "failed to delete links: " (g.delete_links of_link) >> drop_issue in
      let t₁ = delete_related_rows of_related t in
      step_rule g "failed to delete related issues: " (g.delete_related of_related)
        (λ _. drop_links) t (λ r u. Writes t t₁ r u × Counts of_related t.related r) R
        (laws.delete_related_law of_related t)
        (λ _ u₁ e₁.
          step_rule g "failed to delete links: " (g.delete_links of_link) (λ _. drop_issue) u₁
            (λ r u. Writes u₁ (delete_link_rows of_link u₁) r u × Counts of_link u₁.link r) R
            (laws.delete_links_law of_link u₁)
            (λ _ u₂ e₂.
              step_rule g "failed to delete issue: " (g.delete_issues of_issue) (λ _. drop_scope) u₂
                (λ r u. Writes u₂ (delete_issue_rows of_issue u₂) r u × Counts of_issue u₂.issue r)
                R (laws.delete_issues_law of_issue u₂)
                (λ _ u₃ e₃.
                  step_rule g "failed to delete issue scope: " (g.delete_scopes of_scope)
                    (λ _. pure tt) u₃
                    (λ r u.
                      Writes u₃ (delete_scope_rows of_scope u₃) r u × Counts of_scope u₃.scope r)
                    R (laws.delete_scopes_law of_scope u₃)
                    (λ _ u₄ e₄. pure_rule g tt u₄ (OnSuccess R) (
                      e₄.0
                      ∙ ap (delete_scope_rows of_scope) (
                          e₃.0
                          ∙ ap (delete_issue_rows of_issue)
                              (e₂.0 ∙ ap (delete_link_rows of_link) e₁.0)))))))

  delete_found_rule :
      (t : Tables) (o : Option LoadedIssue)
      → Found (by_id_query id) t (ok o)
      → Ensures g (delete_found g id o) t (DeletesOrFails id t)
  unfolding delete_found
  delete_found_rule t none nothing =
      fail_rule g ("issue with ID " <> id <> " not found") t (DeletesOrFails id t) refl
  delete_found_rule t (some l) found =
      let here : l.issue.id ≡ id = (eq_iff l.issue.id id).0 (ground (arith, found.chosen)) in
      weaken g (g.transaction (delete_in_tx g id l.issue.scope_id)) t
        (Committed (OnSuccess (λ _ u. u ≡ without id l.issue.scope_id t)) t) (DeletesOrFails id t)
        (laws.transaction_law (delete_in_tx g id l.issue.scope_id) t
          (OnSuccess (λ _ u. u ≡ without id l.issue.scope_id t))
          (delete_in_tx_rule l.issue.scope_id t))
        (committed t l (subst (λ k. t.issue k ≡ some l.issue) here found.stored))
    where
      committed :
          (t : Tables) (l : LoadedIssue)
          → t.issue id ≡ some l.issue
          → (r : Result (Unit {0})) (u : Tables)
          → Committed (OnSuccess (λ _ u. u ≡ without id l.issue.scope_id t)) t r u
          → DeletesOrFails id t r u
      committed t l stored (ok _) u h = (l.issue, stored, h)
      committed t l stored (err e) u h = h

  delete_rule : (t : Tables) → Ensures g (delete g id) t (DeletesOrFails id t)
  unfolding delete
  delete_rule t =
      bind_rule g (find_by_id g id) (delete_found g id) t
        (λ r u. (u ≡ t) × Found (by_id_query id) t r) (DeletesOrFails id t)
        (find_by_id_rule g laws id t)
        (λ o u (same, found).
          at_equal g (delete_found g id o) (DeletesOrFails id t) same (delete_found_rule t o found))
        (λ e u h. h.0)

-- `Delete` removes the issue with the id, its scope, its links and its relations in both
-- directions, and nothing else; where it fails, as for an id that no issue has, the tables are as
-- before.
pub delete-DeletesOrFails :
    (g : Gorm) (laws : GormLaws g) (id : String) (w : g.World)
    → let (r, w') = delete g id w in DeletesOrFails id (g.tables w) r (g.tables w')
delete-DeletesOrFails g laws id w = delete_rule g laws id (g.tables w) w refl

module _ {A : Type 0} where
  kept_of : (p : A → Bool) (o : Option A) (a : A) → kept p o ≡ some a → (o ≡ some a) × (p a ≡ false)
  kept_of p none a e = absurd (ground arith)
  kept_of p (some b) a e = (ground arith, ground arith)

  kept-is_some :
      (p : A → Bool) (o : Option A)
      → is_some o ≡ true
      → ((a : A) → o ≡ some a → p a ≡ false)
      → is_some (kept p o) ≡ true
  kept-is_some p none h k = h
  kept-is_some p (some a) h k = rw (k a refl) refl

module _ (t : Tables) (id : String) (i : Issue) (keyed : IsKeyed t) (stored : t.issue id ≡ some i)
    (c : IsConsistent t) where
  other_issue :
      (j : String)
      → is_some (t.issue j) ≡ true
      → j ≢ id
      → is_some (kept (λ a. a.id == id) (t.issue j)) ≡ true
  other_issue j h apart =
      kept-is_some (λ a. a.id == id) (t.issue j) h
        (λ a e. ground (arith, keyed.issue j a e, eq_iff a.id id))

  -- Another issue does not have the scope that is deleted.
  apart_scope :
      (j : String) (a : Issue) (s : IssueScope)
      → t.issue j ≡ some a
      → (a.id == id) ≡ false
      → t.scope a.scope_id ≡ some s
      → (s.id == i.scope_id) ≡ false
  apart_scope j a s old apart at = elim (Bool-cases (s.id == i.scope_id)) [
    | inl same ↦
        let shared : a.scope_id ≡ i.scope_id =
          sym (keyed.scope a.scope_id s at) ∙ (eq_iff s.id i.scope_id).0 same in
        let here : j ≡ id = c.own_scope j id a i old stored shared in
        absurd (ground (arith, keyed.issue j a old, eq_iff a.id id))
    | inr other ↦ other
  ]

  IsConsistent-without : IsConsistent (without id i.scope_id t)
  IsConsistent-without = record {
    has_scope = λ j a e.
        let (old, apart) = kept_of (λ b. b.id == id) (t.issue j) a e in
        kept-is_some (λ s. s.id == i.scope_id) (t.scope a.scope_id) (c.has_scope j a old)
          (λ s at. apart_scope j a s old apart at);
    own_scope = λ j k a b e f same.
        c.own_scope j k a b (kept_of (λ x. x.id == id) (t.issue j) a e).0
          (kept_of (λ x. x.id == id) (t.issue k) b f).0 same;
    has_issue = λ j l e.
        let (old, apart) = kept_of (λ m. m.issue_id == id) (t.link j) l e in
        other_issue l.issue_id (c.has_issue j l old) (λ same. ground (arith, eq_iff l.issue_id id));
    has_source = λ j r e.
        let (old, apart) =
          kept_of (λ r. r.source_id == id || r.target_id == id) (t.related j) r e in
        other_issue r.source_id (c.has_source j r old)
          (λ same. ground (arith, eq_iff r.source_id id));
    has_target = λ j r e.
        let (old, apart) =
          kept_of (λ r. r.source_id == id || r.target_id == id) (t.related j) r e in
        other_issue r.target_id (c.has_target j r old)
          (λ same. ground (arith, eq_iff r.target_id id, eq_iff r.source_id id));
  }

  StandsFor-of_without :
      (p : Problem) (j : String) → StandsFor (without id i.scope_id t) p j → StandsFor t p j
  StandsFor-of_without p j n = record {
    issue = n.issue;
    stored = (kept_of (λ a. a.id == id) (t.issue j) n.issue n.stored).0;
    namespace = n.namespace;
    issue_type = n.issue_type;
    known_state = n.known_state;
    scope = n.scope;
    scope_stored =
        (kept_of (λ s. s.id == i.scope_id) (t.scope n.issue.scope_id) n.scope n.scope_stored).0;
    resource_type = n.resource_type;
    resource_name = n.resource_name;
    resource_namespace = n.resource_namespace;
  }

  IsSound-without : IsSound t → IsSound (without id i.scope_id t)
  IsSound-without sound = record {
    consistent = IsConsistent-without;
    duplicate_free = λ p j k a b.
        sound.duplicate_free p j k (StandsFor-of_without p j a) (StandsFor-of_without p k b);
  }

IsSound-of_DeletesOrFails :
    (id : String) (t u : Tables) (r : Result (Unit {0}))
    → IsKeyed t
    → DeletesOrFails id t r u
    → IsSound t
    → IsSound u
IsSound-of_DeletesOrFails id t u (ok _) keyed (i, stored, e) sound =
    subst IsSound (sym e) (IsSound-without t id i keyed stored sound.consistent sound)
IsSound-of_DeletesOrFails id t u (err message) keyed same sound = subst IsSound (sym same) sound

-- However `Delete` ends, no link, relation or issue refers to a row that is gone, and the tables
-- are still free of duplicates.
pub delete-IsSound :
    (g : Gorm) (laws : GormLaws g) (id : String) (w : g.World)
    → IsSound (g.tables w)
    → IsSound (g.tables (delete g id w).1)
delete-IsSound g laws id w =
    IsSound-of_DeletesOrFails id (g.tables w) _ (delete g id w).0 (laws.keyed w)
      (delete-DeletesOrFails g laws id w)
