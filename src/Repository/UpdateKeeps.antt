-- ===== src/Repository/UpdateKeeps.antt =====
-- An update of the duplicate that a request has found keeps the tables sound.
use kkite.Prelude.{
  String, ◌≡◌, ◌≢◌, ◌⊎◌, refl, sym, ap, ◌∙◌, subst, Option, some, ◌==◌, eq_iff, List, [], ◌∷◌,
  is_some, arith, Option-cases, Bool-cases, inl, inr,
}
use kkite.Models.{Time, Issue, IssueScope, Link}
use kkite.Dto.{CreateLinkRequest, IssuePayload, get_links}
use kkite.Store.{Tables, IssueUpdates, set_columns, kept, find_link}
use kkite.Store.Gorm.{IsKeyed, SavesLinks}
use kkite.Repository.Requests.{issue_updates}
use kkite.Repository.Invariant.{IsConsistent, Problem, problem_of, StandsFor, IsSound}
use kkite.Repository.Updates.{IsUpdated, HasApplied, HasLinks}

pub issue_id_of_SavesLinks :
    (rows : String → Option Link) (id : String) (qs : List CreateLinkRequest) (ls : List Link)
    (j : String) (l : Link)
    → SavesLinks rows id qs ls
    → find_link j ls ≡ some l
    → l.issue_id ≡ id
issue_id_of_SavesLinks rows id [] [] j l saved e = absurd (ground arith)
issue_id_of_SavesLinks rows id (q ∷ qs) (k ∷ ls) j l saved e =
    ground (arith, issue_id_of_SavesLinks rows id qs ls j l saved.5)
issue_id_of_SavesLinks rows id [] (k ∷ ls) j l saved e = absurd saved
issue_id_of_SavesLinks rows id (q ∷ qs) [] j l saved e = absurd saved

-- A link that is there after an update is one of the issue's, or an old one.
old_link_of :
    (qs : List CreateLinkRequest) (old new : String → Option Link) (id : String)
    → HasLinks id qs old new
    → (j : String) (l : Link) → new j ≡ some l
    → (l.issue_id ≡ id) ⊎ (old j ≡ some l)
old_link_of [] old new id h j l e = inr (sym (ap (λ f. f j) h) ∙ e)
old_link_of (q ∷ qs) old new id (ls, saved, h) j l e = elim (Option-cases (find_link j ls)) [
  | inl none_new ↦ inr (ground (arith, h j))
  | inr (k, found) ↦ inl (
      ground (
        arith,
        h j,
        issue_id_of_SavesLinks (λ i. kept (λ m. m.issue_id == id) (old i)) id (q ∷ qs) ls j k saved
            found,
      ))
]

module _ {existing : Issue} {req : IssuePayload} {ups : IssueUpdates} {t u : Tables}
    (keyed : IsKeyed t) (stored : t.issue existing.id ≡ some existing)
    (h : HasApplied existing req ups t u) where
  -- A row of the new table is the updated issue, or an old row of another issue.
  row_cases :
      (j : String) (a : Issue)
      → u.issue j ≡ some a
      → ((j ≡ existing.id) × (a ≡ set_columns ups existing))
        ⊎ ((t.issue j ≡ some a) × (j ≢ existing.id))
  row_cases j a e = elim (Option-cases (t.issue j)) [
    | inl missing ↦ absurd (ground (arith, h.issue j))
    | inr (b, found) ↦
        let own : b.id ≡ j = keyed.issue j b found in
        elim (Bool-cases (b.id == existing.id)) [
          | inl same ↦
              let here : j ≡ existing.id = sym own ∙ (eq_iff b.id existing.id).0 same in
              let row : some b ≡ some existing = sym found ∙ ap t.issue here ∙ stored in
              inl (here, ground (arith, h.issue j))
          | inr other ↦
              inr (ground (arith, h.issue j), λ x. ground (arith, eq_iff b.id existing.id))
        ]
  ]

  -- A scope of another issue is not touched.
  other_scope : (id : String) → id ≢ existing.scope_id → u.scope id ≡ t.scope id
  other_scope id apart = elim (Option-cases (t.scope id)) [
    | inl missing ↦ ground (arith, h.scope id)
    | inr (s, found) ↦
        ground (arith, h.scope id, keyed.scope id s found, eq_iff s.id existing.scope_id)
  ]

  kept_issue : (id : String) → is_some (u.issue id) ≡ is_some (t.issue id)
  kept_issue id = ground (arith, h.issue id)

  kept_scope : (id : String) → is_some (u.scope id) ≡ is_some (t.scope id)
  kept_scope id = ground (arith, h.scope id)

  -- The scope id that a row of the new table has is that of the old row.
  same_scope_id :
      (j : String) (a : Issue)
      → u.issue j ≡ some a
      → (b : Issue) × (t.issue j ≡ some b) × (a.scope_id ≡ b.scope_id)
  same_scope_id j a e = elim (row_cases j a e) [
    | inl (here, row) ↦ (existing, ap t.issue here ∙ stored, ap (λ i. i.scope_id) row)
    | inr (found, apart) ↦ (a, found, refl)
  ]

  old_link :
      (j : String) (l : Link) → u.link j ≡ some l → (l.issue_id ≡ existing.id) ⊎ (t.link j ≡ some l)
  old_link j l e = old_link_of (get_links req) t.link u.link existing.id h.link j l e

  pub IsConsistent-of_HasApplied : IsConsistent t → IsConsistent u
  IsConsistent-of_HasApplied c = record {
    has_scope = λ j i e.
        let (b, found, same) = same_scope_id j i e in
        rw (same, kept_scope b.scope_id) (c.has_scope j b found);
    own_scope = λ j k a b e f same.
        let (a', found, same_a) = same_scope_id j a e in
        let (b', found', same_b) = same_scope_id k b f in
        c.own_scope j k a' b' found found' (sym same_a ∙ same ∙ same_b);
    has_issue = λ j l e. elim (old_link j l e) [
      | inl mine ↦ rw (mine, kept_issue existing.id, stored) refl
      | inr found ↦ rw (kept_issue l.issue_id) (c.has_issue j l found)
    ];
    has_source =
        λ j r e. rw (kept_issue r.source_id) (c.has_source j r (sym (ap (λ f. f j) h.related) ∙ e));
    has_target =
        λ j r e. rw (kept_issue r.target_id) (c.has_target j r (sym (ap (λ f. f j) h.related) ∙ e));
  }

-- The update changes no column that says which problem an issue stands for, except that the scope
-- may move to another namespace: so an issue stands for a problem only if it did before.
module _ {existing : Issue} {req : IssuePayload} {time : Time} {resolved : Option Time}
    {t u : Tables} (keyed : IsKeyed t) (c : IsConsistent t)
    (found : StandsFor t (problem_of req) existing.id)
    (stored : t.issue existing.id ≡ some existing)
    (h : HasApplied existing req (issue_updates req time resolved) t u) where
  same_existing : found.issue ≡ existing
  same_existing = cc (found.stored, stored)

  moved_scope :
      (s : IssueScope)
      → u.scope existing.scope_id ≡ some s
      → (s.resource_type ≡ found.scope.resource_type)
        × (s.resource_name ≡ found.scope.resource_name)
  moved_scope s e =
      let at_scope : t.scope existing.scope_id ≡ some found.scope =
        subst (λ i. t.scope i.scope_id ≡ some found.scope) same_existing found.scope_stored in
      ground (arith, h.scope existing.scope_id, at_scope, found.resource_type, found.resource_name)

  existing_namespace :
      (i : Issue) (p : Problem)
      → i ≡ set_columns (issue_updates req time resolved) existing
      → i.namespace ≡ p.namespace
      → existing.namespace ≡ p.namespace
  existing_namespace i p row e = ground (arith, same_existing, found.namespace)

  existing_issue_type :
      (i : Issue) (p : Problem)
      → i ≡ set_columns (issue_updates req time resolved) existing
      → i.issue_type ≡ p.issue_type
      → existing.issue_type ≡ p.issue_type
  existing_issue_type i p row e = ground (arith, same_existing, found.issue_type)

  pub StandsFor-before : (p : Problem) (j : String) → StandsFor u p j → StandsFor t p j
  StandsFor-before p j n = elim (row_cases keyed stored h j n.issue n.stored) [
    | inl (here, row) ↦
        let at : u.scope existing.scope_id ≡ some n.scope =
          subst (λ i. u.scope i.scope_id ≡ some n.scope) row n.scope_stored in
        let (type_same, name_same) = moved_scope n.scope at in
        let same = same_existing in
        record {
          issue = existing;
          stored = ap t.issue here ∙ stored;
          namespace = existing_namespace n.issue p row n.namespace;
          issue_type = existing_issue_type n.issue p row n.issue_type;
          known_state = rw (← same) found.known_state;
          scope = found.scope;
          scope_stored = subst (λ i. t.scope i.scope_id ≡ some found.scope) same found.scope_stored;
          resource_type = sym type_same ∙ n.resource_type;
          resource_name = sym name_same ∙ n.resource_name;
          resource_namespace =
              found.resource_namespace
              ∙ sym found.namespace
              ∙ ap (λ i. i.namespace) same
              ∙ existing_namespace n.issue p row n.namespace;
        }
    | inr (old, apart) ↦ record {
      issue = n.issue;
      stored = old;
      namespace = n.namespace;
      issue_type = n.issue_type;
      known_state = n.known_state;
      scope = n.scope;
      scope_stored =
          sym (
            other_scope keyed stored h n.issue.scope_id
              (λ same. apart (c.own_scope j existing.id n.issue existing old stored same)))
          ∙ n.scope_stored;
      resource_type = n.resource_type;
      resource_name = n.resource_name;
      resource_namespace = n.resource_namespace;
    }
  ]

pub IsSound-of_IsUpdated :
    (existing : Issue) (req : IssuePayload) (t u : Tables)
    → IsKeyed t
    → StandsFor t (problem_of req) existing.id
    → t.issue existing.id ≡ some existing
    → IsUpdated existing req t u
    → IsSound t
    → IsSound u
IsSound-of_IsUpdated existing req t u keyed found stored h sound = record {
  consistent = IsConsistent-of_HasApplied keyed stored h.applied sound.consistent;
  duplicate_free = λ p j k a b.
      sound.duplicate_free p j k
        (StandsFor-before keyed sound.consistent found stored h.applied p j a)
        (StandsFor-before keyed sound.consistent found stored h.applied p k b);
}
