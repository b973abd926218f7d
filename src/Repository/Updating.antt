-- ===== src/Repository/Updating.antt =====
-- `Update` of issue_repository.go.
use kkite.Prelude.{
  String, ◌≡◌, ◌⊎◌, refl, sym, subst, Option, none, some, eq_iff, eq_refl, arith, inl, inr, ◌<>◌,
}
use kkite.Models.{Issue, LoadedIssue}
use kkite.Dto.{IssuePayload}
use kkite.Store.{Tables, Result, ok, err, set_columns}
use kkite.Store.Gorm.{Gorm, GormLaws, Ensures, IsKeyed, Found, Loads, Committed}
use kkite.Store.Rules.{OnSuccess, bind_rule, weaken, at_equal, fail_rule}
use kkite.Repository.Requests.{by_id_query, issue_updates}
use kkite.Repository.Operations.{find_by_id, update_issue_in_tx, update_found, update_issue}
use kkite.Repository.Invariant.{IsConsistent}
use kkite.Repository.Updates.{IsUpdated, update_issue_in_tx-IsUpdated}
use kkite.Repository.UpdateKeeps.{IsConsistent-of_HasApplied}
use kkite.Repository.Stores.{find_by_id_rule, not_missing}

-- The issue with the id was there and has been updated.
abbrev pub Changes : String → IssuePayload → Tables → Tables → Type 0
Changes id req t u = (i : Issue) × (t.issue id ≡ some i) × (i.id ≡ id) × IsUpdated i req t u

abbrev pub ChangesOrFails :
    String → IssuePayload → Tables → Result (Option LoadedIssue) → Tables → Type 0
ChangesOrFails id req t (ok none) u = ⊥
ChangesOrFails id req t (ok (some l)) u =
    (l.issue.id ≡ id) × Loads (by_id_query id) u l × Changes id req t u
ChangesOrFails id req t (err e) u = (u ≡ t) ⊎ Changes id req t u

Changes-present :
    (id : String) (req : IssuePayload) (t u : Tables)
    → Changes id req t u
    → (i : Issue) × (u.issue id ≡ some i) × (i.id ≡ id)
Changes-present id req t u (i, stored, same, h) =
    let ups = issue_updates req h.time h.resolved in
    (set_columns ups i, ground (arith, h.applied.issue id, same, eq_refl id), same)

reloaded :
    (id : String) (req : IssuePayload) (t u : Tables)
    → Changes id req t u
    → (r : Result (Option LoadedIssue)) (v : Tables) → (v ≡ u) × Found (by_id_query id) u r
    → ChangesOrFails id req t r v
reloaded id req t u h (ok none) v (same, nothing) =
    not_missing u id (Changes-present id req t u h) (nothing id)
reloaded id req t u h (ok (some l)) v (same, found) =
    let here : l.issue.id ≡ id = (eq_iff l.issue.id id).0 (ground (arith, found.chosen)) in
    subst (λ v. (l.issue.id ≡ id) × Loads (by_id_query id) v l × Changes id req t v) (sym same)
      (here, found, h)
reloaded id req t u h (err e) v (same, _) = inr (subst (λ v. Changes id req t v) (sym same) h)

module _ (g : Gorm) (laws : GormLaws g) (id : String) (req : IssuePayload) where
  update_found_rule :
      (t : Tables) (o : Option LoadedIssue)
      → Found (by_id_query id) t (ok o)
      → Ensures g (update_found g id req o) t (ChangesOrFails id req t)
  unfolding update_found
  update_found_rule t none nothing =
      fail_rule g ("issue with ID " <> id <> " not found") t (ChangesOrFails id req t) (inl refl)
  update_found_rule t (some l) found =
      let here : l.issue.id ≡ id = (eq_iff l.issue.id id).0 (ground (arith, found.chosen)) in
      let stored : t.issue id ≡ some l.issue =
        subst (λ k. t.issue k ≡ some l.issue) here found.stored in
      let body = update_issue_in_tx g l.issue req in
      let Q : Result (Unit {0}) → Tables → Type 0 = OnSuccess (λ _. IsUpdated l.issue req t) in
      bind_rule g (g.transaction body) (λ _. find_by_id g id) t (Committed Q t)
        (ChangesOrFails id req t)
        (laws.transaction_law body t Q (update_issue_in_tx-IsUpdated g laws l.issue req t))
        (λ _ u h.
          weaken g (find_by_id g id) u (λ r v. (v ≡ u) × Found (by_id_query id) u r)
            (ChangesOrFails id req t) (find_by_id_rule g laws id u)
            (reloaded id req t u (l.issue, stored, here, h)))
        (λ e u same. inl same)

  update_rule : (t : Tables) → Ensures g (update_issue g id req) t (ChangesOrFails id req t)
  unfolding update_issue
  update_rule t =
      bind_rule g (find_by_id g id) (update_found g id req) t
        (λ r u. (u ≡ t) × Found (by_id_query id) t r) (ChangesOrFails id req t)
        (find_by_id_rule g laws id t)
        (λ o u (same, found).
          at_equal g (update_found g id req o) (ChangesOrFails id req t) same
            (update_found_rule t o found))
        (λ e u h. inl h.0)

-- `Update` changes the columns that the request gives of the issue with the id, its links and its
-- scope as requested, and no other row, and returns the issue reloaded. For an id that no issue has
-- it fails; after an error the tables are as before, or only the reload has failed.
pub update_issue-ChangesOrFails :
    (g : Gorm) (laws : GormLaws g) (id : String) (req : IssuePayload) (w : g.World)
    → let (r, w') = update_issue g id req w in ChangesOrFails id req (g.tables w) r (g.tables w')
update_issue-ChangesOrFails g laws id req w = update_rule g laws id req (g.tables w) w refl

IsConsistent-of_Changes :
    (id : String) (req : IssuePayload) (t u : Tables)
    → IsKeyed t
    → Changes id req t u
    → IsConsistent t
    → IsConsistent u
IsConsistent-of_Changes id req t u keyed (i, stored, same, h) =
    IsConsistent-of_HasApplied keyed (subst (λ k. t.issue k ≡ some i) (sym same) stored) h.applied

IsConsistent-of_ChangesOrFails :
    (id : String) (req : IssuePayload) (t u : Tables) (r : Result (Option LoadedIssue))
    → IsKeyed t
    → ChangesOrFails id req t r u
    → IsConsistent t
    → IsConsistent u
IsConsistent-of_ChangesOrFails id req t u (ok none) keyed h c = absurd h
IsConsistent-of_ChangesOrFails id req t u (ok (some l)) keyed (_, _, h) c =
    IsConsistent-of_Changes id req t u keyed h c
IsConsistent-of_ChangesOrFails id req t u (err e) keyed (inl same) c =
    subst IsConsistent (sym same) c
IsConsistent-of_ChangesOrFails id req t u (err e) keyed (inr h) c =
    IsConsistent-of_Changes id req t u keyed h c

-- However `Update` ends, the foreign keys hold and every issue has a scope of its own.
pub update_issue-IsConsistent :
    (g : Gorm) (laws : GormLaws g) (id : String) (req : IssuePayload) (w : g.World)
    → IsConsistent (g.tables w)
    → IsConsistent (g.tables (update_issue g id req w).1)
update_issue-IsConsistent g laws id req w =
    IsConsistent-of_ChangesOrFails id req (g.tables w) _ (update_issue g id req w).0 (laws.keyed w)
      (update_issue-ChangesOrFails g laws id req w)
