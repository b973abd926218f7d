-- ===== src/Handlers/Changing.antt =====
-- `UpdateIssue`, `DeleteIssue` and `ResolveIssue` of issue_handlers.go, over the service and the
-- repository.
use kkite.Prelude.{
  String, ◌≡◌, ◌⊎◌, refl, sym, ◌∙◌, subst, Option, none, some, arith, inl, inr, eq_refl,
}
use kkite.Models.{Issue, Time, LoadedIssue}
use kkite.Dto.{UpdateIssueRequest, update}
use kkite.Store.{Tables, Result, ok, err, set_columns}
use kkite.Store.Gorm.{Gorm, GormLaws, Loads}
use kkite.Repository.Requests.{by_id_query, issue_updates}
use kkite.Repository.Operations as Operations
use kkite.Repository.Deletion.{without, DeletesOrFails, delete-DeletesOrFails}
use kkite.Repository.Updating.{Changes, ChangesOrFails, update_issue-ChangesOrFails}
use kkite.Service.{issue_service}
use kkite.Handlers.Replies.{Reply, reply, no_body, document, issue, error}
use kkite.Handlers.Issues.{
  answer, resolving, bad_request, deleted_answer, updated_answer, update_issue, delete_issue,
  resolve_issue,
}
use kkite.Handlers.Failures.{bind_pure}
use kkite.Handlers.Guards.{Allows, Refuses, guarded_rule}

abbrev pub DeleteAnswer : String → String → Tables → Reply → Tables → Type 0
DeleteAnswer id namespace t r u =
    ((r ≡ reply 204 no_body)
      × (i : Issue) × (t.issue id ≡ some i)
      × Allows namespace i
      × (u ≡ without id i.scope_id t))
    ⊎ Refuses "Failed to delete issue" id namespace t r u

deleted_at :
    (id namespace : String) (t u : Tables) (r : Result (Unit {0})) (i : Issue)
    → t.issue id ≡ some i
    → Allows namespace i
    → DeletesOrFails id t r u
    → DeleteAnswer id namespace t (deleted_answer r) u
deleted_at id namespace t u (ok _) i stored fine (k, found, e) =
    let same : k ≡ i = ground (arith, stored, found) in
    inl (refl, i, stored, fine, subst (λ x. u ≡ without id x.scope_id t) same e)
deleted_at id namespace t u (err e) i stored fine same = inr (same, inr (inr refl))

-- `DeleteIssue` answers 204 only to a request that names no namespace or that of the issue, and
-- then exactly the issue with its scope, links and relations is gone. Every other answer leaves the
-- tables as they were: 404 where no issue has the id, 403 where it is in another namespace than the
-- one named, else 500.
pub delete_issue-DeleteAnswer :
    (g : Gorm) (laws : GormLaws g) (id namespace : String) (w : g.World)
    → let (r, w') = delete_issue (issue_service g) id namespace w in
      DeleteAnswer id namespace (g.tables w) r (g.tables w')
unfolding delete_issue
delete_issue-DeleteAnswer g laws id namespace w =
    guarded_rule g laws "Failed to delete issue" id namespace
      (answer deleted_answer ((issue_service g).delete_issue id)) w
      (DeleteAnswer id namespace (g.tables w)) (λ q h. inr h)
      (λ v i same stored fine.
        let p = Operations.delete g id v in
        subst (λ x. DeleteAnswer id namespace (g.tables w) (deleted_answer x.0) (g.tables x.1))
          (sym (bind_pure (Operations.delete g id) v))
          (deleted_at id namespace (g.tables w) (g.tables p.1) p.0 i stored fine (
            subst (λ t. DeletesOrFails id t p.0 (g.tables p.1)) same
              (delete-DeletesOrFails g laws id v))))

-- A change by the request, answered with the issue that is reloaded after it, or with the error of
-- the reload.
abbrev pub ChangeAnswer :
    String → String → String → UpdateIssueRequest → Tables → Reply → Tables → Type 0
ChangeAnswer failure id namespace req t r u =
    (i : Issue) × (t.issue id ≡ some i)
    × Allows namespace i
    × Changes id (update req) t u
    × (((l : LoadedIssue) × (r ≡ reply 200 (document (issue l)))
          × (l.issue.id ≡ id)
          × Loads (by_id_query id) u l)
        ⊎ (r ≡ error 500 failure))

changed_at :
    (failure id namespace : String) (req : UpdateIssueRequest) (t u : Tables)
    (r : Result (Option LoadedIssue)) (i : Issue)
    → t.issue id ≡ some i
    → Allows namespace i
    → ChangesOrFails id (update req) t r u
    → ChangeAnswer failure id namespace req t (updated_answer failure r) u
      ⊎ ((updated_answer failure r ≡ error 500 failure) × (u ≡ t))
changed_at failure id namespace req t u (ok none) i stored fine h = absurd h
changed_at failure id namespace req t u (ok (some l)) i stored fine (here, loaded, h) =
    inl (i, stored, fine, h, inl (l, refl, here, loaded))
changed_at failure id namespace req t u (err e) i stored fine (inl same) = inr (refl, same)
changed_at failure id namespace req t u (err e) i stored fine (inr h) =
    inl (i, stored, fine, h, inr refl)

changed :
    (g : Gorm) (laws : GormLaws g) (failure id namespace : String) (req : UpdateIssueRequest)
    (v : g.World) (t : Tables) (i : Issue)
    → g.tables v ≡ t
    → t.issue id ≡ some i
    → Allows namespace i
    → let (r, w') = answer (updated_answer failure) ((issue_service g).update_issue id req) v in
      ChangeAnswer failure id namespace req t r (g.tables w')
      ⊎ ((r ≡ error 500 failure) × (g.tables w' ≡ t))
changed g laws failure id namespace req v t i same stored fine =
    let p = Operations.update_issue g id (update req) v in
    subst
      (λ x.
        ChangeAnswer failure id namespace req t (updated_answer failure x.0) (g.tables x.1)
        ⊎ ((updated_answer failure x.0 ≡ error 500 failure) × (g.tables x.1 ≡ t)))
      (sym (bind_pure (Operations.update_issue g id (update req)) v))
      (changed_at failure id namespace req t (g.tables p.1) p.0 i stored fine (
        subst (λ t. ChangesOrFails id (update req) t p.0 (g.tables p.1)) same
          (update_issue-ChangesOrFails g laws id (update req) v)))

abbrev pub UpdateAnswer :
    String → String → Result UpdateIssueRequest → Tables → Reply → Tables → Type 0
UpdateAnswer id namespace (err e) t r u = (r ≡ bad_request "Invalid request body" e) × (u ≡ t)
UpdateAnswer id namespace (ok req) t r u =
    ChangeAnswer "Failed to update issue" id namespace req t r u
    ⊎ Refuses "Failed to update issue" id namespace t r u

-- `UpdateIssue` answers 400 to a body that does not bind. It changes an issue only for a request that
-- names no namespace or that of the issue, and then by what the body gives, and answers 200 with the
-- issue, or 500 where only the reload fails. Every other answer (404, 403, 500) leaves the tables as
-- they were.
pub update_issue-UpdateAnswer :
    (g : Gorm) (laws : GormLaws g) (id namespace : String) (body : Result UpdateIssueRequest)
    (w : g.World)
    → let (r, w') = update_issue (issue_service g) id namespace body w in
      UpdateAnswer id namespace body (g.tables w) r (g.tables w')
unfolding update_issue
update_issue-UpdateAnswer g laws id namespace (err e) w = (refl, refl)
update_issue-UpdateAnswer g laws id namespace (ok req) w =
    guarded_rule g laws "Failed to update issue" id namespace
      (answer (updated_answer "Failed to update issue") ((issue_service g).update_issue id req)) w
      (UpdateAnswer id namespace (ok req) (g.tables w)) (λ q h. inr h)
      (λ v i same stored fine.
        elim (changed g laws "Failed to update issue" id namespace req v (g.tables w) i same stored
          fine) [ inl h ↦ inl h | inr (failed, kept) ↦ inr (kept, inr (inr failed)) ])

-- What `ResolveIssue` has done where it has not refused.
abbrev pub ResolveAnswer : String → String → Tables → Reply → Tables → Type 0
ResolveAnswer id namespace t r u =
    (i : Issue) × (t.issue id ≡ some i)
    × Allows namespace i
    × (((l : LoadedIssue) × (r ≡ reply 200 (document (issue l)))
          × (u.issue id ≡ some l.issue)
          × (l.issue.state ≡ "RESOLVED"))
        ⊎ (r ≡ error 500 "Failed to resolve issue"))

resolved_by_change :
    (id : String) (time : Time) (t u : Tables) (l : LoadedIssue)
    → Changes id (update (resolving time)) t u
    → l.issue.id ≡ id
    → Loads (by_id_query id) u l
    → (u.issue id ≡ some l.issue) × (l.issue.state ≡ "RESOLVED")
resolved_by_change id time t u l (i, stored, same, h) here loaded =
    let found : u.issue id ≡ some l.issue =
      subst (λ k. u.issue k ≡ some l.issue) here loaded.stored in
    let ups = issue_updates (update (resolving time)) h.time h.resolved in
    let row : u.issue id ≡ some (set_columns ups i) =
      ground (arith, h.applied.issue id, stored, same, eq_refl id) in
    (found, ground (arith))

-- `ResolveIssue` answers 200 only to a request that names no namespace or that of the issue, and then
-- the issue is stored as RESOLVED and is the one returned. It answers 404 where no issue has the id
-- and 403 where it is in another namespace than the one named, with the tables as they were; 500
-- stands for a failure of the database.
pub resolve_issue-ResolveAnswer :
    (g : Gorm) (laws : GormLaws g) (id namespace : String) (w : g.World)
    → let (r, w') = resolve_issue (issue_service g) g.now id namespace w in
      ResolveAnswer id namespace (g.tables w) r (g.tables w')
      ⊎ Refuses "failed to resolve issue" id namespace (g.tables w) r (g.tables w')
unfolding resolve_issue
resolve_issue-ResolveAnswer g laws id namespace w =
    guarded_rule g laws "failed to resolve issue" id namespace _ w
      (λ r u.
        ResolveAnswer id namespace (g.tables w) r u
        ⊎ Refuses "failed to resolve issue" id namespace (g.tables w) r u)
      (λ q h. inr h)
      (λ v i same stored fine.
        let time = (g.now v).0 in
        elim (changed g laws "Failed to resolve issue" id namespace (resolving time) (g.now v).1
          (g.tables w) i (laws.now_law v ∙ same) stored fine) [
            | inl (i, stored, fine, h, inl (l, answered, here, loaded)) ↦
                let (found, state) = resolved_by_change id time (g.tables w) _ l h here loaded in
                inl (i, stored, fine, inl (l, answered, found, state))
            | inl (i, stored, fine, h, inr failed) ↦ inl (i, stored, fine, inr failed)
            | inr (failed, kept) ↦ inl (i, stored, fine, inr failed)
          ])
