-- ===== src/Repository/CreateOrUpdate.antt =====
-- `CreateOrUpdate` and `Create` of issue_repository.go: what they store, and what they keep.
use kkite.Prelude.{String, ◌≡◌, refl, sym, ◌∙◌, subst, Option, none, some, is_some, arith, inl, inr}
use kkite.Models.{LoadedIssue}
use kkite.Dto.{IssuePayload}
use kkite.Store.{Tables, Result, ok, err}
use kkite.Store.Gorm.{Gorm, GormLaws, Ensures, IsKeyed}
use kkite.Repository.Requests.{create_as_update}
use kkite.Repository.Operations.{create_or_update_branch, create_or_update, create_branch, create}
use kkite.Repository.Invariant.{
  IsSound, StandsFor, problem_of, StandsFor-of_Loads, selects_of_StandsFor,
}
use kkite.Repository.UpdateKeeps.{IsSound-of_IsUpdated}
use kkite.Repository.CreateKeeps.{IsSound-of_HasCreated}
use kkite.Repository.Stores.{
  Stores, StoresOld, Reloads, store_rule, create_or_update_branch_rule, create_branch_rule,
}

IsSound-of_Stores :
    (req change : IssuePayload) (t u : Tables) (id : String)
    → problem_of req ≡ problem_of change
    → IsKeyed t
    → Stores req change t id u
    → IsSound t
    → IsSound u
IsSound-of_Stores req change t u id same keyed (inl (l, h, _, nothing)) sound =
    IsSound-of_HasCreated req t u l h nothing sound
IsSound-of_Stores req change t u id same keyed (inr (l, found, h, _)) sound =
    IsSound-of_IsUpdated l.issue change t u keyed
      (subst (λ p. StandsFor t p l.issue.id) same (StandsFor-of_Loads t req l found)) found.stored h
      sound

IsSound-of_Reloads :
    (req change : IssuePayload) (t u : Tables) (r : Result (Option LoadedIssue))
    → problem_of req ≡ problem_of change
    → IsKeyed t
    → Reloads (Stores req change) t r u
    → IsSound t
    → IsSound u
IsSound-of_Reloads req change t u (ok none) same keyed h sound = absurd h
IsSound-of_Reloads req change t u (ok (some l)) same keyed (h, _) sound =
    IsSound-of_Stores req change t u l.issue.id same keyed h sound
IsSound-of_Reloads req change t u (err e) same keyed (inl rolled_back) sound =
    subst IsSound (sym rolled_back) sound
IsSound-of_Reloads req change t u (err e) same keyed (inr (id, h)) sound =
    IsSound-of_Stores req change t u id same keyed h sound

module _ (g : Gorm) (laws : GormLaws g) where
  create_or_update_rule :
      (req : IssuePayload) (t : Tables)
      → Ensures g (create_or_update g req) t (Reloads (Stores req req) t)
  unfolding create_or_update
  create_or_update_rule req t =
      store_rule g laws "failed to check for existing issue: " req req
        (create_or_update_branch g req) t (create_or_update_branch_rule g laws req t)

  create_rule :
      (req : IssuePayload) (t : Tables)
      → Ensures g (create g req) t (Reloads (Stores req (create_as_update req)) t)
  unfolding create
  create_rule req t =
      store_rule g laws "failed to check for duplicates: " req (create_as_update req)
        (create_branch g req) t (create_branch_rule g laws req t)

-- `CreateOrUpdate` is atomic and stores what is asked for, on every path. A value is an issue,
-- reloaded with its associations: a new one with the content of the request, and then no issue
-- matched before; or one that matched, with the columns, links and scope of the request in place.
-- After an error the tables are as before, or one of the two has been stored and only the reload
-- has failed. `nil` without an error is never returned.
pub create_or_update-Reloads :
    (g : Gorm) (laws : GormLaws g) (req : IssuePayload) (w : g.World)
    → let (r, w') = create_or_update g req w in
      Reloads (Stores req req) (g.tables w) r (g.tables w')
create_or_update-Reloads g laws req w = create_or_update_rule g laws req (g.tables w) w refl

-- The same of `Create`, whose update of an issue that matched has the fields of the request
-- without its links.
pub create-Reloads :
    (g : Gorm) (laws : GormLaws g) (req : IssuePayload) (w : g.World)
    → let (r, w') = create g req w in
      Reloads (Stores req (create_as_update req)) (g.tables w) r (g.tables w')
create-Reloads g laws req w = create_rule g laws req (g.tables w) w refl

-- Whatever the request and however `CreateOrUpdate` ends, it keeps the foreign keys, the one scope
-- to an issue, and that no two ACTIVE or RESOLVED issues stand for the same problem.
pub create_or_update-IsSound :
    (g : Gorm) (laws : GormLaws g) (req : IssuePayload) (w : g.World)
    → IsSound (g.tables w)
    → IsSound (g.tables (create_or_update g req w).1)
create_or_update-IsSound g laws req w sound =
    IsSound-of_Reloads req req (g.tables w) _ (create_or_update g req w).0 refl (laws.keyed w)
      (create_or_update-Reloads g laws req w) sound

-- So does `Create`.
pub create-IsSound :
    (g : Gorm) (laws : GormLaws g) (req : IssuePayload) (w : g.World)
    → IsSound (g.tables w)
    → IsSound (g.tables (create g req w).1)
create-IsSound g laws req w sound =
    IsSound-of_Reloads req (create_as_update req) (g.tables w) _ (create g req w).0 refl
      (laws.keyed w) (create-Reloads g laws req w) sound

kept_issue :
    (req change : IssuePayload) (t u : Tables) (id k : String)
    → StoresOld req change t id u
    → is_some (u.issue k) ≡ is_some (t.issue k)
kept_issue req change t u id k (l, found, h, _) = ground (arith, h.applied.issue k)

-- Where an issue stands for the problem of the request, `CreateOrUpdate` adds no other: on success
-- it returns that issue, and the ids of the issues are what they were.
pub create_or_update_again :
    (g : Gorm) (laws : GormLaws g) (req : IssuePayload) (w : g.World) (j : String) (l : LoadedIssue)
    → IsSound (g.tables w)
    → StandsFor (g.tables w) (problem_of req) j
    → (create_or_update g req w).0 ≡ ok (some l)
    → (l.issue.id ≡ j)
      × ((k : String)
          → is_some ((g.tables (create_or_update g req w).1).issue k)
            ≡ is_some ((g.tables w).issue k))
create_or_update_again g laws req w j l sound here done =
    let t = g.tables w in
    let u = g.tables (create_or_update g req w).1 in
    let (stored, _) =
      subst (λ r. Reloads (Stores req req) t r u) done (create_or_update-Reloads g laws req w) in
    elim stored [
      | inl (l', h, same, nothing) ↦ absurd (cc (nothing j, selects_of_StandsFor t req j here))
      | inr old ↦
          let (l', found, h, same) = old in
          (
            same
                ∙ sound.duplicate_free (problem_of req) l'.issue.id j
                    (StandsFor-of_Loads t req l' found) here,
            λ k. kept_issue req req t u l.issue.id k old,
          )
    ]
