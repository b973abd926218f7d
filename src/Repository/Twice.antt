-- ===== src/Repository/Twice.antt =====
-- Two calls of `CreateOrUpdate` of issue_repository.go for the same problem.
use kkite.Prelude.{String, ◌≡◌, subst, some, is_some}
use kkite.Models.{LoadedIssue}
use kkite.Dto.{IssuePayload}
use kkite.Store.{ok}
use kkite.Store.Gorm.{Gorm, GormLaws}
use kkite.Repository.Operations.{create_or_update}
use kkite.Repository.Invariant.{IsSound, StandsFor, problem_of}
use kkite.Repository.Stores.{Stores, Reloads}
use kkite.Repository.Present.{IsPlain, StandsFor-of_Stores}
use kkite.Repository.CreateOrUpdate.{
  create_or_update-Reloads, create_or_update-IsSound, create_or_update_again,
}

-- After a success the issue that is returned stands for the problem of the request.
pub create_or_update-StandsFor :
    (g : Gorm) (laws : GormLaws g) (req : IssuePayload) (w : g.World) (l : LoadedIssue)
    → IsPlain req
    → (create_or_update g req w).0 ≡ ok (some l)
    → StandsFor (g.tables (create_or_update g req w).1) (problem_of req) l.issue.id
create_or_update-StandsFor g laws req w l plain done =
    let t = g.tables w in
    let u = g.tables (create_or_update g req w).1 in
    let (stored, _) =
      subst (λ r. Reloads (Stores req req) t r u) done (create_or_update-Reloads g laws req w) in
    StandsFor-of_Stores req plain t u l.issue.id (laws.keyed w) stored

-- In tables that are sound before (the foreign keys hold, there is one issue to a scope, and no two
-- ACTIVE or RESOLVED issues stand for the same problem): two requests for the same problem, the
-- first without a state and in a scope of its own namespace, that both succeed one after the other
-- are stored in one issue. The second returns the id of the first, and the ids of the issues are
-- what they were after the first.
pub create_or_update_twice :
    (g : Gorm) (laws : GormLaws g) (first second : IssuePayload) (w : g.World) (l l' : LoadedIssue)
    → IsSound (g.tables w)
    → IsPlain first
    → problem_of first ≡ problem_of second
    → let (r, w') = create_or_update g first w in
      let (r', w'') = create_or_update g second w' in
      r ≡ ok (some l)
      → r' ≡ ok (some l')
      → (l'.issue.id ≡ l.issue.id)
        × ((k : String) → is_some ((g.tables w'').issue k) ≡ is_some ((g.tables w').issue k))
create_or_update_twice g laws first second w l l' sound plain same done again =
    let w' = (create_or_update g first w).1 in
    create_or_update_again g laws second w' l.issue.id l'
      (create_or_update-IsSound g laws first w sound)
      (subst (λ p. StandsFor (g.tables w') p l.issue.id) same
        (create_or_update-StandsFor g laws first w l plain done))
      again
