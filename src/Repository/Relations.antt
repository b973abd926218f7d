-- ===== src/Repository/Relations.antt =====
-- The relations between issues of packages/backend/internal/repository/issue_repository.go.
use kkite.Prelude.{String, Option, none, some, if◌then◌else◌, nat_eq}
use kkite.Models.{RelatedIssue, LoadedIssue}
use kkite.Store.{Action, pure, fail, wrap, ◌>>=◌}
use kkite.Store.Gorm.{Gorm}
use kkite.Repository.Requests.{relates}
use kkite.Repository.Operations.{find_by_id}

module _ (g : Gorm) where
  -- `AddRelatedIssue` after the look-up of an existing relation.
  unfoldable pub add_new : String → String → Option RelatedIssue → Action g.World (Unit {0})
  add_new source_id target_id (some existing) = fail "relationship already exists"
  add_new source_id target_id none =
      wrap "failed to create relationship: "
        (g.create_related (record { id = ""; source_id = source_id; target_id = target_id }))

  -- … and after the look-up of the two issues.
  unfoldable pub add_between :
      String → String → Option LoadedIssue → Option LoadedIssue → Action g.World (Unit {0})
  add_between source_id target_id none target = fail "one or both issues not found"
  add_between source_id target_id (some source) none = fail "one or both issues not found"
  add_between source_id target_id (some source) (some target) = do
    existing ←
        wrap "failed to check exiting relationship: "
          (g.first_related (relates source_id target_id))
    add_new source_id target_id existing

  unfoldable pub add_related_issue : String → String → Action g.World (Unit {0})
  add_related_issue source_id target_id = do
    source ← find_by_id g source_id
    target ← find_by_id g target_id
    add_between source_id target_id source target

  unfoldable pub remove_related_issue : String → String → Action g.World (Unit {0})
  remove_related_issue source_id target_id = do
    rows ← wrap "failed to remove relationship: " (g.delete_related (relates source_id target_id))
    if nat_eq rows 0 then fail "relationship not found" else pure tt
