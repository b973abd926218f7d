-- ===== src/Repository/Unrelating.antt =====
-- `RemoveRelatedIssue` of issue_repository.go.
use kkite.Prelude.{String, ◌≡◌, Bool, false}
use kkite.Models.{RelatedIssue}
use kkite.Store.{Tables, Result, ok, err, selected}
use kkite.Store.Gorm.{Gorm, GormLaws, delete_related_rows}
use kkite.Repository.Requests.{relates}

-- A success has removed the relations between the two, of which there was one; an error leaves
-- every row of the tables as it was.
abbrev pub UnrelatesOrFails : String → String → Tables → Result (Unit {0}) → Tables → Type 0
UnrelatesOrFails source_id target_id t (ok _) u =
    (u ≡ delete_related_rows (relates source_id target_id) t)
    × ¬ ((j : String) → selected (relates source_id target_id) (t.related j) ≡ false)
UnrelatesOrFails source_id target_id t (err e) u =
    (u.issue ≡ t.issue)
    × (u.scope ≡ t.scope)
    × (u.link ≡ t.link)
    × ((j : String) → u.related j ≡ t.related j)

module _ (g : Gorm) (laws : GormLaws g) (source_id target_id : String) where
  abbrev p : RelatedIssue → Bool
  p = relates source_id target_id
