-- ===== src/Repository/Duplicates.antt =====
-- Where `CreateOrUpdate` of issue_repository.go finds a duplicate that it should not take, and
-- where it misses one.
use kkite.Models.IssueState
use kkite.Store.Gorm.{Gorm}
use kkite.Repository.Stores.{Stores}
