-- ===== src/Repository.antt =====
-- The issue repository, packages/backend/internal/repository/issue_repository.go.
pub mod Requests
pub mod Operations
pub mod Relations
pub mod Invariant
pub mod Links
pub mod Updates
pub mod UpdateKeeps
pub mod CreateKeeps
pub mod Stores
pub mod Present
pub mod CreateOrUpdate
pub mod Twice
pub mod Duplicates
pub mod Resolve
pub mod Deletion
pub mod Updating
pub mod Content
pub mod Relating
pub mod Unrelating
pub mod Tests
pub mod Filters
pub mod Filtering
pub mod Pages
