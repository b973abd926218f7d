-- ===== src/Middleware.antt =====
-- The middleware of packages/backend/internal/middleware: the context of gin that they share, each of
-- them, and what they guarantee together.
pub mod Context
pub mod Token
pub mod Splitting
pub mod Authentication
pub mod Reviews
pub mod Confirmed
pub mod ImpersonatedData
pub mod Impersonation
pub mod Access
pub mod Attributes
pub mod Covered
pub mod Reviewed
pub mod Denied
pub mod Admitted
pub mod Gates
pub mod Stages
pub mod Guarded
pub mod Tests
