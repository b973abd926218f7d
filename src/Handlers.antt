-- ===== src/Handlers.antt =====
-- The HTTP handlers of packages/backend/internal/handlers/http. A handler takes what gin has read
-- of the request: its parameters, and the value bound from its body or the error of binding it.
pub mod Replies
pub mod Webhooks
pub mod Failures
pub mod Successes
pub mod Issues
pub mod Guards
pub mod Changing
pub mod Creating
pub mod Tests
pub mod Listing
pub mod Health
