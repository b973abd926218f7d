-- ===== src/Operator.antt =====
-- The operator of packages/operator, which watches pipeline runs and reports to the backend.
pub mod Controller
pub mod Reports
pub mod Tests
pub mod Client
pub mod Delivery
pub mod EndToEnd
