-- ===== src/Models/IssueState.antt =====
-- The `IssueState` constants of packages/backend/internal/models/models.go.
use kkite.Prelude.{String}

abbrev pub active : String
active = "ACTIVE"

abbrev pub resolved : String
resolved = "RESOLVED"
