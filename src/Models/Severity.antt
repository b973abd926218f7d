-- ===== src/Models/Severity.antt =====
-- The `Severity` constants of packages/backend/internal/models/models.go.
use kkite.Prelude.{String}

abbrev pub info : String
info = "info"

abbrev pub minor : String
minor = "minor"

abbrev pub major : String
major = "major"

abbrev pub critical : String
critical = "critical"
