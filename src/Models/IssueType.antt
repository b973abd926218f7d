-- ===== src/Models/IssueType.antt =====
-- The `IssueType` constants of packages/backend/internal/models/models.go.
use kkite.Prelude.{String}

abbrev pub build : String
build = "build"

abbrev pub test : String
test = "test"

abbrev pub release : String
release = "release"

abbrev pub dependency : String
dependency = "dependency"

abbrev pub pipeline : String
pipeline = "pipeline"
