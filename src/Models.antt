-- ===== src/Models.antt =====
-- The database models of packages/backend/internal/models/models.go: a record for the columns of
-- each table, the values of its string enums, and the `BeforeCreate` hooks. `LoadedIssue` is the
-- struct `Issue` with the associations that `Preload` fills.
-- A `time.Time` is a natural number, 0 for Go's zero time; a `*time.Time` is an `Option`.
-- `Severity`, `IssueType` and `IssueState` are Go strings: any text converts into one.
pub mod Severity
pub mod IssueType
pub mod IssueState
use kkite.Prelude.{ℕ, String, Option, List, ◌==◌, if◌then◌else◌}

abbrev pub Time : Type 0
Time = ℕ

abbrev pub zero_time : Time
zero_time = 0

pub record Issue : Type 0 where
  pub id : String
  pub title : String
  pub description : String
  pub severity : String
  pub issue_type : String
  pub state : String
  pub detected_at : Time
  pub resolved_at : Option Time
  pub namespace : String
  pub scope_id : String
  pub created_at : Time
  pub updated_at : Time

pub record IssueScope : Type 0 where
  pub id : String
  pub resource_type : String
  pub resource_name : String
  pub resource_namespace : String

pub record RelatedIssue : Type 0 where
  pub id : String
  pub source_id : String
  pub target_id : String

pub record Link : Type 0 where
  pub id : String
  pub title : String
  pub url : String
  pub issue_id : String

-- An issue with its associations; `scope` is `none` where the query does not preload it.
pub record LoadedIssue : Type 0 where
  pub issue : Issue
  pub scope : Option IssueScope
  pub links : List Link
  pub related_from : List RelatedIssue
  pub related_to : List RelatedIssue

-- The hook that all four models share: the id of the row that is created from one with this id,
-- where `uuid` is what `uuid.New()` would return.
abbrev pub before_create : String → String → String
before_create uuid id = if id == "" then uuid else id
