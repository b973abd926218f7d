-- ===== src/Dto.antt =====
-- The request payloads of packages/backend/internal/handlers/dto/request.go and the list response
-- of response.go. The two interfaces are data types with a constructor for each implementation.
use kkite.Prelude.{ℕ, String, List, Bool, true, not, ◌&&◌, ◌==◌}
use kkite.Models.{Time, zero_time, LoadedIssue}

-- The fields that `ScopeReqBody` and `ScopeReqBodyOptional` have in common: all that they have.
pub record ScopeReqBody : Type 0 where
  pub resource_type : String
  pub resource_name : String
  pub resource_namespace : String

pub data ScopePayload : Type 0 where
  required : ScopeReqBody → ScopePayload
  optional : ScopeReqBody → ScopePayload

pub record CreateLinkRequest : Type 0 where
  pub title : String
  pub url : String

pub record CreateIssueRequest : Type 0 where
  pub title : String
  pub description : String
  pub severity : String
  pub issue_type : String
  pub state : String
  pub namespace : String
  pub scope : ScopeReqBody
  pub links : List CreateLinkRequest

pub record UpdateIssueRequest : Type 0 where
  pub title : String
  pub description : String
  pub severity : String
  pub issue_type : String
  pub state : String
  pub namespace : String
  pub scope : ScopeReqBody
  pub links : List CreateLinkRequest
  pub resolved_at : Time

pub data IssuePayload : Type 0 where
  create : CreateIssueRequest → IssuePayload
  update : UpdateIssueRequest → IssuePayload

abbrev pub get_title : IssuePayload → String
get_title (create c) = c.title
get_title (update u) = u.title

abbrev pub get_description : IssuePayload → String
get_description (create c) = c.description
get_description (update u) = u.description

abbrev pub get_severity : IssuePayload → String
get_severity (create c) = c.severity
get_severity (update u) = u.severity

abbrev pub get_issue_type : IssuePayload → String
get_issue_type (create c) = c.issue_type
get_issue_type (update u) = u.issue_type

abbrev pub get_state : IssuePayload → String
get_state (create c) = c.state
get_state (update u) = u.state

abbrev pub get_links : IssuePayload → List CreateLinkRequest
get_links (create c) = c.links
get_links (update u) = u.links

-- A create request has no resolved time.
abbrev pub get_resolved_at : IssuePayload → Time
get_resolved_at (create c) = zero_time
get_resolved_at (update u) = u.resolved_at

abbrev pub get_namespace : IssuePayload → String
get_namespace (create c) = c.namespace
get_namespace (update u) = u.namespace

abbrev pub get_scope : IssuePayload → ScopePayload
get_scope (create c) = required c.scope
get_scope (update u) = optional u.scope

-- `AsOptional`, on either implementation: a conversion that keeps every field.
abbrev pub as_optional : ScopePayload → ScopeReqBody
as_optional (required s) = s
as_optional (optional s) = s

abbrev pub get_resource_type : ScopePayload → String
get_resource_type p = (as_optional p).resource_type

abbrev pub get_resource_name : ScopePayload → String
get_resource_name p = (as_optional p).resource_name

abbrev pub get_resource_namespace : ScopePayload → String
get_resource_namespace p = (as_optional p).resource_namespace

-- `scope != (dto.ScopeReqBodyOptional{})` compares interface values: a `ScopeReqBody` has another
-- dynamic type, so it is never equal to the empty optional scope.
abbrev pub differs_from_empty_optional : ScopePayload → Bool
differs_from_empty_optional (required s) = true
differs_from_empty_optional (optional s) =
    not (s.resource_type == "" && s.resource_name == "" && s.resource_namespace == "")

pub record IssueResponse : Type 0 where
  pub issues : List LoadedIssue
  pub total : ℕ
  pub limit : ℕ
  pub offset : ℕ
