-- ===== src/Handlers/Issues.antt =====
-- The issue endpoints of packages/backend/internal/handlers/http/issue_handlers.go, all but `GetIssues`,
-- which stands in Listing.antt. `id`, `related_id` and `namespace` are the parameters that gin has read, "" for one
-- that is not given.
use kkite.Prelude.{
  String, Option, none, some, Bool, not, [], ◌∷◌, ◌==◌, ◌&&◌, contains, if◌then◌else◌,
}
use kkite.Models.{Time, LoadedIssue}
use kkite.Models.Severity
use kkite.Models.IssueType
use kkite.Models.IssueState
use kkite.Dto.{CreateIssueRequest, UpdateIssueRequest}
use kkite.Store.{Action, Result, ok, err}
use kkite.Service.{IssueService}
use kkite.Handlers.Replies.{
  Reply, reply, object, no_body, document, text, issue, json_of, Handler, error,
}

-- `validateCreateIssueRequest`; `none` for no error.
unfoldable pub validate_create_issue_request : CreateIssueRequest → Option String
validate_create_issue_request req =
    let severities = Severity.info ∷ Severity.minor ∷ Severity.major ∷ Severity.critical ∷ [] in
    let types =
      IssueType.build ∷ IssueType.test ∷ IssueType.release ∷ IssueType.dependency
      ∷ IssueType.pipeline ∷ [] in
    if not (contains severities req.severity)
    then some "invalid severity value"
    else if not (contains types req.issue_type)
    then some "invalid issueType value"
    else if not (req.state == "")
        && not (contains (IssueState.active ∷ IssueState.resolved ∷ []) req.state)
    then some "invalid state value"
    else none

abbrev pub bad_request : String → String → Reply
bad_request message details =
    reply 400 (object (("error", text message) ∷ ("details", text details) ∷ []))

-- The test that the issue is outside the namespace that the request names.
abbrev pub is_denied : String → LoadedIssue → Bool
is_denied namespace l = not (namespace == "") && not (l.issue.namespace == namespace)

abbrev pub found_answer : String → Result (Option LoadedIssue) → Reply
found_answer namespace (err e) = error 500 "failed to fetch issue"
found_answer namespace (ok none) = error 404 "Issue not found"
found_answer namespace (ok (some l)) =
    if is_denied namespace l
    then error 403 "Access denied to this namespace"
    else reply 200 (document (issue l))

abbrev pub updated_answer : String → Result (Option LoadedIssue) → Reply
updated_answer failure (err e) = error 500 failure
updated_answer failure (ok o) = reply 200 (document (json_of o))

abbrev pub created_answer : Result (Option LoadedIssue) → Reply
created_answer (err e) = error 500 "Failed to create issue"
created_answer (ok o) = reply 201 (document (json_of o))

abbrev pub deleted_answer : Result (Unit {0}) → Reply
deleted_answer (err e) = error 500 "Failed to delete issue"
deleted_answer (ok _) = reply 204 no_body

abbrev pub related_answer : Result (Unit {0}) → Reply
related_answer (ok _) = reply 201 (object (("message", text "Relationship created") ∷ []))
related_answer (err e) =
    if e == "one or both issues not found"
    then error 404 e
    else if e == "relationship already exists"
    then error 409 e
    else error 500 "Failed to create issue relationship"

abbrev pub unrelated_answer : Result (Unit {0}) → Reply
unrelated_answer (ok _) = reply 204 no_body
unrelated_answer (err e) =
    if e == "relationship not found"
    then error 404 e
    else error 500 "Failed to delete issue relationship"

-- `req` of `ResolveIssue`, at the time `now`.
abbrev pub resolving : Time → UpdateIssueRequest
resolving now = record {
  title = "";
  description = "";
  severity = "";
  issue_type = "";
  state = IssueState.resolved;
  namespace = "";
  scope = record { resource_type = ""; resource_name = ""; resource_namespace = "" };
  links = [];
  resolved_at = now;
}

module _ {W : Type 0} where
  -- The part that `UpdateIssue`, `DeleteIssue` and `ResolveIssue` share: the tests of what
  -- `FindIssueByID` has found, before `next`.
  abbrev pub guarded : String → String → Handler W → Result (Option LoadedIssue) → Handler W
  guarded failure namespace next (err e) w = (error 500 failure, w)
  guarded failure namespace next (ok none) w = (error 404 "Issue not found", w)
  guarded failure namespace next (ok (some l)) w =
      if is_denied namespace l then (error 403 "Access denied to this namespace", w) else next w

  abbrev pub answer : {A : Type 0} → (Result A → Reply) → Action W A → Handler W
  answer f m w = let (r, w') = m w in (f r, w')

module _ {W : Type 0} (s : IssueService W) where
  unfoldable pub get_issue : String → String → Handler W
  get_issue id namespace = answer (found_answer namespace) (s.find_issue_by_id id)

  abbrev pub create_valid : CreateIssueRequest → Option String → Handler W
  create_valid req (some e) w = (bad_request "Validation failed" e, w)
  create_valid req none w = answer created_answer (s.create_issue req) w

  unfoldable pub create_issue : Result CreateIssueRequest → Handler W
  unfolding validate_create_issue_request
  create_issue (err e) w = (bad_request "Invalid request body" e, w)
  create_issue (ok req) w = create_valid req (validate_create_issue_request req) w

  unfoldable pub update_issue : String → String → Result UpdateIssueRequest → Handler W
  update_issue id namespace (err e) w = (bad_request "Invalid request body" e, w)
  update_issue id namespace (ok req) w =
      let (r, w') = s.find_issue_by_id id w in
      guarded "Failed to update issue" namespace
        (answer (updated_answer "Failed to update issue") (s.update_issue id req)) r w'

  unfoldable pub delete_issue : String → String → Handler W
  delete_issue id namespace w =
      let (r, w') = s.find_issue_by_id id w in
      guarded "Failed to delete issue" namespace (answer deleted_answer (s.delete_issue id)) r w'

  unfoldable pub resolve_issue : (W → Time × W) → String → String → Handler W
  resolve_issue now id namespace w =
      let (r, w') = s.find_issue_by_id id w in
      guarded "failed to resolve issue" namespace
        (λ v.
          let (time, v') = now v in
          answer (updated_answer "Failed to resolve issue") (s.update_issue id (resolving time)) v')
        r w'

  unfoldable pub add_related_issue : String → Result String → Handler W
  add_related_issue id (err e) w = (error 400 "Missing relatdId field", w)
  add_related_issue id (ok related_id) w =
      answer related_answer (s.add_related_issue id related_id) w

  unfoldable pub remove_related_issue : String → String → Handler W
  remove_related_issue id related_id =
      answer unrelated_answer (s.remove_related_issue id related_id)
