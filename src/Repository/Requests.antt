-- ===== src/Repository/Requests.antt =====
-- What issue_repository.go of packages/backend/internal/repository computes from a request: the
-- conditions of its queries, the map of its updates and the struct that it creates.
use kkite.Prelude.{
  String, Option, none, some, true, false, Bool, ◌&&◌, ◌||◌, ◌==◌, if◌then◌else◌, [], ◌∷◌, contains,
}
use kkite.Models.{Issue, IssueScope, RelatedIssue, Time, zero_time}
use kkite.Models.IssueState
use kkite.Dto.{
  IssuePayload, update, get_title, get_description, get_severity, get_issue_type, get_state,
  get_links, get_namespace, get_scope, as_optional, get_resource_type, get_resource_name,
  get_resource_namespace,
}
use kkite.Store.{IssueQuery, IssueUpdates}
use kkite.Store.Gorm.{NewIssue}

-- The two `Where` calls of `findDuplicateInTx`. The last test compares the scope's namespace with
-- the namespace of the request, not with that of its scope.
abbrev pub duplicate_issue : IssuePayload → Issue → Bool
duplicate_issue req i =
    i.namespace == get_namespace req
    && i.issue_type == get_issue_type req
    && contains (IssueState.active ∷ IssueState.resolved ∷ []) i.state

abbrev pub duplicate_scope : IssuePayload → IssueScope → Bool
duplicate_scope req s =
    s.resource_type == get_resource_type (get_scope req)
    && s.resource_name == get_resource_name (get_scope req)
    && s.resource_namespace == get_namespace req

abbrev pub duplicate_query : IssuePayload → IssueQuery
duplicate_query req = record {
  preload_scope = false;
  preload_links = true;
  preload_related = false;
  where_issue = duplicate_issue req;
  where_scope = some (duplicate_scope req);
}

abbrev pub by_id_query : String → IssueQuery
by_id_query id = record {
  preload_scope = true;
  preload_links = true;
  preload_related = true;
  where_issue = λ i. i.id == id;
  where_scope = none;
}

-- The query of `ResolveByScope`.
abbrev pub active_in_scope_query : String → String → String → IssueQuery
active_in_scope_query resource_type resource_name namespace = record {
  preload_scope = false;
  preload_links = false;
  preload_related = false;
  where_issue = λ i. i.state == IssueState.active && i.namespace == namespace;
  where_scope = some (λ s. s.resource_type == resource_type && s.resource_name == resource_name);
}

-- A column that is set where the request has a value for it.
abbrev pub if_given : String → Option String
if_given s = if s == "" then none else some s

-- The map that `updateIssueInTx` builds, given the clock and the value for `resolved_at`.
abbrev pub issue_updates : IssuePayload → Time → Option Time → IssueUpdates
issue_updates req time resolved = record {
  title = if_given (get_title req);
  description = if_given (get_description req);
  severity = if_given (get_severity req);
  issue_type = if_given (get_issue_type req);
  namespace = if_given (get_namespace req);
  state = if_given (get_state req);
  resolved_at = resolved;
  updated_at = some time;
}

-- `createNewIssueInTx`: the struct that it builds.
abbrev pub new_issue : IssuePayload → Time → NewIssue
new_issue req time = record {
  title = get_title req;
  description = get_description req;
  severity = get_severity req;
  issue_type = get_issue_type req;
  state = if get_state req == "" then IssueState.active else get_state req;
  detected_at = time;
  namespace = get_namespace req;
  scope = record {
    resource_type = get_resource_type (get_scope req);
    resource_name = get_resource_name (get_scope req);
    resource_namespace =
        if get_resource_namespace (get_scope req) == ""
        then get_namespace req
        else get_resource_namespace (get_scope req);
  };
  links = get_links req;
}

-- The update request that `Create` makes of a create request: it has no links.
abbrev pub create_as_update : IssuePayload → IssuePayload
create_as_update req = update (record {
  title = get_title req;
  description = get_description req;
  severity = get_severity req;
  issue_type = get_issue_type req;
  state = get_state req;
  namespace = get_namespace req;
  scope = as_optional (get_scope req);
  links = [];
  resolved_at = zero_time;
})

-- The condition of the relation queries: the pair, in either direction.
abbrev pub relates : String → String → RelatedIssue → Bool
relates source_id target_id r =
    (r.source_id == source_id && r.target_id == target_id)
    || (r.source_id == target_id && r.target_id == source_id)

-- The map with which `ResolveByScope` updates.
abbrev pub resolve_updates : Time → IssueUpdates
resolve_updates time = record {
  title = none;
  description = none;
  severity = none;
  issue_type = none;
  namespace = none;
  state = some IssueState.resolved;
  resolved_at = some time;
  updated_at = some time;
}
