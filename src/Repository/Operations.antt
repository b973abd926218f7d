-- ===== src/Repository/Operations.antt =====
-- The operations on issues of packages/backend/internal/repository/issue_repository.go, over the
-- statements of gorm as parameters. Logging is left out, and the context is part of the world.
use kkite.Prelude.{
  ℕ, String, Option, none, some, not, ◌&&◌, ◌||◌, ◌<>◌, ◌==◌, if◌then◌else◌, List, [], ◌∷◌,
  contains, nat_eq,
}
use kkite.Models.{Issue, Time, zero_time, LoadedIssue}
use kkite.Models.IssueState
use kkite.Dto.{
  ScopeReqBody, ScopePayload, CreateLinkRequest, IssuePayload, get_state, get_links,
  get_resolved_at, get_scope, as_optional, differs_from_empty_optional,
}
use kkite.Store.{IssueUpdates, ok, err, Action, pure, fail, wrap, ◌>>=◌, ◌>>◌}
use kkite.Store.Gorm.{Gorm, clock}
use kkite.Repository.Requests.{
  duplicate_query, by_id_query, active_in_scope_query, issue_updates, new_issue, create_as_update,
  resolve_updates,
}

module _ (g : Gorm) where
  unfoldable pub find_duplicate_in_tx : IssuePayload → Action g.World (Option LoadedIssue)
  find_duplicate_in_tx req =
      wrap "failed to check for duplicates: " (g.first_issue (duplicate_query req))

  unfoldable pub find_by_id : String → Action g.World (Option LoadedIssue)
  find_by_id id = wrap "failed to find issue: " (g.first_issue (by_id_query id))

  unfoldable pub create_new_issue_in_tx : IssuePayload → Action g.World LoadedIssue
  create_new_issue_in_tx req = do
    time ← clock g
    wrap "failed to create issue: " (g.create_issue (new_issue req time))

  -- The loop that creates the links one by one.
  unfoldable pub create_links : String → List CreateLinkRequest → Action g.World (Unit {0})
  create_links issue_id [] = pure tt
  create_links issue_id (q ∷ qs) = do
    wrap "failed to create link: "
        (g.create_link (record { id = ""; title = q.title; url = q.url; issue_id = issue_id }))
    create_links issue_id qs

  unfoldable pub replace_issue_links : String → List CreateLinkRequest → Action g.World (Unit {0})
  replace_issue_links issue_id links = do
    wrap "failed to delete old links: " (g.delete_links (λ l. l.issue_id == issue_id))
    create_links issue_id links

  -- The database error is replaced, not wrapped.
  unfoldable pub update_issue_scope_in_tx : String → ScopeReqBody → Action g.World (Unit {0})
  update_issue_scope_in_tx scope_id req w =
      let (r, w') = g.update_scopes (λ s. s.id == scope_id) req w in
      elim r [ ok n ↦ (ok tt, w') | err e ↦ (err "failed to update issue scope", w') ]

  unfoldable pub update_links_if_given : String → List CreateLinkRequest → Action g.World (Unit {0})
  update_links_if_given issue_id [] = pure tt
  update_links_if_given issue_id (q ∷ qs) =
      wrap "failed to replace links for issue: " (replace_issue_links issue_id (q ∷ qs))

  unfoldable pub update_scope_if_given : String → ScopePayload → Action g.World (Unit {0})
  update_scope_if_given scope_id scope =
      if differs_from_empty_optional scope
      then update_issue_scope_in_tx scope_id (as_optional scope)
      else pure tt

  -- The value for `resolved_at`, if any, given the state of the existing issue.
  unfoldable pub resolved_at_update : String → IssuePayload → Action g.World (Option Time)
  resolved_at_update old req =
      if get_state req == ""
      then pure none
      else if get_state req == IssueState.resolved && not (old == IssueState.resolved)
      then (do time ← clock g; pure (some time))
      else if nat_eq (get_resolved_at req) zero_time
      then pure none
      else pure (some (get_resolved_at req))

  -- `updateIssueInTx` from the `Updates` call on.
  unfoldable pub apply_updates : Issue → IssuePayload → IssueUpdates → Action g.World (Unit {0})
  apply_updates existing req updates = do
    wrap "failed to update issue: " (g.update_issues (λ i. i.id == existing.id) updates)
    update_links_if_given existing.id (get_links req)
    update_scope_if_given existing.scope_id (get_scope req)

  unfoldable pub update_issue_in_tx : Issue → IssuePayload → Action g.World (Unit {0})
  update_issue_in_tx existing req = do
    time ← clock g
    resolved ← resolved_at_update existing.state req
    apply_updates existing req (issue_updates req time resolved)

  unfoldable pub find_duplicate : IssuePayload → Action g.World (Option LoadedIssue)
  find_duplicate req = g.transaction (find_duplicate_in_tx req)

  -- The body of the transaction of `CreateOrUpdate`; its value is the id of the captured issue.
  unfoldable pub create_or_update_branch : IssuePayload → Option LoadedIssue → Action g.World String
  create_or_update_branch req none = do
    created ← wrap "failed to create issue: " (create_new_issue_in_tx req)
    pure created.issue.id
  create_or_update_branch req (some existing) = do
    update_issue_in_tx existing.issue req
    pure existing.issue.id

  unfoldable pub create_or_update : IssuePayload → Action g.World (Option LoadedIssue)
  create_or_update req = do
    id ← g.transaction (do
      existing ← wrap "failed to check for existing issue: " (find_duplicate_in_tx req)
      create_or_update_branch req existing)
    find_by_id id

  unfoldable pub create_branch : IssuePayload → Option LoadedIssue → Action g.World String
  create_branch req none = do created ← create_new_issue_in_tx req; pure created.issue.id
  create_branch req (some existing) = do
    update_issue_in_tx existing.issue (create_as_update req)
    pure existing.issue.id

  unfoldable pub create : IssuePayload → Action g.World (Option LoadedIssue)
  create req = do
    id ← g.transaction (do
      existing ← wrap "failed to check for duplicates: " (find_duplicate_in_tx req)
      create_branch req existing)
    find_by_id id

  unfoldable pub update_found :
      String → IssuePayload → Option LoadedIssue → Action g.World (Option LoadedIssue)
  update_found id req none = fail ("issue with ID " <> id <> " not found")
  update_found id req (some existing) = do
    g.transaction (update_issue_in_tx existing.issue req)
    find_by_id id

  -- `Update`
  unfoldable pub update_issue : String → IssuePayload → Action g.World (Option LoadedIssue)
  update_issue id req = do existing ← find_by_id id; update_found id req existing

  unfoldable pub delete_in_tx : String → String → Action g.World (Unit {0})
  delete_in_tx id scope_id = do
    wrap "failed to delete related issues: "
        (g.delete_related (λ r. r.source_id == id || r.target_id == id))
    wrap "failed to delete links: " (g.delete_links (λ l. l.issue_id == id))
    wrap "failed to delete issue: " (g.delete_issues (λ i. i.id == id))
    wrap "failed to delete issue scope: " (g.delete_scopes (λ s. s.id == scope_id))
    pure tt

  unfoldable pub delete_found : String → Option LoadedIssue → Action g.World (Unit {0})
  delete_found id none = fail ("issue with ID " <> id <> " not found")
  delete_found id (some existing) = g.transaction (delete_in_tx id existing.issue.scope_id)

  unfoldable pub delete : String → Action g.World (Unit {0})
  delete id = do existing ← find_by_id id; delete_found id existing

  unfoldable pub resolve_ids : Time → List String → Action g.World ℕ
  resolve_ids time [] = pure 0
  resolve_ids time (id ∷ ids) =
      wrap "failed to resolve issues: "
        (g.update_issues (λ i. contains (id ∷ ids) i.id) (resolve_updates time))

  unfoldable pub resolve_by_scope : String → String → String → Action g.World ℕ
  resolve_by_scope resource_type resource_name namespace = do
    time ← clock g
    ids ←
        wrap "failed to query issue IDs to resolve: "
          (g.pluck_ids (active_in_scope_query resource_type resource_name namespace))
    resolve_ids time ids
