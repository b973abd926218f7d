-- ===== src/Repository/Updates.antt =====
-- What `updateIssueInTx` of issue_repository.go does to the tables.
use kkite.Prelude.{
  String, ◌≡◌, refl, sym, ap, ◌∙◌, Option, none, some, true, not, ◌&&◌, ◌==◌, if◌then◌else◌, List,
  [], ◌∷◌, arith, is_some, nat_eq, subst, Bool-cases, inl, inr,
}
use kkite.Models.{Issue, Link, IssueScope, Time, zero_time}
use kkite.Models.IssueState
use kkite.Dto.{
  CreateLinkRequest, IssuePayload, ScopePayload, ScopeReqBody, get_state, get_resolved_at,
  get_links, get_scope, as_optional, differs_from_empty_optional,
}
use kkite.Store.{IssueUpdates, Tables, kept, updated, find_link, set_columns, set_scope_columns}
use kkite.Store.Gorm.{
  Gorm, GormLaws, Ensures, SavesLinks, found_or, Writes, Counts, clock, update_scope_rows,
  update_issue_rows,
}
use kkite.Store.Rules.{
  OnSuccess, step_rule, then_rule, weaken_success, at_equal, pure_rule, clock_rule, wrap_rule,
}
use kkite.Repository.Requests.{issue_updates}
use kkite.Repository.Operations.{
  apply_updates, replace_issue_links, update_issue_scope_in_tx, update_links_if_given,
  update_scope_if_given, resolved_at_update, update_issue_in_tx,
}
use kkite.Repository.Links.{HasReplacedLinks, replace_issue_links-HasReplacedLinks}

-- The table of links after an update of an issue that may give it new ones.
abbrev pub HasLinks :
    String → List CreateLinkRequest → (String → Option Link) → (String → Option Link) → Type 0
HasLinks id [] old new = new ≡ old
HasLinks id (q ∷ qs) old new =
    (ls : List Link) × SavesLinks (λ j. kept (λ l. l.issue_id == id) (old j)) id (q ∷ qs) ls
    × ((j : String) → new j ≡ found_or (find_link j ls) (kept (λ l. l.issue_id == id) (old j)))

pub record ChangesLinks (id : String) (qs : List CreateLinkRequest) (t u : Tables) : Type 0 where
  pub link : HasLinks id qs t.link u.link
  pub issue : u.issue ≡ t.issue
  pub scope : u.scope ≡ t.scope
  pub related : u.related ≡ t.related

-- When the update sets `resolved_at`: on the step to RESOLVED to the current time, else with a
-- state to the time that is given, if any.
abbrev pub Resolves : String → IssuePayload → Option Time → Type 0
Resolves old req o =
    if get_state req == ""
    then o ≡ none
    else if get_state req == IssueState.resolved && not (old == IssueState.resolved)
    then is_some o ≡ true
    else o ≡ (if nat_eq (get_resolved_at req) zero_time then none else some (get_resolved_at req))

-- A row of `issue_scopes` after the scope update, if the request gives a scope.
abbrev pub scope_row_after : String → ScopePayload → Option IssueScope → Option IssueScope
scope_row_after scope_id scope row =
    if differs_from_empty_optional scope
    then updated (λ s. s.id == scope_id) (set_scope_columns (as_optional scope)) row
    else row

pub record ChangesScope (scope_id : String) (payload : ScopePayload) (t u : Tables) : Type 0 where
  pub scope : (j : String) → u.scope j ≡ scope_row_after scope_id payload (t.scope j)
  pub issue : u.issue ≡ t.issue
  pub link : u.link ≡ t.link
  pub related : u.related ≡ t.related

pub record HasApplied (existing : Issue) (req : IssuePayload) (ups : IssueUpdates) (t u : Tables)
    : Type 0 where
  pub issue :
      (j : String) → u.issue j ≡ updated (λ i. i.id == existing.id) (set_columns ups) (t.issue j)
  pub scope :
      (j : String) → u.scope j ≡ scope_row_after existing.scope_id (get_scope req) (t.scope j)
  pub link : HasLinks existing.id (get_links req) t.link u.link
  pub related : u.related ≡ t.related

pub record IsUpdated (existing : Issue) (req : IssuePayload) (t u : Tables) : Type 0 where
  pub time : Time
  pub resolved : Option Time
  pub resolves : Resolves existing.state req resolved
  pub applied : HasApplied existing req (issue_updates req time resolved) t u

HasApplied-chain :
    (existing : Issue) (req : IssuePayload) (ups : IssueUpdates) (t u₁ u₂ u₃ : Tables)
    → u₁ ≡ update_issue_rows (λ i. i.id == existing.id) ups t
    → ChangesLinks existing.id (get_links req) u₁ u₂
    → ChangesScope existing.scope_id (get_scope req) u₂ u₃
    → HasApplied existing req ups t u₃
HasApplied-chain existing req ups t u₁ u₂ u₃ e₁ linked scoped =
    let same_scope : u₂.scope ≡ t.scope = linked.scope ∙ ap (λ v. v.scope) e₁ in
    record {
      issue = λ j. ap (λ f. f j) (scoped.issue ∙ linked.issue ∙ ap (λ v. v.issue) e₁);
      scope = λ j.
          scoped.scope j
          ∙ ap (λ f. scope_row_after existing.scope_id (get_scope req) (f j)) same_scope;
      link =
          subst (λ new. HasLinks existing.id (get_links req) t.link new) (sym scoped.link)
            (subst (λ old. HasLinks existing.id (get_links req) old u₂.link) (ap (λ v. v.link) e₁)
              linked.link);
      related = scoped.related ∙ linked.related ∙ ap (λ v. v.related) e₁;
    }

module _ (g : Gorm) (laws : GormLaws g) where
  resolved_at_update_rule :
      (old : String) (req : IssuePayload) (t : Tables)
      → Ensures g (resolved_at_update g old req) t (OnSuccess (λ o u. (u ≡ t) × Resolves old req o))
  unfolding resolved_at_update clock
  resolved_at_update_rule old req t w e = ground (arith, laws.now_law w)

  update_links_rule :
      (id : String) (qs : List CreateLinkRequest) (t : Tables)
      → Ensures g (update_links_if_given g id qs) t (OnSuccess (λ _. ChangesLinks id qs t))
  unfolding update_links_if_given
  update_links_rule id [] t =
      pure_rule g tt t (OnSuccess (λ _. ChangesLinks id [] t))
        (record { link = refl; issue = refl; scope = refl; related = refl })
  update_links_rule id (q ∷ qs) t =
      wrap_rule g _ (replace_issue_links g id (q ∷ qs)) t
        (OnSuccess (λ _. HasReplacedLinks id (q ∷ qs) t))
        (OnSuccess (λ _. ChangesLinks id (q ∷ qs) t))
        (replace_issue_links-HasReplacedLinks g laws id (q ∷ qs) t)
        (λ a u h. record {
          link = (h.links, h.saved, h.link);
          issue = h.issue;
          scope = h.scope;
          related = h.related;
        })
        (λ e e' u h. tt)

  update_scope_rows_rule :
      (scope_id : String) (body : ScopeReqBody) (t : Tables)
      → Ensures g
          (update_issue_scope_in_tx g scope_id body)
          t
          (OnSuccess (λ _ u. u ≡ update_scope_rows (λ s. s.id == scope_id) body t))
  unfolding update_issue_scope_in_tx
  update_scope_rows_rule scope_id body t w e =
      ground (arith, laws.update_scopes_law (λ s. s.id == scope_id) body t w e)

  update_scope_rule :
      (scope_id : String) (scope : ScopePayload) (t : Tables)
      → Ensures g
          (update_scope_if_given g scope_id scope)
          t
          (OnSuccess (λ _. ChangesScope scope_id scope t))
  unfolding update_scope_if_given
  update_scope_rule scope_id scope t = elim (Bool-cases (differs_from_empty_optional scope)) [
    | inl given ↦ rw given (
        weaken_success g (update_issue_scope_in_tx g scope_id (as_optional scope)) t
          (λ _ u. u ≡ update_scope_rows (λ s. s.id == scope_id) (as_optional scope) t)
          (λ _. ChangesScope scope_id scope t)
          (update_scope_rows_rule scope_id (as_optional scope) t)
          (λ _ u e. record {
            scope = λ j. rw given (ap (λ v. v.scope j) e);
            issue = ap (λ v. v.issue) e;
            link = ap (λ v. v.link) e;
            related = ap (λ v. v.related) e;
          }))
    | inr empty ↦ rw empty (
        pure_rule g tt t (OnSuccess (λ _. ChangesScope scope_id scope t))
          (record { scope = λ j. rw empty; issue = refl; link = refl; related = refl }))
  ]

  -- The tables after the `Updates` call.
  abbrev rows_set : Issue → IssueUpdates → Tables → Tables
  rows_set existing ups t = update_issue_rows (λ i. i.id == existing.id) ups t

  apply_updates_rule :
      (existing : Issue) (req : IssuePayload) (ups : IssueUpdates) (t : Tables)
      → Ensures g
          (apply_updates g existing req ups)
          t
          (OnSuccess (λ _. HasApplied existing req ups t))
  unfolding apply_updates
  apply_updates_rule existing req ups t =
      step_rule g "failed to update issue: " (g.update_issues (λ i. i.id == existing.id) ups) _ t
        (λ r u.
          Writes t (rows_set existing ups t) r u × Counts (λ i. i.id == existing.id) t.issue r)
        (λ _. HasApplied existing req ups t)
        (laws.update_issues_law (λ i. i.id == existing.id) ups t)
        (λ n u₁ (e₁, _).
          then_rule g (update_links_if_given g existing.id (get_links req)) _ u₁
            (λ _. ChangesLinks existing.id (get_links req) u₁) (λ _. HasApplied existing req ups t)
            (update_links_rule existing.id (get_links req) u₁)
            (λ _ u₂ linked.
              weaken_success g (update_scope_if_given g existing.scope_id (get_scope req)) u₂
                (λ _. ChangesScope existing.scope_id (get_scope req) u₂)
                (λ _. HasApplied existing req ups t)
                (update_scope_rule existing.scope_id (get_scope req) u₂)
                (λ _ u₃ e₃. HasApplied-chain existing req ups t u₁ u₂ u₃ e₁ linked e₃)))

  -- On success the row of the issue has the columns that the request gives and the rest of it as
  -- before, its links and its scope are as requested, and no other row has changed.
  pub update_issue_in_tx-IsUpdated :
      (existing : Issue) (req : IssuePayload) (t : Tables)
      → Ensures g (update_issue_in_tx g existing req) t (OnSuccess (λ _. IsUpdated existing req t))
  unfolding update_issue_in_tx
  update_issue_in_tx-IsUpdated existing req t =
      then_rule g (clock g) _ t (λ _ u. u ≡ t) (λ _. IsUpdated existing req t) (clock_rule g laws t)
        (λ time u₁ e₁.
          then_rule g (resolved_at_update g existing.state req) _ u₁
            (λ o u. (u ≡ u₁) × Resolves existing.state req o) (λ _. IsUpdated existing req t)
            (resolved_at_update_rule existing.state req u₁)
            (λ resolved u₂ (e₂, resolves).
              at_equal g (apply_updates g existing req (issue_updates req time resolved))
                (OnSuccess (λ _. IsUpdated existing req t)) (e₂ ∙ e₁)
                (weaken_success g (apply_updates g existing req (issue_updates req time resolved)) t
                  (λ _. HasApplied existing req (issue_updates req time resolved) t)
                  (λ _. IsUpdated existing req t)
                  (apply_updates_rule existing req (issue_updates req time resolved) t)
                  (λ _ u done. record {
                    time = time;
                    resolved = resolved;
                    resolves = resolves;
                    applied = done;
                  }))))
