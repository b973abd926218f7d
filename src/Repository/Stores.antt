-- ===== src/Repository/Stores.antt =====
-- The common shape of `CreateOrUpdate` and `Create` of issue_repository.go: a transaction that
-- looks for a duplicate and stores, and a reload.
use kkite.Prelude.{
  String, ◌≡◌, ◌⊎◌, refl, sym, ap, ◌∙◌, subst, Option, none, some, false, eq_iff, eq_refl, arith,
  inl, inr,
}
use kkite.Models.{Issue, LoadedIssue}
use kkite.Dto.{IssuePayload}
use kkite.Store.{Tables, Action, pure, Result, set_columns, ok, err, selects, wrap, ◌>>=◌}
use kkite.Store.Gorm.{Gorm, GormLaws, Ensures, Loads, Found, Committed}
use kkite.Store.Rules.{
  OnSuccess, then_rule, weaken, wrap_rule, bind_rule, step_rule, at_equal, pure_rule,
}
use kkite.Repository.Requests.{duplicate_query, by_id_query, issue_updates, create_as_update}
use kkite.Repository.Operations.{
  find_by_id, find_duplicate_in_tx, create_new_issue_in_tx, update_issue_in_tx,
  create_or_update_branch, create_branch,
}
use kkite.Repository.Updates.{IsUpdated, update_issue_in_tx-IsUpdated}
use kkite.Repository.CreateKeeps.{HasCreated, new_issue_row, create_new_issue_in_tx-HasCreated}

-- A new issue, where no issue matches the request.
abbrev pub StoresNew : IssuePayload → Tables → String → Tables → Type 0
StoresNew req t id u =
    (l : LoadedIssue) × HasCreated req t l u
    × (id ≡ l.issue.id)
    × ((j : String) → selects (duplicate_query req) t (t.issue j) ≡ false)

-- An update by `change` of an issue that matches the request.
abbrev pub StoresOld : IssuePayload → IssuePayload → Tables → String → Tables → Type 0
StoresOld req change t id u =
    (l : LoadedIssue) × Loads (duplicate_query req) t l
    × IsUpdated l.issue change t u
    × (id ≡ l.issue.id)

abbrev pub Stores : IssuePayload → IssuePayload → Tables → String → Tables → Type 0
Stores req change t id u = StoresNew req t id u ⊎ StoresOld req change t id u

-- A call that stores and reloads: a value is the stored issue with its associations; an error
-- leaves the tables alone, or comes from reloading what is stored.
abbrev pub Reloads :
    (Tables → String → Tables → Type 0) → Tables → Result (Option LoadedIssue) → Tables → Type 0
Reloads S t (ok none) u = ⊥
Reloads S t (ok (some l)) u = S t l.issue.id u × Loads (by_id_query l.issue.id) u l
Reloads S t (err e) u = (u ≡ t) ⊎ ((id : String) × S t id u)

-- The stored issue is there, under its id.
Stores-present :
    (req change : IssuePayload) (t u : Tables) (id : String)
    → Stores req change t id u
    → (i : Issue) × (u.issue id ≡ some i) × (i.id ≡ id)
Stores-present req change t u id (inl (l, h, same, nothing)) =
    (l.issue, ap u.issue same ∙ new_issue_row h, sym same)
Stores-present req change t u id (inr (l, found, h, same)) =
    let ups = issue_updates change h.time h.resolved in
    (
      set_columns ups l.issue,
      ap u.issue same
          ∙ ground (arith, h.applied.issue l.issue.id, found.stored, eq_refl l.issue.id),
      sym same,
    )

pub not_missing :
    (u : Tables) (id : String)
    → (i : Issue) × (u.issue id ≡ some i) × (i.id ≡ id)
    → ¬ (selects (by_id_query id) u (u.issue id) ≡ false)
not_missing u id (i, stored, same) nothing = ground (arith, eq_iff i.id id)

module _ (g : Gorm) (laws : GormLaws g) where
  pub find_duplicate_rule :
      (req : IssuePayload) (t : Tables)
      → Ensures g (find_duplicate_in_tx g req) t (λ r u. (u ≡ t) × Found (duplicate_query req) t r)
  unfolding find_duplicate_in_tx
  find_duplicate_rule req t =
      wrap_rule g _ (g.first_issue (duplicate_query req)) t
        (λ r u. (u ≡ t) × Found (duplicate_query req) t r)
        (λ r u. (u ≡ t) × Found (duplicate_query req) t r)
        (laws.first_issue_law (duplicate_query req) t) (λ a u h. h) (λ e e' u h. (h.0, tt))

  pub find_by_id_rule :
      (id : String) (t : Tables)
      → Ensures g (find_by_id g id) t (λ r u. (u ≡ t) × Found (by_id_query id) t r)
  unfolding find_by_id
  find_by_id_rule id t =
      wrap_rule g _ (g.first_issue (by_id_query id)) t (λ r u. (u ≡ t) × Found (by_id_query id) t r)
        (λ r u. (u ≡ t) × Found (by_id_query id) t r) (laws.first_issue_law (by_id_query id) t)
        (λ a u h. h) (λ e e' u h. (h.0, tt))

  -- The branch that is taken, given what the look-up has found.
  pub create_or_update_branch_rule :
      (req : IssuePayload) (t : Tables) (o : Option LoadedIssue)
      → Found (duplicate_query req) t (ok o)
      → Ensures g (create_or_update_branch g req o) t (OnSuccess (Stores req req t))
  unfolding create_or_update_branch
  create_or_update_branch_rule req t none nothing =
      step_rule g "failed to create issue: " (create_new_issue_in_tx g req)
        (λ (l : LoadedIssue). pure l.issue.id) t (OnSuccess (HasCreated req t)) (Stores req req t)
        (create_new_issue_in_tx-HasCreated g laws req t)
        (λ l u h.
          pure_rule g l.issue.id u (OnSuccess (Stores req req t)) (inl (l, h, refl, nothing)))
  create_or_update_branch_rule req t (some l) found =
      then_rule g (update_issue_in_tx g l.issue req) (λ _. pure l.issue.id) t
        (λ _. IsUpdated l.issue req t) (Stores req req t)
        (update_issue_in_tx-IsUpdated g laws l.issue req t)
        (λ _ u h. pure_rule g l.issue.id u (OnSuccess (Stores req req t)) (inr (l, found, h, refl)))

  pub create_branch_rule :
      (req : IssuePayload) (t : Tables) (o : Option LoadedIssue)
      → Found (duplicate_query req) t (ok o)
      → Ensures g (create_branch g req o) t (OnSuccess (Stores req (create_as_update req) t))
  unfolding create_branch
  create_branch_rule req t none nothing =
      then_rule g (create_new_issue_in_tx g req) (λ (l : LoadedIssue). pure l.issue.id) t
        (HasCreated req t) (Stores req (create_as_update req) t)
        (create_new_issue_in_tx-HasCreated g laws req t)
        (λ l u h.
          pure_rule g l.issue.id u (OnSuccess (Stores req (create_as_update req) t))
            (inl (l, h, refl, nothing)))
  create_branch_rule req t (some l) found =
      let change = create_as_update req in
      then_rule g (update_issue_in_tx g l.issue change) (λ _. pure l.issue.id) t
        (λ _. IsUpdated l.issue change t) (Stores req change t)
        (update_issue_in_tx-IsUpdated g laws l.issue change t)
        (λ _ u h.
          pure_rule g l.issue.id u (OnSuccess (Stores req change t)) (inr (l, found, h, refl)))

  -- A look-up, a branch and a reload, as both operations combine them.
  pub store_rule :
      (prefix : String) (req change : IssuePayload)
      (branch : Option LoadedIssue → Action g.World String) (t : Tables)
      → ((o : Option LoadedIssue)
          → Found (duplicate_query req) t (ok o)
          → Ensures g (branch o) t (OnSuccess (Stores req change t)))
      → Ensures g
          (g.transaction (wrap prefix (find_duplicate_in_tx g req) >>= branch) >>= find_by_id g)
          t
          (Reloads (Stores req change) t)
  store_rule prefix req change branch t h =
      bind_rule g (g.transaction (wrap prefix (find_duplicate_in_tx g req) >>= branch))
        (find_by_id g) t (Committed (OnSuccess (Stores req change t)) t)
        (Reloads (Stores req change) t)
        (laws.transaction_law (wrap prefix (find_duplicate_in_tx g req) >>= branch) t
          (OnSuccess (Stores req change t))
          (step_rule g prefix (find_duplicate_in_tx g req) branch t
            (λ r u. (u ≡ t) × Found (duplicate_query req) t r) (Stores req change t)
            (find_duplicate_rule req t)
            (λ o u (same, found).
              at_equal g (branch o) (OnSuccess (Stores req change t)) same (h o found))))
        (λ id u stored.
          weaken g (find_by_id g id) u (λ r v. (v ≡ u) × Found (by_id_query id) u r)
            (Reloads (Stores req change) t) (find_by_id_rule id u) (reloads id u stored))
        (λ e u same. inl same)
    where
      reloads :
          (id : String) (u : Tables)
          → Stores req change t id u
          → (r : Result (Option LoadedIssue)) (v : Tables) → (v ≡ u) × Found (by_id_query id) u r
          → Reloads (Stores req change) t r v
      reloads id u stored (ok none) v (same, nothing) =
          not_missing u id (Stores-present req change t u id stored) (nothing id)
      reloads id u stored (ok (some l)) v (same, found) =
          let here : id ≡ l.issue.id =
            sym ((eq_iff l.issue.id id).0 (ground (arith, found.chosen))) in
          subst (λ v. Stores req change t l.issue.id v × Loads (by_id_query l.issue.id) v l)
            (sym same)
            (
              subst (λ i. Stores req change t i u) here stored,
              subst (λ i. Loads (by_id_query i) u l) here found,
            )
      reloads id u stored (err e) v (same, _) =
          inr (id, subst (λ v. Stores req change t id v) (sym same) stored)
