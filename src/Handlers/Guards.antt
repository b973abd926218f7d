-- ===== src/Handlers/Guards.antt =====
-- What the endpoints of issue_handlers.go that change one issue answer and store.
use kkite.Prelude.{
  String, ◌≡◌, ◌⊎◌, refl, sym, subst, Option, none, some, true, false, arith, inl, inr, eq_iff,
  Bool-cases, Option-cases, ◌==◌,
}
use kkite.Models.{Issue, LoadedIssue}
use kkite.Store.{Tables, Result, ok, err}
use kkite.Store.Gorm.{Gorm, GormLaws, Found}
use kkite.Repository.Requests.{by_id_query}
use kkite.Repository.Operations as Operations
use kkite.Repository.Stores.{find_by_id_rule}
use kkite.Service.{issue_service}
use kkite.Handlers.Replies.{Reply, error, Handler}
use kkite.Handlers.Issues.{is_denied, guarded}
use kkite.Handlers.Failures.{bind_pure}

-- The request may change the issue: it names no namespace, or that of the issue.
abbrev pub Allows : String → Issue → Type 0
Allows namespace i = (namespace ≡ "") ⊎ (i.namespace ≡ namespace)

-- A refusal, which changes nothing: the issue is not there, it is in another namespace than the
-- one that the request names, or the look-up has failed.
abbrev pub Refuses : String → String → String → Tables → Reply → Tables → Type 0
Refuses failure id namespace t r u =
    (u ≡ t)
    × (((r ≡ error 404 "Issue not found") × (t.issue id ≡ none))
        ⊎ ((r ≡ error 403 "Access denied to this namespace")
            × (i : Issue) × (t.issue id ≡ some i)
            × ¬ (Allows namespace i))
        ⊎ (r ≡ error 500 failure))

module _ (g : Gorm) (laws : GormLaws g) (failure id namespace : String)
    (next : Handler g.World) where
  allowed : (l : LoadedIssue) → is_denied namespace l ≡ false → Allows namespace l.issue
  allowed l e = elim (Bool-cases (namespace == "")) [
    | inl none_given ↦ inl ((eq_iff namespace "").0 none_given)
    | inr given ↦ inr ((eq_iff l.issue.namespace namespace).0 (ground arith))
  ]

  not_allowed : (l : LoadedIssue) → is_denied namespace l ≡ true → ¬ (Allows namespace l.issue)
  not_allowed l e (inl x) = ground (arith, eq_iff namespace "")
  not_allowed l e (inr x) = ground (arith, eq_iff l.issue.namespace namespace)

  absent :
      (t : Tables)
      → ((j : String) (i : Issue) → t.issue j ≡ some i → i.id ≡ j)
      → Found (by_id_query id) t (ok none)
      → t.issue id ≡ none
  absent t keyed nothing = elim (Option-cases (t.issue id)) [
    | inl missing ↦ missing
    | inr (i, found) ↦ absurd (ground (arith, nothing id, keyed id i found, eq_iff i.id id))
  ]

  guarded_at :
      (w : g.World) (r : Result (Option LoadedIssue)) (R : Reply → Tables → Type 0)
      → Found (by_id_query id) (g.tables w) r
      → ((q : Reply) → Refuses failure id namespace (g.tables w) q (g.tables w) → R q (g.tables w))
      → ((i : Issue)
          → (g.tables w).issue id ≡ some i
          → Allows namespace i
          → R (next w).0 (g.tables (next w).1))
      → R (guarded failure namespace next r w).0 (g.tables (guarded failure namespace next r w).1)
  guarded_at w (err e) R found refuse allow = refuse _ (refl, inr (inr refl))
  guarded_at w (ok none) R found refuse allow =
      refuse _ (refl, inl (refl, absent (g.tables w) (laws.keyed w).issue found))
  guarded_at w (ok (some l)) R found refuse allow =
      let here : l.issue.id ≡ id = (eq_iff l.issue.id id).0 (ground (arith, found.chosen)) in
      let stored : (g.tables w).issue id ≡ some l.issue =
        subst (λ k. (g.tables w).issue k ≡ some l.issue) here found.stored in
      elim (Bool-cases (is_denied namespace l)) [
        | inl denied ↦
            rw denied (refuse _ (refl, inr (inl (refl, l.issue, stored, not_allowed l denied))))
        | inr fine ↦ rw fine (allow l.issue stored (allowed l fine))
      ]

  -- The whole of it: the look-up, its tests and what follows.
  pub guarded_rule :
      (w : g.World) (R : Reply → Tables → Type 0)
      → ((q : Reply) → Refuses failure id namespace (g.tables w) q (g.tables w) → R q (g.tables w))
      → ((v : g.World) (i : Issue)
          → g.tables v ≡ g.tables w
          → (g.tables w).issue id ≡ some i
          → Allows namespace i
          → R (next v).0 (g.tables (next v).1))
      → let (r, w') = (issue_service g).find_issue_by_id id w in
        R (guarded failure namespace next r w').0 (g.tables (guarded failure namespace next r w').1)
  guarded_rule w R refuse allow =
      let p = Operations.find_by_id g id w in
      let (same, found) = find_by_id_rule g laws id (g.tables w) w refl in
      subst
        (λ x.
          R (guarded failure namespace next x.0 x.1).0
            (g.tables (guarded failure namespace next x.0 x.1).1))
        (sym (bind_pure (Operations.find_by_id g id) w))
        (guarded_at p.1 p.0 R (subst (λ t. Found (by_id_query id) t p.0) (sym same) found)
          (λ q h.
            subst (R q) (sym same)
              (refuse q (subst (λ t. Refuses failure id namespace t q t) same h)))
          (λ i stored fine. allow p.1 i same (subst (λ t. t.issue id ≡ some i) same stored) fine))
