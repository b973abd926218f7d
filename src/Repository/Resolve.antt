-- ===== src/Repository/Resolve.antt =====
-- `ResolveByScope` of issue_repository.go.
use kkite.Prelude.{
  ◌==◌, ◌&&◌, ℕ, String, ◌≡◌, refl, sym, ap, ◌∙◌, subst, some, Bool, false, eq_refl, List, [], ◌∷◌,
  arith, inl, inr, contains, length, IsNodup, Option-cases, Bool-cases,
}
use kkite.Models.{Issue, Time}
use kkite.Store.{
  Action, IssueQuery, Tables, Result, ok, err, selects, selected, updated, wrap, ◌>>=◌,
}
use kkite.Store.Gorm.{
  Gorm, GormLaws, Ensures, IsKeyed, Plucked, Writes, Counts, update_issue_rows, clock,
}
use kkite.Store.Rules.{bind_rule, wrap_rule, at_equal, pure_rule, clock_keeps}
use kkite.Repository.Requests.{active_in_scope_query, resolve_updates}
use kkite.Repository.Operations.{resolve_ids, resolve_by_scope}

-- Whether the issue with the id is ACTIVE in the namespace, with a scope of that type and name.
abbrev pub is_active_in : String → String → String → Tables → String → Bool
is_active_in resource_type resource_name namespace t j =
    selected
      (λ i.
        (i.state == "ACTIVE" && i.namespace == namespace)
        && selected (λ s. s.resource_type == resource_type && s.resource_name == resource_name)
            (t.scope i.scope_id))
      (t.issue j)

-- The row of an issue that is resolved at the time.
abbrev pub resolved_row : Time → Issue → Issue
resolved_row time i = record i { state = "RESOLVED"; resolved_at = some time; updated_at = time }

-- What a successful call has done: the rows of `ids`, which are the ACTIVE issues of the scope and
-- namespace, each once, are RESOLVED at one time, and nothing else has changed.
pub record HasResolved (resource_type resource_name namespace : String) (t : Tables) (n : ℕ)
    (u : Tables) : Type 0 where
  pub time : Time
  pub ids : List String
  pub nodup : IsNodup ids
  pub active :
      (j : String) → contains ids j ≡ is_active_in resource_type resource_name namespace t j
  pub count : n ≡ length ids
  pub issue :
      (j : String) → u.issue j ≡ updated (λ _. contains ids j) (resolved_row time) (t.issue j)
  pub scope : u.scope ≡ t.scope
  pub link : u.link ≡ t.link
  pub related : u.related ≡ t.related

abbrev pub ResolvesOrFails : String → String → String → Tables → Result ℕ → Tables → Type 0
ResolvesOrFails resource_type resource_name namespace t (ok n) u =
    HasResolved resource_type resource_name namespace t n u
ResolvesOrFails resource_type resource_name namespace t (err e) u = u ≡ t

module _ (g : Gorm) (laws : GormLaws g) (resource_type resource_name namespace : String) where
  abbrev q : IssueQuery
  q = active_in_scope_query resource_type resource_name namespace

  selects_active :
      (t : Tables) (j : String)
      → selects q t (t.issue j) ≡ is_active_in resource_type resource_name namespace t j
  selects_active t j = elim (Option-cases (t.issue j)) [
    | inl missing ↦ rw missing
    | inr (i, found) ↦ elim (Option-cases (t.scope i.scope_id)) [
      | inl unscoped ↦ rw (found, unscoped) (ground arith)
      | inr (s, scoped) ↦ rw (found, scoped)
    ]
  ]

  resolve_none :
      (time : Time) (t : Tables)
      → Plucked q t (ok [])
      → HasResolved resource_type resource_name namespace t 0 t
  resolve_none time t (nodup, active) = record {
    time = time;
    ids = [];
    nodup = nodup;
    active = λ j. active j ∙ selects_active t j;
    count = refl;
    issue = λ j. ground arith;
    scope = refl;
    link = refl;
    related = refl;
  }

  resolve_some :
      (time : Time) (ids : List String) (t u : Tables) (n : ℕ)
      → IsKeyed t
      → Plucked q t (ok ids)
      → u ≡ update_issue_rows (λ i. contains ids i.id) (resolve_updates time) t
      → Counts (λ (i : Issue). contains ids i.id) t.issue (ok n)
      → HasResolved resource_type resource_name namespace t n u
  resolve_some time ids t u n keyed (nodup, active) e counts = record {
    time = time;
    ids = ids;
    nodup = nodup;
    active = λ j. active j ∙ selects_active t j;
    count = counts.0 ids nodup (λ j. elim (Option-cases (t.issue j)) [
      | inl missing ↦ rw missing (active j ∙ ap (selects q t) missing)
      | inr (i, found) ↦ rw found (rw (keyed.issue j i found) refl)
    ]);
    issue = λ j. ap (λ v. v.issue j) e ∙ elim (Option-cases (t.issue j)) [
      | inl missing ↦ rw missing
      | inr (i, found) ↦ rw found (rw (keyed.issue j i found) refl)
    ];
    scope = ap (λ v. v.scope) e;
    link = ap (λ v. v.link) e;
    related = ap (λ v. v.related) e;
  }

  resolve_ids_rule :
      (time : Time) (ids : List String) (t : Tables)
      → IsKeyed t
      → Plucked q t (ok ids)
      → Ensures g
          (resolve_ids g time ids)
          t
          (ResolvesOrFails resource_type resource_name namespace t)
  unfolding resolve_ids
  resolve_ids_rule time [] t keyed plucked =
      pure_rule g 0 t (ResolvesOrFails resource_type resource_name namespace t)
        (resolve_none time t plucked)
  resolve_ids_rule time (id ∷ ids) t keyed plucked =
      let p : Issue → Bool = λ i. contains (id ∷ ids) i.id in
      wrap_rule g _ (g.update_issues p (resolve_updates time)) t
        (λ r u. Writes t (update_issue_rows p (resolve_updates time) t) r u × Counts p t.issue r)
        (ResolvesOrFails resource_type resource_name namespace t)
        (laws.update_issues_law p (resolve_updates time) t)
        (λ n u h. resolve_some time (id ∷ ids) t u n keyed plucked h.0 h.1) (λ e e' u h. h.0)

  resolve_rule :
      (t : Tables)
      → IsKeyed t
      → Ensures g
          (resolve_by_scope g resource_type resource_name namespace)
          t
          (ResolvesOrFails resource_type resource_name namespace t)
  unfolding resolve_by_scope
  resolve_rule t keyed =
      let R : Result ℕ → Tables → Type 0 =
        ResolvesOrFails resource_type resource_name namespace t in
      let pluck : Action g.World (List String) =
        wrap "failed to query issue IDs to resolve: " (g.pluck_ids q) in
      bind_rule g (clock g) (λ time. pluck >>= resolve_ids g time) t (λ _ u. u ≡ t) R
        (clock_keeps g laws t)
        (λ time u same. at_equal g (pluck >>= resolve_ids g time) R same (
          bind_rule g pluck (resolve_ids g time) t (λ r v. (v ≡ t) × Plucked q t r) R
            (wrap_rule g _ (g.pluck_ids q) t (λ r v. (v ≡ t) × Plucked q t r)
              (λ r v. (v ≡ t) × Plucked q t r) (laws.pluck_ids_law q t) (λ a v h. h)
              (λ e e' v h. (h.0, tt)))
            (λ ids v (same', plucked).
              at_equal g (resolve_ids g time ids) R same'
                (resolve_ids_rule time ids t keyed plucked))
            (λ e v h. h.0)))
        (λ e u same. same)

-- `ResolveByScope` marks as RESOLVED, at one time, exactly the ACTIVE issues of the namespace whose
-- scope has the resource type and name, reports how many they are, and changes nothing else; where
-- it fails, the tables are as before.
pub resolve_by_scope-ResolvesOrFails :
    (g : Gorm) (laws : GormLaws g) (resource_type resource_name namespace : String) (w : g.World)
    → let (r, w') = resolve_by_scope g resource_type resource_name namespace w in
      ResolvesOrFails resource_type resource_name namespace (g.tables w) r (g.tables w')
resolve_by_scope-ResolvesOrFails g laws resource_type resource_name namespace w =
    resolve_rule g laws resource_type resource_name namespace (g.tables w) (laws.keyed w) w refl

length_of_none : (ids : List String) → ((j : String) → contains ids j ≡ false) → length ids ≡ 0
length_of_none [] h = refl
length_of_none (i ∷ ids) h = absurd (ground (arith, h i, eq_refl i))

not_updated :
    (t : Tables) (time : Time) (j : String)
    → updated (λ _. false) (resolved_row time) (t.issue j) ≡ t.issue j
not_updated t time j = ground arith

none_active :
    (resource_type resource_name namespace : String) (t u : Tables) (n : ℕ)
    → HasResolved resource_type resource_name namespace t n u
    → (j : String) → is_active_in resource_type resource_name namespace u j ≡ false
none_active resource_type resource_name namespace t u n h j = elim (Option-cases (t.issue j)) [
  | inl missing ↦ ground (arith, h.issue j)
  | inr (i, found) ↦ elim (Bool-cases (contains h.ids j)) [
    | inl resolved ↦
        let row : u.issue j ≡ some (resolved_row h.time i) = ground (arith, h.issue j) in
        rw row refl
    | inr other ↦
        let row : u.issue j ≡ some i = ground (arith, h.issue j) in
        let same : u.scope i.scope_id ≡ t.scope i.scope_id = ap (λ f. f i.scope_id) h.scope in
        rw (row, same) (rw found at (sym (h.active j) ∙ other))
  ]
]

-- After a success no ACTIVE issue is left in the scope: calling `ResolveByScope` again, if that
-- succeeds, resolves no issue and changes no table row.
pub resolve_by_scope_again :
    (g : Gorm) (laws : GormLaws g) (resource_type resource_name namespace : String) (w : g.World)
    (n m : ℕ)
    → let (r, w') = resolve_by_scope g resource_type resource_name namespace w in
      let (r', w'') = resolve_by_scope g resource_type resource_name namespace w' in
      r ≡ ok n
      → r' ≡ ok m
      → (m ≡ 0) × ((j : String) → (g.tables w'').issue j ≡ (g.tables w').issue j)
resolve_by_scope_again g laws resource_type resource_name namespace w n m first second =
    let w' = (resolve_by_scope g resource_type resource_name namespace w).1 in
    let w'' = (resolve_by_scope g resource_type resource_name namespace w').1 in
    let R : Tables → Result ℕ → Tables → Type 0 =
      ResolvesOrFails resource_type resource_name namespace in
    let once =
      subst (λ r. R (g.tables w) r (g.tables w')) first
        (resolve_by_scope-ResolvesOrFails g laws resource_type resource_name namespace w) in
    let twice =
      subst (λ r. R (g.tables w') r (g.tables w'')) second
        (resolve_by_scope-ResolvesOrFails g laws resource_type resource_name namespace w') in
    let none_left : (j : String) → contains twice.ids j ≡ false = λ j.
      twice.active j
      ∙ none_active resource_type resource_name namespace (g.tables w) (g.tables w') n once j in
    (
      twice.count ∙ length_of_none twice.ids none_left,
      λ j. twice.issue j ∙ rw (none_left j) (not_updated (g.tables w') twice.time j),
    )
