-- ===== src/Repository/Filtering.antt =====
-- What the filters of `FindAll` of packages/backend/internal/repository/issue_repository.go ask for.
use kkite.Prelude.{
  String, ◌≡◌, ◌↔◌, refl, sym, subst, ◌⊎◌, inl, inr, Option, none, some, Bool, true, false, ◌==◌,
  ◌&&◌, ◌||◌, ◌<>◌, eq_iff, eq_refl, Bool-cases, arith, some_injective,
}
use mathlib.Core.Option.{none-ne-some}
use kkite.Models.{Issue, IssueScope}
use kkite.Store.{Tables, selects, scope_selects}
use kkite.Repository.Filters.{
  IssueQueryFilters, when_set, when_given, when_found, scope_filter, filter_query,
}

-- A filter that is not set asks for nothing.
abbrev pub Asks : String → String → Type 0
Asks wanted actual = (wanted ≡ "") ⊎ (actual ≡ wanted)

abbrev pub AsksFor : Option String → String → Type 0
AsksFor none actual = Unit
AsksFor (some wanted) actual = actual ≡ wanted

abbrev pub AsksText : (String → String → Bool) → String → Issue → Type 0
AsksText like search i =
    (search ≡ "")
    ⊎ (like i.title ("%" <> search <> "%") ≡ true)
    ⊎ (like i.description ("%" <> search <> "%") ≡ true)

-- The issue has what every filter asks for; a filter on the resource asks for a scope.
abbrev pub Meets : (String → String → Bool) → IssueQueryFilters → Tables → Issue → Type 0
Meets like f t i =
    Asks f.namespace i.namespace
    × AsksFor f.severity i.severity
    × AsksFor f.issue_type i.issue_type
    × AsksFor f.state i.state
    × AsksText like f.search i
    × (((f.resource_type ≡ "") × (f.resource_name ≡ ""))
        ⊎ ((s : IssueScope) × (t.scope i.scope_id ≡ some s)
            × Asks f.resource_type s.resource_type
            × Asks f.resource_name s.resource_name))

or_right : (a b : Bool) → b ≡ true → (a || b) ≡ true
or_right a b e = ground arith

both : (a b : Bool) → (a && b) ≡ true → (a ≡ true) × (b ≡ true)
both a b e = (ground arith, ground arith)

together : (a b : Bool) → a ≡ true → b ≡ true → (a && b) ≡ true
together a b p q = rw (p, q)

when_set-Asks : (wanted actual : String) → when_set wanted actual ≡ true → Asks wanted actual
when_set-Asks wanted actual e = elim (Bool-cases (wanted == "")) [
  | inl unset ↦ inl ((eq_iff wanted "").0 unset)
  | inr set ↦ inr ((eq_iff actual wanted).0 (rw set at e))
]

Asks-when_set : (wanted actual : String) → Asks wanted actual → when_set wanted actual ≡ true
Asks-when_set wanted actual (inl unset) = rw (unset)
Asks-when_set wanted actual (inr same) = elim (Bool-cases (wanted == "")) [
  | inl unset ↦ rw (unset)
  | inr set ↦ rw (set, same, eq_refl wanted)
]

when_given_asks :
    (wanted : Option String) (actual : String)
    → when_given wanted actual ≡ true
    → AsksFor wanted actual
when_given_asks none actual e = tt
when_given_asks (some wanted) actual e = (eq_iff actual wanted).0 e

asks-when_given :
    (wanted : Option String) (actual : String)
    → AsksFor wanted actual
    → when_given wanted actual ≡ true
asks-when_given none actual asks = refl
asks-when_given (some wanted) actual asks = (eq_iff actual wanted).1 asks

module _ (like : String → String → Bool) where
  when_found_asks :
      (search : String) (i : Issue) → when_found like search i ≡ true → AsksText like search i
  when_found_asks search i e = elim (Bool-cases (search == "")) [
    | inl unset ↦ inl ((eq_iff search "").0 unset)
    | inr set ↦ elim (Bool-cases (like i.title ("%" <> search <> "%"))) [
      | inl title ↦ inr (inl title)
      | inr other ↦ inr (inr (rw (set, other) at e))
    ]
  ]

  asks-when_found :
      (search : String) (i : Issue) → AsksText like search i → when_found like search i ≡ true
  asks-when_found search i asks = elim (Bool-cases (search == "")) [
    | inl unset ↦ rw (unset)
    | inr set ↦ rw (set) (one_of asks set)
  ]
    where
      one_of :
          AsksText like search i
          → (search == "") ≡ false
          → (like i.title ("%" <> search <> "%") || like i.description ("%" <> search <> "%"))
            ≡ true
      one_of (inl unset) set = absurd (ground (arith, eq_iff search ""))
      one_of (inr (inl title)) set = rw (title)
      one_of (inr (inr description)) set = or_right _ _ description

module _ (f : IssueQueryFilters) where
  abbrev AsksScope : Option IssueScope → Type 0
  AsksScope o =
      ((f.resource_type ≡ "") × (f.resource_name ≡ ""))
      ⊎ ((s : IssueScope) × (o ≡ some s)
          × Asks f.resource_type s.resource_type
          × Asks f.resource_name s.resource_name)

  joined_asks :
      (o : Option IssueScope)
      → scope_selects
          (some (λ s.
            when_set f.resource_type s.resource_type && when_set f.resource_name s.resource_name))
          o
        ≡ true
      → AsksScope o
  joined_asks none e = absurd (ground arith)
  joined_asks (some s) e =
      let (kind, name) = both _ _ e in
      inr (
        s,
        refl,
        when_set-Asks f.resource_type s.resource_type kind,
        when_set-Asks f.resource_name s.resource_name name,
      )

  scope_asks : (o : Option IssueScope) → scope_selects (scope_filter f) o ≡ true → AsksScope o
  scope_asks o e = elim (Bool-cases (f.resource_type == "" && f.resource_name == "")) [
    | inl unset ↦
        let (kind, name) = both _ _ unset in
        inl ((eq_iff f.resource_type "").0 kind, (eq_iff f.resource_name "").0 name)
    | inr set ↦ joined_asks o (rw set at e)
  ]

  Asks-joined :
      (s : IssueScope)
      → Asks f.resource_type s.resource_type
      → Asks f.resource_name s.resource_name
      → scope_selects (scope_filter f) (some s) ≡ true
  Asks-joined s kind name = elim (Bool-cases (f.resource_type == "" && f.resource_name == "")) [
    | inl unset ↦ rw (unset)
    | inr set ↦ rw (set) (
        together _ _ (Asks-when_set f.resource_type s.resource_type kind)
          (Asks-when_set f.resource_name s.resource_name name))
  ]

  asks-scope : (o : Option IssueScope) → AsksScope o → scope_selects (scope_filter f) o ≡ true
  asks-scope o (inl (kind, name)) = rw (kind, name)
  asks-scope o (inr (s, is, kind, name)) = rw (is) (Asks-joined s kind name)

  module _ (like : String → String → Bool) (t : Tables) (i : Issue) where
    selects-Meets : selects (filter_query like f) t (some i) ≡ true → Meets like f t i
    selects-Meets e =
        let (conditions, scope) = both _ _ e in
        let (namespace, c₁) = both _ _ conditions in
        let (severity, c₂) = both _ _ c₁ in
        let (issue_type, c₃) = both _ _ c₂ in
        let (state, search) = both _ _ c₃ in
        (
          when_set-Asks f.namespace i.namespace namespace,
          when_given_asks f.severity i.severity severity,
          when_given_asks f.issue_type i.issue_type issue_type,
          when_given_asks f.state i.state state,
          when_found_asks like f.search i search,
          scope_asks (t.scope i.scope_id) scope,
        )

    Meets-selects : Meets like f t i → selects (filter_query like f) t (some i) ≡ true
    Meets-selects (namespace, severity, issue_type, state, search, scope) =
        together _ _
          (together _ _ (Asks-when_set f.namespace i.namespace namespace) (
            together _ _ (asks-when_given f.severity i.severity severity) (
              together _ _ (asks-when_given f.issue_type i.issue_type issue_type) (
                together _ _ (asks-when_given f.state i.state state)
                  (asks-when_found like f.search i search)))))
          (asks-scope (t.scope i.scope_id) scope)

    abbrev HasRow : Option Issue → Type 0
    HasRow o = (r : Issue) × (o ≡ some r) × Meets like f t r

pub row-Meets :
    (like : String → String → Bool) (f : IssueQueryFilters) (t : Tables) (o : Option Issue)
    → (selects (filter_query like f) t o ≡ true) ↔ ((i : Issue) × (o ≡ some i) × Meets like f t i)
row-Meets like f t none =
    (λ e. absurd (ground arith), λ found. absurd (none-ne-some found.0 found.1))
row-Meets like f t (some r) = (
  λ e. (r, refl, selects-Meets f like t r e),
  λ found. Meets-selects f like t r (subst (Meets like f t) (sym (some_injective found.1)) found.2),
)
