-- ===== src/Cli/Filters.antt =====
-- What the backend reads of the request of packages/cli/cmd/root.go. `value_of` has the first value of a name
-- and "" for a name that is not there, as gin's `c.Query` does on a query that was encoded and decoded.
use kkite.Prelude.{
  ℕ, ◌≤◌, String, ◌==◌, ◌≡◌, refl, ap, ◌∙◌, fun_ext, Option, none, some, false, true, sym, subst,
  if◌then◌else◌, List, [], ◌∷◌, contains, IsNodup, eq_iff, arith,
}
use kkite.Config.{ℤ, pos}
use kkite.Config.Database.{signed}
use kkite.Handlers.Replies.{decimal}
use kkite.Repository.Filters.{IssueQueryFilters}
use kkite.Handlers.Listing.{filters_of, optional, or_fifty, number, IsGiven, optional-IsGiven}
use kkite.Cli.Client.{given, params}
use kkite.Cli.Commands.{Flags, list_filters, search_filters}

abbrev pub value_of : List (String × String) → String → String
value_of [] name = ""
value_of ((key, value) ∷ rest) name = if key == name then value else value_of rest name

abbrev keys : List (String × String) → List String
keys [] = []
keys ((key, value) ∷ rest) = key ∷ keys rest

value_of-absent :
    (fs : List (String × String)) (name : String)
    → contains (keys fs) name ≡ false
    → value_of fs name ≡ ""
value_of-absent [] name absent = refl
value_of-absent ((key, value) ∷ rest) name absent = ground (arith, value_of-absent rest name)

value_of-given :
    (fs : List (String × String)) (name : String)
    → IsNodup (keys fs)
    → value_of (given fs) name ≡ value_of fs name
value_of-given [] name nodup = refl
value_of-given ((key, value) ∷ rest) name (absent, nodup) = ground (
  arith,
  value_of-given rest name nodup,
  value_of-absent rest name,
  eq_iff key name,
  eq_iff value "",
  ap (contains (keys rest)) {x = key} {y = name},
)

-- The filters that the flags and the term name, for a page from the start.
abbrev asked : Flags → String → String → ℕ → IssueQueryFilters
asked flags namespace term limit = record {
  namespace = namespace;
  severity = optional flags.severity;
  issue_type = optional flags.issue_type;
  state = optional (if flags.unresolved then "ACTIVE" else flags.state);
  resource_type = flags.resource_type;
  resource_name = "";
  search = term;
  limit = limit;
  offset = 0;
}

-- The filters are what the flags and the term ask for, in the namespace and up to the limit, from the start.
pub record IsAsked (flags : Flags) (namespace term : String) (limit : ℕ) (f : IssueQueryFilters)
    : Type 0 where
  pub own_namespace : f.namespace ≡ namespace
  pub severity : IsGiven flags.severity f.severity
  pub issue_type : IsGiven flags.issue_type f.issue_type
  pub unresolved : flags.unresolved ≡ true → f.state ≡ some "ACTIVE"
  pub state : flags.unresolved ≡ false → IsGiven flags.state f.state
  pub resource_type : f.resource_type ≡ flags.resource_type
  pub resource_name : f.resource_name ≡ ""
  pub search : f.search ≡ term
  pub own_limit : f.limit ≡ limit
  pub offset : f.offset ≡ 0

asked-IsAsked :
    (flags : Flags) (namespace term : String) (limit : ℕ)
    → IsAsked flags namespace term limit (asked flags namespace term limit)
asked-IsAsked flags namespace term limit = record {
  own_namespace = refl;
  severity = optional-IsGiven flags.severity;
  issue_type = optional-IsGiven flags.issue_type;
  unresolved = λ e. rw e refl;
  state = λ e. subst (IsGiven flags.state) (sym (rw e refl)) (optional-IsGiven flags.state);
  resource_type = refl;
  resource_name = refl;
  search = refl;
  own_limit = refl;
  offset = refl;
}

module _ (parse_int : String → Option ℤ) (flags : Flags) (namespace : String) where
  abbrev read : List (String × String) → IssueQueryFilters
  read fs = filters_of parse_int (value_of (params namespace fs))

  read-given :
      (fs : List (String × String))
      → IsNodup ("namespace" ∷ keys fs)
      → read fs ≡ filters_of parse_int (value_of (("namespace", namespace) ∷ fs))
  read-given fs (absent, nodup) = ap (filters_of parse_int) (
      fun_ext λ name.
        ap (λ v. if "namespace" == name then namespace else v) (value_of-given fs name nodup))

  limit-parsed :
      (n : ℕ) (text : String)
      → 1 ≤ n
      → parse_int "" ≡ none
      → parse_int text ≡ some (pos n)
      → or_fifty (number parse_int text) ≡ n
  limit-parsed n text positive no_number parsed =
      ground (arith, eq_iff text "", ap parse_int {x = text} {y = ""})

  module _ (n : ℕ) (positive : 1 ≤ n) (limited : flags.limit ≡ pos n)
      (no_number : parse_int "" ≡ none) (parsed : parse_int (decimal n) ≡ some (pos n)) where
    limit_lem : or_fifty (number parse_int (signed flags.limit)) ≡ n
    limit_lem =
        ap (λ l. or_fifty (number parse_int (signed l))) limited
        ∙ limit-parsed n (decimal n) positive no_number parsed

    -- What the flags of `list` and of `search` ask for is what the backend reads of the request: the filters that
    -- are left empty are absent, `--unresolved` asks for the state ACTIVE, the term of `search` is the text
    -- searched for, and the page has the limit of the flags, where that is at least 1. The texts of numbers are
    -- those that the parsing of numbers reads back, and it reads no number in "".
    pub filters_of-list_filters :
        IsAsked flags namespace "" n
          (filters_of parse_int (value_of (params namespace (list_filters flags))))
        × ((term : String)
            → IsAsked flags namespace term n
                (filters_of parse_int (value_of (params namespace (search_filters flags term)))))
    filters_of-list_filters = (
      subst (IsAsked flags namespace "" n)
          (sym (
            read-given (list_filters flags) (refl, (refl, (refl, (refl, (refl, (refl, tt))))))
            ∙ ap (asked flags namespace "") limit_lem))
          (asked-IsAsked flags namespace "" n),
      λ term.
          subst (IsAsked flags namespace term n)
            (sym (
              read-given (search_filters flags term)
                (refl, (refl, (refl, (refl, (refl, (refl, (refl, tt)))))))
              ∙ ap (asked flags namespace term) limit_lem))
            (asked-IsAsked flags namespace term n),
    )
