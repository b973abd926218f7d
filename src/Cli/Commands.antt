-- ===== src/Cli/Commands.antt =====
-- The commands of packages/cli/cmd/root.go. `kubectl` is what the call of kubectl prints, without white space
-- around it, or its error; the format in which issues are printed is kept as a value.
use kkite.Prelude.{String, ◌==◌, ◌<>◌, Bool, List, [], ◌∷◌, ◌++◌, if◌then◌else◌}
use kkite.Models.{LoadedIssue}
use kkite.Store.{Result, ok, err, relabel}
use kkite.Config.{ℤ}
use kkite.Config.Database.{signed}
use kkite.Cli.Client.{Api, get_issues, get_issue_details, resolve_issue}

pub record Flags : Type 0 where
  pub namespace : String
  pub issue_type : String
  pub severity : String
  pub state : String
  pub resource_type : String
  pub limit : ℤ
  pub issue_id : String
  pub output_format : String
  pub unresolved : Bool

pub data Printed : Type 0 where
  line : String → Printed
  issues : String → List LoadedIssue → Printed
  details : String → LoadedIssue → Printed

abbrev or_default_namespace : String → String
or_default_namespace namespace = if namespace == "" then "default" else namespace

unfoldable pub get_current_kube_namespace : Result String → Result String
get_current_kube_namespace (err e) = err e
get_current_kube_namespace (ok output) = ok (or_default_namespace output)

abbrev pub required : Result String → Result String
required (err e) = err "namespace is required"
required (ok namespace) = ok namespace

unfoldable pub namespace_for : Flags → Result String → Result String
namespace_for flags kubectl =
    if flags.namespace == ""
    then required (get_current_kube_namespace kubectl)
    else ok flags.namespace

abbrev pub state_for : Flags → String
state_for flags = if flags.unresolved then "ACTIVE" else flags.state

abbrev pub list_filters : Flags → List (String × String)
list_filters flags =
    ("limit", signed flags.limit)
    ∷ ("issueType", flags.issue_type)
    ∷ ("severity", flags.severity)
    ∷ ("state", state_for flags)
    ∷ ("resourceType", flags.resource_type)
    ∷ []

abbrev pub search_filters : Flags → String → List (String × String)
search_filters flags term = list_filters flags ++ (("search", term) ∷ [])

-- What a command prints, and its error.
abbrev pub Run : Type 0
Run = List Printed × Result (Unit {0})

module _ {W : Type 0} (api : Api W) (kubectl : Result String) (flags : Flags) where
  abbrev shown : String → String → Result (List LoadedIssue) → Run
  shown first empty (err e) = (line first ∷ [], err e)
  shown first empty (ok []) = (line first ∷ line empty ∷ [], ok tt)
  shown first empty (ok (i ∷ is)) = (line first ∷ issues flags.output_format (i ∷ is) ∷ [], ok tt)

  abbrev list_in : Result String → W → Run × W
  list_in (err e) w = (([], err e), w)
  list_in (ok namespace) w =
      let (r, w') = get_issues api namespace (list_filters flags) w in
      (
        shown ("Fetching issues for namespace " <> namespace <> "...")
            ("No issues found in namespace " <> namespace <> " with the specified filters.") r,
        w',
      )

  unfoldable pub list_command : W → Run × W
  list_command = list_in (namespace_for flags kubectl)

  abbrev search_in : String → Result String → W → Run × W
  search_in term (err e) w = (([], err e), w)
  search_in term (ok namespace) w =
      let (r, w') = get_issues api namespace (search_filters flags term) w in
      (
        shown ("Searching for issues with term'" <> term <> "' in namespace " <> namespace <> "...")
            ("No issues found for term '" <> term <> "' in namespace " <> namespace <> ".")
            (relabel "error searching issues: " r),
        w',
      )

  unfoldable pub search_command : String → W → Run × W
  search_command term = search_in term (namespace_for flags kubectl)

  abbrev shown_details : String → Result LoadedIssue → Run
  shown_details first (err e) = (line first ∷ [], err e)
  shown_details first (ok issue) = (line first ∷ details flags.output_format issue ∷ [], ok tt)

  abbrev details_in : Result String → W → Run × W
  details_in (err e) w = (([], err e), w)
  details_in (ok namespace) w =
      if flags.issue_id == ""
      then (([], err "issue ID is required"), w)
      else let (r, w') = get_issue_details api flags.issue_id namespace w in
        (
          shown_details
              ("Fetching details for issue " <> flags.issue_id <> " in namespace " <> namespace
                <> "...")
              r,
          w',
        )

  unfoldable pub details_command : W → Run × W
  details_command = details_in (namespace_for flags kubectl)

  abbrev pub shown_resolved : String → Result (Unit {0}) → Run
  shown_resolved first (err e) = (line first ∷ [], err ("error resolving issue: " <> e))
  shown_resolved first (ok u) = (
    line first ∷ line ("Issue " <> flags.issue_id <> " has been resolved successfully.") ∷ [],
    ok tt,
  )

  abbrev pub resolve_in : Result String → W → Run × W
  resolve_in (err e) w = (([], err e), w)
  resolve_in (ok namespace) w =
      if flags.issue_id == ""
      then (([], err "issue ID is required"), w)
      else let (r, w') = resolve_issue api flags.issue_id namespace w in
        (
          shown_resolved
              ("Resolving issue " <> flags.issue_id <> " in namespace " <> namespace <> "...") r,
          w',
        )

  unfoldable pub resolve_command : W → Run × W
  resolve_command = resolve_in (namespace_for flags kubectl)
