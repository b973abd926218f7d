-- ===== src/Cli/Tests.antt =====
-- Requests and runs of the commands of packages/cli.
use kkite.Prelude.{
  ℕ, String, ◌≡◌, ◌==◌, refl, Option, some, none, [], ◌∷◌, if◌then◌else◌, true, arith,
}
use kkite.Config.{ℤ, pos}
use kkite.Store.{ok, err}
use kkite.Cli.Client.{Api, answered, params, resolve_issue, handle_api_error}
use kkite.Cli.Commands.{Flags, line, list_filters, search_filters, resolve_command, namespace_for}
use kkite.Cli.Filters.{value_of, IsAsked, filters_of-list_filters}
use kkite.Cli.Resolving.{ResolvedBy, resolve_command-ResolvedBy}
use kkite.Handlers.Listing.{filters_of}

abbrev flags : Flags
flags = record {
  namespace = "team-a";
  issue_type = "";
  severity = "critical";
  state = "RESOLVED";
  resource_type = "";
  limit = pos 20;
  issue_id = "1";
  output_format = "";
  unresolved = true;
}

-- The only number is 20.
abbrev twenty : String → Option ℤ
twenty text = if text == "20" then some (pos 20) else none

-- Every request is answered with the status.
abbrev api_of : ℕ → Api (Unit {0})
api_of code = record {
  base_url = "http://kite";
  encode = λ query. "";
  get = λ url w. (answered (record { status_code = code; body = "" }), w);
  new_request = λ method url. none;
  post = λ url w. (answered (record { status_code = code; body = "" }), w);
  parse_issues = λ body. ok [];
  parse_issue = λ body. err "no issue";
  parse_error = λ body. none;
}

resolved_run : (resolve_command (api_of 204) (err "no kubectl") flags tt).0 ≡ (
  line "Resolving issue 1 in namespace team-a..."
      ∷ line "Issue 1 has been resolved successfully."
      ∷ [],
  ok tt,
)
unfolding resolve_command namespace_for resolve_issue
resolved_run = refl

refused_run :
    (resolve_command (api_of 403) (err "no kubectl") flags tt).0.1
    ≡ err "error resolving issue: access denied to namespace team-a"
unfolding resolve_command namespace_for resolve_issue
refused_run = refl

unavailable_run :
    (resolve_command (api_of 503) (err "no kubectl") flags tt).0.1
    ≡ err
        "error resolving issue: server error (status 503): the server is currently unavailable, please try again later"
unfolding resolve_command namespace_for resolve_issue handle_api_error
unavailable_run = refl

filters_of-list_filters_example :
    IsAsked flags "team-a" "" 20
      (filters_of twenty (value_of (params "team-a" (list_filters flags))))
    × ((term : String)
        → IsAsked flags "team-a" term 20
            (filters_of twenty (value_of (params "team-a" (search_filters flags term)))))
filters_of-list_filters_example =
    filters_of-list_filters twenty flags "team-a" 20 (omega arith) refl refl refl

resolve_command-ResolvedBy_example : ResolvedBy (api_of 204) (err "no kubectl") flags tt
unfolding resolve_command namespace_for resolve_issue
resolve_command-ResolvedBy_example =
    resolve_command-ResolvedBy (api_of 204) (err "no kubectl") flags tt refl
