-- ===== src/Cli/Client.antt =====
-- packages/cli/pkg/api/client.go, over the HTTP client of Go, the encoding of a query and the parsing of JSON
-- as parameters. The parameters of a query are listed in the order of the code; `url.Values.Encode` sorts them
-- by name. A request answers, or fails with a text, by a timeout or not.
use kkite.Prelude.{
  ℕ, String, ◌==◌, ◌<>◌, ◌||◌, Option, none, some, Bool, true, false, List, [], ◌∷◌, if◌then◌else◌,
  nat_eq,
}
use kkite.Models.{LoadedIssue}
use kkite.Store.{Result, ok, err, relabel}
use kkite.Handlers.Replies.{decimal}

pub record Response : Type 0 where
  pub status_code : ℕ
  pub body : String

pub data Sent : Type 0 where
  failed : Bool → String → Sent
  answered : Response → Sent

pub record Api (W : Type 0) : Type 0 where
  pub base_url : String
  pub encode : List (String × String) → String
  pub get : String → W → Sent × W
  pub new_request : String → String → Option String
  pub post : String → W → Sent × W
  pub parse_issues : String → Result (List LoadedIssue)
  pub parse_issue : String → Result LoadedIssue
  -- The fields `error` and `message`.
  pub parse_error : String → Option (String × String)

-- `if value != "" { params.Add(key, value) }`
abbrev pub add : String → String → List (String × String) → List (String × String)
add key value rest = if value == "" then rest else (key, value) ∷ rest

abbrev pub given : List (String × String) → List (String × String)
given [] = []
given ((key, value) ∷ filters) = add key value (given filters)

abbrev pub params : String → List (String × String) → List (String × String)
params namespace filters = ("namespace", namespace) ∷ given filters

abbrev pub api_error : ℕ → String → String
api_error code text = "API error (status " <> decimal code <> "): " <> text

abbrev by_status : ℕ → String → String
by_status code body =
    if nat_eq code 401
    then "authentication error: you are not authorized to access this resource"
    else if nat_eq code 403
    then "permission denied: you don't have access to this resource"
    else if nat_eq code 404
    then "resource not found: please check the URL or parameters"
    else if nat_eq code 429
    then "rate limit exceeded: please try again later"
    else if nat_eq code 500 || (nat_eq code 502 || nat_eq code 503)
    then "server error (status "
      <> decimal code
      <> "): the server is currently unavailable, please try again later"
    else if body == ""
    then "API error (status " <> decimal code <> ")"
    else api_error code body

abbrev from_json : ℕ → String → Option (String × String) → String
from_json code body none = by_status code body
from_json code body (some (error, message)) =
    if error == ""
    then if message == "" then by_status code body else api_error code message
    else api_error code error

unfoldable pub handle_request_error : Bool → String → String
handle_request_error true e =
    "request timed out: please check your network connection and try again"
handle_request_error false e =
    "network error: " <> e <> " (please check your connection and API URL configuration)"

-- The answers that say that the issue is not there, or not to be seen.
abbrev pub refused : String → String → ℕ → Option String
refused id namespace code =
    if nat_eq code 404
    then some ("issue with ID " <> id <> " not found")
    else if nat_eq code 403
    then some ("access denied to namespace " <> namespace)
    else none

module _ {W : Type 0} (api : Api W) where
  unfoldable pub handle_api_error : Response → String
  handle_api_error r = from_json r.status_code r.body (api.parse_error r.body)

  abbrev got_issues : Sent → Result (List LoadedIssue)
  got_issues (failed timeout e) = err ("failed to get issues: " <> e)
  got_issues (answered r) =
      if nat_eq r.status_code 200
      then relabel "failed to parse issues: " (api.parse_issues r.body)
      else err (handle_api_error r)

  unfoldable pub get_issues : String → List (String × String) → W → Result (List LoadedIssue) × W
  get_issues namespace filters w =
      let (sent, w') =
        api.get (api.base_url <> "/issues?" <> api.encode (params namespace filters)) w in
      (got_issues sent, w')

  abbrev got_details : Response → Option String → Result LoadedIssue
  got_details r (some e) = err e
  got_details r none =
      if nat_eq r.status_code 200
      then relabel "failed to parse issue details: " (api.parse_issue r.body)
      else err (handle_api_error r)

  abbrev details_of : String → String → Sent → Result LoadedIssue
  details_of id namespace (failed timeout e) = err ("failed to get issue details: " <> e)
  details_of id namespace (answered r) = got_details r (refused id namespace r.status_code)

  unfoldable pub get_issue_details : String → String → W → Result LoadedIssue × W
  get_issue_details id namespace w =
      let (sent, w') =
        api.get (api.base_url <> "/issues/" <> id <> "?" <> api.encode (params namespace [])) w in
      (details_of id namespace sent, w')

  abbrev pub got_resolved : Response → Option String → Result (Unit {0})
  got_resolved r (some e) = err e
  got_resolved r none =
      if nat_eq r.status_code 200 || nat_eq r.status_code 204
      then ok tt
      else err (handle_api_error r)

  abbrev pub resolved_of : String → String → Sent → Result (Unit {0})
  resolved_of id namespace (failed timeout e) = err (handle_request_error timeout e)
  resolved_of id namespace (answered r) = got_resolved r (refused id namespace r.status_code)

  abbrev pub send_resolve : String → String → String → Option String → W → Result (Unit {0}) × W
  send_resolve id namespace url (some e) w = (err (handle_request_error false e), w)
  send_resolve id namespace url none w =
      let (sent, w') = api.post url w in (resolved_of id namespace sent, w')

  abbrev pub resolve_url : String → String → String
  resolve_url id namespace =
      api.base_url <> "/issues/" <> id <> "/resolve?" <> api.encode (params namespace [])

  unfoldable pub resolve_issue : String → String → W → Result (Unit {0}) × W
  resolve_issue id namespace w =
      let url = resolve_url id namespace in
      send_resolve id namespace url (api.new_request "POST" url) w
