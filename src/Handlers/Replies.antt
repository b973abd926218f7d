-- ===== src/Handlers/Replies.antt =====
-- What the handlers answer through gin: a status and a body. Go's dereference of a nil pointer is
-- the reply `panic`.
use kkite.Prelude.{
  ℕ, zero, suc, String, Option, none, some, List, [], ◌∷◌, ◌<>◌, nat_eq, if◌then◌else◌,
}
use kkite.Models.{LoadedIssue}
use kkite.Dto.{IssueResponse}

pub data Json : Type 0 where
  text : String → Json
  issue : LoadedIssue → Json
  null : Json
  empty_object : Json
  page : IssueResponse → Json

pub data Body : Type 0 where
  no_body : Body
  document : Json → Body
  object : List (String × Json) → Body

pub data Reply : Type 0 where
  reply : ℕ → Body → Reply
  panic : Reply

abbrev pub Handler : Type 0 → Type 0
Handler W = W → Reply × W

-- `c.JSON(status, gin.H{"error": message})`
abbrev pub error : ℕ → String → Reply
error status message = reply status (object (("error", text message) ∷ []))

-- `c.JSON(status, issue)`, for a pointer that may be nil.
abbrev pub json_of : Option LoadedIssue → Json
json_of none = null
json_of (some l) = issue l

-- `%d` of fmt: the digits from the last on, counted up one by one.
abbrev next_digits : List ℕ → List ℕ
next_digits [] = 1 ∷ []
next_digits (d ∷ ds) = if nat_eq d 9 then 0 ∷ next_digits ds else suc d ∷ ds

abbrev pick : ℕ → List String → String
pick n [] = ""
pick zero (s ∷ rest) = s
pick (suc n) (s ∷ rest) = pick n rest

abbrev digit : ℕ → String
digit d = pick d ("0" ∷ "1" ∷ "2" ∷ "3" ∷ "4" ∷ "5" ∷ "6" ∷ "7" ∷ "8" ∷ "9" ∷ [])

abbrev digits : ℕ → List ℕ
digits zero = 0 ∷ []
digits (suc n) = next_digits (digits n)

abbrev show_digits : List ℕ → String
show_digits [] = ""
show_digits (d ∷ ds) = show_digits ds <> digit d

abbrev pub decimal : ℕ → String
decimal n = show_digits (digits n)

-- `strings.Join`
abbrev pub join : String → List String → String
join separator [] = ""
join separator (s ∷ []) = s
join separator (s ∷ r ∷ rest) = s <> separator <> join separator (r ∷ rest)
