-- ===== src/Middleware/Token.antt =====
-- The bearer token of the header, as packages/backend/internal/middleware/auth.go extracts it.
use kkite.Prelude.{String, ◌==◌, ◌<>◌, List, [], ◌∷◌, length, if◌then◌else◌}
use kkite.Store.{Result, ok, err}
use kkite.Handlers.Replies.{decimal}
use Prim.Native.Char.{Char}
use Prim.Native.String.{[] as ε, ◌∷◌ as ◌∷ˢ◌}

abbrev pub in_front : Char → List String → List String
in_front c [] = []
in_front c (part ∷ rest) = (c ∷ˢ part) ∷ rest

-- `strings.Split(text, " ")`
unfoldable pub split : String → List String
split ε = "" ∷ []
split (c ∷ˢ text) = let rest = split text in if (c ∷ˢ ε) == " " then "" ∷ rest else in_front c rest

abbrev pub second_of_two : List String → Result String
second_of_two (scheme ∷ token ∷ []) = ok token
second_of_two parts = err (
    "incorrectly formatted authorization header, expected two strings separated by a space but found "
    <> decimal (length parts))

unfoldable pub extract_bearer_token : String → Result String
extract_bearer_token header =
    if header == ""
    then err "empty authorization bearer token given"
    else second_of_two (split header)
