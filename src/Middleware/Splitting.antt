-- ===== src/Middleware/Splitting.antt =====
-- Which headers have a bearer token: the form of the texts that `extractBearerToken` of
-- packages/backend/internal/middleware/auth.go accepts.
use kkite.Prelude.{
  String, ◌==◌, ◌<>◌, ◌≡◌, ◌≢◌, ◌↔◌, inl, inr, refl, sym, ap, ◌∙◌, subst, Bool, true, false, ◌||◌,
  List, [], ◌∷◌, Bool-cases, count, length-append, arith, if◌then◌else◌, eq_iff, eq_false,
}
use kkite.Store.{ok, err}
use kkite.Handlers.Replies.{join}
use kkite.Middleware.Token.{split, second_of_two, extract_bearer_token}
use Prim.Native.Char.{Char}
use Prim.Native.String.{[] as ε, ◌∷◌ as ◌∷ˢ◌}
use text.Mathlib.TextLemmas.{nil-append, cons-append}

abbrev has_space : String → Bool
has_space ε = false
has_space (c ∷ˢ s) = (c ∷ˢ ε) == " " || has_space s

abbrev pub HasNoSpace : String → Type 0
HasNoSpace s = has_space s ≡ false

abbrev AllWithoutSpace : List String → Type 0
AllWithoutSpace [] = Unit
AllWithoutSpace (s ∷ ss) = HasNoSpace s × AllWithoutSpace ss

parts_false : (a b : Bool) → (a || b) ≡ false → (a ≡ false) × (b ≡ false)
parts_false false b none_of = (refl, none_of)
parts_false true b none_of = (none_of, absurd (true_false none_of))
  where
    true_false : true ≡ false → ⊥
    true_false e = cc

split-no_space : (s : String) → HasNoSpace s → split s ≡ s ∷ []
unfolding split
split-no_space ε clean = refl
split-no_space (c ∷ˢ s) clean =
    let (other, rest) = parts_false ((c ∷ˢ ε) == " ") (has_space s) clean in
    rw (other, split-no_space s rest)

-- The text after the first space is split on.
split-append : (s t : String) → HasNoSpace s → split (s <> " " <> t) ≡ s ∷ split t
unfolding split
split-append ε t clean =
    ap split (nil-append (" " <> t) ∙ cons-append " " ε t ∙ ap (λ u. " " ∷ˢ u) (nil-append t))
split-append (c ∷ˢ s) t clean =
    let (other, rest) = parts_false ((c ∷ˢ ε) == " ") (has_space s) clean in
    rw (cons-append c s (" " <> t), other, split-append s t rest)

split-cons : (s : String) → (p : String) × (ps : List String) × (split s ≡ p ∷ ps)
unfolding split
split-cons ε = ("", [], refl)
split-cons (c ∷ˢ s) = elim (Bool-cases ((c ∷ˢ ε) == " ")) [
  | inl space ↦ ("", split s, rw (space))
  | inr other ↦ let (p, ps, e) = split-cons s in (c ∷ˢ p, ps, rw (other, e))
]

join-in_front :
    (c : Char) (p : String) (ps : List String) → join " " ((c ∷ˢ p) ∷ ps) ≡ c ∷ˢ join " " (p ∷ ps)
join-in_front c p [] = refl
join-in_front c p (q ∷ qs) = cons-append c p _

-- The parts have no space in them, and joined by spaces they are the text.
abbrev IsSplit : String → List String → Type 0
IsSplit s parts = (join " " parts ≡ s) × AllWithoutSpace parts

after_space :
    (c : Char) (s : String)
    → ((c ∷ˢ ε) == " ") ≡ true
    → IsSplit s (split s)
    → IsSplit (c ∷ˢ s) ("" ∷ split s)
after_space c s space (joined, clean) =
    let (p, ps, e) = split-cons s in
    (
      ap (join " ") (ap (λ l. "" ∷ l) e)
          ∙ nil-append (" " <> join " " (p ∷ ps))
          ∙ ap (λ u. " " <> u) (ap (join " ") (sym e) ∙ joined)
          ∙ ap (λ u. u <> s) (sym ((eq_iff (c ∷ˢ ε) " ").0 space))
          ∙ cons-append c ε s
          ∙ ap (λ u. c ∷ˢ u) (nil-append s),
      (refl, clean),
    )

after_other :
    (c : Char) (s p : String) (ps : List String)
    → ((c ∷ˢ ε) == " ") ≡ false
    → IsSplit s (p ∷ ps)
    → IsSplit (c ∷ˢ s) ((c ∷ˢ p) ∷ ps)
after_other c s p ps other (joined, (clean_p, clean_ps)) =
    (join-in_front c p ps ∙ ap (λ u. c ∷ˢ u) joined, (rw (other, clean_p), clean_ps))

split-IsSplit : (s : String) → IsSplit s (split s)
unfolding split
split-IsSplit ε = (refl, (refl, tt))
split-IsSplit (c ∷ˢ s) = elim (Bool-cases ((c ∷ˢ ε) == " ")) [
  | inl space ↦ subst (IsSplit (c ∷ˢ s)) (spaced space) (after_space c s space (split-IsSplit s))
  | inr other ↦
      let (p, ps, e) = split-cons s in
      subst (IsSplit (c ∷ˢ s)) (apart other e)
        (after_other c s p ps other (subst (IsSplit s) e (split-IsSplit s)))
]
  where
    spaced : ((c ∷ˢ ε) == " ") ≡ true → ("" ∷ split s) ≡ split (c ∷ˢ s)
    spaced space = rw (space)

    apart :
        ((c ∷ˢ ε) == " ") ≡ false
        → {p : String} → {ps : List String} → split s ≡ p ∷ ps
        → ((c ∷ˢ p) ∷ ps) ≡ split (c ∷ˢ s)
    apart other e = rw (other, e)

abbrev pub IsBearer : String → String → Type 0
IsBearer header token =
    (scheme : String) × HasNoSpace scheme × HasNoSpace token × (header ≡ scheme <> " " <> token)

err-ne-ok : {A : Type 0} (e : String) (a : A) → err e ≡ ok a → ⊥
err-ne-ok e a same = cc

two_parts :
    (header token : String) (parts : List String)
    → IsSplit header parts
    → second_of_two parts ≡ ok token
    → IsBearer header token
two_parts header token [] cut found = absurd (err-ne-ok _ token found)
two_parts header token (s ∷ []) cut found = absurd (err-ne-ok _ token found)
two_parts header token (s ∷ t ∷ []) (joined, (clean_s, (clean_t, end))) found = (
  s,
  clean_s,
  subst HasNoSpace (same found) clean_t,
  sym joined ∙ ap (λ u. s <> " " <> u) (same found),
)
  where
    same : {r : String} → ok t ≡ ok r → t ≡ r
    same e = cc
two_parts header token (s ∷ t ∷ u ∷ rest) cut found = absurd (err-ne-ok _ token found)

checked :
    (header token : String)
    → (empty : Bool)
    → (if empty then err "empty authorization bearer token given" else second_of_two (split header))
      ≡ ok token
    → second_of_two (split header) ≡ ok token
checked header token true found = absurd (err-ne-ok _ token found)
checked header token false found = found

IsBearer-form :
    (header token : String) → extract_bearer_token header ≡ ok token → IsBearer header token
unfolding extract_bearer_token
IsBearer-form header token found =
    two_parts header token (split header) (split-IsSplit header)
      (checked header token (header == "") found)

not_empty : (scheme token : String) → (scheme <> " " <> token) ≢ ""
not_empty scheme token empty =
    omega (arith, length-append scheme (" " <> token), length-append " " token, ap count empty)

of_bearer : (header token : String) → IsBearer header token → extract_bearer_token header ≡ ok token
unfolding extract_bearer_token
of_bearer header token (scheme, clean_s, clean_t, is) = rw (
  is,
  eq_false _ "" (not_empty scheme token),
  split-append scheme token clean_s,
  split-no_space token clean_t,
)

-- A header is accepted, and a token extracted from it, exactly when the header is a text without spaces,
-- one space, and that token, which has no space in it.
pub extract_bearer_token_iff :
    (header token : String) → (extract_bearer_token header ≡ ok token) ↔ IsBearer header token
extract_bearer_token_iff header token = (IsBearer-form header token, of_bearer header token)
