-- ===== src/Middleware/Attributes.antt =====
-- The attributes that packages/backend/internal/middleware/auth.go makes of the headers for extras.
use kkite.Prelude.{
  String, ◌==◌, ◌≡◌, refl, sym, ap, ◌∙◌, subst, ◌⊎◌, inl, inr, List, [], ◌∷◌, ◌++◌, map, Bool, true,
  false, if◌then◌else◌, Bool-cases, eq_iff,
}
use kkite.Store.{Result}
use kkite.Middleware.Context.{Headers, ResourceAttributes}
use kkite.Middleware.ImpersonatedData.{
  Kubernetes, append_extra, append_extras, listed, extra_key, extra_attributes, add_header,
  add_headers,
}
use text.Mathlib.Text.{starts_with}

abbrev pub IsListed : {A : Type 0} → A → List A → Type 0
IsListed a [] = ⊥
IsListed a (x ∷ xs) = (x ≡ a) ⊎ IsListed a xs

pub IsListed-left : {A : Type 0} (a : A) (xs ys : List A) → IsListed a xs → IsListed a (xs ++ ys)
IsListed-left a [] ys none_of = absurd none_of
IsListed-left a (x ∷ xs) ys (inl same) = inl same
IsListed-left a (x ∷ xs) ys (inr further) = inr (IsListed-left a xs ys further)

pub IsListed-right : {A : Type 0} (a : A) (xs ys : List A) → IsListed a ys → IsListed a (xs ++ ys)
IsListed-right a [] ys listed = listed
IsListed-right a (x ∷ xs) ys listed = inr (IsListed-right a xs ys listed)

IsListed-append :
    {A : Type 0} (a : A) (xs ys : List A) → IsListed a (xs ++ ys) → IsListed a xs ⊎ IsListed a ys
IsListed-append a [] ys listed = inr listed
IsListed-append a (x ∷ xs) ys (inl same) = inl (inl same)
IsListed-append a (x ∷ xs) ys (inr further) = elim (IsListed-append a xs ys further) [
  | inl l ↦ inl (inr l)
  | inr r ↦ inr r
]

pub IsListed-map :
    {A B : Type 0} (f : A → B) (a : A) (xs : List A) → IsListed a xs → IsListed (f a) (map f xs)
IsListed-map f a [] none_of = absurd none_of
IsListed-map f a (x ∷ xs) (inl same) = inl (ap f same)
IsListed-map f a (x ∷ xs) (inr further) = inr (IsListed-map f a xs further)

-- The value is one of those under the key.
abbrev pub HasExtra : String → String → List (String × List String) → Type 0
HasExtra key value [] = ⊥
HasExtra key value ((k, vs) ∷ rest) = ((k ≡ key) × IsListed value vs) ⊎ HasExtra key value rest

abbrev Added : String → String → String → List String → List (String × List String) → Type 0
Added key value k vs extras = ((k ≡ key) × IsListed value vs) ⊎ HasExtra key value extras

extra_in_front :
    (key value k : String) (added : List String) (j : String) (vs : List String)
    (rest : List (String × List String))
    → (b : Bool) → (j == k) ≡ b
    → (HasExtra key value (append_extra k added rest) → Added key value k added rest)
    → HasExtra key value
        (if b then (j, vs ++ added) ∷ rest else (j, vs) ∷ append_extra k added rest)
    → Added key value k added ((j, vs) ∷ rest)
extra_in_front key value k added j vs rest true here more (inl (same, listed)) =
    elim (IsListed-append value vs added listed) [
      | inl old ↦ inr (inl (same, old))
      | inr new ↦ inl (sym ((eq_iff j k).0 here) ∙ same, new)
    ]
extra_in_front key value k added j vs rest true here more (inr further) = inr (inr further)
extra_in_front key value k added j vs rest false other more (inl found) = inr (inl found)
extra_in_front key value k added j vs rest false other more (inr further) = elim (more further) [
  | inl new ↦ inl new
  | inr old ↦ inr (inr old)
]

append_extra_origin :
    (key value k : String) (added : List String) (extras : List (String × List String))
    → HasExtra key value (append_extra k added extras)
    → Added key value k added extras
append_extra_origin key value k added [] (inl new) = inl new
append_extra_origin key value k added [] (inr none_of) = absurd none_of
append_extra_origin key value k added ((j, vs) ∷ rest) found =
    extra_in_front key value k added j vs rest (j == k) refl
      (append_extra_origin key value k added rest) found

append_extras_origin :
    (key value k : String) (added : List String) (extras : List (String × List String))
    → HasExtra key value (append_extras k added extras)
    → Added key value k added extras
append_extras_origin key value k [] extras found = inr found
append_extras_origin key value k (v ∷ vs) extras found =
    append_extra_origin key value k (v ∷ vs) extras found

module _ (k : Kubernetes) (path_unescape : String → Result String) where
  -- Each value of an extra has its attributes.
  abbrev pub ExtrasCovered : List ResourceAttributes × List (String × List String) → Type 0
  ExtrasCovered (attributes, extras) =
      (key value : String)
      → HasExtra key value extras
      → IsListed (extra_attributes k path_unescape key value) attributes

  extras_covered :
      (header_key : String) (vs : List String) (attributes : List ResourceAttributes)
      (extras : List (String × List String))
      → ExtrasCovered (attributes, extras)
      → ExtrasCovered (
        attributes
            ++ map (extra_attributes k path_unescape (extra_key k path_unescape header_key)) vs,
        append_extras (extra_key k path_unescape header_key) vs extras,
      )
  extras_covered header_key vs attributes extras covered key value found =
      elim (append_extras_origin key value (extra_key k path_unescape header_key) vs extras found) [
        | inl (same, listed) ↦ IsListed-right _ attributes _ (
            subst
              (λ j.
                IsListed (extra_attributes k path_unescape j value) (
                  map (extra_attributes k path_unescape (extra_key k path_unescape header_key)) vs))
              same
              (IsListed-map
                (extra_attributes k path_unescape (extra_key k path_unescape header_key)) value vs
                listed))
        | inr old ↦ IsListed-left _ attributes _ (covered key value old)
      ]

  taken :
      (header_key : String) (vs : List String) (attributes : List ResourceAttributes)
      (extras : List (String × List String))
      → starts_with header_key k.impersonate_user_extra_header_prefix ≡ true
      → add_header k path_unescape header_key vs (attributes, extras) ≡ (
        attributes
            ++ map (extra_attributes k path_unescape (extra_key k path_unescape header_key)) vs,
        append_extras (extra_key k path_unescape header_key) vs extras,
      )
  taken header_key vs attributes extras extra = rw (extra)

  passed_over :
      (header_key : String) (vs : List String)
      (found : List ResourceAttributes × List (String × List String))
      → starts_with header_key k.impersonate_user_extra_header_prefix ≡ false
      → add_header k path_unescape header_key vs found ≡ found
  passed_over header_key vs found other = rw (other)

  add_header-ExtrasCovered :
      (header_key : String) (vs : List String)
      (found : List ResourceAttributes × List (String × List String))
      → ExtrasCovered found
      → ExtrasCovered (add_header k path_unescape header_key vs found)
  add_header-ExtrasCovered header_key vs (attributes, extras) covered =
      elim (Bool-cases (starts_with header_key k.impersonate_user_extra_header_prefix)) [
        | inl extra ↦
            subst ExtrasCovered (sym (taken header_key vs attributes extras extra))
              (extras_covered header_key vs attributes extras covered)
        | inr other ↦
            subst ExtrasCovered (sym (passed_over header_key vs (attributes, extras) other)) covered
      ]

  pub add_headers-ExtrasCovered :
      (headers : Headers) (found : List ResourceAttributes × List (String × List String))
      → ExtrasCovered found
      → ExtrasCovered (add_headers k path_unescape headers found)
  add_headers-ExtrasCovered [] found covered = covered
  add_headers-ExtrasCovered ((header_key, vs) ∷ rest) found covered =
      add_headers-ExtrasCovered rest (add_header k path_unescape header_key vs found)
        (add_header-ExtrasCovered header_key vs found covered)

  -- A header with the prefix has the attributes of its values in the list.
  abbrev HasAttributes : String → String → List ResourceAttributes → Type 0
  HasAttributes header_key value attributes =
      IsListed (extra_attributes k path_unescape (extra_key k path_unescape header_key) value)
        attributes

  add_header_kept :
      (a : ResourceAttributes) (header_key : String) (vs : List String)
      (found : List ResourceAttributes × List (String × List String))
      → IsListed a found.0
      → IsListed a (add_header k path_unescape header_key vs found).0
  add_header_kept a header_key vs (attributes, extras) old =
      elim (Bool-cases (starts_with header_key k.impersonate_user_extra_header_prefix)) [
        | inl extra ↦
            subst (λ p. IsListed a p.0) (sym (taken header_key vs attributes extras extra))
              (IsListed-left a attributes _ old)
        | inr other ↦
            subst (λ p. IsListed a p.0) (sym (passed_over header_key vs (attributes, extras) other))
              old
      ]

  add_headers_kept :
      (a : ResourceAttributes) (headers : Headers)
      (found : List ResourceAttributes × List (String × List String))
      → IsListed a found.0
      → IsListed a (add_headers k path_unescape headers found).0
  add_headers_kept a [] found old = old
  add_headers_kept a ((header_key, vs) ∷ rest) found old =
      add_headers_kept a rest (add_header k path_unescape header_key vs found)
        (add_header_kept a header_key vs found old)

  add_header_new :
      (header_key value : String) (vs : List String)
      (found : List ResourceAttributes × List (String × List String))
      → starts_with header_key k.impersonate_user_extra_header_prefix ≡ true
      → IsListed value vs
      → HasAttributes header_key value (add_header k path_unescape header_key vs found).0
  add_header_new header_key value vs (attributes, extras) extra given =
      subst (λ p. HasAttributes header_key value p.0)
        (sym (taken header_key vs attributes extras extra))
        (IsListed-right _ attributes _ (
          IsListed-map (extra_attributes k path_unescape (extra_key k path_unescape header_key))
            value vs given))

  pub add_headers_new :
      (header_key value : String) (headers : Headers)
      (found : List ResourceAttributes × List (String × List String))
      → starts_with header_key k.impersonate_user_extra_header_prefix ≡ true
      → HasExtra header_key value headers
      → HasAttributes header_key value (add_headers k path_unescape headers found).0
  add_headers_new header_key value [] found extra none_of = absurd none_of
  add_headers_new header_key value ((j, vs) ∷ rest) found extra (inl (same, given)) =
      add_headers_kept _ rest (add_header k path_unescape j vs found) (
        subst (λ i. HasAttributes i value (add_header k path_unescape j vs found).0) same
          (add_header_new j value vs found
            (subst (λ i. starts_with i k.impersonate_user_extra_header_prefix ≡ true) (sym same)
              extra)
            given))
  add_headers_new header_key value ((j, vs) ∷ rest) found extra (inr further) =
      add_headers_new header_key value rest (add_header k path_unescape j vs found) extra further
