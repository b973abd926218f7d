-- ===== src/Store/Rows.antt =====
-- A table in memory: a list of rows, of which the first under a key counts.
use kkite.Prelude.{
  suc, String, ◌≡◌, refl, sym, ap, ◌∙◌, Option, none, some, Bool, true, false, not, ◌&&◌, ◌==◌,
  eq_iff, eq_refl, List, [], ◌∷◌, ◌++◌, contains, length, IsNodup, is_some, arith, if◌then◌else◌,
  Bool-cases, inl, inr,
}
use kkite.Store.Defs.{selected, updated, kept, only}

module _ {A : Type 0} (key : A → String) where
  unfoldable pub row_at : String → List A → Option A
  row_at j [] = none
  row_at j (a ∷ rows) = if key a == j then some a else row_at j rows

  pub key-row_at : (j : String) (rows : List A) (a : A) → row_at j rows ≡ some a → key a ≡ j
  unfolding row_at
  key-row_at j [] a e = absurd (ground arith)
  key-row_at j (b ∷ rows) a e = ground (arith, eq_iff (key b) j, key-row_at j rows a)

  unfoldable pub update_rows : (A → Bool) → (A → A) → List A → List A
  update_rows p u [] = []
  update_rows p u (a ∷ rows) = (if p a then u a else a) ∷ update_rows p u rows

  pub row_at-update_rows :
      (p : A → Bool) (u : A → A) (same : (a : A) → key (u a) ≡ key a) (j : String) (rows : List A)
      → row_at j (update_rows p u rows) ≡ updated p u (row_at j rows)
  unfolding row_at update_rows
  row_at-update_rows p u same j [] = refl
  row_at-update_rows p u same j (a ∷ rows) =
      ground (arith, same a, row_at-update_rows p u same j rows)

  -- The rows of `rows` whose key has a row in `all` that the condition does not hold of.
  unfoldable pub delete_rows : (A → Bool) → List A → List A → List A
  delete_rows p all [] = []
  delete_rows p all (a ∷ rows) =
      let rest = delete_rows p all rows in
      if selected p (row_at (key a) all) then rest else a ∷ rest

  row_at-delete_from :
      (p : A → Bool) (all : List A) (j : String) (rows : List A)
      → row_at j (delete_rows p all rows)
        ≡ (if selected p (row_at j all) then none else row_at j rows)
  unfolding row_at delete_rows
  row_at-delete_from p all j [] = ground arith
  row_at-delete_from p all j (a ∷ rows) = elim (Bool-cases (key a == j)) [
    | inl here ↦
        let e : key a ≡ j = (eq_iff (key a) j).0 here in
        ground (arith, row_at-delete_from p all j rows, ap (λ k. selected p (row_at k all)) e)
    | inr other ↦ ground (arith, row_at-delete_from p all j rows)
  ]

  pub row_at-delete_rows :
      (p : A → Bool) (j : String) (all : List A)
      → row_at j (delete_rows p all all) ≡ kept p (row_at j all)
  row_at-delete_rows p j all = ground (arith, row_at-delete_from p all j all)

  pub row_at-only_rows :
      (p : A → Bool) (j : String) (all : List A)
      → row_at j (delete_rows (λ a. not (p a)) all all) ≡ only p (row_at j all)
  row_at-only_rows p j all = ground (arith, row_at-delete_from (λ a. not (p a)) all j all)

  -- The keys, each once, whose row meets the condition.
  unfoldable pub matching : (A → Bool) → List A → List A → List String
  matching p all [] = []
  matching p all (a ∷ rows) =
      let rest = matching p all rows in
      if selected p (row_at (key a) all) && not (contains rest (key a)) then key a ∷ rest else rest

  pub IsNodup-matching : (p : A → Bool) (all rows : List A) → IsNodup (matching p all rows)
  unfolding matching
  IsNodup-matching p all [] = tt
  IsNodup-matching p all (a ∷ rows) = ground (arith, IsNodup-matching p all rows)

  contains-matching_from :
      (p : A → Bool) (all : List A) (j : String) (rows : List A)
      → contains (matching p all rows) j ≡ (selected p (row_at j all) && is_some (row_at j rows))
  unfolding matching row_at
  contains-matching_from p all j [] = ground arith
  contains-matching_from p all j (a ∷ rows) = elim (Bool-cases (key a == j)) [
    | inl here ↦
        let e : key a ≡ j = (eq_iff (key a) j).0 here in
        ground (
          arith,
          contains-matching_from p all j rows,
          ap (λ k. selected p (row_at k all)) e,
          ap (λ k. contains (matching p all rows) k) e,
        )
    | inr other ↦ ground (arith, contains-matching_from p all j rows)
  ]

  pub contains-matching :
      (p : A → Bool) (j : String) (all : List A)
      → contains (matching p all all) j ≡ selected p (row_at j all)
  contains-matching p j all = ground (arith, contains-matching_from p all j all)

  pub row_at-append :
      (j : String) (new old : List A)
      → row_at j (new ++ old) ≡ (if is_some (row_at j new) then row_at j new else row_at j old)
  unfolding row_at
  row_at-append j [] old = refl
  row_at-append j (a ∷ new) old = ground (arith, row_at-append j new old)

  first_of : List A → List String → Option A
  first_of all [] = none
  first_of all (k ∷ ks) = row_at k all

  unfoldable pub first : (A → Bool) → List A → Option A
  unfolding first_of
  first p all = first_of all (matching p all all)

  first_of-none :
      (p : A → Bool) (all : List A) (ks : List String)
      → ((j : String) → contains ks j ≡ selected p (row_at j all))
      → first_of all ks ≡ none
      → (j : String) → selected p (row_at j all) ≡ false
  unfolding first_of
  first_of-none p all [] h e j = sym (h j)
  first_of-none p all (k ∷ ks) h e j = absurd (ground (arith, h k, eq_refl k))

  pub first-none :
      (p : A → Bool) (all : List A)
      → first p all ≡ none
      → (j : String) → selected p (row_at j all) ≡ false
  unfolding first
  first-none p all e = first_of-none p all (matching p all all) (λ j. contains-matching p j all) e

  first_of-some :
      (p : A → Bool) (all : List A) (ks : List String) (a : A)
      → ((j : String) → contains ks j ≡ selected p (row_at j all))
      → first_of all ks ≡ some a
      → (row_at (key a) all ≡ some a) × (p a ≡ true)
  unfolding first_of
  first_of-some p all [] a h e = absurd (ground arith)
  first_of-some p all (k ∷ ks) a h e =
      (ap (λ j. row_at j all) (key-row_at k all a e) ∙ e, ground (arith, h k, eq_refl k))

  pub first-some :
      (p : A → Bool) (all : List A) (a : A)
      → first p all ≡ some a
      → (row_at (key a) all ≡ some a) × (p a ≡ true)
  unfolding first
  first-some p all a e =
      first_of-some p all (matching p all all) a (λ j. contains-matching p j all) e

-- Two lists with the same texts, each once, are equally long.
without : String → List String → List String
without x [] = []
without x (y ∷ ys) = if y == x then ys else y ∷ without x ys

contains-without :
    (x j : String) (ys : List String)
    → IsNodup ys
    → contains (without x ys) j ≡ (contains ys j && not (x == j))
unfolding without
contains-without x j [] h = refl
contains-without x j (y ∷ ys) h = elim (Bool-cases (y == x)) [
  | inl here ↦ elim (Bool-cases (x == j)) [
    | inl there ↦
        let e : y ≡ j = (eq_iff y x).0 here ∙ (eq_iff x j).0 there in
        ground (arith, ap (contains ys) e)
    | inr apart ↦ ground (arith, eq_iff y x, eq_iff x j, eq_iff y j)
  ]
  | inr other ↦ ground (arith, contains-without x j ys h.1, eq_iff y x, eq_iff x j, eq_iff y j)
]

IsNodup-without : (x : String) (ys : List String) → IsNodup ys → IsNodup (without x ys)
unfolding without
IsNodup-without x [] h = tt
IsNodup-without x (y ∷ ys) h = ground (arith, IsNodup-without x ys h.1, contains-without x y ys h.1)

length-without :
    (x : String) (ys : List String) → contains ys x ≡ true → length ys ≡ suc (length (without x ys))
unfolding without
length-without x [] h = absurd (ground arith)
length-without x (y ∷ ys) h = ground (arith, length-without x ys)

same_rest :
    (x : String) (xs ys : List String)
    → IsNodup (x ∷ xs)
    → IsNodup ys
    → ((j : String) → contains (x ∷ xs) j ≡ contains ys j)
    → (j : String) → contains xs j ≡ contains (without x ys) j
same_rest x xs ys h k same j = elim (Bool-cases (x == j)) [
  | inl here ↦
      ground (arith, contains-without x j ys k, ap (contains xs) ((eq_iff x j).0 here), h.0)
  | inr apart ↦ ground (arith, contains-without x j ys k, same j)
]

pub length_of_same :
    (xs ys : List String)
    → IsNodup xs
    → IsNodup ys
    → ((j : String) → contains xs j ≡ contains ys j)
    → length xs ≡ length ys
length_of_same [] [] h k same = refl
length_of_same [] (y ∷ ys) h k same = absurd (ground (arith, same y, eq_refl y))
length_of_same (x ∷ xs) ys h k same =
    let ih =
      length_of_same xs (without x ys) h.1 (IsNodup-without x ys k) (same_rest x xs ys h k same) in
    ground (arith, ih, length-without x ys, same x, eq_refl x)
