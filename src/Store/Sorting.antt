-- ===== src/Store/Sorting.antt =====
-- Texts sorted by a time, the latest first, as the database in memory orders its rows.
use kkite.Prelude.{
  ℕ, ◌≤◌, String, ◌≡◌, refl, sym, subst, eq_sym, ◌∙◌, Bool, true, false, Bool-cases, ◌||◌, ◌==◌,
  inl, inr, List, [], ◌∷◌, contains, IsNodup, leb, if◌then◌else◌, arith,
}
use kkite.Store.Reads.{NotLater, IsDescending}

module _ (time : String → ℕ) where
  unfoldable pub insert : String → List String → List String
  insert j [] = j ∷ []
  insert j (k ∷ ks) =
      let rest = insert j ks in if leb (time k) (time j) then j ∷ k ∷ ks else k ∷ rest

  unfoldable pub sort : List String → List String
  sort [] = []
  sort (j ∷ js) = insert j (sort js)

  swapped : (a b c : Bool) → (a || (b || c)) ≡ (b || (a || c))
  swapped a b c = ground arith

  contains-insert :
      (j : String) (ks : List String) (x : String)
      → contains (insert j ks) x ≡ (j == x || contains ks x)
  unfolding insert
  contains-insert j [] x = refl
  contains-insert j (k ∷ ks) x = elim (Bool-cases (leb (time k) (time j))) [
    | inl here ↦ rw (here)
    | inr later ↦ rw (later, contains-insert j ks x, swapped (k == x) (j == x) (contains ks x))
  ]

  pub contains-sort : (js : List String) (x : String) → contains (sort js) x ≡ contains js x
  unfolding sort
  contains-sort [] x = refl
  contains-sort (j ∷ js) x = rw (contains-insert j (sort js) x, contains-sort js x)

  nodup_apart :
      (k j : String) (ks : List String) → (j == k || contains ks k) ≡ false → contains ks k ≡ false
  nodup_apart k j ks e = ground arith

  IsNodup-insert :
      (j : String) (ks : List String) → contains ks j ≡ false → IsNodup ks → IsNodup (insert j ks)
  unfolding insert
  IsNodup-insert j [] new nodup = (refl, tt)
  IsNodup-insert j (k ∷ ks) new (k_once, nodup) = elim (Bool-cases (leb (time k) (time j))) [
    | inl here ↦ subst IsNodup (sym (first here)) (new, (k_once, nodup))
    | inr later ↦
        subst IsNodup (sym (behind later))
          (contains-insert j ks k ∙ absent, IsNodup-insert j ks (not_in_rest new) nodup)
  ]
    where
      first : leb (time k) (time j) ≡ true → insert j (k ∷ ks) ≡ j ∷ k ∷ ks
      first here = rw (here)

      behind : leb (time k) (time j) ≡ false → insert j (k ∷ ks) ≡ k ∷ insert j ks
      behind later = rw (later)

      not_in_rest : (k == j || contains ks j) ≡ false → contains ks j ≡ false
      not_in_rest e = ground arith

      left : (k == j || contains ks j) ≡ false → (k == j || false) ≡ false
      left e = ground arith

      absent : (j == k || contains ks k) ≡ false
      absent = rw (eq_sym j k, k_once) (left new)

  pub IsNodup-sort : (js : List String) → IsNodup js → IsNodup (sort js)
  unfolding sort
  IsNodup-sort [] nodup = tt
  IsNodup-sort (j ∷ js) (once, nodup) =
      IsNodup-insert j (sort js) (contains-sort js j ∙ once) (IsNodup-sort js nodup)

  NotLater-insert :
      (top j : String) (ks : List String)
      → time j ≤ time top
      → NotLater time top ks
      → NotLater time top (insert j ks)
  unfolding insert
  NotLater-insert top j [] below all = (below, tt)
  NotLater-insert top j (k ∷ ks) below (k_below, all) = elim (Bool-cases (leb (time k) (time j))) [
    | inl here ↦ rw here (below, (k_below, all))
    | inr later ↦ rw later (k_below, NotLater-insert top j ks below all)
  ]

  NotLater-weaken :
      (top k : String) (ks : List String)
      → time k ≤ time top
      → NotLater time k ks
      → NotLater time top ks
  NotLater-weaken top k [] below all = tt
  NotLater-weaken top k (x ∷ xs) below (x_below, all) =
      (omega arith, NotLater-weaken top k xs below all)

  IsDescending-insert :
      (j : String) (ks : List String) → IsDescending time ks → IsDescending time (insert j ks)
  unfolding insert
  IsDescending-insert j [] sorted = (tt, tt)
  IsDescending-insert j (k ∷ ks) (all, sorted) = elim (Bool-cases (leb (time k) (time j))) [
    | inl here ↦ rw here ((below here, NotLater-weaken j k ks (below here) all), (all, sorted))
    | inr later ↦
        rw later (NotLater-insert k j ks (above later) all, IsDescending-insert j ks sorted)
  ]
    where
      below : leb (time k) (time j) ≡ true → time k ≤ time j
      below e = ground arith

      above : leb (time k) (time j) ≡ false → time j ≤ time k
      above e = ground arith

  pub IsDescending-sort : (js : List String) → IsDescending time (sort js)
  unfolding sort
  IsDescending-sort [] = tt
  IsDescending-sort (j ∷ js) = IsDescending-insert j (sort js) (IsDescending-sort js)
