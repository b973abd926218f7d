-- ===== src/Store/Memory/Paging.antt =====
-- The statements that count and page issues do what their laws say in the database in memory.
use kkite.Prelude.{
  ℕ, zero, suc, String, ◌≡◌, refl, sym, ◌∙◌, subst, Option, none, some, true, ◌==◌, ◌||◌, List, [],
  ◌∷◌, contains, take, drop, eq_refl, arith,
}
use kkite.Models.{Issue, LoadedIssue}
use kkite.Store.Defs.{IssueQuery, selects}
use kkite.Store.Reads.{IsSelection, Counted, LoadsAll, Paged}
use kkite.Store.Rows.{
  row_at, key-row_at, matching, IsNodup-matching, contains-matching, length_of_same,
}
use kkite.Store.Sorting.{sort, contains-sort, IsNodup-sort, IsDescending-sort}
use kkite.Store.Memory.{
  Memory, issue_id, tables_of, chosen, load, load_ids, time_of, count_issues, find_issues,
}
use kkite.Store.Memory.Laws.{selects-selected, Loads-load}

pub IsSelection-matching :
    (q : IssueQuery) (m : Memory)
    → IsSelection q (tables_of m) (matching issue_id (chosen q m) m.issues m.issues)
IsSelection-matching q m = (
  IsNodup-matching issue_id (chosen q m) m.issues m.issues,
  λ j.
      contains-matching issue_id (chosen q m) j m.issues
      ∙ selects-selected q m (row_at issue_id j m.issues),
)

pub count_issues-Counted :
    (q : IssueQuery) (m : Memory) → Counted q (tables_of m) (count_issues q m).0
unfolding count_issues
count_issues-Counted q m ids (nodup, same) =
    let (nodup', same') = IsSelection-matching q m in
    length_of_same (matching issue_id (chosen q m) m.issues m.issues) ids nodup' nodup
      (λ j. same' j ∙ sym (same j))

abbrev AllChosen : IssueQuery → Memory → List String → Type 0
AllChosen q m [] = Unit
AllChosen q m (j ∷ js) =
    (selects q (tables_of m) (row_at issue_id j m.issues) ≡ true) × AllChosen q m js

all_chosen :
    (q : IssueQuery) (m : Memory) (js : List String)
    → ((j : String)
        → contains js j ≡ true
        → selects q (tables_of m) (row_at issue_id j m.issues) ≡ true)
    → AllChosen q m js
all_chosen q m [] every = tt
all_chosen q m (j ∷ js) every =
    (every j (here j js), all_chosen q m js (λ k found. every k (further k found)))
  where
    here : (j : String) (js : List String) → (j == j || contains js j) ≡ true
    here j js = rw (eq_refl j)

    further : (k : String) → contains js k ≡ true → (j == k || contains js k) ≡ true
    further k found = ground arith

all-take :
    (q : IssueQuery) (m : Memory) (n : ℕ) (js : List String)
    → AllChosen q m js
    → AllChosen q m (take n js)
all-take q m zero js all = tt
all-take q m (suc n) [] all = tt
all-take q m (suc n) (j ∷ js) (this, all) = (this, all-take q m n js all)

all-drop :
    (q : IssueQuery) (m : Memory) (n : ℕ) (js : List String)
    → AllChosen q m js
    → AllChosen q m (drop n js)
all-drop q m zero js all = all
all-drop q m (suc n) [] all = tt
all-drop q m (suc n) (j ∷ js) (this, all) = all-drop q m n js all

load_one :
    (q : IssueQuery) (m : Memory) (j : String) (js : List String) (rest : List LoadedIssue)
    → (o : Option Issue) → row_at issue_id j m.issues ≡ o
    → selects q (tables_of m) o ≡ true
    → LoadsAll q (tables_of m) js rest
    → LoadsAll q (tables_of m) (j ∷ js) (elim o [ none ↦ rest | some i ↦ load q m i ∷ rest ])
load_one q m j js rest none missing picked loaded = absurd (ground arith)
load_one q m j js rest (some i) stored picked loaded =
    let same = key-row_at issue_id j m.issues i stored in
    (
      same,
      Loads-load q m i (subst (λ k. row_at issue_id k m.issues ≡ some i) (sym same) stored) picked,
      loaded,
    )

LoadsAll-load_ids :
    (q : IssueQuery) (m : Memory) (js : List String)
    → AllChosen q m js
    → LoadsAll q (tables_of m) js (load_ids q m js)
LoadsAll-load_ids q m [] all = tt
LoadsAll-load_ids q m (j ∷ js) (this, all) =
    load_one q m j js (load_ids q m js) _ refl this (LoadsAll-load_ids q m js all)

pub find_issues-Paged :
    (q : IssueQuery) (offset limit : ℕ) (m : Memory)
    → Paged q offset limit (tables_of m) (find_issues q offset limit m).0
unfolding find_issues
find_issues-Paged q offset limit m =
    let (nodup, same) = IsSelection-matching q m in
    let ids = matching issue_id (chosen q m) m.issues m.issues in
    (
      sort (time_of m) ids,
      (IsNodup-sort (time_of m) ids nodup, λ j. contains-sort (time_of m) ids j ∙ same j),
      IsDescending-sort (time_of m) ids,
      LoadsAll-load_ids q m _ (
          all-take q m limit _ (
            all-drop q m offset _ (
              all_chosen q m (sort (time_of m) ids)
                (λ j found. sym (contains-sort (time_of m) ids j ∙ same j) ∙ found)))),
    )
