-- ===== src/Store/Memory/Laws.antt =====
-- The laws of gorm hold of the database in memory.
use kkite.Prelude.{
  ℕ, suc, String, ◌≡◌, refl, sym, ap, ◌∙◌, subst, Option, none, some, Bool, true, false, ◌==◌, List,
  [], ◌∷◌, contains, length, is_some, arith, if◌then◌else◌, inl, inr, Bool-cases, Option-cases,
  ◌||◌,
}
use kkite.Models.{Issue, Link, RelatedIssue}
use kkite.Dto.{CreateLinkRequest}
use kkite.Store.Defs.{
  Tables, IssueQuery, Action, Result, ok, err, selects, selected, only, find_link, find_related,
}
use kkite.Store.Gorm.{Ensures, Committed, Found, FoundRelated, Loads, Counts, SavesLinks, IsKeyed}
use kkite.Store.Rows.{
  row_at, key-row_at, row_at-only_rows, matching, IsNodup-matching, contains-matching, first,
  first-none, first-some, length_of_same,
}
use kkite.Store.Memory.{
  Memory, issue_id, scope_id, link_id, related_id, tables_of, uuid, attached, load, chosen,
  first_issue, save_links, transaction, affected, memory,
}

pub keyed : (m : Memory) → IsKeyed (tables_of m)
keyed m = record {
  issue = λ j i e. key-row_at issue_id j m.issues i e;
  scope = λ j s e. key-row_at scope_id j m.scopes s e;
  link = λ j l e. key-row_at link_id j m.links l e;
  related = λ j r e. key-row_at related_id j m.relations r e;
}

pub Counts-affected :
    {A : Type 0} (key : A → String) (p : A → Bool) (rows : List A)
    → Counts p (λ j. row_at key j rows) (ok (affected key p rows))
Counts-affected key p rows = (
  λ ids nodup same.
      length_of_same (matching key p rows rows) ids (IsNodup-matching key p rows rows) nodup
        (λ j. contains-matching key p j rows ∙ sym (same j)),
  λ zero_rows j. none_of (matching key p rows rows) zero_rows j (contains-matching key p j rows),
)
  where
    none_of :
        (ks : List String) → length ks ≡ 0 → (j : String) {b : Bool} → contains ks j ≡ b → b ≡ false
    none_of [] e j h = sym h
    none_of (k ∷ ks) e j h = absurd (omega arith)

pub transaction_law :
    {A : Type 0} (body : Action Memory A) (t : Tables) (Q : Result A → Tables → Type 0)
    → Ensures memory body t Q
    → Ensures memory (transaction body) t (Committed Q t)
unfolding transaction
transaction_law {A} body t Q h m e = at (body m) (h m e)
  where
    at :
        (p : Result A × Memory)
        → Q p.0 (tables_of p.1)
        → let r : Result A × Memory = transaction (λ _. p) m in Committed Q t r.0 (tables_of r.1)
    at (ok a, m') q = q
    at (err message, m') q = e

pub find_link-row_at : (j : String) (ls : List Link) → find_link j ls ≡ row_at link_id j ls
unfolding row_at
find_link-row_at j [] = refl
find_link-row_at j (l ∷ ls) = rw (find_link-row_at j ls)

find_related-row_at :
    (j : String) (rs : List RelatedIssue) → find_related j rs ≡ row_at related_id j rs
unfolding row_at
find_related-row_at j [] = refl
find_related-row_at j (r ∷ rs) = rw (find_related-row_at j rs)

attached_row :
    {A : Type 0} (key : A → String) (b : Bool) (p : A → Bool) (rows : List A) (j : String)
    → row_at key j (attached key b p rows) ≡ (if b then only p (row_at key j rows) else none)
unfolding row_at
attached_row key false p rows j = refl
attached_row key true p rows j = row_at-only_rows key p j rows

pub Loads-load :
    (q : IssueQuery) (m : Memory) (i : Issue)
    → row_at issue_id i.id m.issues ≡ some i
    → chosen q m i ≡ true
    → Loads q (tables_of m) (load q m i)
Loads-load q m i stored picked = record {
  stored = stored;
  chosen = picked;
  scope = refl;
  links = λ j.
      find_link-row_at j _
      ∙ attached_row link_id q.preload_links (λ k. k.issue_id == i.id) m.links j;
  related_from = λ j.
      find_related-row_at j _
      ∙ attached_row related_id q.preload_related (λ r. r.source_id == i.id) m.relations j;
  related_to = λ j.
      find_related-row_at j _
      ∙ attached_row related_id q.preload_related (λ r. r.target_id == i.id) m.relations j;
}

pub selects-selected :
    (q : IssueQuery) (m : Memory) (o : Option Issue)
    → selected (chosen q m) o ≡ selects q (tables_of m) o
selects-selected q m none = refl
selects-selected q m (some i) = refl

pub Found-first : (q : IssueQuery) (m : Memory) → Found q (tables_of m) (first_issue q m).0
unfolding first_issue
Found-first q m = elim (Option-cases (first issue_id (chosen q m) m.issues)) [
  | inl missing ↦ rw missing (λ j.
      sym (selects-selected q m (row_at issue_id j m.issues))
      ∙ first-none issue_id (chosen q m) m.issues missing j)
  | inr (i, found) ↦
      let (stored, picked) = first-some issue_id (chosen q m) m.issues i found in
      rw found (Loads-load q m i stored picked)
]

pub FoundRelated-first :
    (p : RelatedIssue → Bool) (m : Memory)
    → FoundRelated p (tables_of m) (ok (first related_id p m.relations))
FoundRelated-first p m = elim (Option-cases (first related_id p m.relations)) [
  | inl missing ↦ rw missing (first-none related_id p m.relations missing)
  | inr (r, found) ↦ rw found (first-some related_id p m.relations r found)
]

abbrev list_of : List Link → Option (List Link) → List Link
list_of d none = d
list_of d (some ls) = ls

pub save_links-SavesLinks :
    (old : List Link) (id : String) (n : ℕ) (qs : List CreateLinkRequest) (ls : List Link)
    → save_links old id n qs ≡ some ls
    → SavesLinks (λ j. row_at link_id j old) id qs ls
unfolding save_links
save_links-SavesLinks old id n [] [] e = tt
save_links-SavesLinks old id n [] (l ∷ ls) e = absurd (ground arith)
save_links-SavesLinks old id n (q ∷ qs) ls e = elim (Option-cases (save_links old id (suc n) qs)) [
  | inl failed ↦ absurd (ground arith)
  | inr (rest, saved) ↦
      saved_link old id (uuid n) q qs rest ls (save_links-SavesLinks old id (suc n) qs rest saved)
        (rw saved at e)
]
  where
    saved_link :
        (old : List Link) (id k : String) (q : CreateLinkRequest) (qs : List CreateLinkRequest)
        (rest ls : List Link)
        → SavesLinks (λ j. row_at link_id j old) id qs rest
        → (if is_some (row_at link_id k old) || is_some (find_link k rest)
            then none
            else some (record { id = k; title = q.title; url = q.url; issue_id = id } ∷ rest))
          ≡ some ls
        → SavesLinks (λ j. row_at link_id j old) id (q ∷ qs) ls
    saved_link old id k q qs rest ls saved e =
        let x : Link = record { id = k; title = q.title; url = q.url; issue_id = id } in
        elim (Bool-cases (is_some (row_at link_id k old) || is_some (find_link k rest))) [
          | inl taken ↦ absurd (ground arith)
          | inr free ↦
              let whole : SavesLinks (λ j. row_at link_id j old) id (q ∷ qs) (x ∷ rest) =
                (refl, refl, refl, ground arith, ground arith, saved) in
              let same : some (x ∷ rest) ≡ some ls = ground arith in
              subst (SavesLinks (λ j. row_at link_id j old) id (q ∷ qs)) (ap (list_of []) same)
                whole
        ]
