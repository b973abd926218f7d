-- ===== src/Store/Memory/Saving.antt =====
-- Each statement of the database in memory that writes does what its law says.
use kkite.Prelude.{
  suc, String, ◌≡◌, refl, ◌∙◌, subst, fun_ext, Option, none, some, List, ◌∷◌, ◌++◌, is_some, arith,
  inl, inr, Bool-cases, Option-cases, ◌||◌, eq_sym,
}
use kkite.Models.{Issue, IssueScope, Link, RelatedIssue, before_create}
use kkite.Store.Defs.{Tables, Action, Result, set_columns, set_scope_columns, put, find_link}
use kkite.Store.Gorm.{
  NewIssue, GormLaws, Ensures, Found, FoundRelated, Plucked, Writes, Counts, SavesLinks, Created,
  CreatedLink, CreatedRelated, found_or, put_created, update_issue_rows, delete_issue_rows,
  update_scope_rows, delete_scope_rows, delete_link_rows, delete_related_rows,
}
use kkite.Store.Rows.{
  row_at, row_at-update_rows, row_at-delete_rows, IsNodup-matching, contains-matching,
  row_at-append,
}
use kkite.Store.Memory.{
  Memory, issue_id, scope_id, link_id, related_id, tables_of, uuid, chosen, first_issue, pluck_ids,
  save_links, scope_of, add_created, create_with, create_issue, create_link, create_related, memory,
  count_issues, find_issues,
}
use kkite.Store.Reads.{Counted, Paged}
use kkite.Store.Memory.Paging.{count_issues-Counted, find_issues-Paged}
use kkite.Store.Memory.Laws.{
  keyed, Counts-affected, transaction_law, find_link-row_at, Found-first, FoundRelated-first,
  save_links-SavesLinks, selects-selected,
}

-- It is enough to look at the tables of the memory itself.
of_own :
    {A : Type 0} (m : Action Memory A) (Q : Tables → Result A → Tables → Type 0)
    → ((w : Memory) → Q (tables_of w) (m w).0 (tables_of (m w).1))
    → (t : Tables) → Ensures memory m t (Q t)
of_own m Q h t w e = subst (λ u. Q u (m w).0 (tables_of (m w).1)) e (h w)

row_at-cons :
    {A : Type 0} (key : A → String) (a : A) (rows : List A) (j : String)
    → row_at key j (a ∷ rows) ≡ put (key a) a (λ k. row_at key k rows) j
unfolding row_at
row_at-cons key a rows j = rw (eq_sym (key a) j)

created_tables :
    (n : NewIssue) (m : Memory) (i : Issue) (s : IssueScope) (ls : List Link)
    → tables_of (add_created i s m ls) ≡ put_created i s ls (tables_of m)
created_tables n m i s ls = λ k. record {
  issue = fun_ext (λ j. row_at-cons issue_id i m.issues j) k;
  scope = fun_ext (λ j. row_at-cons scope_id s m.scopes j) k;
  link = fun_ext (λ j. found_link j) k;
  related = λ j. row_at related_id j m.relations;
}
  where
    found_link :
        (j : String)
        → row_at link_id j (ls ++ m.links) ≡ found_or (find_link j ls) (row_at link_id j m.links)
    found_link j = ground (arith, row_at-append link_id j ls m.links, find_link-row_at j ls)

Created-with :
    (n : NewIssue) (m : Memory) (o : Option (List Link))
    → ((ls : List Link)
        → o ≡ some ls
        → SavesLinks (λ j. row_at link_id j m.links) (uuid m.ids) n.links ls)
    → Created n (tables_of m) (create_with n m o).0 (tables_of (create_with n m o).1)
Created-with n m none saved = refl
Created-with n m (some ls) saved =
    elim (Bool-cases (
      is_some (row_at issue_id (uuid m.ids) m.issues)
      || is_some (row_at scope_id (uuid m.ids) m.scopes))) [
        | inl taken ↦ rw taken refl
        | inr free ↦ rw free (
          scope_of n (uuid m.ids),
          refl,
          record {
            issue_uuid = uuid m.ids;
            scope_uuid = uuid m.ids;
            id = refl;
            scope_id = refl;
            owned_scope = refl;
            fresh_issue = ground arith;
            fresh_scope = ground arith;
            title = refl;
            description = refl;
            severity = refl;
            issue_type = refl;
            state = refl;
            detected_at = refl;
            resolved_at = refl;
            namespace = refl;
            resource_type = refl;
            resource_name = refl;
            resource_namespace = refl;
            links = saved ls refl;
          },
          created_tables n m _ _ ls,
        )
      ]

create_issue_law : (n : NewIssue) (t : Tables) → Ensures memory (create_issue n) t (Created n t)
unfolding create_issue
create_issue_law n = of_own (create_issue n) (Created n) (λ m.
    Created-with n m (save_links m.links (uuid m.ids) (suc m.ids) n.links)
      (save_links-SavesLinks m.links (uuid m.ids) (suc m.ids) n.links))

create_link_law : (l : Link) (t : Tables) → Ensures memory (create_link l) t (CreatedLink l t)
unfolding create_link
create_link_law l = of_own (create_link l) (CreatedLink l) (λ m.
    let id = before_create (uuid m.ids) l.id in
    elim (Option-cases (row_at link_id id m.links)) [
      | inl free ↦ rw free (
        uuid m.ids,
        free,
        λ k. record (tables_of m) {
          link = fun_ext (λ j. row_at-cons link_id (record l { id = id }) m.links j) k;
        },
      )
      | inr (a, taken) ↦ rw taken refl
    ])

create_related_law :
    (r : RelatedIssue) (t : Tables) → Ensures memory (create_related r) t (CreatedRelated r t)
unfolding create_related
create_related_law r = of_own (create_related r) (CreatedRelated r) (λ m.
    let id = before_create (uuid m.ids) r.id in
    elim (Option-cases (row_at related_id id m.relations)) [
      | inl free ↦ rw free (
        uuid m.ids,
        free,
        λ k. record (tables_of m) {
          related = fun_ext (λ j. row_at-cons related_id (record r { id = id }) m.relations j) k;
        },
      )
      | inr (a, taken) ↦ rw taken refl
    ])

pub memory_laws : GormLaws memory
unfolding first_issue pluck_ids count_issues find_issues
memory_laws = record {
  keyed = keyed;
  now_law = λ w. refl;
  transaction_law = λ {A} body t Q h. transaction_law body t Q h;
  first_issue_law =
      λ q. of_own (first_issue q) (λ t r u. (u ≡ t) × Found q t r) (λ m. (refl, Found-first q m));
  pluck_ids_law = λ q.
      of_own (pluck_ids q) (λ t r u. (u ≡ t) × Plucked q t r)
        (λ m. (
          refl,
          (
            IsNodup-matching issue_id (chosen q m) m.issues m.issues,
            λ j.
                contains-matching issue_id (chosen q m) j m.issues
                ∙ selects-selected q m (row_at issue_id j m.issues),
          ),
        ));
  count_issues_law = λ q.
      of_own (memory.count_issues q) (λ t r u. (u ≡ t) × Counted q t r)
        (λ m. (refl, count_issues-Counted q m));
  find_issues_law = λ q offset limit.
      of_own (memory.find_issues q offset limit) (λ t r u. (u ≡ t) × Paged q offset limit t r)
        (λ m. (refl, find_issues-Paged q offset limit m));
  create_issue_law = create_issue_law;
  update_issues_law = λ p u.
      of_own (memory.update_issues p u)
        (λ t r t'. Writes t (update_issue_rows p u t) r t' × Counts p t.issue r)
        (λ m. (
          (λ k. record (tables_of m) {
            issue =
                fun_ext (λ j. row_at-update_rows issue_id p (set_columns u) (λ i. refl) j m.issues)
                  k;
          }),
          Counts-affected issue_id p m.issues,
        ));
  delete_issues_law = λ p.
      of_own (memory.delete_issues p)
        (λ t r t'. Writes t (delete_issue_rows p t) r t' × Counts p t.issue r)
        (λ m. (
          (λ k. record (tables_of m) {
            issue = fun_ext (λ j. row_at-delete_rows issue_id p j m.issues) k;
          }),
          Counts-affected issue_id p m.issues,
        ));
  update_scopes_law = λ p u.
      of_own (memory.update_scopes p u)
        (λ t r t'. Writes t (update_scope_rows p u t) r t' × Counts p t.scope r)
        (λ m. (
          (λ k. record (tables_of m) {
            scope =
                fun_ext
                  (λ j. row_at-update_rows scope_id p (set_scope_columns u) (λ i. refl) j m.scopes)
                  k;
          }),
          Counts-affected scope_id p m.scopes,
        ));
  delete_scopes_law = λ p.
      of_own (memory.delete_scopes p)
        (λ t r t'. Writes t (delete_scope_rows p t) r t' × Counts p t.scope r)
        (λ m. (
          (λ k. record (tables_of m) {
            scope = fun_ext (λ j. row_at-delete_rows scope_id p j m.scopes) k;
          }),
          Counts-affected scope_id p m.scopes,
        ));
  create_link_law = create_link_law;
  delete_links_law = λ p.
      of_own (memory.delete_links p)
        (λ t r t'. Writes t (delete_link_rows p t) r t' × Counts p t.link r)
        (λ m. (
          (λ k. record (tables_of m) {
            link = fun_ext (λ j. row_at-delete_rows link_id p j m.links) k;
          }),
          Counts-affected link_id p m.links,
        ));
  first_related_law = λ p.
      of_own (memory.first_related p) (λ t r u. (u ≡ t) × FoundRelated p t r)
        (λ m. (refl, FoundRelated-first p m));
  create_related_law = create_related_law;
  delete_related_law = λ p.
      of_own (memory.delete_related p)
        (λ t r t'. Writes t (delete_related_rows p t) r t' × Counts p t.related r)
        (λ m. (
          (λ k. record (tables_of m) {
            related = fun_ext (λ j. row_at-delete_rows related_id p j m.relations) k;
          }),
          Counts-affected related_id p m.relations,
        ));
}
