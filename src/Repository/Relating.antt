-- ===== src/Repository/Relating.antt =====
-- `AddRelatedIssue` of issue_repository.go.
use kkite.Prelude.{
  String, ◌≡◌, refl, subst, Option, none, some, true, false, eq_iff, arith, is_some,
}
use kkite.Models.{RelatedIssue, LoadedIssue, before_create}
use kkite.Store.{Tables, Result, ok, err, selected, wrap, ◌>>=◌}
use kkite.Store.Gorm.{
  Gorm, GormLaws, Ensures, Found, FoundRelated, Loads, CreatedRelated, put_related,
}
use kkite.Store.Rules.{bind_rule, wrap_rule, at_equal, fail_rule}
use kkite.Repository.Requests.{by_id_query, relates}
use kkite.Repository.Operations.{find_by_id}
use kkite.Repository.Relations.{add_new, add_between, add_related_issue}
use kkite.Repository.Stores.{find_by_id_rule}

-- What a success of `AddRelatedIssue` has done: both issues are there, no relation joined them in
-- either direction, and one that does has been added under a fresh id.
pub record HasRelated (source_id target_id : String) (t u : Tables) : Type 0 where
  pub source : is_some (t.issue source_id) ≡ true
  pub target : is_some (t.issue target_id) ≡ true
  pub unrelated : (j : String) → selected (relates source_id target_id) (t.related j) ≡ false
  pub uuid : String
  pub fresh : t.related (before_create uuid "") ≡ none
  pub result :
      u
      ≡ put_related
          (record { id = before_create uuid ""; source_id = source_id; target_id = target_id })
          t

abbrev pub RelatesOrFails : String → String → Tables → Result (Unit {0}) → Tables → Type 0
RelatesOrFails source_id target_id t (ok _) u = HasRelated source_id target_id t u
RelatesOrFails source_id target_id t (err e) u = u ≡ t

present :
    (id : String) (t : Tables) (l : LoadedIssue)
    → Loads (by_id_query id) t l
    → is_some (t.issue id) ≡ true
present id t l found =
    let here : l.issue.id ≡ id = (eq_iff l.issue.id id).0 (ground (arith, found.chosen)) in
    subst (λ k. is_some (t.issue k) ≡ true) here (rw found.stored refl)

module _ (g : Gorm) (laws : GormLaws g) (source_id target_id : String) where
  add_new_rule :
      (t : Tables) (o : Option RelatedIssue)
      → is_some (t.issue source_id) ≡ true
      → is_some (t.issue target_id) ≡ true
      → FoundRelated (relates source_id target_id) t (ok o)
      → Ensures g (add_new g source_id target_id o) t (RelatesOrFails source_id target_id t)
  unfolding add_new
  add_new_rule t (some r) s k found =
      fail_rule g "relationship already exists" t (RelatesOrFails source_id target_id t) refl
  add_new_rule t none s k nothing =
      let r : RelatedIssue = record { id = ""; source_id = source_id; target_id = target_id } in
      wrap_rule g "failed to create relationship: " (g.create_related r) t (CreatedRelated r t)
        (RelatesOrFails source_id target_id t) (laws.create_related_law r t)
        (λ _ u (uuid, fresh, result). record {
          source = s;
          target = k;
          unrelated = nothing;
          uuid = uuid;
          fresh = fresh;
          result = result;
        })
        (λ e e' u h. h)

  add_between_rule :
      (t : Tables) (s k : Option LoadedIssue)
      → Found (by_id_query source_id) t (ok s)
      → Found (by_id_query target_id) t (ok k)
      → Ensures g (add_between g source_id target_id s k) t (RelatesOrFails source_id target_id t)
  unfolding add_between
  add_between_rule t none k f₁ f₂ =
      fail_rule g "one or both issues not found" t (RelatesOrFails source_id target_id t) refl
  add_between_rule t (some s) none f₁ f₂ =
      fail_rule g "one or both issues not found" t (RelatesOrFails source_id target_id t) refl
  add_between_rule t (some s) (some k) f₁ f₂ =
      let p = relates source_id target_id in
      let R : Result (Unit {0}) → Tables → Type 0 = RelatesOrFails source_id target_id t in
      bind_rule g (wrap "failed to check exiting relationship: " (g.first_related p))
        (add_new g source_id target_id) t (λ r u. (u ≡ t) × FoundRelated p t r) R
        (wrap_rule g _ (g.first_related p) t (λ r u. (u ≡ t) × FoundRelated p t r)
          (λ r u. (u ≡ t) × FoundRelated p t r) (laws.first_related_law p t) (λ a u h. h)
          (λ e e' u h. (h.0, tt)))
        (λ o u (same, found).
          at_equal g (add_new g source_id target_id o) R same
            (add_new_rule t o (present source_id t s f₁) (present target_id t k f₂) found))
        (λ e u h. h.0)

  add_rule :
      (t : Tables)
      → Ensures g (add_related_issue g source_id target_id) t (RelatesOrFails source_id target_id t)
  unfolding add_related_issue
  add_rule t =
      let R : Result (Unit {0}) → Tables → Type 0 = RelatesOrFails source_id target_id t in
      bind_rule g (find_by_id g source_id)
        (λ s. find_by_id g target_id >>= add_between g source_id target_id s) t
        (λ r u. (u ≡ t) × Found (by_id_query source_id) t r) R (find_by_id_rule g laws source_id t)
        (λ s u (same, f₁).
          at_equal g (find_by_id g target_id >>= add_between g source_id target_id s) R same (
            bind_rule g (find_by_id g target_id) (add_between g source_id target_id s) t
              (λ r u. (u ≡ t) × Found (by_id_query target_id) t r) R
              (find_by_id_rule g laws target_id t)
              (λ k v (same', f₂).
                at_equal g (add_between g source_id target_id s k) R same'
                  (add_between_rule t s k f₁ f₂))
              (λ e v h. h.0)))
        (λ e u h. h.0)

-- `AddRelatedIssue` adds one relation, only between two issues that are there and that no relation
-- joins in either direction; where it fails, the tables are as before.
pub add_related_issue-RelatesOrFails :
    (g : Gorm) (laws : GormLaws g) (source_id target_id : String) (w : g.World)
    → let (r, w') = add_related_issue g source_id target_id w in
      RelatesOrFails source_id target_id (g.tables w) r (g.tables w')
add_related_issue-RelatesOrFails g laws source_id target_id w =
    add_rule g laws source_id target_id (g.tables w) w refl

-- No two relations join the same two issues, in whichever direction.
abbrev pub IsSimple : Tables → Type 0
IsSimple t =
    (a b j k : String)
    → selected (relates a b) (t.related j) ≡ true
    → selected (relates a b) (t.related k) ≡ true
    → j ≡ k

module _ (source_id target_id : String) (t u : Tables)
    (h : HasRelated source_id target_id t u) where
  abbrev id : String
  id = before_create h.uuid ""
