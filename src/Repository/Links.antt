-- ===== src/Repository/Links.antt =====
-- What `replaceIssueLinks` of issue_repository.go leaves in the table of links.
use kkite.Prelude.{Option, String, ◌≡◌, refl, subst, none, ◌==◌, eq_iff, List, [], ◌∷◌, arith}
use kkite.Models.{Link, before_create}
use kkite.Dto.{CreateLinkRequest}
use kkite.Store.{put, Tables, find_link}
use kkite.Store.Gorm.{
  Gorm, GormLaws, Ensures, SavesLinks, Writes, Counts, CreatedLink, found_or, put_link,
  delete_link_rows,
}
use kkite.Store.Rules.{OnSuccess, step_rule, weaken_success, at_equal, pure_rule}
use kkite.Repository.Operations.{create_links, replace_issue_links}

-- `u` is `t` with `links` added, which are saved for the requests `qs`.
pub record HasAddedLinks (id : String) (qs : List CreateLinkRequest) (t u : Tables) : Type 0 where
  pub links : List Link
  pub saved : SavesLinks t.link id qs links
  pub link : (j : String) → u.link j ≡ found_or (find_link j links) (t.link j)
  pub issue : u.issue ≡ t.issue
  pub scope : u.scope ≡ t.scope
  pub related : u.related ≡ t.related

-- Links that are fresh after `l` was put are fresh before, and none has the id of `l`.
SavesLinks-put_link :
    (l : Link) (rows : String → Option Link) (id : String) (qs : List CreateLinkRequest)
    (ls : List Link)
    → SavesLinks (put l.id l rows) id qs ls
    → SavesLinks rows id qs ls × (find_link l.id ls ≡ none)
SavesLinks-put_link l rows id [] [] h = (tt, refl)
SavesLinks-put_link l rows id (q ∷ qs) (k ∷ ls) h =
    ground (arith, SavesLinks-put_link l rows id qs ls h.5, eq_iff k.id l.id)
SavesLinks-put_link l rows id [] (k ∷ ls) h = absurd h
SavesLinks-put_link l rows id (q ∷ qs) [] h = absurd h

HasAddedLinks-cons :
    (q : CreateLinkRequest) (qs : List CreateLinkRequest) (id k : String) (t u : Tables)
    → t.link k ≡ none
    → HasAddedLinks id qs
        (put_link (record { id = k; title = q.title; url = q.url; issue_id = id }) t)
        u
    → HasAddedLinks id (q ∷ qs) t u
HasAddedLinks-cons q qs id k t u fresh h =
    let l : Link = record { id = k; title = q.title; url = q.url; issue_id = id } in
    let (saved, apart) = SavesLinks-put_link l t.link id qs h.links h.saved in
    record {
      links = l ∷ h.links;
      saved = (refl, refl, refl, fresh, apart, saved);
      link = λ j. ground (arith, h.link j, eq_iff k j, eq_iff j k, apart);
      issue = h.issue;
      scope = h.scope;
      related = h.related;
    }

HasAddedLinks-nil : (id : String) (t : Tables) → HasAddedLinks id [] t t
HasAddedLinks-nil id t = record {
  links = [];
  saved = tt;
  link = λ j. refl;
  issue = refl;
  scope = refl;
  related = refl;
}

-- What replacing the links of an issue has done: the old ones are gone, the requested ones added.
abbrev pub HasReplacedLinks : String → List CreateLinkRequest → Tables → Tables → Type 0
HasReplacedLinks id qs t u = HasAddedLinks id qs (delete_link_rows (λ l. l.issue_id == id) t) u

module _ (g : Gorm) (laws : GormLaws g) where
  -- On success a link row exists for each request, in order, and no other row has changed.
  pub create_links-HasAddedLinks :
      (id : String) (qs : List CreateLinkRequest) (t : Tables)
      → Ensures g (create_links g id qs) t (OnSuccess (λ _. HasAddedLinks id qs t))
  unfolding create_links
  create_links-HasAddedLinks id [] t =
      pure_rule g tt t (OnSuccess (λ _. HasAddedLinks id [] t)) (HasAddedLinks-nil id t)
  create_links-HasAddedLinks id (q ∷ qs) t =
      let l : Link = record { id = ""; title = q.title; url = q.url; issue_id = id } in
      step_rule g "failed to create link: " (g.create_link l) (λ _. create_links g id qs) t
        (CreatedLink l t) (λ _. HasAddedLinks id (q ∷ qs) t) (laws.create_link_law l t)
        (λ a u (uuid, fresh, same).
          weaken_success g (create_links g id qs) u (λ _. HasAddedLinks id qs u) _
            (create_links-HasAddedLinks id qs u)
            (λ _ v h.
              HasAddedLinks-cons q qs id (before_create uuid "") t v fresh
                (subst (λ s. HasAddedLinks id qs s v) same h)))

  -- On success the links of the issue are the requested ones, and other issues keep theirs.
  pub replace_issue_links-HasReplacedLinks :
      (id : String) (qs : List CreateLinkRequest) (t : Tables)
      → Ensures g (replace_issue_links g id qs) t (OnSuccess (λ _. HasReplacedLinks id qs t))
  unfolding replace_issue_links
  replace_issue_links-HasReplacedLinks id qs t =
      let gone = delete_link_rows (λ l. l.issue_id == id) t in
      step_rule g _ (g.delete_links (λ l. l.issue_id == id)) (λ _. create_links g id qs) t
        (λ r u. Writes t gone r u × Counts (λ l. l.issue_id == id) t.link r)
        (λ _. HasReplacedLinks id qs t) (laws.delete_links_law (λ l. l.issue_id == id) t)
        (λ a u h.
          at_equal g (create_links g id qs) (OnSuccess (λ _. HasReplacedLinks id qs t)) h.0
            (create_links-HasAddedLinks id qs gone))
