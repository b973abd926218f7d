-- ===== src/Handlers/Creating.antt =====
-- `CreateIssue` and the relation endpoints of issue_handlers.go, over the service and the
-- repository.
use kkite.Prelude.{
  Bool, if◌then◌else◌, String-cases, String, ◌≡◌, ◌⊎◌, refl, sym, subst, Option, none, some, true,
  false, not, ◌&&◌, ◌==◌, [], ◌∷◌, contains, arith, inl, inr, eq_iff,
}
use kkite.Models.{LoadedIssue}
use kkite.Dto.{CreateIssueRequest, create}
use kkite.Store.{Tables, Result, ok, err}
use kkite.Store.Gorm.{Gorm, GormLaws, Loads}
use kkite.Repository.Requests.{by_id_query, create_as_update}
use kkite.Repository.Operations as Operations
use kkite.Repository.Relations as Relations
use kkite.Repository.Stores.{Stores, Reloads}
use kkite.Repository.CreateOrUpdate.{create-Reloads}
use kkite.Repository.Relating.{HasRelated, RelatesOrFails, add_related_issue-RelatesOrFails}
use kkite.Service.{issue_service}
use kkite.Handlers.Replies.{Reply, reply, object, text, document, issue, error}
use kkite.Handlers.Issues.{
  validate_create_issue_request, bad_request, created_answer, create_valid, related_answer,
  create_issue, add_related_issue,
}
use kkite.Handlers.Failures.{bind_pure}

-- The values that the backend knows.
pub record IsValid (req : CreateIssueRequest) : Type 0 where
  pub severity : contains ("info" ∷ "minor" ∷ "major" ∷ "critical" ∷ []) req.severity ≡ true
  pub issue_type :
      contains ("build" ∷ "test" ∷ "release" ∷ "dependency" ∷ "pipeline" ∷ []) req.issue_type ≡ true
  pub state : (req.state ≡ "") ⊎ (req.state ≡ "ACTIVE") ⊎ (req.state ≡ "RESOLVED")

-- The three tests, each under an early return.
abbrev tests : Bool → Bool → Bool → Option String
tests severity_known type_known state_unknown =
    if not severity_known
    then some "invalid severity value"
    else if not type_known
    then some "invalid issueType value"
    else if state_unknown
    then some "invalid state value"
    else none

tests_passed : (a b c : Bool) → tests a b c ≡ none → (a ≡ true) × (b ≡ true) × (c ≡ false)
tests_passed a b c e = (ground arith, ground arith, ground arith)

abbrev state_unknown : String → Bool
state_unknown s = not (s == "") && not (contains ("ACTIVE" ∷ "RESOLVED" ∷ []) s)

known_state : (s : String) → state_unknown s ≡ false → (s ≡ "") ⊎ (s ≡ "ACTIVE") ⊎ (s ≡ "RESOLVED")
known_state s e = elim (String-cases s "") [
  | inl given_none ↦ inl given_none
  | inr given ↦ elim (String-cases s "ACTIVE") [
    | inl is_active ↦ inr (inl is_active)
    | inr other ↦ inr (inr (ground (arith, eq_iff s "", eq_iff "ACTIVE" s, eq_iff "RESOLVED" s)))
  ]
]

state_known : (s : String) → (s ≡ "") ⊎ (s ≡ "ACTIVE") ⊎ (s ≡ "RESOLVED") → state_unknown s ≡ false
state_known s (inl e) = rw e refl
state_known s (inr (inl e)) = rw e refl
state_known s (inr (inr e)) = rw e refl

valid : (req : CreateIssueRequest) → validate_create_issue_request req ≡ none → IsValid req
unfolding validate_create_issue_request
valid req e =
    let (severity, issue_type, state) = tests_passed _ _ (state_unknown req.state) e in
    record { severity = severity; issue_type = issue_type; state = known_state req.state state }

accepted : (req : CreateIssueRequest) → IsValid req → validate_create_issue_request req ≡ none
unfolding validate_create_issue_request
accepted req v = rw (v.severity, v.issue_type, state_known req.state v.state) refl

-- A request that gives an issue its content, stored as `Create` stores it.
abbrev pub CreateAnswer : Result CreateIssueRequest → Tables → Reply → Tables → Type 0
CreateAnswer (err e) t r u = (r ≡ bad_request "Invalid request body" e) × (u ≡ t)
CreateAnswer (ok req) t r u =
    (¬ (IsValid req)
      × ((message : String) × (r ≡ bad_request "Validation failed" message))
      × (u ≡ t))
    ⊎ (IsValid req
        × (((l : LoadedIssue) × (r ≡ reply 201 (document (issue l)))
              × Stores (create req) (create_as_update (create req)) t l.issue.id u
              × Loads (by_id_query l.issue.id) u l)
            ⊎ ((r ≡ error 500 "Failed to create issue")
                × ((u ≡ t)
                    ⊎ ((id : String) × Stores (create req) (create_as_update (create req)) t id
                          u)))))

created_at :
    (req : CreateIssueRequest) (t u : Tables) (r : Result (Option LoadedIssue))
    → IsValid req
    → Reloads (Stores (create req) (create_as_update (create req))) t r u
    → CreateAnswer (ok req) t (created_answer r) u
created_at req t u (ok none) v h = absurd h
created_at req t u (ok (some l)) v (stored, loaded) = inr (v, inl (l, refl, stored, loaded))
created_at req t u (err e) v h = inr (v, inr (refl, h))

created_valid :
    (g : Gorm) (laws : GormLaws g) (req : CreateIssueRequest) (o : Option String) (w : g.World)
    → validate_create_issue_request req ≡ o
    → let (r, w') = create_valid (issue_service g) req o w in
      CreateAnswer (ok req) (g.tables w) r (g.tables w')
created_valid g laws req (some message) w e =
    inl ((λ v. ground (arith, accepted req v)), (message, refl), refl)
created_valid g laws req none w e =
    subst (λ x. CreateAnswer (ok req) (g.tables w) (created_answer x.0) (g.tables x.1))
      (sym (bind_pure (Operations.create g (create req)) w))
      (created_at req (g.tables w) _ (Operations.create g (create req) w).0 (valid req e)
        (create-Reloads g laws (create req) w))

-- `CreateIssue` answers 400 to a body that does not bind or has a severity, type or state that the
-- backend does not know, and stores nothing then. Else it answers 201 with the issue that is stored
-- and reloaded, or 500, where nothing has been stored or only the reload has failed.
pub create_issue-CreateAnswer :
    (g : Gorm) (laws : GormLaws g) (body : Result CreateIssueRequest) (w : g.World)
    → let (r, w') = create_issue (issue_service g) body w in
      CreateAnswer body (g.tables w) r (g.tables w')
unfolding create_issue
create_issue-CreateAnswer g laws (err e) w = (refl, refl)
create_issue-CreateAnswer g laws (ok req) w =
    created_valid g laws req (validate_create_issue_request req) w refl

abbrev pub RelateAnswer : String → Result String → Tables → Reply → Tables → Type 0
RelateAnswer id (err e) t r u = (r ≡ error 400 "Missing relatdId field") × (u ≡ t)
RelateAnswer id (ok related_id) t r u =
    ((r ≡ reply 201 (object (("message", text "Relationship created") ∷ [])))
      × HasRelated id related_id t u)
    ⊎ (((message : String) × (r ≡ related_answer (err message))) × (u ≡ t))

related_at :
    (id related_id : String) (t u : Tables) (r : Result (Unit {0}))
    → RelatesOrFails id related_id t r u
    → RelateAnswer id (ok related_id) t (related_answer r) u
related_at id related_id t u (ok _) h = inl (refl, h)
related_at id related_id t u (err e) same = inr ((e, refl), same)

-- `AddRelatedIssue` answers 201 only where the relation has been added, between two issues that are
-- there and that no relation joins. It answers 400 to a body that does not bind, and where the
-- repository fails 404, 409 or 500 by its message, with the tables as they were.
pub add_related_issue-RelateAnswer :
    (g : Gorm) (laws : GormLaws g) (id : String) (body : Result String) (w : g.World)
    → let (r, w') = add_related_issue (issue_service g) id body w in
      RelateAnswer id body (g.tables w) r (g.tables w')
unfolding add_related_issue
add_related_issue-RelateAnswer g laws id (err e) w = (refl, refl)
add_related_issue-RelateAnswer g laws id (ok related_id) w =
    subst (λ x. RelateAnswer id (ok related_id) (g.tables w) (related_answer x.0) (g.tables x.1))
      (sym (bind_pure (Relations.add_related_issue g id related_id) w))
      (related_at id related_id (g.tables w) _ (Relations.add_related_issue g id related_id w).0
        (add_related_issue-RelatesOrFails g laws id related_id w))
