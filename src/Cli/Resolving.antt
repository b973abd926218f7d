-- ===== src/Cli/Resolving.antt =====
-- When `resolve` of packages/cli/cmd/root.go succeeds.
use kkite.Prelude.{
  ℕ, String, ◌==◌, ◌≡◌, ◌≢◌, ◌⊎◌, refl, Option, none, some, Bool, true, false, arith, eq_iff,
  if◌then◌else◌, [], ◌∷◌, ◌<>◌, String-cases, inl, inr,
}
use kkite.Store.{Result, ok, err}
use kkite.Cli.Client.{
  Response, Sent, failed, answered, Api, resolve_url, resolve_issue, resolved_of, got_resolved,
  refused, send_resolve,
}
use kkite.Cli.Commands.{
  Flags, Run, namespace_for, resolve_command, resolve_in, shown_resolved, required,
  get_current_kube_namespace,
}

-- The status of a resolution: 200 or 204.
abbrev pub Resolved : ℕ → Type 0
Resolved code = (code ≡ 200) ⊎ (code ≡ 204)

-- The namespace of the flag; without it, the one that kubectl prints, or `default` where it prints none.
abbrev pub IsNamespace : Flags → Result String → String → Type 0
IsNamespace flags kubectl namespace =
    ((flags.namespace ≢ "") × (namespace ≡ flags.namespace))
    ⊎ ((flags.namespace ≡ "")
        × (output : String) × (kubectl ≡ ok output)
        × (((output ≢ "") × (namespace ≡ output)) ⊎ ((output ≡ "") × (namespace ≡ "default"))))

-- The flags name an issue, and the answer to the request to resolve it in that namespace says that it is done.
abbrev pub ResolvedBy : {W : Type 0} → Api W → Result String → Flags → W → Type 0
ResolvedBy api kubectl flags w =
    (namespace : String) × IsNamespace flags kubectl namespace
    × (flags.issue_id ≢ "")
    × (r : Response) × ((api.post
          (api.base_url
            <> "/issues/"
            <> flags.issue_id
            <> "/resolve?"
            <> api.encode (("namespace", namespace) ∷ []))
          w).0
        ≡ answered r)
    × Resolved r.status_code

default_or :
    (output : String)
    → (namespace : String) → (if output == "" then "default" else output) ≡ namespace
    → ((output ≢ "") × (namespace ≡ output)) ⊎ ((output ≡ "") × (namespace ≡ "default"))
default_or output namespace e = elim (String-cases output "") [
  | inl nothing ↦ inr (nothing, ground (arith, eq_iff output ""))
  | inr given ↦ inl (given, ground (arith, eq_iff output ""))
]

printed :
    (kubectl : Result String) (namespace : String)
    → required (get_current_kube_namespace kubectl) ≡ ok namespace
    → (output : String) × (kubectl ≡ ok output)
      × (((output ≢ "") × (namespace ≡ output)) ⊎ ((output ≡ "") × (namespace ≡ "default")))
unfolding get_current_kube_namespace
printed (err e) namespace found = absurd (ground arith)
printed (ok output) namespace found = (output, refl, default_or output namespace (ground arith))

namespace_for-IsNamespace :
    (flags : Flags) (kubectl : Result String) (namespace : String)
    → namespace_for flags kubectl ≡ ok namespace
    → IsNamespace flags kubectl namespace
unfolding namespace_for
namespace_for-IsNamespace flags kubectl namespace found = elim (String-cases flags.namespace "") [
  | inl unset ↦
      let (output, answer, chosen) = printed kubectl namespace (rw unset at found) in
      inr (unset, output, answer, chosen)
  | inr set ↦ inl (set, ground (arith, eq_iff flags.namespace ""))
]

module _ {W : Type 0} (api : Api W) (kubectl : Result String) (flags : Flags) (w : W) where
  got_resolved-ok :
      (namespace : String) (r : Response)
      → got_resolved api r (refused flags.issue_id namespace r.status_code) ≡ ok tt
      → Resolved r.status_code
  got_resolved-ok namespace r done = ground arith

  resolved_of-ok :
      (namespace : String) (s : Sent)
      → resolved_of api flags.issue_id namespace s ≡ ok tt
      → (r : Response) × (s ≡ answered r) × Resolved r.status_code
  resolved_of-ok namespace (failed timeout e) done = absurd (ground arith)
  resolved_of-ok namespace (answered r) done = (r, refl, got_resolved-ok namespace r done)

  shown_resolved-ok :
      (first : String) (r : Result (Unit {0}))
      → (shown_resolved api kubectl flags first r).1 ≡ ok tt
      → r ≡ ok tt
  shown_resolved-ok first (ok u) done = refl
  shown_resolved-ok first (err e) done = absurd (ground arith)

  send_resolve-ok :
      (namespace : String) (request : Option String)
      → (send_resolve api flags.issue_id namespace
          (resolve_url api flags.issue_id namespace)
          request
          w).0
        ≡ ok tt
      → (r : Response) × ((api.post (resolve_url api flags.issue_id namespace) w).0 ≡ answered r)
        × Resolved r.status_code
  send_resolve-ok namespace (some e) done = absurd (ground arith)
  send_resolve-ok namespace none done =
      resolved_of-ok namespace (api.post (resolve_url api flags.issue_id namespace) w).0 done

  else_branch :
      (b : Bool) (x y : Run × W)
      → x.0.1 ≢ ok tt
      → (if b then x else y).0.1 ≡ ok tt
      → (b ≡ false) × (y.0.1 ≡ ok tt)
  else_branch true x y bad done = absurd (bad done)
  else_branch false x y bad done = (refl, done)

  resolve_in-ok :
      (found : Result String)
      → namespace_for flags kubectl ≡ found
      → (resolve_in api kubectl flags found w).0.1 ≡ ok tt
      → ResolvedBy api kubectl flags w
  unfolding resolve_issue
  resolve_in-ok (err e) at done = absurd (ground arith)
  resolve_in-ok (ok namespace) at done =
      let (named, shown) =
        else_branch (flags.issue_id == "") (([], err "issue ID is required"), w) _
          (λ e. ground arith) done in
      let (r, posted, status) = send_resolve-ok namespace _ (shown_resolved-ok _ _ shown) in
      (
        namespace,
        namespace_for-IsNamespace flags kubectl namespace at,
        (λ e. ground (arith, eq_iff flags.issue_id "")),
        r,
        posted,
        status,
      )

  -- The command `resolve` succeeds only when the flags have the ID of an issue, the flag or kubectl gives a
  -- namespace, and the POST to `/issues/<id>/resolve` of the API for that issue, with that namespace in the
  -- query, is answered with 200 or 204.
  pub resolve_command-ResolvedBy :
      (resolve_command api kubectl flags w).0.1 ≡ ok tt → ResolvedBy api kubectl flags w
  unfolding resolve_command
  resolve_command-ResolvedBy done = resolve_in-ok (namespace_for flags kubectl) refl done
