-- ===== src/Operator/EndToEnd/Tests.antt =====
-- The operator and the backend at a concrete pipeline, over a network without faults and the database in
-- memory.
use kkite.Prelude.{
  ℕ, ◌==◌, if◌then◌else◌, String, ◌≡◌, ◌≢◌, refl, arith, eq_iff, Option, none, some, List, [], ◌∷◌,
  true, false,
}
use kkite.Models.{Issue, LoadedIssue}
use kkite.Dto.{create}
use kkite.Store.{Result, ok, Action}
use kkite.Store.Gorm.{clock}
use kkite.Store.Rows.{row_at, update_rows, delete_rows, matching, first}
use kkite.Store.Memory.{
  Memory, memory, first_issue, pluck_ids, save_links, create_issue, transaction,
}
use kkite.Store.Memory.Saving.{memory_laws}
use kkite.Repository.Operations.{
  find_duplicate_in_tx, find_by_id, create_new_issue_in_tx, create_or_update_branch,
  create_or_update, resolve_ids, resolve_by_scope,
}
use kkite.Repository.Stores.{Stores}
use kkite.Repository.Tests.{empty}
use kkite.Service.{issue_service}
use kkite.Handlers.Webhooks.{pipeline_issue, pipeline_failure, pipeline_success}
use kkite.Operator.Controller.{Cluster, Condition, PipelineRun, done, failure_payload, reconcile}
use kkite.Operator.Client.{Payload, failure, success, HttpClient, send_webhook}
use kkite.Operator.Delivery.{bound_failure, bound_success, seen, Delivers, HasEnded}
use kkite.Operator.EndToEnd.{op, reconcile_resolves}

abbrev no_env : String → String
no_env key = ""

abbrev to_webhook : Payload → Action Memory ℕ
to_webhook (failure p) w =
    seen (pipeline_failure (issue_service memory) no_env (ok (bound_failure p)) w)
to_webhook (success p) w = seen (pipeline_success (issue_service memory) (ok (bound_success p)) w)

-- A payload is its own encoding.
abbrev network : HttpClient Memory
network = record {
  Bytes = Payload;
  marshal = λ p. ok p;
  new_request = λ url. ok tt;
  send = λ request. to_webhook request.body;
}

abbrev delivers : Delivers network (issue_service memory) no_env "http://kite"
delivers = record {
  json = λ p. p;
  encodes = λ p. refl;
  accepts = λ url. refl;
  failures = λ p w name namespace reason. refl;
  successes = λ p w name namespace. refl;
}

abbrev ended_with : String → PipelineRun
ended_with status = record {
  name = "build-1";
  namespace = "team-a";
  uid = "1";
  labels = [];
  pipeline_ref = some "build";
  is_completed = true;
  conditions = record { kind = "Succeeded"; status = status; reason = "Failed"; message = "" } ∷ [];
  child_references = [];
}

-- The first run has failed and the second has not.
abbrev runs : String → String → Memory → Result (Option PipelineRun)
runs namespace name w =
    if name == "first" then ok (some (ended_with "False")) else ok (some (ended_with "True"))

abbrev no_tasks : String → String → Memory → Option (List Condition)
no_tasks namespace name w = none

given : (s : String) → (s == "") ≡ false → s ≢ ""
given s apart same = ground (arith, eq_iff s "")

abbrev the_operator : Cluster Memory
the_operator = op memory memory_laws network no_env "http://kite" delivers runs no_tasks

abbrev after_failure : Memory
after_failure = (reconcile the_operator "team-a" "first" empty).1

first_failed : HasEnded the_operator "team-a" "first" empty "failed" (ended_with "False")
first_failed = record {
  found = refl;
  completed = refl;
  ended = refl;
  named = given "build" refl;
  placed = given "team-a" refl;
}

second_passed :
    HasEnded the_operator "team-a" "second" after_failure "succeeded" (ended_with "True")
second_passed = record {
  found = refl;
  completed = refl;
  ended = refl;
  named = given "build" refl;
  placed = given "team-a" refl;
}

first_done : (reconcile the_operator "team-a" "first" empty).0 ≡ done
unfolding reconcile send_webhook pipeline_failure create_or_update transaction find_duplicate_in_tx
    first_issue first matching row_at create_or_update_branch create_new_issue_in_tx clock
    create_issue save_links delete_rows find_by_id
first_done = refl

one_resolved : (resolve_by_scope memory "pipelinerun" "build" "team-a" after_failure).0 ≡ ok 1
unfolding reconcile send_webhook pipeline_failure create_or_update transaction find_duplicate_in_tx
    first_issue first matching row_at create_or_update_branch create_new_issue_in_tx clock
    create_issue save_links delete_rows find_by_id resolve_by_scope resolve_ids pluck_ids
    update_rows
one_resolved = refl

reconcile_resolves_example :
    (l : LoadedIssue) × Stores
      (create (
        pipeline_issue no_env
          (bound_failure (failure_payload the_operator (ended_with "False") empty))))
      (create (
        pipeline_issue no_env
          (bound_failure (failure_payload the_operator (ended_with "False") empty))))
      (memory.tables empty)
      l.issue.id
      (memory.tables after_failure)
    × (i : Issue) × ((memory.tables
            (reconcile the_operator "team-a" "second" after_failure).1).issue
          l.issue.id
        ≡ some i)
    × (i.state ≡ "RESOLVED")
reconcile_resolves_example =
    reconcile_resolves memory memory_laws network no_env "http://kite" delivers runs no_tasks
      "team-a" "first" "team-a" "second" empty (ended_with "False") (ended_with "True") 1
      first_failed first_done second_passed refl refl one_resolved
