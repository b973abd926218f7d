-- ===== src/Operator/EndToEnd.antt =====
-- A pipeline that fails and later succeeds, from the runs that the operator of packages/operator sees to the
-- issues in the database of packages/backend.
pub mod Tests
use kkite.Prelude.{
  ℕ, String, ◌≡◌, refl, sym, ap, ◌∙◌, subst, ◌⊎◌, inl, inr, Option, some, Bool, true, false, ◌==◌,
  ltb, not, ◌||◌, if◌then◌else◌, List,
}
use kkite.Models.{Issue, LoadedIssue}
use kkite.Dto.{create}
use kkite.Store.{Tables, Result, ok, err}
use kkite.Store.Gorm.{Gorm, GormLaws}
use kkite.Repository.Operations.{resolve_by_scope}
use kkite.Repository.Stores.{Stores}
use kkite.Service.{issue_service}
use kkite.Handlers.Replies.{Reply, error}
use kkite.Handlers.Webhooks.{pipeline_issue, pipeline_failure, pipeline_success}
use kkite.Handlers.Failures.{created, pipeline_failure-FailureAnswer}
use kkite.Handlers.Successes.{pipeline_success_resolves}
use kkite.Operator.Controller.{
  Cluster, Condition, PipelineRun, Outcome, done, retry, get_pipeline_name, failure_payload,
  reconcile,
}
use kkite.Operator.Client.{HttpClient}
use kkite.Operator.Delivery.{
  bound_failure, bound_success, status_code, Delivers, after_reply, failure_message,
  success_message, HasEnded, success_payload, operator, reconcile_failed, reconcile_succeeded,
}

after_created :
    {W : Type 0} (message : String) (l : LoadedIssue) (r : Reply) (w : W)
    → r ≡ created l
    → after_reply message (r, w) ≡ (done, w)
after_created message l r w is = rw (is)

after_failed :
    {W : Type 0} (message failure : String) (r : Reply) (w : W)
    → r ≡ error 500 failure
    → (after_reply message (r, w)).0.requeue ≡ true
after_failed message failure r w is = rw (is)

world-after_reply :
    (W : Type 0) (message : String) (p : Reply × W) → (after_reply message p).1 ≡ p.1
world-after_reply W message (r, w) = at (ltb (status_code r) 200 || not (ltb (status_code r) 300))
  where
    chosen : Bool → Outcome × W
    chosen b = if b then (retry message, w) else (done, w)

    at : (b : Bool) → (chosen b).1 ≡ w
    at true = refl
    at false = refl

module _ (g : Gorm) (laws : GormLaws g) (http : HttpClient g.World) (env : String → String)
    (base_url : String) (delivers : Delivers http (issue_service g) env base_url)
    (get_pipeline_run : String → String → g.World → Result (Option PipelineRun))
    (get_task_run : String → String → g.World → Option (List Condition)) where
  abbrev pub op : Cluster g.World
  op = operator http (issue_service g) env base_url delivers get_pipeline_run get_task_run

  abbrev answer_to : PipelineRun → g.World → Reply × g.World
  answer_to run w =
      pipeline_failure (issue_service g) env (ok (bound_failure (failure_payload op run w))) w

  -- A report that is done has stored an issue for the failure.
  done_stored :
      (namespace name : String) (w : g.World) (run : PipelineRun)
      → HasEnded op namespace name w "failed" run
      → (reconcile op namespace name w).0 ≡ done
      → (l : LoadedIssue) × ((answer_to run w).0 ≡ created l)
        × Stores
            (create (pipeline_issue env (bound_failure (failure_payload op run w))))
            (create (pipeline_issue env (bound_failure (failure_payload op run w))))
            (g.tables w)
            l.issue.id
            (g.tables (answer_to run w).1)
  done_stored namespace name w run ended is_done =
      elim (pipeline_failure-FailureAnswer g laws env
        (ok (bound_failure (failure_payload op run w))) w) [
          | inl (l, is, stores, loads) ↦ (l, is, stores)
          | inr (is, rest) ↦ absurd (
              apart (
                sym (
                  after_failed failure_message "Failed to process webhook" (answer_to run w).0
                    (answer_to run w).1 is)
                ∙ ap (λ o. o.requeue) (sym (ap (λ p. p.0) reported) ∙ is_done)))
        ]
    where
      reported : reconcile op namespace name w ≡ after_reply failure_message (answer_to run w)
      reported =
          reconcile_failed http (issue_service g) env base_url delivers get_pipeline_run
            get_task_run namespace name w run ended

      apart : true ≡ false → ⊥
      apart e = cc

  -- Over a network that delivers: when the report of a failed run is done, the issue of its pipeline is in the
  -- database with what the run says; and when later the run of a success is reported for that pipeline and
  -- namespace, and the database resolves the issues without an error, that issue is RESOLVED.
  pub reconcile_resolves :
      (namespace name later_namespace later_name : String) (w : g.World)
      (failed_run passed_run : PipelineRun) (n : ℕ)
      → HasEnded op namespace name w "failed" failed_run
      → (reconcile op namespace name w).0 ≡ done
      → HasEnded op later_namespace later_name
          (reconcile op namespace name w).1
          "succeeded"
          passed_run
      → get_pipeline_name passed_run ≡ get_pipeline_name failed_run
      → passed_run.namespace ≡ failed_run.namespace
      → (resolve_by_scope g "pipelinerun"
          (get_pipeline_name passed_run)
          passed_run.namespace
          (reconcile op namespace name w).1).0
        ≡ ok n
      → (l : LoadedIssue) × Stores
          (create (pipeline_issue env (bound_failure (failure_payload op failed_run w))))
          (create (pipeline_issue env (bound_failure (failure_payload op failed_run w))))
          (g.tables w)
          l.issue.id
          (g.tables (reconcile op namespace name w).1)
        × (i : Issue) × ((g.tables
                (reconcile op later_namespace later_name (reconcile op namespace name w).1).1).issue
              l.issue.id
            ≡ some i)
        × (i.state ≡ "RESOLVED")
  reconcile_resolves namespace name later_namespace later_name w failed_run passed_run n failed
        is_done passed same_name same_namespace resolved =
      let (l, is, stores) = done_stored namespace name w failed_run failed is_done in
      let payload = failure_payload op failed_run w in
      let w' = (reconcile op namespace name w).1 in
      let at : w' ≡ (answer_to failed_run w).1 =
        ap (λ p. p.1)
          (reconcile_failed http (issue_service g) env base_url delivers get_pipeline_run
            get_task_run namespace name w failed_run failed)
        ∙ world-after_reply g.World failure_message (answer_to failed_run w) in
      let end : (reconcile op later_namespace later_name w').1
          ≡ (pipeline_success (issue_service g) (ok (bound_success (success_payload passed_run)))
              w').1 =
        ap (λ p. p.1)
          (reconcile_succeeded http (issue_service g) env base_url delivers get_pipeline_run
            get_task_run later_namespace later_name w' passed_run passed)
        ∙ world-after_reply g.World success_message (
            pipeline_success (issue_service g) (ok (bound_success (success_payload passed_run)))
              w') in
      let (i, found, state) =
        pipeline_success_resolves g laws env (bound_failure payload)
          (bound_success (success_payload passed_run)) w l n same_name same_namespace is
          (subst
            (λ v.
              (resolve_by_scope g "pipelinerun" (get_pipeline_name passed_run) passed_run.namespace
                v).0
              ≡ ok n)
            at resolved) in
      (
        l,
        subst
            (λ v.
              Stores (create (pipeline_issue env (bound_failure payload)))
                (create (pipeline_issue env (bound_failure payload))) (g.tables w) l.issue.id
                (g.tables v))
            (sym at) stores,
        i,
        ap (λ v. (g.tables v).issue l.issue.id)
              (end
                ∙ ap
                    (λ v.
                      (pipeline_success (issue_service g)
                        (ok (bound_success (success_payload passed_run))) v).1)
                    at)
            ∙ found,
        state,
      )
