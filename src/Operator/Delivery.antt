-- ===== src/Operator/Delivery.antt =====
-- The operator of packages/operator and the backend of packages/backend together: what the reports of the
-- reconciler do to the issues.
use kkite.Prelude.{
  ℕ, String, ◌≡◌, ◌≢◌, refl, Option, some, Bool, true, false, List, ◌<>◌, if◌then◌else◌, ltb, not,
  ◌||◌,
}
use kkite.Store.{Result, ok, err, wrap, ◌>>=◌}
use kkite.Service.{IssueService}
use kkite.Handlers.Replies.{Reply, reply, panic, decimal}
use kkite.Handlers.Webhooks.{
  PipelineFailureRequest, PipelineSuccessRequest, pipeline_failure, pipeline_success,
}
use kkite.Operator.Controller.{
  Condition, PipelineRun, PipelineFailurePayload, PipelineSuccessPayload, Cluster, Outcome, done,
  retry, status_of, get_pipeline_name, failure_payload, outcome, reconcile,
}
use kkite.Operator.Client.{
  Payload, failure, success, HttpClient, post, failure_url, success_url, check_status, send_webhook,
  kite_client,
}
use kkite.Operator.Reports.{get_failure_reason_given}

-- The value that gin binds from the JSON of a payload: both sides have the same names there.
abbrev pub bound_failure : PipelineFailurePayload → PipelineFailureRequest
bound_failure p = record {
  pipeline_name = p.pipeline_name;
  namespace = p.namespace;
  severity = p.severity;
  failure_reason = p.failure_reason;
  run_id = p.run_id;
  logs_url = "";
}

abbrev pub bound_success : PipelineSuccessPayload → PipelineSuccessRequest
bound_success p = record { pipeline_name = p.pipeline_name; namespace = p.namespace }

-- The status code that the client sees; a panic is recovered from with a 500.
abbrev pub status_code : Reply → ℕ
status_code (reply code body) = code
status_code panic = 500

abbrev pub seen : {W : Type 0} → Reply × W → Result ℕ × W
seen (r, w) = (ok (status_code r), w)

-- The network and the server of the backend: a payload is encoded, a request with the required fields
-- reaches the webhook of its path with the value bound from its body, and the status code comes back.
pub record Delivers {W : Type 0} (http : HttpClient W) (s : IssueService W) (env : String → String)
    (base_url : String) : Type 0 where
  pub json : Payload → http.Bytes
  pub encodes : (p : Payload) → http.marshal p ≡ ok (json p)
  pub accepts : (url : String) → http.new_request url ≡ ok tt
  pub failures :
      (p : PipelineFailurePayload) (w : W)
      → p.pipeline_name ≢ ""
      → p.namespace ≢ ""
      → p.failure_reason ≢ ""
      → http.send (post (failure_url base_url p) (json (failure p))) w
        ≡ seen (pipeline_failure s env (ok (bound_failure p)) w)
  pub successes :
      (p : PipelineSuccessPayload) (w : W)
      → p.pipeline_name ≢ ""
      → p.namespace ≢ ""
      → http.send (post (success_url base_url p) (json (success p))) w
        ≡ seen (pipeline_success s (ok (bound_success p)) w)

-- What the reconciler makes of a reply: it is done after a status from 200 to 299, and tries again after
-- any other.
abbrev pub after_reply : {W : Type 0} → String → Reply × W → Outcome × W
after_reply message (r, w) =
    if ltb (status_code r) 200 || not (ltb (status_code r) 300)
    then (retry message, w)
    else (done, w)

module _ {W : Type 0} (http : HttpClient W) (s : IssueService W) (env : String → String)
    (base_url : String) (delivers : Delivers http s env base_url) (c : Cluster W) where
  checked :
      (message : String) (r : Reply) (w' : W) (p : Result ℕ × W)
      → p ≡ seen (r, w')
      → outcome c message ((wrap "failed to send request: " (λ w. p) >>= check_status) w')
        ≡ after_reply message (r, w')
  checked message r w' p is =
      rw (is) (verdict (ltb (status_code r) 200 || not (ltb (status_code r) 300)))
    where
      verdict :
          (b : Bool)
          → outcome c message (
              if b
              then (err ("error, Status code " <> decimal (status_code r) <> " returned"), w')
              else (ok tt, w'))
            ≡ (if b then (retry message, w') else (done, w'))
      verdict true = refl
      verdict false = refl

  sent_failure :
      (message : String) (p : PipelineFailurePayload) (w : W)
      → p.pipeline_name ≢ ""
      → p.namespace ≢ ""
      → p.failure_reason ≢ ""
      → outcome c message (send_webhook http (failure_url base_url p) (failure p) w)
        ≡ after_reply message (pipeline_failure s env (ok (bound_failure p)) w)
  unfolding send_webhook
  sent_failure message p w name namespace reason =
      rw (delivers.encodes (failure p), delivers.accepts (failure_url base_url p))
        (checked message (pipeline_failure s env (ok (bound_failure p)) w).0 _ _
          (delivers.failures p w name namespace reason))

  sent_success :
      (message : String) (p : PipelineSuccessPayload) (w : W)
      → p.pipeline_name ≢ ""
      → p.namespace ≢ ""
      → outcome c message (send_webhook http (success_url base_url p) (success p) w)
        ≡ after_reply message (pipeline_success s (ok (bound_success p)) w)
  unfolding send_webhook
  sent_success message p w name namespace =
      rw (delivers.encodes (success p), delivers.accepts (success_url base_url p))
        (checked message (pipeline_success s (ok (bound_success p)) w).0 _ _
          (delivers.successes p w name namespace))

abbrev pub failure_message : String
failure_message = "failed to report pipeline failure from controller"

abbrev pub success_message : String
success_message = "failed to report pipeline success from controller"

-- A run that is there, has completed and ended with this status, and whose payload has what the webhooks
-- require.
pub record HasEnded {W : Type 0} (c : Cluster W) (namespace name : String) (w : W) (status : String)
    (pr : PipelineRun) : Type 0 where
  pub found : c.get_pipeline_run namespace name w ≡ ok (some pr)
  pub completed : pr.is_completed ≡ true
  pub ended : status_of pr.conditions ≡ status
  pub named : get_pipeline_name pr ≢ ""
  pub placed : pr.namespace ≢ ""

abbrev pub success_payload : PipelineRun → PipelineSuccessPayload
success_payload pr = record { pipeline_name = get_pipeline_name pr; namespace = pr.namespace }

module _ {W : Type 0} (http : HttpClient W) (s : IssueService W) (env : String → String)
    (base_url : String) (delivers : Delivers http s env base_url)
    (get_pipeline_run : String → String → W → Result (Option PipelineRun))
    (get_task_run : String → String → W → Option (List Condition)) where
  abbrev pub operator : Cluster W
  operator = kite_client http base_url get_pipeline_run get_task_run

  pub reconcile_failed :
      (namespace name : String) (w : W) (pr : PipelineRun)
      → HasEnded operator namespace name w "failed" pr
      → reconcile operator namespace name w
        ≡ after_reply failure_message
            (pipeline_failure s env (ok (bound_failure (failure_payload operator pr w))) w)
  unfolding reconcile
  reconcile_failed namespace name w pr run =
      rw (run.found, run.completed, run.ended)
        (sent_failure http s env base_url delivers operator failure_message
          (failure_payload operator pr w) w run.named run.placed
          (get_failure_reason_given operator pr w))

  pub reconcile_succeeded :
      (namespace name : String) (w : W) (pr : PipelineRun)
      → HasEnded operator namespace name w "succeeded" pr
      → reconcile operator namespace name w
        ≡ after_reply success_message
            (pipeline_success s (ok (bound_success (success_payload pr))) w)
  unfolding reconcile
  reconcile_succeeded namespace name w pr run =
      rw (run.found, run.completed, run.ended)
        (sent_success http s env base_url delivers operator success_message (success_payload pr) w
          run.named run.placed)
