-- ===== src/Operator/Client.antt =====
-- The client of the backend, packages/operator/internal/clients/kite.go, over the HTTP client of Go as a
-- parameter: `new_request` says whether a URL makes a request, and `send` answers with a status code.
use kkite.Prelude.{ℕ, String, ◌<>◌, ◌||◌, not, ltb, Option, List, if◌then◌else◌}
use kkite.Store.{Result, ok, err, relabel, Action, wrap, ◌>>=◌, ◌>>◌}
use kkite.Handlers.Replies.{decimal}
use kkite.Operator.Controller.{
  Condition, PipelineRun, PipelineFailurePayload, PipelineSuccessPayload, Cluster,
}

pub data Payload : Type 0 where
  failure : PipelineFailurePayload → Payload
  success : PipelineSuccessPayload → Payload

pub record HttpRequest (B : Type 0) : Type 0 where
  pub method : String
  pub url : String
  pub content_type : String
  pub body : B

-- What a payload is encoded as is a `Bytes`.
pub record HttpClient (W : Type 0) : Type 1 where
  pub Bytes : Type 0
  pub marshal : Payload → Result Bytes
  pub new_request : String → Result (Unit {0})
  pub send : HttpRequest Bytes → Action W ℕ

abbrev pub post : {B : Type 0} → String → B → HttpRequest B
post url body = record {
  method = "POST";
  url = url;
  content_type = "application/json";
  body = body;
}

abbrev pub failure_url : String → PipelineFailurePayload → String
failure_url base_url payload =
    base_url <> "/api/v1/webhooks/pipeline-failure?namespace=" <> payload.namespace

abbrev pub success_url : String → PipelineSuccessPayload → String
success_url base_url payload =
    base_url <> "/api/v1/webhooks/pipeline-success?namespace=" <> payload.namespace

module _ {W : Type 0} where
  abbrev lift : {A : Type 0} → Result A → Action W A
  lift r w = (r, w)

  abbrev pub check_status : ℕ → Action W (Unit {0})
  check_status code w =
      if ltb code 200 || not (ltb code 300)
      then (err ("error, Status code " <> decimal code <> " returned"), w)
      else (ok tt, w)

module _ {W : Type 0} (http : HttpClient W) where
  unfoldable pub send_webhook : String → Payload → Action W (Unit {0})
  send_webhook url payload = do
    body ← lift (relabel "failed to marshal payload: " (http.marshal payload))
    lift (relabel "failed to create request: " (http.new_request url))
    code ← wrap "failed to send request: " (http.send (post url body))
    check_status code

  -- What the reconciler calls: the cluster's objects, and the client with its base URL.
  abbrev pub kite_client :
      String
      → (String → String → W → Result (Option PipelineRun))
      → (String → String → W → Option (List Condition))
      → Cluster W
  kite_client base_url get_pipeline_run get_task_run = record {
    get_pipeline_run = get_pipeline_run;
    get_task_run = get_task_run;
    report_pipeline_failure =
        λ payload. send_webhook (failure_url base_url payload) (failure payload);
    report_pipeline_success =
        λ payload. send_webhook (success_url base_url payload) (success payload);
  }
