-- ===== src/Resolver/Server.antt =====
-- The server's side of delegated scans: ResolverScanService and ResolverScanningWorkflow, and the
-- agents for requests that expired (timeout_agent.py) and for results (results_agent.py).
pub mod Expiry
use cxone_flow_buildwork.Prelude.{
  ℕ, zero, suc, ◌-◌, max, ltb, String, ◌<>◌, ◌==◌, Bool, true, false, not, Option, none, some, List,
  [], ◌∷◌, contains, if◌then◌else◌,
}
use cxone_flow_buildwork.Prelude.Run.{
  Raised, workflow_error, attribute_error, Result, ok, raised, Run, pure, raise, lift, call, try,
  ◌>>=◌, ◌>>◌,
}
use cxone_flow_buildwork.Workflows.{ScanWorkflow, ScanStates, execute, failure}
use cxone_flow_buildwork.Resolver.{
  Details, ScanMessage, ResultMessage, Act, publish_scan, publish_result, ack, nack, dispatch,
  Handler, act, safe_deserialize_body,
}

-- ResolverScanningWorkflow of a server (with the private key) or of an agent (without).
pub record Workflow : Type 0 where
  pub no_kickoff : Bool
  pub scan_retries : ℕ
  pub capture_logs : Bool

-- One delivery and how what lies outside answers: the body, its signature, the reason in the
-- first `x-death` header if there is one, the header `x-remaining-retries`, and publishing.
pub record Delivery : Type 0 where
  pub decoded : Result ScanMessage
  pub signature_valid : ScanMessage → Bool
  pub death_reason : Option String
  pub remaining_retries : Option ℕ
  pub routing_key : String
  pub published : Result Bool

abbrev pub result_stub : String
result_stub = "cx.res.exec.sca-resolver.scan-complete"

-- delegated_scan_resubmit; the number is 0 for a negative one
unfoldable pub delegated_scan_resubmit : Result Bool → String → ScanMessage → ℕ → Handler Bool
delegated_scan_resubmit published route_key msg retries =
    call (publish_scan route_key msg (max retries 0)) published

unfoldable pub delegated_scan_kickoff : Workflow → Result Bool → String → ScanMessage → Handler Bool
delegated_scan_kickoff w published route_key msg =
    if w.no_kickoff
    then raise workflow_error
    else delegated_scan_resubmit published route_key msg w.scan_retries

-- request_resolver_scan; the filters that it computes first, and the signature, are given
unfoldable pub request_resolver_scan :
    Workflow
    → (agent_tags : List String) → (moniker : String) → (filters : Result String)
    → (signature : Result String) → Result Bool
    → (scanner_tag : String) → Details
    → ScanWorkflow
    → (correlation_id : String) → Handler Bool
request_resolver_scan w agent_tags moniker filters signature published tag details workflow
      correlation_id =
    if contains tag agent_tags
    then (do
      file_filters ← lift filters
      details_signature ← lift signature
      delegated_scan_kickoff w published
          ("cx.res.exec.sca-resolver.run-scan." <> tag <> "." <> moniker)
          (record {
            moniker = moniker;
            state = execute;
            workflow = workflow;
            correlation_id = correlation_id;
            capture_logs = w.capture_logs;
            details = record details { file_filters = file_filters };
            details_signature = details_signature;
          }))
    else raise workflow_error

-- get_delegated_scan_resubmit_count. The header's number is at least 0, as published, and only
-- whether the difference is above 0 matters besides.
unfoldable pub get_delegated_scan_resubmit_count : Option ℕ → Handler ℕ
get_delegated_scan_resubmit_count none = raise workflow_error
get_delegated_scan_resubmit_count (some last_retry) = pure (last_retry - 1)

abbrev pub failure_of : ScanMessage → ResultMessage
failure_of msg = record {
  moniker = msg.moniker;
  state = failure;
  workflow = msg.workflow;
  correlation_id = msg.correlation_id;
  details = msg.details;
  details_signature = msg.details_signature;
  resolver_exit_code = none;
  logs = none;
  scan_id = none;
}

abbrev is_expired : Option String → Bool
is_expired none = false
is_expired (some reason) = reason == "expired"

unfoldable pub handle_resolver_scan_timeout : Delivery → Handler (Unit {0})
unfolding get_delegated_scan_resubmit_count delegated_scan_resubmit
handle_resolver_scan_timeout d = do
  msg ← safe_deserialize_body d.decoded
  if is_expired d.death_reason
      then (do
        count ← get_delegated_scan_resubmit_count d.remaining_retries
        if ltb 0 count
            then (delegated_scan_resubmit d.published d.routing_key msg count >> pure tt)
            else (call (publish_result result_stub (failure_of msg)) d.published >> pure tt))
      else pure tt

-- ResolverTimeoutAgent. For a wrong signature the log line asks for a field that the details do
-- not have, so that the handler's `except` rejects the message.
unfoldable pub timeout_agent : Delivery → Handler (Unit {0})
unfolding handle_resolver_scan_timeout
timeout_agent d = do
  msg ← safe_deserialize_body d.decoded
  try
      (if d.signature_valid msg
        then (handle_resolver_scan_timeout d >> act ack)
        else raise attribute_error)
      (λ e. act (nack false))

-- ResolverResultsAgent; `dispatched` is how OrchestrationDispatch answers
abbrev dispatch_scan : (String → Result (Unit {0})) → Details → Option String → Handler (Unit {0})
dispatch_scan dispatched details none = pure tt
dispatch_scan dispatched details (some scan_id) =
    call (dispatch details.orchestrator scan_id) (dispatched scan_id)

unfoldable pub results_agent :
    Result ResultMessage
    → (ResultMessage → Bool)
    → Result (Unit {0})
    → (String → Result (Unit {0}))
    → Handler (Unit {0})
results_agent decoded signature_valid logs_captured dispatched = do
  msg ← safe_deserialize_body decoded
  try
      (if signature_valid msg
        then (lift logs_captured >> dispatch_scan dispatched msg.details msg.scan_id >> act ack)
        else raise attribute_error)
      (λ e. act (nack false))
