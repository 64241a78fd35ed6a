-- ===== src/Broker.antt =====
-- The routing keys of the workflow services (workflows/*_service.py, workflows/push.py,
-- workflows/pull_request.py) and the exchanges, queues and bindings that rabbit_config.py declares.
-- A key is the list of its dot-separated words, and so is a service moniker.
pub mod Delivery
pub mod Routing
pub mod Consumers
pub mod Examples
use cxone_flow_buildwork.Prelude.{
  String, Bool, false, ◌||◌, ◌==◌, if◌then◌else◌, Option, none, some, List, [], ◌∷◌, ◌++◌,
}
use cxone_flow_buildwork.Workflows.{
  ScanWorkflow, FeedbackWorkflow, push_gen, ScanStates, await, feedback, annotate, execute,
  state_str, feedback_str, workflow_str,
}

abbrev pub Key : Type 0
Key = List String

pub data ExchangeType : Type 0 where
  fanout topic : ExchangeType

pub data Destination : Type 0 where
  exchange queue : String → Destination

-- `destination.bind(source, key)`
pub record Binding : Type 0 where
  pub source : String
  pub source_type : ExchangeType
  pub destination : Destination
  pub key : Key

-- CxOneFlowAbstractWorkflowService, ScanPollingService
abbrev pub scan_input : String
scan_input = "cx:Scan In"

abbrev pub scan_wait : String
scan_wait = "cx:Scan Await"

abbrev pub scan_polling : String
scan_polling = "cx:Scan Polling Delivery"

abbrev pub queue_scan_wait : String
queue_scan_wait = "cx:Awaited Scans"

abbrev pub queue_scan_polling : String
queue_scan_polling = "cx:Polling Scans"

abbrev routekey_poll_binding : Key
routekey_poll_binding = "cx" ∷ "*" ∷ state_str await ∷ "*" ∷ "*" ∷ []

-- PRFeedbackService
abbrev pub scan_input_legacy : String
scan_input_legacy = "cx:pr:Scan In"

abbrev pub scan_wait_legacy : String
scan_wait_legacy = "cx:pr:Scan Await"

abbrev pub scan_polling_legacy : String
scan_polling_legacy = "cx:pr:Scan Polling Delivery"

abbrev pub scan_annotate : String
scan_annotate = "cx:pr:Scan Annotate"

abbrev pub scan_feedback : String
scan_feedback = "cx:pr:Scan Feedback"

abbrev pub queue_polling_legacy : String
queue_polling_legacy = "cx:pr:Polling Scans"

abbrev pub queue_wait_legacy : String
queue_wait_legacy = "cx:pr:Awaited Scans"

abbrev pub queue_annotate_pr : String
queue_annotate_pr = "cx:pr:PR Annotating"

abbrev pub queue_feedback_pr : String
queue_feedback_pr = "cx:pr:PR Feedback"

abbrev routekey_poll_binding_legacy : Key
routekey_poll_binding_legacy = "cx" ∷ "pr" ∷ state_str await ∷ "*" ∷ "*" ∷ []

abbrev routekey_feedback_pr : Key
routekey_feedback_pr =
    "cx" ∷ "pr" ∷ state_str feedback ∷ feedback_str FeedbackWorkflow.pr ∷ "*" ∷ []

abbrev routekey_annotate_pr : Key
routekey_annotate_pr =
    "cx" ∷ "pr" ∷ state_str annotate ∷ feedback_str FeedbackWorkflow.pr ∷ "*" ∷ []

-- PRFeedbackService.make_topic
abbrev pub pr_topic : ScanStates → ScanWorkflow → Key → Key
pr_topic state workflow moniker = "cx" ∷ "pr" ∷ state_str state ∷ workflow_str workflow ∷ moniker

-- PushFeedbackService
abbrev pub sarif_work : String
sarif_work = "cx:push:Sarif Workflows"

abbrev pub queue_sarif_gen : String
queue_sarif_gen = "cx:push:Generate Sarif"

abbrev routekey_gen_sarif : Key
routekey_gen_sarif = "cx" ∷ "push" ∷ state_str feedback ∷ feedback_str push_gen ∷ "*" ∷ []

-- PushFeedbackService.make_topic
abbrev pub push_topic : ScanStates → FeedbackWorkflow → Key → Key
push_topic state workflow moniker =
    "cx" ∷ "push" ∷ state_str state ∷ feedback_str workflow ∷ moniker

-- ResolverScanService
abbrev pub resolver_scan : String
resolver_scan = "cx:res:SCA Resolver Scan In"

abbrev pub resolver_scan_dlx : String
resolver_scan_dlx = "cx:res:SCA Resolver DLX"

abbrev pub queue_resolver_complete : String
queue_resolver_complete = "cx:res:Finished Resolver Scans"

abbrev pub queue_resolver_timeout : String
queue_resolver_timeout = "cx:res:Resolver Timeout"

abbrev sca_scan_stub : Key → Key
sca_scan_stub rest = "cx" ∷ "res" ∷ state_str execute ∷ "sca-resolver" ∷ "run-scan" ∷ rest

abbrev resolver_result_stub : Key → Key
resolver_result_stub rest = "cx" ∷ "res" ∷ "exec" ∷ "sca-resolver" ∷ "scan-complete" ∷ rest

-- make_topic_for_tag, make_routekey_for_tag; a valid tag is one word
abbrev pub topic_for_tag : String → Key → Key
topic_for_tag tag moniker = sca_scan_stub (tag ∷ moniker)

abbrev routekey_for_tag : String → Key
routekey_for_tag tag = sca_scan_stub (tag ∷ "#" ∷ [])

-- The key of a result: of the agent for a tag, or of the timeout handler, which adds no tag.
abbrev pub result_topic : Key → Key
result_topic rest = resolver_result_stub rest

-- What setup() declares for one service; `queue_name` is make_queuename_for_tag.
abbrev to_exchange : String → String → Binding
to_exchange dest src = record {
  source = src;
  source_type = fanout;
  destination = exchange dest;
  key = [];
}

abbrev to_queue : String → String → Key → Binding
to_queue dest src key = record {
  source = src;
  source_type = topic;
  destination = queue dest;
  key = key;
}

abbrev tag_bindings : (String → String) → List String → List Binding
tag_bindings queue_name [] = []
tag_bindings queue_name (tag ∷ tags) =
    to_queue (queue_name tag) resolver_scan (routekey_for_tag tag) ∷ tag_bindings queue_name tags

abbrev scan_bindings : List Binding
scan_bindings =
    to_exchange scan_wait_legacy scan_input_legacy
    ∷ to_exchange scan_wait scan_input
    ∷ to_exchange scan_feedback scan_input_legacy
    ∷ to_exchange scan_feedback scan_input
    ∷ to_exchange sarif_work scan_input
    ∷ to_exchange scan_annotate scan_input_legacy
    ∷ to_exchange scan_annotate scan_input
    ∷ to_queue queue_wait_legacy scan_wait_legacy routekey_poll_binding_legacy
    ∷ to_queue queue_scan_wait scan_wait routekey_poll_binding
    ∷ to_queue queue_polling_legacy scan_polling_legacy routekey_poll_binding_legacy
    ∷ to_queue queue_scan_polling scan_polling routekey_poll_binding
    ∷ to_queue queue_feedback_pr scan_feedback routekey_feedback_pr
    ∷ to_queue queue_sarif_gen sarif_work routekey_gen_sarif
    ∷ to_queue queue_annotate_pr scan_annotate routekey_annotate_pr
    ∷ []

abbrev resolver_bindings : (String → String) → List String → List Binding
resolver_bindings queue_name tags =
    to_queue queue_resolver_timeout resolver_scan_dlx ("cx" ∷ "res" ∷ "#" ∷ [])
    ∷ (tag_bindings queue_name tags
        ++ to_queue queue_resolver_complete resolver_scan (resolver_result_stub ("#" ∷ [])) ∷ [])

unfoldable pub setup : (String → String) → List String → List Binding
setup queue_name tags = scan_bindings ++ resolver_bindings queue_name tags

-- `x-dead-letter-exchange` of the queues that have one
abbrev pub is_request_queue : (String → String) → List String → String → Bool
is_request_queue queue_name [] name = false
is_request_queue queue_name (tag ∷ tags) name =
    name == queue_name tag || is_request_queue queue_name tags name

unfoldable pub dead_letter_exchange : (String → String) → List String → String → Option String
dead_letter_exchange queue_name tags name =
    if name == queue_wait_legacy
    then some scan_polling_legacy
    else if name == queue_scan_wait
    then some scan_polling
    else if is_request_queue queue_name tags name
    then some resolver_scan_dlx
    else none
