-- ===== src/Resolver.antt =====
-- Scans delegated to a resolver agent: the service and its messages
-- (workflows/resolver_scan_service.py, workflows/resolver_workflow.py), the three agents of
-- agent/resolver. Return codes are numbers, 0 for success.
pub mod Server
pub mod Agent
pub mod TwoStage
pub mod Options
pub mod Runners
mod Examples
use cxone_flow_buildwork.Prelude.{ℕ, ◌+◌, String, Bool, false, Option, List, [], ◌∷◌, ◌++◌}
use cxone_flow_buildwork.Prelude.Dict.{Dict}
use cxone_flow_buildwork.Prelude.Run.{Raised, Result, ok, raised, Run, pure, raise, call, ◌>>◌}
use cxone_flow_buildwork.Workflows.{ScanWorkflow, ScanStates}

-- DelegatedScanDetails; the pickled services and the event's context are left out
pub record Details : Type 0 where
  pub clone_url : String
  pub commit_hash : String
  pub scan_branch : String
  pub scan_tags : Dict (Option String)
  pub file_filters : String
  pub project_id : String
  pub orchestrator : String

-- DelegatedScanMessage
pub record ScanMessage : Type 0 where
  pub moniker : String
  pub state : ScanStates
  pub workflow : ScanWorkflow
  pub correlation_id : String
  pub capture_logs : Bool
  pub details : Details
  pub details_signature : String

-- DelegatedScanResultMessage
pub record ResultMessage : Type 0 where
  pub moniker : String
  pub state : ScanStates
  pub workflow : ScanWorkflow
  pub correlation_id : String
  pub details : Details
  pub details_signature : String
  pub resolver_exit_code : Option ℕ
  pub logs : Option String
  pub scan_id : Option String

-- What leaves a handler: a scan request or a result to `cx:res:SCA Resolver Scan In`, how the
-- delivery is settled, a delegated scan dispatched, and the calls of an agent.
pub data Act : Type 0 where
  publish_scan : (route_key : String) → ScanMessage → (retries : ℕ) → Act
  publish_result : (route_key : String) → ResultMessage → Act
  ack : Act
  nack : (requeue : Bool) → Act
  dispatch : (orchestrator scan_id : String) → Act
  clone : (clone_url : String) → Act
  reset_head : (commit_hash : String) → Act
  run_resolver : (project_name : String) → Act
  copy_results : Act
  local_scan : (scan_branch : String) → Dict (Option String) → Act

abbrev pub Handler : Type 0 → Type 0
Handler A = Run (List Act) A

abbrev pub act : Act → Handler (Unit {0})
act a = call a (ok tt)

-- _safe_deserialize_body: a body that cannot be read is rejected, and the exception goes on
abbrev pub safe_deserialize_body : {M : Type 0} → Result M → Handler M
safe_deserialize_body (ok msg) = pure msg
safe_deserialize_body (raised e) = act (nack false) >> raise e

-- How often a delivery was acknowledged or rejected.
abbrev is_settling : Act → ℕ
is_settling ack = 1
is_settling (nack requeue) = 1
is_settling _ = 0

abbrev pub settled : List Act → ℕ
settled [] = 0
settled (a ∷ acts) = is_settling a + settled acts

abbrev is_result : Act → ℕ
is_result (publish_result route_key msg) = 1
is_result _ = 0

-- The results that were published.
abbrev pub results : List Act → ℕ
results [] = 0
results (a ∷ acts) = is_result a + results acts
