-- ===== src/Orchestration/Types.antt =====
-- What the orchestrators of orchestration/base.py are given and what they ask of the services
-- (services/__init__.py, workflows/messaging/v1/pr_details.py). Payload extraction by JSON paths
-- happens in another package: an orchestrator here has the extracted values.
use cxone_flow_buildwork.Prelude.{String, Bool, Option, List}
use cxone_flow_buildwork.Prelude.Dict.{Dict}
use cxone_flow_buildwork.Prelude.Run.{Result, Run}
use cxone_flow_buildwork.Workflows.{ScanWorkflow}

pub data ScanAction : Type 0 where
  delegated executing skipped failed complete : ScanAction

-- ScanInspector of the cxone_api package: the properties that the program reads.
pub record Inspector : Type 0 where
  pub project_id : String
  pub scan_id : String
  pub is_executing : Bool
  pub is_failed : Bool

-- ProjectRepoConfig of the cxone_api package.
pub record ProjectConfig : Type 0 where
  pub id : String
  pub tags : Dict (Option String)

pub record PushDetails : Type 0 where
  pub clone_url : Option String
  pub repo_project : String
  pub repo_slug : String
  pub organization : String
  pub source_branch : Option String
  pub commit_hash : Option String

pub record PrDetails : Type 0 where
  pub clone_url : Option String
  pub repo_project : String
  pub repo_slug : String
  pub organization : String
  pub source_branch : Option String
  pub pr_id : String
  pub target_branch : Option String

-- The overridable members of AbstractOrchestrator. A branch or a hash may be None.
pub record Orchestrator : Type 0 where
  pub source_branch : Option String
  pub source_hash : Option String
  pub target_branch : Option String
  pub protected_branches : Result (List String)
  pub clone_url : Result (Option String)
  pub default_project_name : String
  pub pr_id : String
  pub pr_status : String
  pub pr_state : String
  pub project_key : String
  pub slug : String
  pub organization : String
  pub delegated_scan : Bool

-- The calls that leave the orchestrator, in order.
pub data Call : Type 0 where
  load_project : (default_name dynamic_name clone_url : String) → Call
  request_resolver : (tag clone_url : String) → ScanWorkflow → Call
  clone : (clone_url : String) → (force_reauth : Bool) → Call
  reset_head : (code_path : String) → Option String → Call
  zip_tree : (code_path : String) → Call
  execute_scan : Option String → Dict (Option String) → Call
  load_inspector : (scan_id : String) → Call
  start_sarif_feedback : (project_id scan_id : String) → PushDetails → Call
  start_pr_scan_workflow : (project_id scan_id : String) → PrDetails → Call
  update_scan_pr_tags : (project_name pr_id : String) → Option String → Option String → Call

-- CxOneFlowServices as an orchestrator sees it: how each call would answer.
pub record Services : Type 0 where
  pub moniker : String
  pub version : String
  pub project_name : String → String
  pub load_project_config : String → String → String → Result ProjectConfig
  pub project_tag_key : String
  pub default_tag : Option String
  pub request_resolver_scan : String → String → Result Bool
  pub clone_to : String → Bool → Result String
  pub reset_to : String → Option String → Result (Unit {0})
  pub zip_files : String → Result (Unit {0})
  pub submit_scan : Option String → Dict (Option String) → Result Inspector
  pub load_scan_inspector : String → Result Inspector
  pub start_sarif : String → String → Result (Unit {0})
  pub start_pr : String → String → Result (Unit {0})
  pub update_pr_tags : String → String → Option String → Result (List String)

abbrev pub Orch : Type 0 → Type 0
Orch A = Run (List Call) A
