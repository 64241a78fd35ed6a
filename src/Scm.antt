-- ===== src/Scm.antt =====
-- What the orchestrators of the four SCMs share (orchestration/gh.py, gl.py, adoe.py, bbdc.py, and
-- the parts of orchestration/base.py and services/__init__.py that they use). Values are extracted
-- from a payload by JSON paths in another package: a path without a wildcard is an option here, and a
-- path with one is a list.
pub mod Branches
pub mod Github
pub mod Gitlab
pub mod Bitbucket
pub mod Azure
pub mod Delegation
pub mod Gates
pub mod Protection
pub mod Signatures
pub mod Pushes
pub mod Install
mod Examples
use cxone_flow_buildwork.Prelude.{
  String, Bool, true, false, Option, none, some, List, [], ◌∷◌, ◌++◌,
}
use cxone_flow_buildwork.Prelude.Dict.{Dict, get}
use cxone_flow_buildwork.Prelude.Run.{
  index_error, key_error, Result, ok, raised, Run, pure, call, lift, ◌>>=◌,
}
use cxone_flow_buildwork.Orchestration.Types.{Orchestrator, ScanAction, Call, Services, Orch}
use cxone_flow_buildwork.Orchestration.Scan.{
  Outcome, execute_push_scan_workflow, execute_pr_scan_workflow, execute_delegated_push,
  execute_delegated_pr, execute_pr_tag_update_workflow,
}

-- `query.find(…)[0].value` and `query.find(…).pop().value`
abbrev pub first_found {ℓ} : {A : Type ℓ} → Option A → Result A
first_found none = raised index_error
first_found (some a) = ok a

-- d[key]
abbrev pub subscript {ℓ} : {A : Type ℓ} → Option A → Result A
subscript none = raised key_error
subscript (some a) = ok a

-- What an event's handling returns: None, or what the workflow does.
pub data Done : Type 0 where
  nothing : Done
  scanned : Outcome → Done
  acted : ScanAction → Done
  updated : List String → Done

-- The calls: requests to the SCM, the search for scans of a pull request, and those of a workflow.
pub data ScmCall : Type 0 where
  request : (path : String) → ScmCall
  find_pr_scans : (project_name pr_id : String) → (commit : Option String) → ScmCall
  scan : Call → ScmCall

abbrev pub Scm : Type 0 → Type 0
Scm A = Run (List ScmCall) A

unfoldable pub scan_calls : List Call → List ScmCall
scan_calls [] = []
scan_calls (c ∷ cs) = scan c ∷ scan_calls cs

-- A workflow of AbstractOrchestrator writes its own calls down; they follow those before it.
abbrev pub within : {A : Type 0} → Orch A → Scm A
within m calls = let (r, own) = m [] in (r, calls ++ scan_calls own)

-- the values of `__workflow_map`
pub data Workflow : Type 0 where
  log_install push_scan pr_scan pr_tag_update : Workflow

-- the values of `__delegate_scan_handler_map`
pub data Delegated : Type 0 where
  push pr : Delegated

-- The delegated handler that belongs to a workflow that scans.
abbrev pub delegated_of : Workflow → Option Delegated
delegated_of log_install = none
delegated_of push_scan = some push
delegated_of pr_scan = some pr
delegated_of pr_tag_update = none

abbrev pub delegated_of_found : Option Workflow → Option Delegated
delegated_of_found none = none
delegated_of_found (some workflow) = delegated_of workflow

-- `event in map.keys()` and `map[event]`, where the event may be None
abbrev pub handler_of : {A : Type 0} → Dict A → Option String → Option A
handler_of handlers none = none
handler_of handlers (some event) = get handlers event

module _ (s : Services) (o : Orchestrator) where
  -- the four workflows of AbstractOrchestrator, on the data that the SCM's orchestrator has populated
  abbrev pub run_push : Scm Done
  run_push = do outcome ← within (execute_push_scan_workflow s o []); pure (scanned outcome)

  abbrev pub run_pr : Scm Done
  run_pr = do action ← within (execute_pr_scan_workflow s o []); pure (acted action)

  abbrev pub run_tag_update : Scm Done
  run_tag_update = do ids ← within (execute_pr_tag_update_workflow s o); pure (updated ids)

  abbrev pub run_delegated_push : String → Scm Done
  run_delegated_push scan_id = do
    outcome ← within (execute_delegated_push s o scan_id)
    pure (scanned outcome)

  abbrev pub run_delegated_pr : String → Scm Done
  run_delegated_pr scan_id = do
    action ← within (execute_delegated_pr s o scan_id)
    pure (acted action)
