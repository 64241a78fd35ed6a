-- ===== src/Orchestration/Scan/Gate.antt =====
-- The test for a protected target branch in orchestration/base.py.
use cxone_flow_buildwork.Prelude.{String, ◌≡◌, false, Option, List, [], arith}
use cxone_flow_buildwork.Prelude.Dict.{Dict}
use cxone_flow_buildwork.Prelude.Run.{ok}
use cxone_flow_buildwork.Orchestration.Types.{Orchestrator, Services}
use cxone_flow_buildwork.Orchestration.Scan.{
  member, orchestrate_scan, execute_push_scan_workflow, execute_pr_scan_workflow,
}

module _ (s : Services) (o : Orchestrator) (tags : Dict (Option String)) where
  -- If the target branch is in no answer about protected branches, neither a push nor a pull
  -- request makes any call: nothing is cloned, scanned, delegated or fed back, also on an error.
  pub unprotected_does_nothing :
      ((branches : List String)
        → o.protected_branches ≡ ok branches
        → member o.target_branch branches ≡ false)
      → ((execute_push_scan_workflow s o tags []).1 ≡ [])
        × ((execute_pr_scan_workflow s o tags []).1 ≡ [])
  unfolding execute_push_scan_workflow execute_pr_scan_workflow orchestrate_scan
  unprotected_does_nothing h = grind arith
