-- ===== src/Orchestration/Scan/Feedback.antt =====
-- The scans that a push submits and the feedback that it starts (orchestration/base.py).
use cxone_flow_buildwork.Prelude.{
  ℕ, ◌+◌, ◌≤◌, String, ◌≡◌, ◌≢◌, Bool, true, false, ◌&&◌, Option, none, some, List, [], arith,
}
use cxone_flow_buildwork.Prelude.Dict.{Dict}
use cxone_flow_buildwork.Prelude.Run.{Result, clone_auth, raised, ok}
use cxone_flow_buildwork.Workflows.{ScanWorkflow}
use cxone_flow_buildwork.Orchestration.Types.{
  Orchestrator, Services, Call, Inspector, ScanAction, ProjectConfig, skipped, delegated, executing,
}
use cxone_flow_buildwork.Orchestration.Scan.Counts.{scans, starts, scans-append, starts-append}
use cxone_flow_buildwork.Orchestration.Scan.Clone.{scans-exec_clone_scan, scans-exec_clone_scan_ok}
use cxone_flow_buildwork.Orchestration.Scan.{
  Outcome, clone_once, exec_clone_scan, delegate, local_scan, scan_protected, orchestrate_scan,
  start_sarif, execute_push_scan_workflow,
}

abbrev is_some : Option Inspector → Bool
is_some none = false
is_some (some i) = true

-- The scans that an outcome speaks of.
abbrev pub submitted : Outcome → ℕ
submitted (some inspector, action) = 1
submitted (none, action) = 0

abbrev pub is_possible : Outcome → Bool
is_possible (some inspector, executing) = true
is_possible (none, skipped) = true
is_possible (none, delegated) = true
is_possible _ = false

-- The same of a result: an exception says nothing.
abbrev possible : (Outcome → Bool) → Result Outcome → Bool
possible p (raised e) = true
possible p (ok outcome) = p outcome

abbrev is_scan_result : Outcome → Bool
is_scan_result outcome = is_possible outcome && is_some outcome.0

module _ (s : Services) (url : String) (hash branch : Option String)
    (tags : Dict (Option String)) where
  starts-clone_once :
      (force : Bool) (calls : List Call)
      → starts (clone_once s url hash branch tags force calls).1 ≡ starts calls
  unfolding clone_once
  starts-clone_once force calls = grind (arith, starts-append)

  starts-exec_clone_scan :
      (calls : List Call) → starts (exec_clone_scan s url hash branch tags calls).1 ≡ starts calls
  unfolding exec_clone_scan
  starts-exec_clone_scan calls = grind (arith, starts-clone_once)

  clone_once-executing :
      (force : Bool) (calls : List Call) {r : Inspector × ScanAction}
      → (clone_once s url hash branch tags force calls).0 ≡ ok r
      → r.1 ≡ executing
  unfolding clone_once
  clone_once-executing force calls h = ground arith

  exec_clone_scan-executing :
      (calls : List Call) {r : Inspector × ScanAction}
      → (exec_clone_scan s url hash branch tags calls).0 ≡ ok (some r)
      → r.1 ≡ executing
  unfolding exec_clone_scan
  exec_clone_scan-executing calls h = grind (arith, clone_once-executing)

module _ (s : Services) (o : Orchestrator) where
  scans-delegate :
      (project : ProjectConfig) (url : String) (w : ScanWorkflow) (calls : List Call)
      → scans (delegate s o project url w calls).1 ≡ scans calls
  unfolding delegate
  scans-delegate project url w calls = grind (arith, scans-append)

  starts-delegate :
      (project : ProjectConfig) (url : String) (w : ScanWorkflow) (calls : List Call)
      → starts (delegate s o project url w calls).1 ≡ starts calls
  unfolding delegate
  starts-delegate project url w calls = grind (arith, starts-append)

  starts-local_scan :
      (tags : Dict (Option String)) (url : String) (calls : List Call)
      → starts (local_scan s o tags url calls).1 ≡ starts calls
  unfolding local_scan
  starts-local_scan tags url calls = grind (arith, starts-exec_clone_scan)

  starts-scan_protected :
      (tags : Dict (Option String)) (w : ScanWorkflow) (url : String) (calls : List Call)
      → starts (scan_protected s o tags w url calls).1 ≡ starts calls
  unfolding scan_protected
  starts-scan_protected tags w url calls =
      grind (arith, starts-delegate, starts-local_scan, starts-append)

  starts-orchestrate_scan :
      (tags : Dict (Option String)) (w : ScanWorkflow) (calls : List Call)
      → starts (orchestrate_scan s o tags w calls).1 ≡ starts calls
  unfolding orchestrate_scan
  starts-orchestrate_scan tags w calls = grind (arith, starts-scan_protected)

  local_scan-scan_result :
      (tags : Dict (Option String)) (url : String) (calls : List Call)
      → possible is_scan_result (local_scan s o tags url calls).0 ≡ true
  unfolding local_scan
  local_scan-scan_result tags url calls = grind (arith, exec_clone_scan-executing)

  local_scan-is_possible :
      (tags : Dict (Option String)) (url : String) (calls : List Call)
      → possible is_possible (local_scan s o tags url calls).0 ≡ true
  unfolding local_scan
  local_scan-is_possible tags url calls = grind (arith, exec_clone_scan-executing)

  scan_protected-is_possible :
      (tags : Dict (Option String)) (w : ScanWorkflow) (url : String) (calls : List Call)
      → possible is_possible (scan_protected s o tags w url calls).0 ≡ true
  unfolding scan_protected
  scan_protected-is_possible tags w url calls = grind (arith, local_scan-is_possible)

  orchestrate_scan-is_possible :
      (tags : Dict (Option String)) (w : ScanWorkflow) (calls : List Call)
      → possible is_possible (orchestrate_scan s o tags w calls).0 ≡ true
  unfolding orchestrate_scan
  orchestrate_scan-is_possible tags w calls = grind (arith, scan_protected-is_possible)

module _ (s : Services) (o : Orchestrator)
    (only_cloner : (branch : Option String) (tags : Dict (Option String))
      → s.submit_scan branch tags ≢ raised clone_auth) where
  scans-local_scan :
      (tags : Dict (Option String)) (url : String) (calls : List Call)
      → scans (local_scan s o tags url calls).1 ≤ scans calls + 1
  unfolding local_scan
  scans-local_scan tags url calls =
      grind
        (arith, scans-exec_clone_scan s url o.source_hash o.source_branch tags (only_cloner _ _))

  scans-local_scan_ok :
      (tags : Dict (Option String)) (url : String) (calls : List Call) {outcome : Outcome}
      → (local_scan s o tags url calls).0 ≡ ok outcome
      → scans (local_scan s o tags url calls).1 ≡ scans calls + 1
  unfolding local_scan
  scans-local_scan_ok tags url calls h =
      grind
        (arith, scans-exec_clone_scan_ok s url o.source_hash o.source_branch tags (only_cloner _ _))

  scans-scan_protected :
      (tags : Dict (Option String)) (w : ScanWorkflow) (url : String) (calls : List Call)
      → scans (scan_protected s o tags w url calls).1 ≤ scans calls + 1
  unfolding scan_protected
  scans-scan_protected tags w url calls =
      grind (arith, scans-delegate, scans-local_scan, scans-append)

  scans-scan_protected_ok :
      (tags : Dict (Option String)) (w : ScanWorkflow) (url : String) (calls : List Call)
      {outcome : Outcome}
      → (scan_protected s o tags w url calls).0 ≡ ok outcome
      → scans (scan_protected s o tags w url calls).1 ≡ scans calls + submitted outcome
  unfolding scan_protected
  scans-scan_protected_ok tags w url calls h =
      grind
        (arith, scans-delegate s o, scans-local_scan_ok, local_scan-scan_result s o, scans-append)

  scans-orchestrate_scan :
      (tags : Dict (Option String)) (w : ScanWorkflow) (calls : List Call)
      → scans (orchestrate_scan s o tags w calls).1 ≤ scans calls + 1
  unfolding orchestrate_scan
  scans-orchestrate_scan tags w calls = grind (arith, scans-scan_protected)

  scans-orchestrate_scan_ok :
      (tags : Dict (Option String)) (w : ScanWorkflow) (calls : List Call) {outcome : Outcome}
      → (orchestrate_scan s o tags w calls).0 ≡ ok outcome
      → scans (orchestrate_scan s o tags w calls).1 ≡ scans calls + submitted outcome
  unfolding orchestrate_scan
  scans-orchestrate_scan_ok tags w calls h = grind (arith, scans-scan_protected_ok)

  -- Whatever the services answer, one push submits at most one scan and starts at most one
  -- feedback workflow. Assumed: submitting a scan does not fail with the cloner's
  -- authentication exception.
  pub one_scan_for_a_push :
      (tags : Dict (Option String))
      → (scans (execute_push_scan_workflow s o tags []).1 ≤ 1)
        × (starts (execute_push_scan_workflow s o tags []).1 ≤ 1)
  unfolding execute_push_scan_workflow start_sarif
  one_scan_for_a_push tags = (
    grind (arith, scans-orchestrate_scan, scans-append),
    grind (arith, starts-orchestrate_scan, starts-append),
  )

  -- A push that returns has either the executing scan as its outcome, with exactly one scan
  -- submitted and one feedback workflow started, or no scan (skipped or delegated), with no scan
  -- submitted and no feedback started. Assumed: submitting a scan does not fail with the
  -- cloner's authentication exception.
  pub push_outcome :
      (tags : Dict (Option String)) (outcome : Outcome)
      → (execute_push_scan_workflow s o tags []).0 ≡ ok outcome
      → (is_possible outcome ≡ true)
        × (scans (execute_push_scan_workflow s o tags []).1 ≡ submitted outcome)
        × (starts (execute_push_scan_workflow s o tags []).1 ≡ submitted outcome)
  unfolding execute_push_scan_workflow start_sarif
  push_outcome tags outcome h = (
    grind (arith, orchestrate_scan-is_possible),
    grind (arith, orchestrate_scan-is_possible, scans-orchestrate_scan_ok, scans-append),
    grind (arith, orchestrate_scan-is_possible, starts-orchestrate_scan, starts-append),
  )
