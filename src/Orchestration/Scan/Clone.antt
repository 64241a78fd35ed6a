-- ===== src/Orchestration/Scan/Clone.antt =====
-- The retry of exec_clone_scan in orchestration/base.py.
use cxone_flow_buildwork.Prelude.{
  ◌+◌, ◌≤◌, String, ◌≡◌, ◌≢◌, ◌↔◌, Bool, true, false, Option, none, some, List, [], ◌∷◌, ◌++◌,
  arith,
}
use cxone_flow_buildwork.Prelude.Dict.{Dict}
use cxone_flow_buildwork.Prelude.Run.{clone_auth, type_error, ok, raised}
use cxone_flow_buildwork.Orchestration.Types.{
  ScanAction, Inspector, Orchestrator, Call, clone, Services, Orch,
}
use cxone_flow_buildwork.Orchestration.Scan.Counts.{scans, clones, scans-append, clones-append}
use cxone_flow_buildwork.Orchestration.Scan.{clone_once, exec_clone_scan, local_scan}

module _ (s : Services) (url : String) (hash branch : Option String)
    (tags : Dict (Option String)) where
  abbrev once : Bool → Orch (Inspector × ScanAction)
  once = clone_once s url hash branch tags

  -- The clone with a fresh token is made exactly when the first one failed to authenticate, and
  -- exec_clone_scan returns None exactly when both did.
  pub exec_clone_scan-eq-none_iff :
      (calls : List Call)
      → ((exec_clone_scan s url hash branch tags calls).0 ≡ ok none) ↔ (
          ((once false calls).0 ≡ raised clone_auth)
          × ((once true (once false calls).1).0 ≡ raised clone_auth))
  unfolding exec_clone_scan
  exec_clone_scan-eq-none_iff calls = ground arith

  exec_clone_scan-ok :
      (calls : List Call) {a : Inspector × ScanAction}
      → (once false calls).0 ≡ ok a
      → exec_clone_scan s url hash branch tags calls ≡ (ok (some a), (once false calls).1)
  unfolding exec_clone_scan
  exec_clone_scan-ok calls h = ground arith

  clones-clone_once :
      (force : Bool) (calls : List Call)
      → clones (clone_once s url hash branch tags force calls).1 ≡ clones calls + 1
  unfolding clone_once
  clones-clone_once force calls = grind (arith, clones-append)

  -- One event clones once or twice.
  pub clones-exec_clone_scan :
      (calls : List Call)
      → (clones calls + 1 ≤ clones (exec_clone_scan s url hash branch tags calls).1)
        × (clones (exec_clone_scan s url hash branch tags calls).1 ≤ clones calls + 2)
  unfolding exec_clone_scan
  clones-exec_clone_scan calls = grind (arith, clones-clone_once)

  scans-clone_once :
      (force : Bool) (calls : List Call)
      → scans (clone_once s url hash branch tags force calls).1 ≤ scans calls + 1
  unfolding clone_once
  scans-clone_once force calls = grind (arith, scans-append)

  -- An attempt that failed to authenticate has submitted nothing, where only the cloner fails so.
  scans-clone_once_auth :
      s.submit_scan branch tags ≢ raised clone_auth
      → (force : Bool) (calls : List Call)
      → (clone_once s url hash branch tags force calls).0 ≡ raised clone_auth
      → scans (clone_once s url hash branch tags force calls).1 ≡ scans calls
  unfolding clone_once
  scans-clone_once_auth h force calls e = grind (arith, scans-append)

  pub scans-exec_clone_scan :
      s.submit_scan branch tags ≢ raised clone_auth
      → (calls : List Call)
      → scans (exec_clone_scan s url hash branch tags calls).1 ≤ scans calls + 1
  unfolding exec_clone_scan
  scans-exec_clone_scan h calls = grind (arith, scans-clone_once, scans-clone_once_auth h)

  scans-clone_once_ok :
      (force : Bool) (calls : List Call) {a : Inspector × ScanAction}
      → (clone_once s url hash branch tags force calls).0 ≡ ok a
      → scans (clone_once s url hash branch tags force calls).1 ≡ scans calls + 1
  unfolding clone_once
  scans-clone_once_ok force calls e = grind (arith, scans-append)

  pub scans-exec_clone_scan_ok :
      s.submit_scan branch tags ≢ raised clone_auth
      → (calls : List Call) {a : Inspector × ScanAction}
      → (exec_clone_scan s url hash branch tags calls).0 ≡ ok (some a)
      → scans (exec_clone_scan s url hash branch tags calls).1 ≡ scans calls + 1
  unfolding exec_clone_scan
  scans-exec_clone_scan_ok h calls e = grind (arith, scans-clone_once_ok, scans-clone_once_auth h)

-- Where both clones fail to authenticate, no CloneAuthException comes out: the result None is
-- unpacked, and the event ends with a TypeError after two clones.
pub local_scan-auth_failure :
    (s : Services) (o : Orchestrator) (tags : Dict (Option String)) (url : String)
    (calls : List Call)
    → s.clone_to url false ≡ raised clone_auth
    → s.clone_to url true ≡ raised clone_auth
    → local_scan s o tags url calls
      ≡ (raised type_error, (calls ++ clone url false ∷ []) ++ clone url true ∷ [])
unfolding local_scan exec_clone_scan clone_once
local_scan-auth_failure s o tags url calls h k = ground arith
