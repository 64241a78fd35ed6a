-- ===== src/Kickoff/Admission.antt =====
-- When a kickoff may start a scan, and what its client is told.
use cxone_flow_buildwork.Prelude.{
  ◌<◌, ◌≤◌, length, String, ◌≡◌, Bool, false, none, some, List, [], arith,
}
use cxone_flow_buildwork.Prelude.Run.{ok, raised, attribute_error}
use cxone_flow_buildwork.Orchestration.Types.{ScanAction}
use cxone_flow_buildwork.Kickoff.{
  ExecutingScan, KickoffServices, fresh, execute, kickoff_impl, Status,
}

module _ (k : KickoffServices) (branch : String) where
  -- The push workflow is entered only below the limit on running kickoff scans, with no scan on
  -- the branch and no kickoff scan of the project: if one of the three fails, no call is made and
  -- no scan is recorded as started.
  pub refused_does_nothing :
      (running completed : List ExecutingScan) (exists : Bool)
      → k.running_ko_scans ≡ ok running
      → k.one_scan_exists_on_branch k.project_name branch ≡ ok exists
      → k.completed_ko_scans k.project_name ≡ ok completed
      → ¬ ((exists ≡ false) × (length running < k.max_concurrent_scans) × (completed ≡ []))
      → ((execute k branch fresh).1.calls ≡ [])
        × ((execute k branch fresh).1.started_scan ≡ none)
        × ((execute k branch fresh).1.executing_scans ≡ running)
  unfolding execute
  refused_does_nothing running completed exists h1 h2 h3 h = ground arith

  -- At the limit, with no scan on the branch, the client is told TOO_MANY_SCANS and the scans
  -- that run.
  pub too_many_scans_response :
      (running : List ExecutingScan)
      → k.running_ko_scans ≡ ok running
      → k.one_scan_exists_on_branch k.project_name branch ≡ ok false
      → k.max_concurrent_scans ≤ length running
      → kickoff_impl (execute k branch fresh)
        ≡ ok (Status.too_many_scans, some (record { running_scans = running; started_scan = none }))
  unfolding execute kickoff_impl
  too_many_scans_response running h1 h2 h = ground arith

  -- Where every check passes and the push workflow returns no scan, because it was delegated to
  -- an agent or skipped, the kickoff ends in an AttributeError that the endpoint does not catch.
  pub delegated_kickoff_fails :
      (running : List ExecutingScan) (action : ScanAction)
      → k.running_ko_scans ≡ ok running
      → k.one_scan_exists_on_branch k.project_name branch ≡ ok false
      → length running < k.max_concurrent_scans
      → k.completed_ko_scans k.project_name ≡ ok []
      → (k.push_scan_workflow []).0 ≡ ok (none, action)
      → kickoff_impl (execute k branch fresh) ≡ raised attribute_error
  unfolding execute kickoff_impl
  delegated_kickoff_fails running action h1 h2 h3 h4 h5 = ground arith
