-- ===== src/Kickoff.antt =====
-- The kickoff of a first scan: orchestration/kickoff/__init__.py, kickoff_services/__init__.py and
-- __kickoff_impl of wsgi.py.
pub mod Admission
pub mod Tokens
mod Examples
use text.Mathlib.Text.{starts_with}
use cxone_flow_buildwork.Prelude.{
  ℕ, leb, String, Bool, true, false, Option, none, some, List, [], ◌∷◌, ◌++◌, length, if◌then◌else◌,
}
use cxone_flow_buildwork.Prelude.Dict.{Dict, get, put}
use cxone_flow_buildwork.Prelude.Run.{
  Raised, attribute_error, key_error, Result, ok, raised, Run, pure, raise, lift, try, ◌>>=◌, ◌>>◌,
}
use cxone_flow_buildwork.Orchestration.Types.{Inspector, ScanAction, executing, Orch, Call}
use cxone_flow_buildwork.Orchestration.Scan.{Outcome}

-- cxoneflow_kickoff_api: ExecutingScan and KickoffResponseMsg
pub record ExecutingScan : Type 0 where
  pub project_name : String
  pub project_id : String
  pub scan_id : String
  pub scan_branch : String

pub record KickoffResponseMsg : Type 0 where
  pub running_scans : List ExecutingScan
  pub started_scan : Option ExecutingScan

-- KickoffStatusCodes
pub data Status : Type 0 where
  scan_started scan_exists bad_request not_authorized no_route too_many_scans server_error : Status

abbrev pub status_code : Status → ℕ
status_code scan_started = 201
status_code scan_exists = 299
status_code bad_request = 400
status_code not_authorized = 401
status_code no_route = 403
status_code too_many_scans = 429
status_code server_error = 500

-- What the kickoff asks of CheckmarxOne, and the push workflow that it ends in.
pub record KickoffServices : Type 0 where
  pub running_ko_scans : Result (List ExecutingScan)
  pub one_scan_exists_on_branch : String → String → Result Bool
  pub max_concurrent_scans : ℕ
  pub completed_ko_scans : String → Result (List ExecutingScan)
  pub project_name : String
  pub push_scan_workflow : Orch Outcome

-- The orchestrator's fields __executing_scans and __started_scan, and the calls of the workflow.
pub record KickoffState : Type 0 where
  pub executing_scans : List ExecutingScan
  pub started_scan : Option ExecutingScan
  pub calls : List Call

abbrev pub fresh : KickoffState
fresh = record { executing_scans = []; started_scan = none; calls = [] }

abbrev pub Kick : Type 0 → Type 0
Kick A = Run KickoffState A

-- __init__: `^http.*` decides between the two protocols; a later url replaces an earlier one
unfoldable pub clone_urls_of : List String → Dict String → Dict String
unfolding put
clone_urls_of [] urls = urls
clone_urls_of (url ∷ rest) urls =
    clone_urls_of rest (put urls (if starts_with url "http" then "http" else "ssh") url)

-- Cloner.select_protocol_from_supported, and the subscript that follows it
unfoldable pub select_protocol : (String → Bool) → List String → Option String
select_protocol matches [] = none
select_protocol matches (x ∷ xs) = if matches x then some x else select_protocol matches xs

abbrev keys : Dict String → List String
keys [] = []
keys ((k, v) ∷ d) = k ∷ keys d

abbrev subscript : Dict String → Option String → Result (Option String)
subscript urls none = raised key_error
subscript urls (some protocol) = elim (get urls protocol) [
  | none ↦ raised key_error
  | some url ↦ ok (some url)
]

unfoldable pub repo_clone_url : (String → Bool) → Dict String → Result (Option String)
unfolding select_protocol get
repo_clone_url matches urls = subscript urls (select_protocol matches (keys urls))

module _ (k : KickoffServices) (branch : String) where
  abbrev set_executing : List ExecutingScan → Kick (Unit {0})
  set_executing scans st = (ok tt, record st { executing_scans = scans })

  abbrev set_started : ExecutingScan → Kick (Unit {0})
  set_started scan st = (ok tt, record st { started_scan = some scan })

  abbrev run_workflow : Orch Outcome → Kick Outcome
  run_workflow m st = let (r, calls) = m st.calls in (r, record st { calls = calls })

  -- `if test: raise e`
  abbrev refuse_if : Bool → Raised → Kick (Unit {0})
  refuse_if true e = raise e
  refuse_if false e = pure tt

  abbrev is_executing : ScanAction → Bool
  is_executing executing = true
  is_executing _ = false

  -- the last lines of execute: `inspector.project_id` of None is an AttributeError
  abbrev finish : Outcome → Kick Bool
  finish (none, action) = raise attribute_error
  finish (some inspector, action) =
      set_started (record {
        project_name = k.project_name;
        project_id = inspector.project_id;
        scan_id = inspector.scan_id;
        scan_branch = branch;
      })
      >> pure (is_executing action)

  unfoldable pub execute : Kick Bool
  execute = do
    running ← lift k.running_ko_scans
    set_executing running
    exists ← lift (k.one_scan_exists_on_branch k.project_name branch)
    refuse_if exists Raised.scan_exists
    refuse_if (leb k.max_concurrent_scans (length running)) Raised.too_many_scans
    completed ← lift (k.completed_ko_scans k.project_name)
    refuse_if (leb 1 (length completed)) Raised.scan_exists
    outcome ← run_workflow k.push_scan_workflow
    finish outcome

-- __kickoff_impl: the HTTP answer. What it does not catch leaves it as an exception.
abbrev running_msg : KickoffState → Option KickoffResponseMsg
running_msg st = some (record { running_scans = st.executing_scans; started_scan = none })

abbrev respond_raised : Raised → KickoffState → Result (Status × Option KickoffResponseMsg)
respond_raised Raised.scan_exists st = ok (Status.scan_exists, running_msg st)
respond_raised Raised.too_many_scans st = ok (Status.too_many_scans, running_msg st)
respond_raised Raised.route_not_found st = ok (Status.no_route, none)
respond_raised Raised.not_authorized st = ok (Status.not_authorized, none)
respond_raised e st = raised e

unfoldable pub kickoff_impl :
    Result Bool × KickoffState → Result (Status × Option KickoffResponseMsg)
kickoff_impl (ok true, st) = ok (
  Status.scan_started,
  some (record { running_scans = st.executing_scans; started_scan = st.started_scan }),
)
kickoff_impl (ok false, st) = ok (Status.bad_request, none)
kickoff_impl (raised e, st) = respond_raised e st
