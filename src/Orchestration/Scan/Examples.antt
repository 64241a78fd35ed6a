-- ===== src/Orchestration/Scan/Examples.antt =====
-- Runs of the orchestration on concrete services, and the theorems at them.
use cxone_flow_buildwork.Prelude.{
  String, ◌≡◌, refl, Bool, true, false, if◌then◌else◌, Option, none, some, List, [], ◌∷◌, arith,
  ◌≢◌,
}
use cxone_flow_buildwork.Prelude.Run.{ok, raised, clone_auth, type_error}
use cxone_flow_buildwork.Prelude.Dict.{Dict}
use cxone_flow_buildwork.Orchestration.Types.{
  Orchestrator, Services, Inspector, clone, executing, skipped,
}
use cxone_flow_buildwork.Orchestration.Scan.{
  clone_once, exec_clone_scan, local_scan, execute_push_scan_workflow, execute_pr_scan_workflow,
  orchestrate_scan, scan_protected, delegate, start_sarif, push_tags, member,
}
use cxone_flow_buildwork.Orchestration.Scan.Counts.{scans, starts, clones}
use cxone_flow_buildwork.Orchestration.Scan.Clone.{local_scan-auth_failure}
use cxone_flow_buildwork.Orchestration.Scan.Gate.{unprotected_does_nothing}
use cxone_flow_buildwork.Orchestration.Scan.Feedback.{push_outcome, is_possible}

abbrev push_of : String → Orchestrator
push_of branch = record {
  source_branch = some branch;
  source_hash = some "c0ffee";
  target_branch = some branch;
  protected_branches = ok ("main" ∷ "release" ∷ []);
  clone_url = ok (some "https://scm/org/repo.git");
  default_project_name = "org/repo";
  pr_id = "7";
  pr_status = "NO_REVIEWERS";
  pr_state = "open";
  project_key = "repo";
  slug = "repo";
  organization = "org";
  delegated_scan = false;
}

abbrev scanning : Inspector
scanning = record { project_id = "p"; scan_id = "s"; is_executing = true; is_failed = false }

-- A server whose cloner fails with the cached token and, where `again`, also with a new one.
abbrev server : Bool → Services
server again = record {
  moniker = "gh-main";
  version = "2.0";
  project_name = λ name. name;
  load_project_config = λ default_name dynamic_name url. ok (record { id = "p"; tags = [] });
  project_tag_key = "resolver";
  default_tag = none;
  request_resolver_scan = λ tag url. ok false;
  clone_to = λ url force.
      if force then (if again then raised clone_auth else ok "/tmp/code") else raised clone_auth;
  reset_to = λ path hash. ok tt;
  zip_files = λ path. ok tt;
  submit_scan = λ branch tags. ok scanning;
  load_scan_inspector = λ scan. ok scanning;
  start_sarif = λ project scan. ok tt;
  start_pr = λ project scan. ok tt;
  update_pr_tags = λ project pr hash. ok [];
}

push_runs : Unit {0}
unfolding execute_push_scan_workflow orchestrate_scan scan_protected delegate local_scan
    exec_clone_scan clone_once start_sarif push_tags
push_runs = tt

push_retried :
    ((execute_push_scan_workflow (server false) (push_of "main") [] []).0
      ≡ ok (some scanning, executing))
    × (clones (execute_push_scan_workflow (server false) (push_of "main") [] []).1 ≡ 2)
unfolding push_runs
push_retried = (refl, refl)

push_skipped :
    execute_push_scan_workflow (server false) (push_of "topic") [] [] ≡ (ok (none, skipped), [])
unfolding push_runs
push_skipped = refl

submit_is_no_clone :
    (branch : Option String) (tags : Dict (Option String))
    → (server false).submit_scan branch tags ≢ raised clone_auth
submit_is_no_clone branch tags h = cc

unprotected_topic :
    (branches : List String)
    → (push_of "topic").protected_branches ≡ ok branches
    → member (some "topic") branches ≡ false
unprotected_topic branches h = ground arith

unprotected_does_nothing_example :
    ((execute_push_scan_workflow (server false) (push_of "topic") [] []).1 ≡ [])
    × ((execute_pr_scan_workflow (server false) (push_of "topic") [] []).1 ≡ [])
unprotected_does_nothing_example =
    unprotected_does_nothing (server false) (push_of "topic") [] unprotected_topic

push_outcome_example :
    (is_possible (some scanning, executing) ≡ true)
    × (scans (execute_push_scan_workflow (server false) (push_of "main") [] []).1 ≡ 1)
    × (starts (execute_push_scan_workflow (server false) (push_of "main") [] []).1 ≡ 1)
push_outcome_example =
    push_outcome (server false) (push_of "main") submit_is_no_clone [] (some scanning, executing)
      push_retried.0

local_scan-auth_failure_example :
    local_scan (server true) (push_of "main") [] "u" []
    ≡ (raised type_error, clone "u" false ∷ clone "u" true ∷ [])
local_scan-auth_failure_example =
    local_scan-auth_failure (server true) (push_of "main") [] "u" [] refl refl
