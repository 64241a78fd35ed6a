-- ===== src/Scm/Azure.antt =====
-- AzureDevOpsEnterpriseOrchestrator of orchestration/adoe.py. base64, URL parsing and the
-- CloneUrlParser of the cxone_api package are given; a loop over pages has fuel.
pub mod Events
use text.Mathlib.Text.{starts_with}
use cxone_flow_buildwork.Prelude.{
  ℕ, zero, suc, String, ◌==◌, ◌<>◌, Bool, true, false, Option, none, some, List, [], ◌∷◌, ◌++◌, map,
  if◌then◌else◌,
}
use cxone_flow_buildwork.Prelude.Dict.{Dict, put}
use cxone_flow_buildwork.Prelude.Texts.{split, last_part}
use cxone_flow_buildwork.Prelude.Run.{other, Result, ok, raised, pure, raise, lift, call, ◌>>=◌}
use cxone_flow_buildwork.Orchestration.Types.{Orchestrator, Services}
use cxone_flow_buildwork.Kickoff.{repo_clone_url}
use cxone_flow_buildwork.Scm.{
  first_found, subscript, Done, nothing, request, find_pr_scans, Scm, Workflow, push_scan, pr_scan,
  Delegated, push, pr, handler_of, run_push, run_pr, run_tag_update, run_delegated_push,
  run_delegated_pr,
}
use cxone_flow_buildwork.Scm.Branches.{normalize_branch_name, dedupe}
use cxone_flow_buildwork.Scm.Bitbucket.{join_slash}
unfoldable pub use Events.*

module _ (env : Environment) (p : Payload) (delegated_scan : Bool) where
  unfoldable pub read_policies : ℕ → ℕ → Scm Added
  unfolding policy_branches
  read_policies zero page = raise (other 0)
  read_policies (suc fuel) page =
      let rest = read_policies fuel (suc page) in
      do
        (policies, continued) ← call (request "policy/configurations") (env.policies page)
        added ← lift (policy_branches p.repo_id policies)
        if continued
            then (do more ← rest; pure (added.0 ++ more.0, added.1 ++ more.1))
            else pure added

  unfoldable pub read_matching : List String → ℕ → ℕ → Scm (List String)
  unfolding matching normalize_branch_name
  read_matching prefixes zero page = raise (other 0)
  read_matching prefixes (suc fuel) page =
      let rest = read_matching prefixes fuel (suc page) in
      do
        (refs, continued) ← call (request "refs") (env.refs page)
        let found = matching prefixes (dedupe (map normalize_branch_name refs))
        if continued then (do more ← rest; pure (found ++ more)) else pure found

  with_prefixes : Added → Scm (List String)
  unfolding read_matching
  with_prefixes (branches, []) = pure branches
  with_prefixes (branches, prefix ∷ prefixes) = do
    found ← read_matching (prefix ∷ prefixes) env.fuel 0
    pure (branches ++ found)

  -- __get_protected_branches_from_policies
  unfoldable pub get_protected_branches_from_policies : Scm (List String)
  unfolding with_prefixes read_policies
  get_protected_branches_from_policies = do
    added ← read_policies env.fuel 0
    branches ← with_prefixes added
    pure (dedupe branches)

  -- _get_protected_branches, on the default branches that were found
  unfoldable pub get_protected_branches : List String → Scm (List String)
  get_protected_branches default_branches = do
    branches ← get_protected_branches_from_policies
    pure (default_branches ++ branches)

  -- __clone_urls of __common_execution_steps
  unfoldable pub clone_urls : String → Dict String
  unfolding put
  clone_urls ssh_url = put ((env.scheme p.remote_url, p.remote_url) ∷ []) "ssh" ssh_url

  abbrev built : (source hash target id status state ssh_url : String) → List String → Orchestrator
  built source hash target id status state ssh_url branches = record {
    source_branch = some source;
    source_hash = some hash;
    target_branch = some target;
    protected_branches = ok branches;
    clone_url = repo_clone_url env.matches (clone_urls ssh_url);
    default_project_name = env.org <> "/" <> p.project_name <> "/" <> p.repo_name;
    pr_id = id;
    pr_status = status;
    pr_state = state;
    project_key = p.project_name;
    slug = p.repo_name;
    organization = p.collection;
    delegated_scan = delegated_scan;
  }

  abbrev head_found : List String → Result String
  head_found [] = first_found none
  head_found (x ∷ xs) = ok x

  unfoldable pub populate_common_push_data : String → Scm (List String → Orchestrator)
  unfolding normalize_branch_name
  populate_common_push_data ssh_url = do
    ref ← lift (head_found p.ref_names)
    hash ← lift (head_found p.new_object_ids)
    let branch = normalize_branch_name ref
    pure (built branch hash branch "" "" "" ssh_url)

  abbrev pr_status : List String → String
  pr_status [] = "NO_REVIEWERS"
  pr_status (x ∷ xs) = join_slash (x ∷ xs)

  unfoldable pub populate_common_pr_data : String → Scm (List String → Orchestrator)
  unfolding normalize_branch_name statuses_of
  populate_common_pr_data ssh_url = do
    source ← lift (first_found p.source_ref)
    target ← lift (first_found p.target_ref)
    hash ← lift (first_found p.source_commit)
    target_hash ← lift (first_found p.target_commit)
    id ← lift (first_found p.pull_request_id)
    statuses ← lift (statuses_of p.votes)
    state ← lift (first_found p.status)
    pure (
        built (normalize_branch_name source) hash (normalize_branch_name target) id
          (pr_status (dedupe statuses)) state ssh_url)

  unfoldable pub execute_push_scan_workflow : String → Scm Done
  unfolding normalize_branch_name
  execute_push_scan_workflow ssh_url = do
    orchestrator ← populate_common_push_data ssh_url
    branches ← get_protected_branches (map normalize_branch_name p.default_branches)
    run_push env.services (orchestrator branches)

  scan_with : (List String → Orchestrator) → Option String → Scm Done
  unfolding normalize_branch_name
  scan_with orchestrator none = pure nothing
  scan_with orchestrator (some default_branch) = do
    branches ← get_protected_branches (normalize_branch_name default_branch ∷ [])
    run_pr env.services (orchestrator branches)

  scan_unless_found : (List String → Orchestrator) → List String → Scm Done
  unfolding scan_with
  scan_unless_found orchestrator [] = do
    details ← call (request "repositories") env.repo_details
    scan_with orchestrator details
  scan_unless_found orchestrator (scan ∷ scans) = run_tag_update env.services (orchestrator [])

  unfoldable pub execute_pr_scan_workflow : String → Scm Done
  unfolding scan_unless_found
  execute_pr_scan_workflow ssh_url = do
    draft ← lift (first_found p.is_draft)
    if draft then (do link ← lift (first_found p.self_link); pure nothing) else (do
      orchestrator ← populate_common_pr_data ssh_url
      let o = orchestrator []
      let name = env.services.project_name o.default_project_name
      existing ←
          call (find_pr_scans name o.pr_id o.source_hash)
            (env.found_scans name o.pr_id o.source_hash)
      scan_unless_found orchestrator existing)

  -- __common_execution_steps, which asks for the repository's ssh url
  abbrev common_execution_steps : (String → Scm Done) → Scm Done
  common_execution_steps handler = do
    ssh_url ← call (request "repositories") env.ssh_url
    handler ssh_url

  dispatch : Option Workflow → Scm Done
  dispatch (some push_scan) = common_execution_steps execute_push_scan_workflow
  dispatch (some pr_scan) = common_execution_steps execute_pr_scan_workflow
  dispatch _ = pure nothing

  dispatch_delegated : Option Delegated → String → Scm Done
  dispatch_delegated none scan_id = pure nothing
  dispatch_delegated (some push) scan_id = common_execution_steps λ ssh_url. do
    orchestrator ← populate_common_push_data ssh_url
    run_delegated_push env.services (orchestrator []) scan_id
  dispatch_delegated (some pr) scan_id = common_execution_steps λ ssh_url. do
    orchestrator ← populate_common_pr_data ssh_url
    run_delegated_pr env.services (orchestrator []) scan_id

unfoldable pub workflow_map : Dict Workflow
workflow_map =
    ("git.push", push_scan)
    ∷ ("git.pullrequest.created", pr_scan)
    ∷ ("git.pullrequest.updated", pr_scan)
    ∷ []

unfoldable pub delegate_scan_handler_map : Dict Delegated
delegate_scan_handler_map =
    ("git.push", push) ∷ ("git.pullrequest.created", pr) ∷ ("git.pullrequest.updated", pr) ∷ []

module _ (env : Environment) (p : Payload) where
  unfoldable pub execute : Scm Done
  unfolding dispatch
  execute = dispatch env p false (handler_of workflow_map (some p.event_type))

  unfoldable pub handle_delegated_scan : String → Scm Done
  unfolding dispatch_delegated
  handle_delegated_scan =
      dispatch_delegated env p true (handler_of delegate_scan_handler_map (some p.event_type))

-- is_signature_valid: the last part of the header is decoded, and what stands after its last colon
-- is compared with the secret; `decode` is base64 and UTF-8
abbrev compare_secret : Result String → String → Result Bool
compare_secret (raised e) shared_secret = raised e
compare_secret (ok decoded) shared_secret = ok (last_part "" (split 58 decoded) == shared_secret)

unfoldable pub is_signature_valid : (String → Result String) → Option String → String → Result Bool
unfolding split last_part
is_signature_valid decode none shared_secret = ok false
is_signature_valid decode (some auth) shared_secret =
    compare_secret (decode (last_part "" (split 32 auth))) shared_secret
