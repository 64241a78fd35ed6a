-- ===== src/Scm/Gitlab.antt =====
-- GitlabOrchestrator of orchestration/gl.py. `fnmatch` and `urlparse(…).scheme` of the standard
-- library are given, and so are the answers of GitLab and of CheckmarxOne.
use cxone_flow_buildwork.Prelude.{
  String, ◌==◌, ◌<>◌, Bool, true, false, Option, none, some, List, [], ◌∷◌, ◌++◌, if◌then◌else◌,
}
use cxone_flow_buildwork.Prelude.Dict.{Dict, put}
use cxone_flow_buildwork.Prelude.Texts.{split}
use cxone_flow_buildwork.Prelude.Run.{Result, ok, pure, lift, call, ◌>>=◌}
use cxone_flow_buildwork.Orchestration.Types.{Orchestrator, Services}
use cxone_flow_buildwork.Kickoff.{repo_clone_url}
use cxone_flow_buildwork.Scm.{
  first_found, Done, nothing, request, find_pr_scans, Scm, Workflow, push_scan, pr_scan, Delegated,
  push, pr, handler_of, run_push, run_pr, run_tag_update, run_delegated_push, run_delegated_pr,
}
use cxone_flow_buildwork.Scm.Branches.{normalize_branch_name, dedupe, append_if}

pub record Payload : Type 0 where
  pub message : Option String
  pub object_kind : Option String
  pub event_name : Option String
  pub before : Option String
  pub after : Option String
  pub ref : Option String
  pub ref_protected : Option Bool
  pub default_branch : Option String
  pub path_with_namespace : Option String
  pub project_id : Option String
  pub git_ssh_url : Option String
  pub git_http_url : Option String
  pub draft : Option Bool
  pub url : Option String
  pub iid : Option String
  pub state : Option String
  pub action : Option String
  pub source_branch : Option String
  pub target_branch : Option String
  pub last_commit : Option String

abbrev is : Option String → String → Bool
is none name = false
is (some value) name = value == name

abbrev pub no_hash : String
no_hash = "0000000000000000000000000000000000000000"

unfoldable pub is_diagnostic : Payload → Bool
is_diagnostic p = is p.message "Hello World"

abbrev event_type : Option String → Option String → String
event_type (some kind) event_name = kind
event_type none (some name) = name
event_type none none = "Unknown"

-- a hash of zeros before a push tells of a new branch, and after it of a deleted one
unfoldable pub sub_event : Payload → String
sub_event p =
    if is p.after no_hash
    then "branch_delete"
    else if is p.before no_hash
    then "branch_create"
    else "actual"

-- __event
unfoldable pub event_of : Payload → String
unfolding sub_event
event_of p =
    let event = event_type p.object_kind p.event_name in
    if event == "push" then event <> ":" <> sub_event p else event

abbrev put_found : Dict String → (String → String) → Option String → Dict String
put_found urls key none = urls
put_found urls key (some url) = put urls (key url) url

-- __clone_urls, with the scheme of the http url
unfoldable pub clone_urls : (String → String) → Payload → Dict String
unfolding put
clone_urls scheme p = put_found (put_found [] (λ _. "ssh") p.git_ssh_url) scheme p.git_http_url

unfoldable pub workflow_map : Dict Workflow
workflow_map =
    ("push:actual", push_scan) ∷ ("push:branch_create", push_scan) ∷ ("merge_request", pr_scan) ∷ []

unfoldable pub delegate_scan_handler_map : Dict Delegated
delegate_scan_handler_map =
    ("push:actual", push) ∷ ("push:branch_create", push) ∷ ("merge_request", pr) ∷ []

-- What lies outside: the answers about a project are its default branch and the names of its
-- protected branches, which may be wildcards.
pub record Environment : Type 0 where
  pub services : Services
  pub matches : String → Bool
  pub scheme : String → String
  pub fnmatch : String → String → Bool
  pub found_scans : (project_name pr_id : String) → (commit : Option String) → Result (List String)
  pub api_default_branch : Result (Option String)
  pub api_protected_branches : Result (List String)

abbrev default_list : Option String → List String
default_list none = []
default_list (some branch) = normalize_branch_name branch ∷ []

-- "/".join(parts[:-1])
unfoldable pub join_init : List String → String
join_init [] = ""
join_init (x ∷ []) = ""
join_init (x ∷ y ∷ []) = x
join_init (x ∷ y ∷ z ∷ rest) = x <> "/" <> join_init (y ∷ z ∷ rest)

-- the loop over the protected branches of the API
unfoldable pub add_protected :
    (String → String → Bool) → (target source : String) → List String → List String → List String
add_protected fnmatch target source branches [] = branches
add_protected fnmatch target source branches (pbranch ∷ rest) =
    let branch_value = normalize_branch_name pbranch in
    let added = branches ++ branch_value ∷ [] in
    let with_target =
      append_if (fnmatch target branch_value) added (normalize_branch_name target) in
    add_protected fnmatch target source
      (append_if (fnmatch source branch_value) with_target (normalize_branch_name source)) rest

module _ (env : Environment) (p : Payload) (delegated_scan : Bool) where
  abbrev built :
      (source hash target : String) → (path id status state : String) → List String → Orchestrator
  built source hash target path id status state branches = record {
    source_branch = some source;
    source_hash = some hash;
    target_branch = some target;
    protected_branches = ok branches;
    clone_url = repo_clone_url env.matches (clone_urls env.scheme p);
    default_project_name = path;
    pr_id = id;
    pr_status = status;
    pr_state = state;
    project_key = path;
    slug = path;
    organization = join_init (split 47 path);
    delegated_scan = delegated_scan;
  }

  -- __populate_common_push_event_data
  unfoldable pub populate_common_push_event_data : Scm Orchestrator
  populate_common_push_event_data = do
    ref ← lift (first_found p.ref)
    hash ← lift (first_found p.after)
    path ← lift (first_found p.path_with_namespace)
    ref_protected ← lift (first_found p.ref_protected)
    let branch = normalize_branch_name ref
    let protected_branches =
        append_if ref_protected [] (normalize_branch_name branch) ++ default_list p.default_branch
    pure (built branch hash branch path "" "" "" protected_branches)

  unfoldable pub execute_push_scan_workflow : Scm Done
  execute_push_scan_workflow = do
    orchestrator ← populate_common_push_event_data
    run_push env.services orchestrator

  -- __populate_common_pr_data, with the target and the source; the branches that are protected are filled in by the caller
  unfoldable pub populate_common_pr_data : Scm (String × String × (List String → Orchestrator))
  populate_common_pr_data = do
    path ← lift (first_found p.path_with_namespace)
    source ← lift (first_found p.source_branch)
    target ← lift (first_found p.target_branch)
    hash ← lift (first_found p.last_commit)
    id ← lift (first_found p.iid)
    state ← lift (first_found p.state)
    status ← lift (first_found p.action)
    let source_branch = normalize_branch_name source
    let target_branch = normalize_branch_name target
    pure (target_branch, source_branch, built source_branch hash target_branch path id status state)

  -- the protected branches of an open merge request, without the duplicates; the two requests, which the
  -- source gathers, are made one after the other
  unfoldable pub load_protected : (target source : String) → Scm (List String)
  unfolding add_protected
  load_protected target source = do
    found_default ← call (request "project") env.api_default_branch
    pbranches ← call (request "protected_branches") env.api_protected_branches
    pure (dedupe (add_protected env.fnmatch target source (default_list found_default) pbranches))

  scan_unless_closed : (target source : String) → (List String → Orchestrator) → Scm Done
  scan_unless_closed target source orchestrator =
      let o = orchestrator [] in
      if o.pr_state == "closed"
      then pure nothing
      else (do branches ← load_protected target source; run_pr env.services (orchestrator branches))

  scan_unless_found :
      (target source : String) → (List String → Orchestrator) → List String → Scm Done
  unfolding scan_unless_closed
  scan_unless_found target source orchestrator [] = scan_unless_closed target source orchestrator
  scan_unless_found target source orchestrator (scan ∷ scans) =
      run_tag_update env.services (orchestrator [])

  unfoldable pub execute_pr_scan_workflow : Scm Done
  unfolding scan_unless_found
  execute_pr_scan_workflow = do
    draft ← lift (first_found p.draft)
    if draft then (do url ← lift (first_found p.url); pure nothing) else (do
      (target, source, orchestrator) ← populate_common_pr_data
      project ← lift (first_found p.project_id)
      let o = orchestrator []
      let name = env.services.project_name o.default_project_name
      existing ←
          call (find_pr_scans name o.pr_id o.source_hash)
            (env.found_scans name o.pr_id o.source_hash)
      scan_unless_found target source orchestrator existing)

  dispatch : Option Workflow → Scm Done
  dispatch (some push_scan) = execute_push_scan_workflow
  dispatch (some pr_scan) = execute_pr_scan_workflow
  dispatch _ = pure nothing

  dispatch_delegated : Option Delegated → String → Scm Done
  dispatch_delegated none scan_id = pure nothing
  dispatch_delegated (some push) scan_id = do
    orchestrator ← populate_common_push_event_data
    run_delegated_push env.services orchestrator scan_id
  dispatch_delegated (some pr) scan_id = do
    (target, source, orchestrator) ← populate_common_pr_data
    run_delegated_pr env.services (orchestrator []) scan_id

module _ (env : Environment) (p : Payload) where
  unfoldable pub execute : Scm Done
  unfolding dispatch
  execute = dispatch env p false (handler_of workflow_map (some (event_of p)))

  -- `self.delegated_scan = True`, and the handler
  unfoldable pub handle_delegated_scan : String → Scm Done
  unfolding dispatch_delegated
  handle_delegated_scan =
      dispatch_delegated env p true (handler_of delegate_scan_handler_map (some (event_of p)))

-- is_signature_valid: the token that was sent, or None, is compared with the secret
unfoldable pub is_signature_valid : Option String → String → Bool
is_signature_valid token shared_secret = is token shared_secret
