-- ===== src/Orchestration/Scan.antt =====
-- orchestration/base.py: how one event becomes a scan. `None` results are `none`.
pub mod Counts
pub mod Clone
pub mod Gate
pub mod Feedback
mod Examples
use cxone_flow_buildwork.Prelude.{
  ℕ, zero, suc, ltb, leb, String, ◌==◌, Bool, true, false, not, ◌&&◌, Option, none, some, List, [],
  ◌∷◌, contains, if◌then◌else◌,
}
use cxone_flow_buildwork.Prelude.Dict.{Dict, get, update}
use cxone_flow_buildwork.Prelude.Run.{
  Raised, clone_auth, workflow_error, orchestration_error, type_error, Result, Run, pure, raise,
  lift, call, try, ◌>>=◌, ◌>>◌,
}
use cxone_flow_buildwork.Workflows.{ScanWorkflow, workflow_str}
use cxone_flow_buildwork.Orchestration.Types.{
  ScanAction, delegated, executing, skipped, failed, complete, Inspector, ProjectConfig,
  PushDetails, PrDetails, Orchestrator, Call, load_project, request_resolver, clone, reset_head,
  zip_tree, execute_scan, load_inspector, start_sarif_feedback, start_pr_scan_workflow,
  update_scan_pr_tags, Services, Orch,
}

abbrev pub Outcome : Type 0
Outcome = Option Inspector × ScanAction

-- `x in set(xs)`, where x may be None
abbrev pub member : Option String → List String → Bool
member none xs = false
member (some x) xs = contains x xs

-- CxOneService.get_resolver_tag_for_project: an empty or missing tag leaves the default.
abbrev nonempty : Option String → Bool
nonempty none = false
nonempty (some t) = not (t == "")

abbrev choose_tag : Option (Option String) → Option String → Option String
choose_tag none default_tag = default_tag
choose_tag (some possible_tag) default_tag =
    if nonempty possible_tag then possible_tag else default_tag

unfoldable pub get_resolver_tag_for_project : ProjectConfig → String → Option String → Option String
unfolding get
get_resolver_tag_for_project project tag_key default_tag =
    choose_tag (get project.tags tag_key) default_tag

-- except CloneAuthException, except WorkflowException
abbrev pub is_clone_auth : Raised → Bool
is_clone_auth clone_auth = true
is_clone_auth _ = false

abbrev pub is_workflow_error : Raised → Bool
is_workflow_error workflow_error = true
is_workflow_error _ = false

module _ (s : Services) where
  -- exec_local_scan: zip the tree, submit it
  unfoldable pub exec_local_scan :
      String → Option String → Dict (Option String) → Orch (Inspector × ScanAction)
  exec_local_scan code_path source_branch tags = do
    call (zip_tree code_path) (s.zip_files code_path)
    inspector ← call (execute_scan source_branch tags) (s.submit_scan source_branch tags)
    pure (inspector, executing)

  -- the body of the `try` in exec_clone_scan
  unfoldable pub clone_once :
      String
      → Option String
      → Option String
      → Dict (Option String)
      → Bool
      → Orch (Inspector × ScanAction)
  unfolding exec_local_scan
  clone_once clone_url source_hash source_branch tags force_reauth = do
    code_path ← call (clone clone_url force_reauth) (s.clone_to clone_url force_reauth)
    call (reset_head code_path source_hash) (s.reset_to code_path source_hash)
    exec_local_scan code_path source_branch tags

  -- `while clone_auth_fails <= 1`; the first argument is 2 - clone_auth_fails, and the loop that
  -- ends by its condition falls off the end of the function.
  unfoldable pub clone_rounds :
      ℕ
      → ℕ
      → String
      → Option String
      → Option String
      → Dict (Option String)
      → Orch (Option (Inspector × ScanAction))
  clone_rounds zero fails clone_url source_hash source_branch tags = pure none
  clone_rounds (suc left) fails clone_url source_hash source_branch tags =
      let rest = clone_rounds left (suc fails) clone_url source_hash source_branch tags in
      try
        (do
          done ← clone_once clone_url source_hash source_branch tags (ltb 0 fails)
          pure (some done))
        (λ e. if is_clone_auth e && leb fails 1 then rest else raise e)

  unfoldable pub exec_clone_scan :
      String
      → Option String
      → Option String
      → Dict (Option String)
      → Orch (Option (Inspector × ScanAction))
  unfolding clone_rounds
  exec_clone_scan = clone_rounds 2 0

-- `inspector, action = …` on what exec_clone_scan returned: None cannot be unpacked.
abbrev pub unpack : Option (Inspector × ScanAction) → Orch Outcome
unpack none = raise type_error
unpack (some (inspector, action)) = pure (some inspector, action)

-- The members of a push or a pull-request event that only need the services' cloner.
abbrev pub push_details : Orchestrator → Option String → PushDetails
push_details o url = record {
  clone_url = url;
  repo_project = o.project_key;
  repo_slug = o.slug;
  organization = o.organization;
  source_branch = o.source_branch;
  commit_hash = o.source_hash;
}

abbrev pub pr_details : Orchestrator → Option String → PrDetails
pr_details o url = record {
  clone_url = url;
  repo_project = o.project_key;
  repo_slug = o.slug;
  organization = o.organization;
  source_branch = o.source_branch;
  pr_id = o.pr_id;
  target_branch = o.target_branch;
}

module _ (s : Services) (o : Orchestrator) where
  -- `if resolver_tag is not None: if await …request_resolver_scan(…): return DELEGATED`
  request_for_tag : Option String → String → ScanWorkflow → Orch Bool
  request_for_tag none clone_url workflow = pure false
  request_for_tag (some tag) clone_url workflow =
      call (request_resolver tag clone_url workflow) (s.request_resolver_scan tag clone_url)

  -- the `try … except WorkflowException` around it; true stands for the early return
  unfoldable pub delegate : ProjectConfig → String → ScanWorkflow → Orch Bool
  unfolding request_for_tag get_resolver_tag_for_project
  delegate project clone_url workflow =
      if o.delegated_scan
      then pure false
      else try
          (request_for_tag (get_resolver_tag_for_project project s.project_tag_key s.default_tag)
            clone_url workflow)
          (λ e. if is_workflow_error e then pure false else raise e)

  unfoldable pub local_scan : Dict (Option String) → String → Orch Outcome
  local_scan tags clone_url = do
    result ← exec_clone_scan s clone_url o.source_hash o.source_branch tags
    unpack result

  -- the branch of __orchestrate_scan for a protected target branch
  unfoldable pub scan_protected : Dict (Option String) → ScanWorkflow → String → Orch Outcome
  scan_protected tags workflow clone_url = do
    let default_name = o.default_project_name
    let dynamic_name = s.project_name default_name
    project ←
        call (load_project default_name dynamic_name clone_url)
          (s.load_project_config default_name dynamic_name clone_url)
    delegated_now ← delegate project clone_url workflow
    if delegated_now then pure (none, delegated) else local_scan tags clone_url

  require_url : Option String → Orch String
  require_url none = raise orchestration_error
  require_url (some url) = pure url

  unfoldable pub orchestrate_scan : Dict (Option String) → ScanWorkflow → Orch Outcome
  unfolding require_url
  orchestrate_scan tags workflow = do
    branches ← lift o.protected_branches
    found ← lift o.clone_url
    clone_url ← require_url found
    if member o.target_branch branches
        then scan_protected tags workflow clone_url
        else pure (none, skipped)

  -- submitted_scan_tags, with what the caller adds
  unfoldable pub push_tags : Dict (Option String) → Dict (Option String)
  push_tags scan_tags =
      update
        (("commit", o.source_hash)
          ∷ ("workflow", some (workflow_str ScanWorkflow.push))
          ∷ ("cxone-flow", some s.version)
          ∷ ("service", some s.moniker)
          ∷ [])
        scan_tags

  unfoldable pub pr_tags : Dict (Option String) → Dict (Option String)
  pr_tags scan_tags =
      update
        (("commit", o.source_hash)
          ∷ ("pr-id", some o.pr_id)
          ∷ ("pr-target", o.target_branch)
          ∷ ("pr-status", some o.pr_status)
          ∷ ("pr-state", some o.pr_state)
          ∷ ("workflow", some (workflow_str ScanWorkflow.pr))
          ∷ ("cxone-flow", some s.version)
          ∷ ("service", some s.moniker)
          ∷ [])
        scan_tags

  -- services.push.start_sarif_feedback(…, PushDetails.factory(…))
  unfoldable pub start_sarif : Inspector → Orch (Unit {0})
  start_sarif inspector = do
    url ← lift o.clone_url
    call (start_sarif_feedback inspector.project_id inspector.scan_id (push_details o url))
        (s.start_sarif inspector.project_id inspector.scan_id)

  -- __start_pr_workflow
  unfoldable pub start_pr_workflow : Inspector → Orch (Unit {0})
  start_pr_workflow inspector = do
    url ← lift o.clone_url
    call (start_pr_scan_workflow inspector.project_id inspector.scan_id (pr_details o url))
        (s.start_pr inspector.project_id inspector.scan_id)

  -- `if inspector is not None and action == EXECUTING: …`
  abbrev pub when_executing : (Inspector → Orch (Unit {0})) → Outcome → Orch (Unit {0})
  when_executing start (some inspector, executing) = start inspector
  when_executing start _ = pure tt

  unfoldable pub execute_push_scan_workflow : Dict (Option String) → Orch Outcome
  execute_push_scan_workflow scan_tags = do
    outcome ← orchestrate_scan (push_tags scan_tags) ScanWorkflow.push
    when_executing start_sarif outcome
    pure outcome

  unfoldable pub execute_pr_scan_workflow : Dict (Option String) → Orch ScanAction
  execute_pr_scan_workflow scan_tags = do
    outcome ← orchestrate_scan (pr_tags scan_tags) ScanWorkflow.pr
    when_executing start_pr_workflow outcome
    pure outcome.1

  -- _execute_delegated_push_scan_workflow
  unfoldable pub execute_delegated_push : String → Orch Outcome
  execute_delegated_push scan_id = do
    inspector ← call (load_inspector scan_id) (s.load_scan_inspector scan_id)
    if inspector.is_executing
        then (start_sarif inspector >> pure (some inspector, executing))
        else pure (some inspector, (if inspector.is_failed then failed else complete))

  -- _execute_delegated_pr_scan_workflow
  unfoldable pub execute_delegated_pr : String → Orch ScanAction
  execute_delegated_pr scan_id = do
    inspector ← call (load_inspector scan_id) (s.load_scan_inspector scan_id)
    start_pr_workflow inspector
    pure executing

  unfoldable pub execute_pr_tag_update_workflow : Orch (List String)
  execute_pr_tag_update_workflow =
      let name = s.project_name o.default_project_name in
      call (update_scan_pr_tags name o.pr_id o.source_hash o.target_branch)
        (s.update_pr_tags name o.pr_id o.source_hash)
