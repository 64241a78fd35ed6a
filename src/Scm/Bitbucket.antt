-- ===== src/Scm/Bitbucket.antt =====
-- BitBucketDataCenterOrchestrator of orchestration/bbdc.py. `list(set(…))` has some order: the texts
-- that are joined from one are given by the order that the model keeps.
pub mod Events
use cxone_flow_buildwork.Prelude.{
  String, ◌==◌, ◌<>◌, Bool, true, false, Option, none, some, List, [], ◌∷◌, ◌++◌, contains,
  if◌then◌else◌,
}
use cxone_flow_buildwork.Prelude.Dict.{Dict, update}
use cxone_flow_buildwork.Prelude.Run.{
  orchestration_error, Result, ok, raised, pure, raise, lift, call, ◌>>=◌,
}
use cxone_flow_buildwork.Orchestration.Types.{Orchestrator, Services}
use cxone_flow_buildwork.Kickoff.{repo_clone_url}
use cxone_flow_buildwork.Scm.{
  first_found, subscript, Done, nothing, request, Scm, Workflow, push_scan, pr_scan, pr_tag_update,
  Delegated, push, pr, handler_of, run_push, run_pr, run_tag_update, run_delegated_push,
  run_delegated_pr,
}
use cxone_flow_buildwork.Scm.Branches.{dedupe}
unfoldable pub use Events.*

-- The response of the branch model: none where it is not a success, and otherwise the display ids of
-- `development` and of `production` where they are there.
pub record Environment : Type 0 where
  pub services : Services
  pub matches : String → Bool
  pub branchmodel : Result (Option (Option String × Option String))

abbrev listed : Option String → List String
listed none = []
listed (some branch) = branch ∷ []

model_branches : Option (Option String × Option String) → Scm (List String)
unfolding dedupe
model_branches none = raise orchestration_error
model_branches (some (development, production)) =
    pure (dedupe (listed development ++ listed production))

module _ (env : Environment) (p : Payload) (delegated_scan : Bool) where
  unfoldable pub get_protected_branches : Scm (List String)
  unfolding model_branches
  get_protected_branches = do
    model ← call (request "branchmodel") env.branchmodel
    model_branches model

  abbrev built :
      (source hash target : Option String)
      → (key name slug repo id status state : String) → List String
      → Orchestrator
  built source hash target key name slug repo id status state branches = record {
    source_branch = source;
    source_hash = hash;
    target_branch = target;
    protected_branches = ok branches;
    clone_url = repo_clone_url env.matches (clone_urls p);
    default_project_name = key <> "/" <> name <> "/" <> repo;
    pr_id = id;
    pr_status = status;
    pr_state = state;
    project_key = key;
    slug = slug;
    organization = "";
    delegated_scan = delegated_scan;
  }

  unfoldable pub populate_common_push_data : Scm (List String → Orchestrator)
  populate_common_push_data = do
    (branch, hash) ← lift (push_branch_and_hash p.changes)
    key ← lift (first_found p.push_project_key)
    name ← lift (first_found p.push_project_name)
    slug ← lift (first_found p.push_slug)
    repo ← lift (first_found p.push_name)
    pure (built branch hash branch key name slug repo "" "" "")

  unfoldable pub populate_common_pr_data : Scm (List String → Orchestrator)
  populate_common_pr_data = do
    to_ref ← lift (first_found p.to_ref)
    target ← lift (subscript to_ref.display_id)
    target_hash ← lift (subscript to_ref.latest_commit)
    from_ref ← lift (first_found p.from_ref)
    source ← lift (subscript from_ref.display_id)
    source_hash ← lift (subscript from_ref.latest_commit)
    key ← lift (first_found p.pr_project_key)
    name ← lift (first_found p.pr_project_name)
    slug ← lift (first_found p.pr_slug)
    repo ← lift (first_found p.pr_name)
    id ← lift (first_found p.id)
    state ← lift (first_found p.state)
    pure (
        built (some source) (some source_hash) (some target) key name slug repo id
          (pr_status p.reviewer_status) state)

  unfoldable pub execute_push_scan_workflow : Scm Done
  execute_push_scan_workflow = do
    orchestrator ← populate_common_push_data
    branches ← get_protected_branches
    run_push env.services (orchestrator branches)

  -- `if await self.__is_pr_draft(): … return`, before a workflow
  unless_draft : Scm Done → Scm Done
  unless_draft workflow = do
    draft ← lift (first_found p.draft)
    if draft then (do link ← lift (first_found p.self_link); pure nothing) else workflow

  unfoldable pub execute_pr_scan_workflow : Scm Done
  unfolding unless_draft
  execute_pr_scan_workflow = unless_draft (do
    orchestrator ← populate_common_pr_data
    branches ← get_protected_branches
    run_pr env.services (orchestrator branches))

  unfoldable pub execute_pr_tag_update_workflow : Scm Done
  unfolding unless_draft
  execute_pr_tag_update_workflow =
      unless_draft
        (do orchestrator ← populate_common_pr_data; run_tag_update env.services (orchestrator []))

  dispatch : Option Workflow → Scm Done
  dispatch (some push_scan) = execute_push_scan_workflow
  dispatch (some pr_scan) = execute_pr_scan_workflow
  dispatch (some pr_tag_update) = execute_pr_tag_update_workflow
  dispatch _ = pure nothing

  dispatch_delegated : Option Delegated → String → Scm Done
  dispatch_delegated none scan_id = pure nothing
  dispatch_delegated (some push) scan_id = do
    orchestrator ← populate_common_push_data
    run_delegated_push env.services (orchestrator []) scan_id
  dispatch_delegated (some pr) scan_id = do
    orchestrator ← populate_common_pr_data
    run_delegated_pr env.services (orchestrator []) scan_id

unfoldable pub workflow_map : Dict Workflow
workflow_map =
    ("repo:refs_changed", push_scan)
    ∷ ("pr:opened", pr_scan)
    ∷ ("pr:modified", pr_scan)
    ∷ ("pr:from_ref_updated", pr_scan)
    ∷ ("pr:merged", pr_tag_update)
    ∷ ("pr:declined", pr_tag_update)
    ∷ ("pr:deleted", pr_tag_update)
    ∷ ("pr:reviewer:unapproved", pr_tag_update)
    ∷ ("pr:reviewer:updated", pr_tag_update)
    ∷ ("pr:reviewer:approved", pr_tag_update)
    ∷ ("pr:reviewer:needs_work", pr_tag_update)
    ∷ []

unfoldable pub delegate_scan_handler_map : Dict Delegated
delegate_scan_handler_map =
    ("repo:refs_changed", push)
    ∷ ("pr:opened", pr)
    ∷ ("pr:modified", pr)
    ∷ ("pr:from_ref_updated", pr)
    ∷ []

module _ (env : Environment) (p : Payload) where
  unfoldable pub execute : Scm Done
  unfolding dispatch
  execute = dispatch env p false (handler_of workflow_map p.event_key)

  -- `self.delegated_scan = True`, and the handler
  unfoldable pub handle_delegated_scan : String → Scm Done
  unfolding dispatch_delegated
  handle_delegated_scan =
      dispatch_delegated env p true (handler_of delegate_scan_handler_map p.event_key)
