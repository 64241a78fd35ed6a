-- ===== src/Scm/Gates.antt =====
-- The events that no scan follows.
use cxone_flow_buildwork.Prelude.{
  String, ◌≡◌, true, false, Option, some, List, [], ◌∷◌, ◌++◌, All, All-append, arith,
}
use cxone_flow_buildwork.Prelude.Dict.{get}
use cxone_flow_buildwork.Prelude.Run.{ok}
use cxone_flow_buildwork.Orchestration.Types.{update_scan_pr_tags, Services, Orchestrator}
use cxone_flow_buildwork.Orchestration.Scan.{execute_pr_tag_update_workflow}
use cxone_flow_buildwork.Scm.{
  nothing, ScmCall, request, find_pr_scans, scan, scan_calls, run_tag_update,
}
use cxone_flow_buildwork.Scm.Github
use cxone_flow_buildwork.Scm.Gitlab
use cxone_flow_buildwork.Scm.Azure
use cxone_flow_buildwork.Scm.Bitbucket

-- What is not a scan: a request to the SCM, the search for scans, and the update of their tags.
abbrev pub IsUpdate : ScmCall → Type 0
IsUpdate (request path) = Unit
IsUpdate (find_pr_scans name id commit) = Unit
IsUpdate (scan (update_scan_pr_tags name id commit target)) = Unit
IsUpdate (scan _) = ⊥

run_tag_update-IsUpdate :
    (s : Services) (o : Orchestrator) (calls : List ScmCall)
    → All IsUpdate calls
    → All IsUpdate (run_tag_update s o calls).1
unfolding execute_pr_tag_update_workflow scan_calls
run_tag_update-IsUpdate s o calls h = ground (
  arith,
  All-append IsUpdate calls
      (scan (
          update_scan_pr_tags (s.project_name o.default_project_name) o.pr_id o.source_hash
            o.target_branch)
        ∷ [])
      h (tt, tt),
)

-- A draft is not scanned: the pull-request scan workflows of all four orchestrators make no call for
-- it, and neither does Bitbucket's tag update, also on an error; GitHub's tag update, which has no test
-- for drafts, at most updates the tags of scans. Azure DevOps' one call for each event stands before.
pub draft_does_nothing :
    (gh : Github.Environment) (gh_p : Github.Payload) (gl : Gitlab.Environment)
    (gl_p : Gitlab.Payload) (az : Azure.Environment) (az_p : Azure.Payload)
    (bb : Bitbucket.Environment) (bb_p : Bitbucket.Payload) (ssh_url : String)
    (calls : List ScmCall)
    → gh_p.is_draft ≡ some true
    → gl_p.draft ≡ some true
    → az_p.is_draft ≡ some true
    → bb_p.draft ≡ some true
    → ((Github.execute_pr_scan_workflow gh gh_p false calls).1 ≡ calls)
      × ((Gitlab.execute_pr_scan_workflow gl gl_p false calls).1 ≡ calls)
      × ((Azure.execute_pr_scan_workflow az az_p false ssh_url calls).1 ≡ calls)
      × ((Bitbucket.execute_pr_scan_workflow bb bb_p false calls).1 ≡ calls)
      × ((Bitbucket.execute_pr_tag_update_workflow bb bb_p false calls).1 ≡ calls)
      × All IsUpdate (Github.execute_pr_tag_update_workflow gh gh_p false []).1
unfolding Github.execute_pr_scan_workflow Github.populate_common_pr_data
    Gitlab.execute_pr_scan_workflow Azure.execute_pr_scan_workflow
    Bitbucket.execute_pr_scan_workflow Bitbucket.execute_pr_tag_update_workflow
    Github.execute_pr_tag_update_workflow
draft_does_nothing gh gh_p gl gl_p az az_p bb bb_p ssh_url calls h1 h2 h3 h4 = (
  ground arith,
  ground arith,
  ground arith,
  ground arith,
  ground arith,
  grind (arith, run_tag_update-IsUpdate),
)

-- A push to GitLab after which the branch's hash is zeros, so that the branch is gone, comes to no
-- workflow: its handling returns None with no call made.
pub deletion_does_nothing :
    (env : Gitlab.Environment) (p : Gitlab.Payload) (calls : List ScmCall)
    → p.object_kind ≡ some "push"
    → p.after ≡ some Gitlab.no_hash
    → Gitlab.execute env p calls ≡ (ok nothing, calls)
unfolding Gitlab.execute Gitlab.event_of Gitlab.workflow_map get
deletion_does_nothing env p calls kind gone = rw (kind, gone)

search-IsUpdate :
    (name id : String) (commit : Option String) (calls : List ScmCall)
    → All IsUpdate calls
    → All IsUpdate (calls ++ find_pr_scans name id commit ∷ [])
search-IsUpdate name id commit calls h =
    All-append IsUpdate calls (find_pr_scans name id commit ∷ []) h (tt, tt)

gitlab_populate :
    (env : Gitlab.Environment) (p : Gitlab.Payload) (calls : List ScmCall)
    → (Gitlab.populate_common_pr_data env p false calls).1 ≡ calls
unfolding Gitlab.populate_common_pr_data
gitlab_populate env p calls = ground arith

azure_populate :
    (env : Azure.Environment) (p : Azure.Payload) (ssh_url : String) (calls : List ScmCall)
    → (Azure.populate_common_pr_data env p false ssh_url calls).1 ≡ calls
unfolding Azure.populate_common_pr_data
azure_populate env p ssh_url calls = ground arith

-- A pull request of GitLab or of Azure DevOps is not scanned again where the search for its scans finds
-- one, whatever the project, the id and the commit that the search is given: its handling makes only requests to the SCM, the search for scans and the update of their tags, also
-- where it ends with an error.
pub scanned_pr-IsUpdate :
    (gl : Gitlab.Environment) (gl_p : Gitlab.Payload) (az : Azure.Environment)
    (az_p : Azure.Payload) (ssh_url : String) (first : (name id : String) → Option String → String)
    (others : (name id : String) → Option String → List String) (calls : List ScmCall)
    → ((name id : String) (commit : Option String)
        → gl.found_scans name id commit ≡ ok (first name id commit ∷ others name id commit))
    → ((name id : String) (commit : Option String)
        → az.found_scans name id commit ≡ ok (first name id commit ∷ others name id commit))
    → All IsUpdate calls
    → All IsUpdate (Gitlab.execute_pr_scan_workflow gl gl_p false calls).1
      × All IsUpdate (Azure.execute_pr_scan_workflow az az_p false ssh_url calls).1
unfolding Gitlab.execute_pr_scan_workflow Azure.execute_pr_scan_workflow
scanned_pr-IsUpdate gl gl_p az az_p ssh_url first others calls h1 h2 h = (
  grind (arith, gitlab_populate, search-IsUpdate, run_tag_update-IsUpdate, h1),
  grind (arith, azure_populate, search-IsUpdate, run_tag_update-IsUpdate, h2),
)
