-- ===== src/Scm/Examples.antt =====
-- Events of the four SCMs, and the theorems at them.
use cxone_flow_buildwork.Prelude.{
  ℕ, zero, suc, String, ◌==◌, ◌<>◌, ◌≡◌, refl, Bool, true, false, ◌||◌, none, some, List, [], ◌∷◌,
  All, contains, arith,
}
use cxone_flow_buildwork.Prelude.Dict.{Dict, get}
use cxone_flow_buildwork.Prelude.Texts.{has_code}
use cxone_flow_buildwork.Prelude.Run.{ok}
use cxone_flow_buildwork.Orchestration.Types.{Inspector, Services}
use cxone_flow_buildwork.Scm.{delegated_of_found}
use cxone_flow_buildwork.Scm.Branches.{has_ref, normalize_branch_name, normalize_ref}
use cxone_flow_buildwork.Scm.Github
use cxone_flow_buildwork.Scm.Gitlab
use cxone_flow_buildwork.Scm.Azure
use cxone_flow_buildwork.Scm.Bitbucket
use cxone_flow_buildwork.Scm.Delegation.{same_events}
use cxone_flow_buildwork.Scm.Gates.{draft_does_nothing, IsUpdate, scanned_pr-IsUpdate}
use cxone_flow_buildwork.Scm.Protection.{
  names_of, protected_pages, any_protects, target_protected_iff,
}

abbrev scanning : Inspector
scanning = record { project_id = "p"; scan_id = "s"; is_executing = true; is_failed = false }

abbrev services : Services
services = record {
  moniker = "main";
  version = "2.0";
  project_name = λ name. name;
  load_project_config = λ default_name dynamic_name url. ok (record { id = "p"; tags = [] });
  project_tag_key = "resolver";
  default_tag = none;
  request_resolver_scan = λ tag url. ok false;
  clone_to = λ url force. ok "/tmp/code";
  reset_to = λ path hash. ok tt;
  zip_files = λ path. ok tt;
  submit_scan = λ branch tags. ok scanning;
  load_scan_inspector = λ scan. ok scanning;
  start_sarif = λ project scan. ok tt;
  start_pr = λ project scan. ok tt;
  update_pr_tags = λ project pr hash. ok [];
}

abbrev https : String → Bool
https protocol = protocol == "https"

-- GitHub: a draft, with two protected branches on one page
abbrev gh_page : ℕ → List String
gh_page zero = "main" ∷ "release" ∷ []
gh_page (suc i) = []

abbrev gh : Github.Environment
gh = record { services = services; matches = https; page = λ i. ok (some (gh_page i)); fuel = 1 }

abbrev gh_draft : Github.Payload
gh_draft = record {
  event = some "pull_request";
  action = some (some "opened");
  account_url = none;
  install_fields = ok tt;
  ref = none;
  after = none;
  repository_name = some "repo";
  owner_name = none;
  owner_login = some "org";
  ssh_url = some "git@gh:org/repo.git";
  clone_url = some "https://gh/org/repo.git";
  default_branch = some "main";
  html_url = some "https://gh/org/repo/pull/7";
  number = some "7";
  base_ref = some "main";
  base_sha = some "beef";
  head_ref = some "topic";
  head_sha = some "c0ffee";
  is_draft = some true;
  state = some "open";
  assignee = none;
  assignees = none;
  requested_reviewers = [];
}

-- GitLab: a merge request or a push, by its hash after it
abbrev gl : Gitlab.Environment
gl = record {
  services = services;
  matches = https;
  scheme = λ url. "https";
  fnmatch = λ name pattern. pattern == "release/*";
  found_scans = λ name id commit. ok ("s" ∷ []);
  api_default_branch = ok (some "main");
  api_protected_branches = ok ("release/*" ∷ []);
}

abbrev gl_event : Bool → String → Gitlab.Payload
gl_event draft after = record {
  message = none;
  object_kind = some "push";
  event_name = none;
  before = some "beef";
  after = some after;
  ref = some "refs/heads/topic";
  ref_protected = some false;
  default_branch = some "main";
  path_with_namespace = some "org/team/repo";
  project_id = some "3";
  git_ssh_url = none;
  git_http_url = some "https://gl/org/team/repo.git";
  draft = some draft;
  url = some "https://gl/org/team/repo/7";
  iid = some "7";
  state = some "opened";
  action = some "open";
  source_branch = some "topic";
  target_branch = some "main";
  last_commit = some "c0ffee";
}

abbrev az : Azure.Environment
az = record {
  services = services;
  matches = https;
  scheme = λ url. "https";
  org = "org";
  ssh_url = ok "git@az:repo";
  found_scans = λ name id commit. ok ("s" ∷ []);
  repo_details = ok (some "refs/heads/main");
  policies = λ page. ok ([], false);
  refs = λ page. ok ([], false);
  fuel = 1;
}

abbrev az_pr : Bool → Azure.Payload
az_pr draft = record {
  event_type = "git.pullrequest.created";
  remote_url = "https://az/org/project/_git/repo";
  default_branches = "refs/heads/main" ∷ [];
  project_name = "project";
  repo_name = "repo";
  repo_id = "1";
  collection = "org";
  ref_names = [];
  new_object_ids = [];
  is_draft = some draft;
  self_link = some "https://az/7";
  source_ref = some "refs/heads/topic";
  target_ref = some "refs/heads/main";
  source_commit = some "c0ffee";
  target_commit = some "beef";
  pull_request_id = some "7";
  votes = Azure.approved ∷ [];
  status = some "active";
}

abbrev bb : Bitbucket.Environment
bb = record {
  services = services;
  matches = https;
  branchmodel = ok (some (some "develop", some "main"));
}

abbrev bb_event : Bitbucket.Payload
bb_event = record {
  event_key = some "repo:refs_changed";
  push_clone = ("https", "https://bb/repo.git") ∷ [];
  pr_clone = [];
  changes =
      record { kind = "DELETE"; display_id = some "main"; to_hash = some Gitlab.no_hash } ∷ [];
  push_project_key = some "KEY";
  push_project_name = some "Key";
  push_slug = some "repo";
  push_name = some "Repo";
  draft = some true;
  self_link = some "https://bb/7";
  to_ref = none;
  from_ref = none;
  pr_project_key = none;
  pr_project_name = none;
  pr_slug = none;
  pr_name = none;
  id = none;
  state = none;
  reviewer_status = [];
}

gl_event_names :
    (Gitlab.event_of (gl_event false "c0ffee") ≡ "push:actual")
    × (Gitlab.event_of (gl_event false Gitlab.no_hash) ≡ "push:branch_delete")
unfolding Gitlab.event_of
gl_event_names = (refl, refl)

same_events_example :
    (get Github.delegate_scan_handler_map "push"
      ≡ delegated_of_found (get Github.workflow_map "push"))
    × (get Gitlab.delegate_scan_handler_map "push"
        ≡ delegated_of_found (get Gitlab.workflow_map "push"))
    × (get Azure.delegate_scan_handler_map "push"
        ≡ delegated_of_found (get Azure.workflow_map "push"))
    × (get Bitbucket.delegate_scan_handler_map "push"
        ≡ delegated_of_found (get Bitbucket.workflow_map "push"))
same_events_example = same_events "push"

draft_does_nothing_example :
    ((Github.execute_pr_scan_workflow gh gh_draft false []).1 ≡ [])
    × ((Gitlab.execute_pr_scan_workflow gl (gl_event true "c0ffee") false []).1 ≡ [])
    × ((Azure.execute_pr_scan_workflow az (az_pr true) false "git@az:repo" []).1 ≡ [])
    × ((Bitbucket.execute_pr_scan_workflow bb bb_event false []).1 ≡ [])
    × ((Bitbucket.execute_pr_tag_update_workflow bb bb_event false []).1 ≡ [])
    × All IsUpdate (Github.execute_pr_tag_update_workflow gh gh_draft false []).1
draft_does_nothing_example =
    draft_does_nothing gh gh_draft gl (gl_event true "c0ffee") az (az_pr true) bb bb_event
      "git@az:repo" [] refl refl refl refl

scanned_pr-IsUpdate_example :
    All IsUpdate (Gitlab.execute_pr_scan_workflow gl (gl_event false "c0ffee") false []).1
    × All IsUpdate (Azure.execute_pr_scan_workflow az (az_pr false) false "git@az:repo" []).1
scanned_pr-IsUpdate_example =
    scanned_pr-IsUpdate gl (gl_event false "c0ffee") az (az_pr false) "git@az:repo"
      (λ name id commit. "s") (λ name id commit. []) [] (λ name id commit. refl)
      (λ name id commit. refl) tt

protected_pages_example :
    (Github.get_protected_branches gh gh_draft false []).0 ≡ ok ("release" ∷ "main" ∷ [])
unfolding names_of
protected_pages_example =
    protected_pages gh gh_draft false gh_page (λ i. refl) 0 [] refl (omega arith) (omega arith)

target_protected_iff_example :
    (branches : List String) × ((Gitlab.load_protected gl
        (gl_event false "c0ffee")
        false
        "release/1"
        "topic"
        []).0
      ≡ ok branches)
    × (contains "release/1" branches ≡ (
        "release/1" == normalize_branch_name "main"
        || any_protects gl.fnmatch "release/1" ("release/*" ∷ [])))
unfolding normalize_branch_name
target_protected_iff_example =
    target_protected_iff gl (gl_event false "c0ffee") "release/1" "topic" [] refl refl refl refl

normalize_ref_example : normalize_branch_name ("refs/heads/" <> "release/1") ≡ "release/1"
unfolding has_ref
normalize_ref_example = normalize_ref "release/1" refl

colon_there : has_code 58 "pass:word" ≡ true
unfolding has_code
colon_there = refl

abbrev granted : Dict String
granted = ("contents", "write") ∷ ("pull_requests", "read") ∷ []

abbrev lacking : Dict String
lacking = ("metadata", "read") ∷ ("pull_requests", "write") ∷ []
