-- ===== src/Scm/Github.antt =====
-- GithubOrchestrator of orchestration/gh.py: the event's name, the handler it comes to, what is read
-- from the payload, the protected branches, and the signature. The log of an app's installation
-- leaves only log lines and is not modelled beyond the fields that it cannot do without.
pub mod Events
use cxone_flow_buildwork.Prelude.{
  ℕ, zero, suc, ltb, String, ◌==◌, ◌<>◌, Bool, true, false, ◌||◌, Option, none, some, List, [], ◌∷◌,
  ◌++◌, length, if◌then◌else◌,
}
use cxone_flow_buildwork.Prelude.Dict.{Dict}
use cxone_flow_buildwork.Prelude.Texts.{split}
use cxone_flow_buildwork.Prelude.Run.{
  type_error, value_error, other, Result, ok, raised, pure, raise, lift, call, ◌>>=◌,
}
use cxone_flow_buildwork.Orchestration.Types.{Orchestrator, Services}
use cxone_flow_buildwork.Kickoff.{repo_clone_url}
use cxone_flow_buildwork.Scm.{
  first_found, Done, nothing, request, Scm, Workflow, log_install, push_scan, pr_scan,
  pr_tag_update, Delegated, push, pr, handler_of, run_push, run_pr, run_tag_update,
  run_delegated_push, run_delegated_pr,
}
use cxone_flow_buildwork.Scm.Branches.{normalize_branch_name}
unfoldable pub use Events.*

-- What the services answer: the cloner's choice of a protocol, and the pages of protected branches;
-- a response that is not a success has no page.
pub record Environment : Type 0 where
  pub services : Services
  pub matches : String → Bool
  pub page : ℕ → Result (Option (List String))
  pub fuel : ℕ

-- the list that `buf.pop()` empties
unfoldable pub pop_all : List String → List String
pop_all [] = []
pop_all (x ∷ xs) = pop_all xs ++ x ∷ []

module _ (env : Environment) (p : Payload) (delegated_scan : Bool) where
  -- GithubProjectNaming.create_project_name
  abbrev project_name : String → String → String
  project_name org key = org <> "/" <> key

  -- the properties that AbstractOrchestrator asks for, on the data that an event has populated
  abbrev built :
      (source source_hash target org key pr_id status state : String)
      → List String
      → Result (Dict String)
      → Orchestrator
  built source source_hash target org key pr_id status state branches urls = record {
    source_branch = some source;
    source_hash = some source_hash;
    target_branch = some target;
    protected_branches = ok branches;
    clone_url = elim urls [ raised e ↦ raised e | ok d ↦ repo_clone_url env.matches d ];
    default_project_name = project_name org key;
    pr_id = pr_id;
    pr_status = status;
    pr_state = state;
    project_key = key;
    slug = key;
    organization = org;
    delegated_scan = delegated_scan;
  }

  -- __init_state_on_push; the branches that are protected are filled in by the caller
  unfoldable pub state_on_push : Scm (List String → Orchestrator)
  unfolding normalize_branch_name
  state_on_push = do
    ref ← lift (first_found p.ref)
    hash ← lift (first_found p.after)
    key ← lift (first_found p.repository_name)
    org ← lift (first_found p.owner_name)
    let branch = normalize_branch_name ref
    pure λ branches. built branch hash branch org key "" "" "" branches (clone_urls p)

  -- __populate_common_pr_data, with the draft mark
  unfoldable pub populate_common_pr_data : Scm (Bool × (List String → Orchestrator))
  populate_common_pr_data = do
    html_url ← lift (first_found p.html_url)
    pr_id ← lift (first_found p.number)
    key ← lift (first_found p.repository_name)
    org ← lift (first_found p.owner_login)
    target ← lift (first_found p.base_ref)
    source ← lift (first_found p.head_ref)
    target_hash ← lift (first_found p.base_sha)
    source_hash ← lift (first_found p.head_sha)
    draft ← lift (first_found p.is_draft)
    state ← lift (first_found p.state)
    let pr_state = state <> (if draft then "-draft" else "")
    pure (
      draft,
      λ branches.
          built source source_hash target org key pr_id (pr_status p) pr_state branches
            (clone_urls p),
    )

  abbrev extracted : Option (List String) → Scm (List String)
  extracted none = raise type_error
  extracted (some names) = pure (pop_all names)

  abbrev pub page_max : ℕ
  page_max = 100

  -- async_api_page_generator with `data_extractor` and `args_gen`; without fuel only in the model
  unfoldable pub read_branches : ℕ → ℕ → Scm (List String)
  unfolding pop_all
  read_branches zero offset = raise (other 0)
  read_branches (suc fuel) offset =
      let rest = read_branches fuel (suc offset) in
      do
        answer ← call (request "branches?protected=True") (env.page offset)
        buf ← extracted answer
        elim buf [
          | [] ↦ pure []
          | b ∷ bs ↦
              if ltb (length (b ∷ bs)) page_max
              then pure (b ∷ bs)
              else (do others ← rest; pure ((b ∷ bs) ++ others))
        ]

  or_default : List String → Scm (List String)
  or_default [] = do branch ← lift (first_found p.default_branch); pure (branch ∷ [])
  or_default (b ∷ bs) = pure (b ∷ bs)

  unfoldable pub get_protected_branches : Scm (List String)
  unfolding or_default
  get_protected_branches = do branches ← read_branches env.fuel 0; or_default branches

  unfoldable pub execute_push_scan_workflow : Scm Done
  execute_push_scan_workflow = do
    orchestrator ← state_on_push
    branches ← get_protected_branches
    run_push env.services (orchestrator branches)

  unfoldable pub execute_pr_scan_workflow : Scm Done
  execute_pr_scan_workflow = do
    (draft, orchestrator) ← populate_common_pr_data
    if draft
        then pure nothing
        else (do branches ← get_protected_branches; run_pr env.services (orchestrator branches))

  unfoldable pub execute_pr_tag_update_workflow : Scm Done
  execute_pr_tag_update_workflow = do
    (draft, orchestrator) ← populate_common_pr_data
    run_tag_update env.services (orchestrator [])

  dispatch : Option Workflow → Scm Done
  dispatch none = pure nothing
  dispatch (some log_install) = do fields ← lift p.install_fields; pure nothing
  dispatch (some push_scan) = execute_push_scan_workflow
  dispatch (some pr_scan) = execute_pr_scan_workflow
  dispatch (some pr_tag_update) = execute_pr_tag_update_workflow

  dispatch_delegated : Option Delegated → String → Scm Done
  dispatch_delegated none scan_id = pure nothing
  dispatch_delegated (some push) scan_id = do
    orchestrator ← state_on_push
    run_delegated_push env.services (orchestrator []) scan_id
  dispatch_delegated (some pr) scan_id = do
    (draft, orchestrator) ← populate_common_pr_data
    run_delegated_pr env.services (orchestrator []) scan_id

module _ (env : Environment) (p : Payload) where
  unfoldable pub execute : Scm Done
  unfolding dispatch dispatch_event
  execute = dispatch env p false (handler_of workflow_map (dispatch_event p))

  -- `self.delegated_scan = True`, and the handler
  unfoldable pub handle_delegated_scan : String → Scm Done
  unfolding dispatch_delegated dispatch_event
  handle_delegated_scan =
      dispatch_delegated env p true (handler_of delegate_scan_handler_map (dispatch_event p))

-- `hashalg,hash = sig.split("=")` unpacks two parts
abbrev compare_parts : (String → String) → List String → Result Bool
compare_parts hmac (hashalg ∷ hash ∷ []) = ok (hash == hmac hashalg)
compare_parts hmac _ = raised value_error

-- is_signature_valid of gh.py and of bbdc.py, each with its header; `hmac` is api_utils.signature's,
-- of the shared secret and the payload
unfoldable pub is_signature_valid : (String → String) → Option String → Result Bool
unfolding split
is_signature_valid hmac none = ok false
is_signature_valid hmac (some sig) = compare_parts hmac (split 61 sig)
