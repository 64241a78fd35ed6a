-- ===== src/Resolver/Agent.antt =====
-- The agent that runs the resolver (agent/resolver/runner_agent.py).
pub mod Answers
use cxone_flow_buildwork.Prelude.{
  ℕ, nat_beq, String, ◌<>◌, Bool, true, false, not, Option, none, some, List, [], ◌∷◌,
  if◌then◌else◌,
}
use cxone_flow_buildwork.Prelude.Dict.{Dict, update}
use cxone_flow_buildwork.Prelude.Run.{
  Raised, process_error, resolver_agent_error, name_error, Result, ok, raised, pure, raise, lift,
  call, try, ◌>>=◌, ◌>>◌,
}
use cxone_flow_buildwork.Workflows.{ScanStates, done, failure}
use cxone_flow_buildwork.Resolver.{
  Details, ScanMessage, ResultMessage, Act, publish_result, ack, nack, clone, reset_head,
  run_resolver, copy_results, local_scan, Handler, act, safe_deserialize_body,
}

-- subprocess.CompletedProcess
pub record Completed : Type 0 where
  pub returncode : ℕ
  pub stdout : Option String

-- How the parts of one run answer. The two results of unpickling say whether the value has the
-- expected class; `cloned` is the call that makes the clone worker, and `located` its loc();
-- `correlation_id` is the default of the messages' factory. `clone_left` and `left` are the cleanups in
-- __aexit__ of the clone worker and of the runner; `suppresses` says whether leaving the runner's block
-- drops an exception, as an __aexit__ that returns a true value does.
pub record Runner : Type 0 where
  pub executor : Result (Unit {0})
  pub from_public_key : Result (Unit {0})
  pub signature_valid : ScanMessage → Bool
  pub can_execute : Result Bool
  pub is_scm_service : Result Bool
  pub is_cxone_service : Result Bool
  pub project_name : String → Result String
  pub cloned : Result (Unit {0})
  pub located : Result (Unit {0})
  pub head_reset : Result (Unit {0})
  pub resolved : Result Completed
  pub copied : Result (Unit {0})
  pub scanned : Result String
  pub published : Result Bool
  pub correlation_id : String
  pub clone_left : Result (Unit {0})
  pub left : Result (Unit {0})
  pub suppresses : Bool

-- agent/resolver/two_stage_runner.py ends its __aexit__ with `return self`; the base class's ends
-- without a value.
pub data RunnerKind : Type 0 where
  no_resolver shell toolkit two_stage : RunnerKind

abbrev pub suppresses_of : RunnerKind → Bool
suppresses_of two_stage = true
suppresses_of _ = false

abbrev route_key : String → String
route_key tag = "cx.res.exec.sca-resolver.scan-complete." <> tag

abbrev result_of :
    String → ScanMessage → ScanStates → Option ℕ → Option String → Option String → ResultMessage
result_of correlation_id msg state exit_code logs scan_id = record {
  moniker = msg.moniker;
  state = state;
  workflow = msg.workflow;
  correlation_id = correlation_id;
  details = msg.details;
  details_signature = msg.details_signature;
  resolver_exit_code = exit_code;
  logs = logs;
  scan_id = scan_id;
}

abbrev state_of : ℕ → ScanStates
state_of code = if nat_beq code 0 then done else failure

abbrev resolver_tag : ℕ → Option String
resolver_tag code = if nat_beq code 0 then some "success" else some "failure"

module _ (tag : String) (r : Runner) where
  -- __send_failure_response
  unfoldable pub send_failure_response : ScanMessage → Option ℕ → Option String → Handler (Unit {0})
  send_failure_response msg exit_code logs = do
    call
        (publish_result (route_key tag)
          (result_of r.correlation_id msg failure exit_code logs none))
        r.published
    pure tt

  require_class : Result Bool → Handler (Unit {0})
  require_class (raised e) = raise e
  require_class (ok true) = pure tt
  require_class (ok false) = raise resolver_agent_error

  abbrev ended_by : Result (Unit {0}) → Result (Unit {0}) → Result (Unit {0})
  ended_by (ok _) result = result
  ended_by (raised e) result = raised e

  -- the end of an `async with` block: an exception of the exit takes the place of the block's end
  abbrev closing : Result (Unit {0}) → Handler (Unit {0}) → Handler (Unit {0})
  closing exit m acts = let (result, acts') = m acts in (ended_by exit result, acts')

  -- the block of the clone worker: resolve, scan, report
  unfoldable pub in_clone : ScanMessage → (name : String) → Handler (Unit {0})
  unfolding update
  in_clone msg name = do
    lift r.located
    call (reset_head msg.details.commit_hash) r.head_reset
    completed ← call (run_resolver name) r.resolved
    call copy_results r.copied
    let tags = update msg.details.scan_tags (("resolver", resolver_tag completed.returncode) ∷ [])
    scan_id ← call (local_scan msg.details.scan_branch tags) r.scanned
    call
        (publish_result (route_key tag) (
          result_of r.correlation_id msg (state_of completed.returncode) (some completed.returncode)
            completed.stdout (some scan_id)))
        r.published
    pure tt

  -- the `else` branch
  unfoldable pub process : ScanMessage → Handler (Unit {0})
  unfolding require_class in_clone
  process msg = do
    require_class r.is_scm_service
    require_class r.is_cxone_service
    name ← lift (r.project_name msg.details.project_id)
    call (clone msg.details.clone_url) r.cloned
    closing r.clone_left (in_clone msg name)

  -- the `async with` block once the workflow is there
  unfoldable pub with_workflow : ScanMessage → Handler (Unit {0})
  unfolding process send_failure_response
  with_workflow msg =
      if r.signature_valid msg
      then (do
        able ← lift r.can_execute
        if able then process msg else send_failure_response msg none none)
      else pure tt

  leave : Handler (Unit {0}) → Handler (Unit {0})
  leave m = closing r.left (try m (λ e. if r.suppresses then pure tt else raise e))

  -- the handlers after the block, where `workflow` is bound
  on_error : ScanMessage → Raised → Handler (Unit {0})
  on_error msg (process_error code output) =
      send_failure_response msg (some code) output >> act (nack false)
  on_error msg e = send_failure_response msg none none >> act (nack false)

  -- The body raises before `workflow` is bound where the executor or the key fails. An exception
  -- of the executor is outside the block; the handlers then read an unbound name.
  guarded : ScanMessage → Handler (Unit {0})
  unfolding with_workflow leave on_error send_failure_response
  guarded msg = elim r.executor [
    | raised e ↦ raise name_error
    | ok _ ↦ elim r.from_public_key [
      | raised e ↦ elim (ended_by r.left (if r.suppresses then ok tt else raised e)) [
        | ok _ ↦ act ack
        | raised e2 ↦ raise name_error
      ]
      | ok _ ↦ λ acts.
          let (result, acts') = leave (with_workflow msg) acts in
          elim result [ ok _ ↦ act ack acts' | raised e ↦ on_error msg e acts' ]
    ]
  ]

  unfoldable pub runner_agent : Result ScanMessage → Handler (Unit {0})
  unfolding guarded
  runner_agent decoded = do msg ← safe_deserialize_body decoded; guarded msg
