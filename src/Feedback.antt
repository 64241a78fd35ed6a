-- ===== src/Feedback.antt =====
-- The feedback services: what one delivery of an annotation, a pull-request feedback or a SARIF
-- message does (workflows/pr_feedback_service.py, workflows/push_feedback_service.py), and the
-- messages that they publish (workflows/pull_request.py, workflows/push.py,
-- workflows/base_workflow.py).
pub mod Deliveries
pub mod Publishing
pub mod Processing
pub mod Client
mod Examples
use cxone_flow_buildwork.Prelude.{
  ℕ, zero, suc, ◌+◌, String, Bool, true, false, Option, none, some, List, [], ◌∷◌, ◌++◌,
  if◌then◌else◌,
}
use cxone_flow_buildwork.Prelude.Run.{
  Raised, cxone_error, value_error, name_error, Result, ok, raised, Run, pure, raise, lift, call,
  try, ◌>>=◌, ◌>>◌,
}
use cxone_flow_buildwork.Workflows.{ScanWorkflow, push_gen, ScanStates, await, feedback, annotate}
use cxone_flow_buildwork.Broker.{Key, pr_topic, push_topic}

pub data Act : Type 0 where
  ack : Act
  nack : (requeue : Bool) → Act
  load_inspector : (scanid : String) → Act
  retrieve_report : (projectid scanid : String) → Act
  exec_pr_decorate : (scanid content : String) → Act
  generate_sarif : (scanid : String) → Act
  deliver : (agent : ℕ) → (is_error : Bool) → Act
  publish : Key → Act
  close_channel : Act

abbrev pub Handler : Type 0 → Type 0
Handler A = Run (List Act) A

abbrev act : Act → Handler (Unit {0})
act a = call a (ok tt)

-- The parts of a ScanFeedbackMessage or a ScanAnnotationMessage that the handlers read.
pub record Message : Type 0 where
  pub scanid : String
  pub projectid : String
  pub moniker : String
  pub text : String
  pub is_error : Bool

-- How what lies outside answers: the message and its details, the workflow's switch, the inspector
-- (its project), the report, the SCM, the SARIF log, and the texts made of them.
pub record Environment : Type 0 where
  pub decoded : Result Message
  pub is_enabled : Result Bool
  pub inspector : Result (Option String)
  pub report : Result (Option String)
  pub annotation : Message → String → Result String
  pub full_content : Message → String → Result String
  pub decorated : Result (Unit {0})
  pub sarif : Result (Unit {0})
  pub agents : ℕ

module _ (env : Environment) where
  safe_deserialize_body : Handler Message
  safe_deserialize_body = elim env.decoded [
    | ok msg ↦ pure msg
    | raised e ↦ act (nack false) >> raise e
  ]

  annotate_with : Message → Option String → Handler (Unit {0})
  annotate_with am none = act (nack true)
  annotate_with am (some project_id) = do
    content ← lift (env.annotation am project_id)
    call (exec_pr_decorate am.scanid content) env.decorated
    act ack

  unfoldable pub execute_pr_annotate_workflow : Handler (Unit {0})
  unfolding safe_deserialize_body annotate_with
  execute_pr_annotate_workflow = do
    am ← safe_deserialize_body
    try
        (do
          enabled ← lift env.is_enabled
          if enabled
              then (do
                inspector ← call (load_inspector am.scanid) env.inspector
                annotate_with am inspector)
              else act ack)
        (λ e. act ack)

  -- `except CxOneException` and `except BaseException`
  settle_error : Raised → Handler (Unit {0})
  settle_error cxone_error = act (nack true)
  settle_error e = act ack

  feedback_with : Message → Option String → Handler (Unit {0})
  feedback_with fm none = act (nack true)
  feedback_with fm (some report) = do
    content ← lift (env.full_content fm report)
    call (exec_pr_decorate fm.scanid content) env.decorated
    act ack

  unfoldable pub execute_pr_feedback_workflow : Handler (Unit {0})
  unfolding safe_deserialize_body feedback_with settle_error
  execute_pr_feedback_workflow = do
    fm ← safe_deserialize_body
    try
        (do
          enabled ← lift env.is_enabled
          if enabled
              then (do
                report ← call (retrieve_report fm.projectid fm.scanid) env.report
                feedback_with fm report)
              else act ack)
        settle_error

  -- one task for each agent; `asyncio.wait` takes no empty list, and raises nothing that a task did
  unfoldable pub tasks : ℕ → Bool → List Act
  tasks zero is_error = []
  tasks (suc n) is_error = tasks n is_error ++ deliver n is_error ∷ []

  wait_agents : Bool → Handler (Unit {0})
  unfolding tasks
  wait_agents is_error acts = elim env.agents [
    | zero ↦ (raised value_error, acts)
    | suc n ↦ (ok tt, acts ++ tasks (suc n) is_error)
  ]

  unfoldable pub execute_sarif_generation : Handler (Unit {0})
  unfolding safe_deserialize_body settle_error wait_agents
  execute_sarif_generation = do
    fm ← safe_deserialize_body
    try
        (do
          enabled ← lift env.is_enabled
          if enabled
              then (do
                if fm.is_error then pure tt else call (generate_sarif fm.scanid) env.sarif
                wait_agents fm.is_error
                act ack)
              else act ack)
        settle_error

-- AbstractAsyncWorkflow._publish. Where the channel cannot be opened, the `finally` reads an unbound
-- name; the exchange is false where the broker gives none.
pub record Connection : Type 0 where
  pub channel : Result (Unit {0})
  pub exchange : Result Bool
  pub published : Result Bool

module _ (c : Connection) where
  closing : {A : Type 0} → Handler A → Handler A
  closing m acts = let (r, acts') = m acts in (r, acts' ++ close_channel ∷ [])

  unfoldable pub publish_message : Key → Handler Bool
  unfolding closing
  publish_message topic = elim c.channel [
    | raised e ↦ raise name_error
    | ok _ ↦
        closing (do
          found ← lift c.exchange
          if found then call (publish topic) c.published else pure false)
  ]

  -- PullRequestWorkflow and SarifWorkflow: workflow_start, feedback_start and annotation_start or
  -- feedback_error
  abbrev discard : Handler Bool → Handler (Unit {0})
  discard m = do sent ← m; pure tt

  unfoldable pub pr_workflow_start : Key → Handler (Unit {0})
  unfolding publish_message
  pr_workflow_start moniker = discard (publish_message (pr_topic await ScanWorkflow.pr moniker))

  unfoldable pub pr_feedback_start : Key → Handler (Unit {0})
  unfolding publish_message
  pr_feedback_start moniker = discard (publish_message (pr_topic feedback ScanWorkflow.pr moniker))

  unfoldable pub pr_annotation_start : Key → Handler (Unit {0})
  unfolding publish_message
  pr_annotation_start moniker =
      discard (publish_message (pr_topic annotate ScanWorkflow.pr moniker))

  unfoldable pub push_workflow_start : Key → Handler (Unit {0})
  unfolding publish_message
  push_workflow_start moniker = discard (publish_message (push_topic await push_gen moniker))

  unfoldable pub push_feedback_start : Key → Handler (Unit {0})
  unfolding publish_message
  push_feedback_start moniker = discard (publish_message (push_topic feedback push_gen moniker))

  -- PRFeedbackService.start_pr_scan_workflow
  unfoldable pub start_pr_scan_workflow : Key → Handler (Unit {0})
  unfolding pr_workflow_start pr_annotation_start
  start_pr_scan_workflow moniker = pr_workflow_start moniker >> pr_annotation_start moniker
