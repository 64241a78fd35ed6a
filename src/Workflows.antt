-- ===== src/Workflows.antt =====
-- workflows/__init__.py: the enumerations that the messages and the routing keys are made of.
use cxone_flow_buildwork.Prelude.{String, Bool, true, false}

pub data ScanWorkflow : Type 0 where
  pr push : ScanWorkflow

pub data FeedbackWorkflow : Type 0 where
  pr push_gen : FeedbackWorkflow

pub data ScanStates : Type 0 where
  await feedback annotate execute done failure : ScanStates

-- str(…) is the member's value
abbrev pub workflow_str : ScanWorkflow → String
workflow_str pr = "pull-request"
workflow_str push = "push"

abbrev pub feedback_str : FeedbackWorkflow → String
feedback_str pr = "pull-request"
feedback_str push_gen = "push-gen-sarif"

abbrev pub state_str : ScanStates → String
state_str await = "await"
state_str feedback = "feedback"
state_str annotate = "annotate"
state_str execute = "exec"
state_str done = "finished"
state_str failure = "failed"

-- msg.workflow == ScanWorkflow.PR
abbrev pub is_pr : ScanWorkflow → Bool
is_pr pr = true
is_pr push = false

-- msg.workflow == ScanWorkflow.PUSH
abbrev pub is_push : ScanWorkflow → Bool
is_push pr = false
is_push push = true
