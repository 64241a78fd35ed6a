-- ===== src/Polling.antt =====
-- workflows/scan_polling_service.py and process_poll of workflow_agent.py: one delivery of a poll
-- message. Times are milliseconds. `ack` and `nack` are taken to succeed.
pub mod Backoff
pub mod Settling
mod Examples
use cxone_flow_buildwork.Prelude.{
  ℕ, ◌*◌, min, leb, String, Bool, true, false, not, Option, none, some, List, [], ◌∷◌, ◌++◌,
  if◌then◌else◌,
}
use cxone_flow_buildwork.Prelude.Run.{
  Raised, response_error, Result, ok, raised, Run, pure, raise, lift, call, try, ◌>>=◌, ◌>>◌,
}
use cxone_flow_buildwork.Workflows.{ScanWorkflow, is_pr, is_push}

-- ScanAwaitMessage
pub record AwaitMessage : Type 0 where
  pub scan_id : String
  pub project_id : String
  pub moniker : String
  pub workflow : ScanWorkflow
  pub drop_by : ℕ

-- The properties of ScanInspector that the poll reads.
pub record Inspection : Type 0 where
  pub is_executing : Bool
  pub is_successful : Bool
  pub state_msg : String

-- PRFeedbackService and PushFeedbackService, as the poll calls them.
pub data Handler : Type 0 where
  pr_feedback push_feedback : Handler

-- What the delivery does: settle the message, publish it again, start the feedback of a service
-- with or without an error message. Settling a delivery is taken to succeed.
pub data Act : Type 0 where
  ack : Act
  nack : (requeue : Bool) → Act
  republish : (delay : ℕ) → Act
  feedback_start : Handler → Act
  feedback_error : Handler → (error_msg : String) → Act
  close_channel : Act

-- How what lies outside answers during one delivery.
pub record Environment : Type 0 where
  pub decoded : Result AwaitMessage
  pub now : ℕ
  pub open_channel : Result (Unit {0})
  pub inspect : Result Inspection
  pub started : Handler → Result (Unit {0})
  pub exchange : Result Bool
  pub original_expiration : Result ℕ
  pub publish_acked : Result Bool
  pub closed : Result (Unit {0})

pub record PollConfig : Type 0 where
  pub max_interval : ℕ
  pub backoff : ℕ

abbrev pub Poll : Type 0 → Type 0
Poll A = Run (List Act) A

-- `min(timedelta(milliseconds=orig_exp * self.__backoff), self.__max_interval)`
unfoldable pub next_delay : PollConfig → ℕ → ℕ
next_delay c orig_exp = min (orig_exp * c.backoff) c.max_interval

abbrev act : Act → Poll (Unit {0})
act a = call a (ok tt)

module _ (c : PollConfig) (env : Environment) where
  -- handle_completed_scan of both services, each of which takes its own workflow only
  abbrev handles : Handler → ScanWorkflow → Bool
  handles pr_feedback w = is_pr w
  handles push_feedback w = is_push w

  abbrev handle_completed_scan : AwaitMessage → Handler → Poll (Unit {0})
  handle_completed_scan msg svc =
      if handles svc msg.workflow then call (feedback_start svc) (env.started svc) else pure tt

  abbrev handle_awaited_scan_error : AwaitMessage → String → Handler → Poll (Unit {0})
  handle_awaited_scan_error msg error_msg svc =
      if handles svc msg.workflow
      then call (feedback_error svc error_msg) (env.started svc)
      else pure tt

  -- asyncio.gather over the two services: both are started, also where the first one fails; the
  -- first exception is raised
  abbrev both : (Handler → Poll (Unit {0})) → Poll (Unit {0})
  both f acts =
      let (r, acts') = f pr_feedback acts in
      let (r', acts'') = f push_feedback acts' in
      (elim r [ ok _ ↦ r' | raised e ↦ raised e ], acts'')

  -- `if not inspector.executing:` with its inner try, except and finally; the result is
  -- requeue_on_finally
  unfoldable pub finished_scan : AwaitMessage → Inspection → Poll Bool
  finished_scan msg i = if i.is_executing then pure true else (do
    try
        (if i.is_successful
          then both (handle_completed_scan msg)
          else both (handle_awaited_scan_error msg i.state_msg))
        (λ e. pure tt)
    act ack
    pure false)

  -- the requeue of the outer finally, where the channel is open
  abbrev settle_requeue : Bool → Poll (Unit {0})
  settle_requeue true = act ack
  settle_requeue false = act (nack true)

  abbrev publish_again : Bool → Poll (Unit {0})
  publish_again false = pure tt
  publish_again true = do
    orig_exp ← lift env.original_expiration
    acked ← call (republish (next_delay c orig_exp)) env.publish_acked
    settle_requeue acked

  unfoldable pub requeue : Poll (Unit {0})
  unfolding next_delay
  requeue = do found ← lift env.exchange; publish_again found

  -- how the outer `try` ended: the exception that goes on, if any, and requeue_on_finally
  abbrev Ended : Type 0
  Ended = Option Raised × Bool

  abbrev end_of : Result Bool → Poll Ended
  end_of (ok requeue_on_finally) = pure (none, requeue_on_finally)
  end_of (raised response_error) = act ack >> pure (none, false)
  end_of (raised e) = pure (some e, true)

  abbrev go_on : Option Raised → Poll (Unit {0})
  go_on none = pure tt
  go_on (some e) = raise e

  -- the outer finally, and the exception that it lets through
  abbrev finally_open : Ended → Poll (Unit {0})
  finally_open (e, again) = do
    if again then requeue else pure tt
    call close_channel env.closed
    go_on e

  abbrev with_channel : AwaitMessage → Poll (Unit {0})
  with_channel msg acts =
      let (r, acts') = (do i ← lift env.inspect; finished_scan msg i) acts in
      (end_of r >>= finally_open) acts'

  -- Without a channel there is no exchange: the finally does nothing.
  abbrev without_channel : Raised → Poll (Unit {0})
  without_channel response_error = act ack
  without_channel e = raise e

  abbrev poll_live : AwaitMessage → Poll (Unit {0})
  poll_live msg = elim env.open_channel [ raised e ↦ without_channel e | ok _ ↦ with_channel msg ]

  abbrev is_expired : AwaitMessage → Bool
  is_expired msg = leb msg.drop_by env.now

  -- _safe_deserialize_body rejects what it cannot read
  abbrev safe_deserialize_body : Poll AwaitMessage
  safe_deserialize_body = elim env.decoded [
    | raised e ↦ act (nack false) >> raise e
    | ok msg ↦ pure msg
  ]

  unfoldable pub execute_poll_scan_workflow : Poll (Unit {0})
  unfolding finished_scan requeue
  execute_poll_scan_workflow = do
    msg ← safe_deserialize_body
    if is_expired msg then act ack else poll_live msg

  -- process_poll: the message is read, its service is found, the workflow runs; any exception
  -- ends in a rejection
  unfoldable pub process_poll : (String → Result (Unit {0})) → Poll (Unit {0})
  unfolding execute_poll_scan_workflow
  process_poll retrieve_services_by_moniker =
      try
        (do
          msg ← lift env.decoded
          lift (retrieve_services_by_moniker msg.moniker)
          execute_poll_scan_workflow)
        (λ e. act (nack false))
