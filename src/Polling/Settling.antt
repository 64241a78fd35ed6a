-- ===== src/Polling/Settling.antt =====
-- What one delivery of a poll message leads to.
use cxone_flow_buildwork.Prelude.{
  ℕ, ◌+◌, ◌<◌, min, ◌≡◌, ◌≢◌, String, Bool, true, false, List, [], ◌∷◌, arith, if◌then◌else◌, ◌*◌,
}
use cxone_flow_buildwork.Prelude.Run.{Raised, response_error, Result, ok, raised}
use cxone_flow_buildwork.Workflows.{ScanWorkflow, pr, push}
use cxone_flow_buildwork.Polling.{
  AwaitMessage, Inspection, Handler, pr_feedback, push_feedback, Act, ack, nack, republish,
  feedback_start, feedback_error, close_channel, Environment, PollConfig, next_delay, process_poll,
}

abbrev is_settling : Act → ℕ
is_settling ack = 1
is_settling (nack again) = 1
is_settling _ = 0

-- How often a delivery is acknowledged or rejected.
abbrev pub settled : List Act → ℕ
settled [] = 0
settled (a ∷ acts) = is_settling a + settled acts

abbrev service_of : ScanWorkflow → Handler
service_of pr = pr_feedback
service_of push = push_feedback

-- A scan was inspected, or the inspection failed with a ResponseException.
abbrev pub is_answered : Result Inspection → Bool
is_answered (ok i) = true
is_answered (raised response_error) = true
is_answered (raised e) = false

-- The one act that tells the service of the message's workflow.
abbrev pub told : ScanWorkflow → Inspection → Act
told w i =
    if i.is_successful
    then feedback_start (service_of w)
    else feedback_error (service_of w) i.state_msg

module _ (c : PollConfig) (env : Environment) (find : String → Result (Unit {0})) where
  -- Where the scan is inspected, or its inspection fails with a ResponseException, and the
  -- exchange and the expiration header for another round are there, and publishing and closing the
  -- channel return, one delivery is acknowledged or rejected exactly once.
  pub settled_once :
      (orig_exp : ℕ) (acked : Bool)
      → is_answered env.inspect ≡ true
      → env.exchange ≡ ok true
      → env.original_expiration ≡ ok orig_exp
      → env.publish_acked ≡ ok acked
      → env.closed ≡ ok tt
      → settled (process_poll c env find []).1 ≡ 1
  unfolding process_poll
  settled_once orig_exp acked h1 h2 h3 h4 h5 = ground arith

  -- An inspection of an unexpired message that fails, but not with a ResponseException, while the
  -- broker still takes messages, makes the delivery publish the message again and acknowledge it, and
  -- then reject what is settled already.
  pub settled_twice :
      (msg : AwaitMessage) (orig_exp : ℕ) (e : Raised)
      → env.decoded ≡ ok msg
      → find msg.moniker ≡ ok tt
      → env.now < msg.drop_by
      → env.open_channel ≡ ok tt
      → env.inspect ≡ raised e
      → e ≢ response_error
      → env.exchange ≡ ok true
      → env.original_expiration ≡ ok orig_exp
      → env.publish_acked ≡ ok true
      → (process_poll c env find []).1
        ≡ republish (next_delay c orig_exp) ∷ ack ∷ close_channel ∷ nack false ∷ []
  unfolding process_poll
  settled_twice msg orig_exp e h1 h2 h3 h4 h5 h6 h7 h8 h9 = ground arith

  -- Where an unexpired message is read, its service is known, the broker takes messages, and the
  -- channel can be closed, a scan that still executes is polled again after the next delay, and nobody
  -- is told.
  pub executing_polls_again :
      (msg : AwaitMessage) (i : Inspection) (orig_exp : ℕ)
      → env.decoded ≡ ok msg
      → find msg.moniker ≡ ok tt
      → env.now < msg.drop_by
      → env.open_channel ≡ ok tt
      → env.inspect ≡ ok i
      → i.is_executing ≡ true
      → env.exchange ≡ ok true
      → env.original_expiration ≡ ok orig_exp
      → env.publish_acked ≡ ok true
      → env.closed ≡ ok tt
      → process_poll c env find []
        ≡ (ok tt, republish (min (orig_exp * c.backoff) c.max_interval) ∷ ack ∷ close_channel ∷ [])
  unfolding process_poll next_delay
  executing_polls_again msg i orig_exp h1 h2 h3 h4 h5 h6 h7 h8 h9 h10 = ground arith

  -- Where an unexpired message is read, its service is known, and a channel can be opened and closed, a
  -- scan that has ended is told once, to the service of the message's own workflow and to no other, with
  -- the error message if it failed; the message is acknowledged and not polled again, also where
  -- telling the service raises.
  pub finished_told_once :
      (msg : AwaitMessage) (i : Inspection)
      → env.decoded ≡ ok msg
      → find msg.moniker ≡ ok tt
      → env.now < msg.drop_by
      → env.open_channel ≡ ok tt
      → env.inspect ≡ ok i
      → i.is_executing ≡ false
      → env.closed ≡ ok tt
      → process_poll c env find [] ≡ (ok tt, told msg.workflow i ∷ ack ∷ close_channel ∷ [])
  unfolding process_poll
  finished_told_once msg i h1 h2 h3 h4 h5 h6 h7 = ground arith
