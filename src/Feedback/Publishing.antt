-- ===== src/Feedback/Publishing.antt =====
-- What a started pull-request scan publishes, and where it comes out.
use cxone_flow_buildwork.Prelude.{String, ◌≡◌, refl, Bool, true, ◌==◌, List, [], ◌∷◌, arith}
use cxone_flow_buildwork.Prelude.Run.{Raised, name_error, ok, raised}
use cxone_flow_buildwork.Workflows.{ScanWorkflow}
use cxone_flow_buildwork.Broker.{Key, setup, scan_input, queue_scan_wait, queue_annotate_pr}
use cxone_flow_buildwork.Broker.Delivery.{IsBroker}
use cxone_flow_buildwork.Broker.Routing.{awaited, pr_annotation, topic_of, published_to_one_queue}
use cxone_flow_buildwork.Feedback.{
  Act, publish, close_channel, Connection, publish_message, start_pr_scan_workflow,
}

module _ (c : Connection) where
  -- With a working connection, a started pull-request scan publishes the message that is polled and
  -- then the annotation, on a channel of its own each, also where the broker confirms neither.
  pub pr_scan_messages :
      (confirmed : Bool) (moniker : String)
      → c.channel ≡ ok tt
      → c.exchange ≡ ok true
      → c.published ≡ ok confirmed
      → start_pr_scan_workflow c (moniker ∷ []) [] ≡ (
        ok tt,
        publish (topic_of (awaited ScanWorkflow.pr) (moniker ∷ []))
            ∷ close_channel
            ∷ publish (topic_of pr_annotation (moniker ∷ []))
            ∷ close_channel
            ∷ [],
      )
  unfolding start_pr_scan_workflow
  pr_scan_messages confirmed moniker h1 h2 h3 = ground arith

  -- Where no channel can be opened, the exception that comes out is not the broker's: the clean-up
  -- reads the channel that was never bound.
  pub channel_error_is_masked :
      (topic : Key) (e : Raised) (acts : List Act)
      → c.channel ≡ raised e
      → publish_message c topic acts ≡ (raised name_error, acts)
  unfolding publish_message
  channel_error_is_masked topic e acts h = ground arith

-- The two topics of a started pull-request scan.
abbrev pub topics : List Act → List Key
topics [] = []
topics (publish topic ∷ acts) = topic ∷ topics acts
topics (a ∷ acts) = topics acts

abbrev pub come_to : (Key → String → Bool) → List Key → String → List Bool
come_to arrives [] q = []
come_to arrives (topic ∷ rest) q = arrives topic q ∷ come_to arrives rest q

-- A started pull-request scan of a service without a dot in its moniker gives one message to the
-- queue of awaited scans and one to the annotation queue, and nothing to any other.
pub pr_scan_queues :
    (queue_name : String → String) (tags : List String) (matches : Key → Key → Bool)
    (delivers : String → Key → String → Bool)
    → IsBroker (setup queue_name tags) matches delivers
    → (c : Connection) (confirmed : Bool) (moniker q : String) → c.channel ≡ ok tt
    → c.exchange ≡ ok true
    → c.published ≡ ok confirmed
    → come_to (delivers scan_input) (topics (start_pr_scan_workflow c (moniker ∷ []) []).1) q
      ≡ (queue_scan_wait == q) ∷ (queue_annotate_pr == q) ∷ []
pr_scan_queues queue_name tags matches delivers broker c confirmed moniker q h1 h2 h3 =
    rw
      (
        pr_scan_messages c confirmed moniker h1 h2 h3,
        published_to_one_queue queue_name tags matches delivers broker (awaited ScanWorkflow.pr)
            moniker q,
        published_to_one_queue queue_name tags matches delivers broker pr_annotation moniker q,
      )
      refl
