-- ===== src/Feedback/Processing.antt =====
-- process_gen_sarif, process_pr_annotate and process_pr_feedback of workflow_agent.py: the message is read,
-- its service is found, and the handler reads the message again. Any exception ends in a rejection.
use cxone_flow_buildwork.Prelude.{false, String, ◌≡◌, [], inl, inr, arith}
use cxone_flow_buildwork.Prelude.Run.{Result, ok, lift, call, try, ◌>>=◌, ◌>>◌, Result-cases}
use cxone_flow_buildwork.Feedback.{
  nack, Message, Environment, Handler, execute_pr_annotate_workflow, execute_pr_feedback_workflow,
  execute_sarif_generation,
}
use cxone_flow_buildwork.Feedback.Deliveries.{settled, settles_once}

module _ (env : Environment) (retrieve_services_by_moniker : String → Result (Unit {0})) where
  -- the shape of the three, with the handler that each calls
  unfoldable pub process_by : Handler (Unit {0}) → Handler (Unit {0})
  process_by execute =
      try (do sm ← lift env.decoded; lift (retrieve_services_by_moniker sm.moniker); execute)
        (λ e. call (nack false) (ok tt))

  unfoldable pub process_gen_sarif : Handler (Unit {0})
  unfolding process_by execute_sarif_generation
  process_gen_sarif = process_by (execute_sarif_generation env)

  unfoldable pub process_pr_annotate : Handler (Unit {0})
  unfolding process_by execute_pr_annotate_workflow
  process_pr_annotate = process_by (execute_pr_annotate_workflow env)

  unfoldable pub process_pr_feedback : Handler (Unit {0})
  unfolding process_by execute_pr_feedback_workflow
  process_pr_feedback = process_by (execute_pr_feedback_workflow env)

  -- A message that can be read is settled by its handler, which raises nothing.
  pub process_by_lem :
      (execute : Handler (Unit {0}))
      → ((msg : Message) → env.decoded ≡ ok msg → (execute []).0 ≡ ok tt)
      → settled (execute []).1 ≡ 1
      → settled (process_by execute []).1 ≡ 1
  unfolding process_by
  process_by_lem execute ends once = elim (Result-cases env.decoded) [
    | inl (msg, e) ↦ ground (arith, ends msg e)
    | inr (r, e) ↦ ground arith
  ]

  annotate_ends :
      (msg : Message) → env.decoded ≡ ok msg → (execute_pr_annotate_workflow env []).0 ≡ ok tt
  unfolding execute_pr_annotate_workflow
  annotate_ends msg e = ground arith

  feedback_ends :
      (msg : Message) → env.decoded ≡ ok msg → (execute_pr_feedback_workflow env []).0 ≡ ok tt
  unfolding execute_pr_feedback_workflow
  feedback_ends msg e = ground arith

  sarif_ends : (msg : Message) → env.decoded ≡ ok msg → (execute_sarif_generation env []).0 ≡ ok tt
  unfolding execute_sarif_generation
  sarif_ends msg e = ground arith

  -- Each of the three functions that the queues' consumers call settles its delivery exactly once,
  -- whatever fails: the message cannot be read, its service is not configured, or the handler ends
  -- in one of its branches.
  pub processed_once :
      (settled (process_pr_annotate []).1 ≡ 1)
      × (settled (process_pr_feedback []).1 ≡ 1)
      × (settled (process_gen_sarif []).1 ≡ 1)
  unfolding process_pr_annotate process_pr_feedback process_gen_sarif
  processed_once =
      let (annotate, feedback, sarif) = settles_once env in
      (
        process_by_lem _ annotate_ends annotate,
        process_by_lem _ feedback_ends feedback,
        process_by_lem _ sarif_ends sarif,
      )
