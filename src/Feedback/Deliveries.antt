-- ===== src/Feedback/Deliveries.antt =====
-- How deliveries to the feedback services are settled.
use cxone_flow_buildwork.Prelude.{
  ℕ, zero, suc, ◌+◌, ◌≡◌, ◌⊎◌, Bool, true, none, List, [], ◌∷◌, ◌++◌, arith,
}
use cxone_flow_buildwork.Prelude.Run.{cxone_error, ok, raised}
use cxone_flow_buildwork.Feedback.{
  Act, ack, nack, retrieve_report, deliver, Message, Environment, tasks,
  execute_pr_annotate_workflow, execute_pr_feedback_workflow, execute_sarif_generation,
}

abbrev is_settling : Act → ℕ
is_settling ack = 1
is_settling (nack requeue) = 1
is_settling _ = 0

-- How often a delivery is acknowledged or rejected.
abbrev pub settled : List Act → ℕ
settled [] = 0
settled (a ∷ acts) = is_settling a + settled acts

abbrev is_delivery : Act → ℕ
is_delivery (deliver agent is_error) = 1
is_delivery _ = 0

abbrev pub deliveries : List Act → ℕ
deliveries [] = 0
deliveries (a ∷ acts) = is_delivery a + deliveries acts

settled-append : (xs ys : List Act) → settled (xs ++ ys) ≡ settled xs + settled ys
settled-append [] ys = omega arith
settled-append (x ∷ xs) ys = omega (arith, settled-append xs ys)

deliveries-append : (xs ys : List Act) → deliveries (xs ++ ys) ≡ deliveries xs + deliveries ys
deliveries-append [] ys = omega arith
deliveries-append (x ∷ xs) ys = omega (arith, deliveries-append xs ys)

module _ (env : Environment) where
  settled-tasks : (n : ℕ) (is_error : Bool) → settled (tasks env n is_error) ≡ 0
  unfolding tasks
  settled-tasks zero is_error = ground arith
  settled-tasks (suc n) is_error = ground (
    arith,
    settled-tasks n is_error,
    settled-append (tasks env n is_error) (deliver n is_error ∷ []),
  )

  deliveries-tasks : (n : ℕ) (is_error : Bool) → deliveries (tasks env n is_error) ≡ n
  unfolding tasks
  deliveries-tasks zero is_error = ground arith
  deliveries-tasks (suc n) is_error = ground (
    arith,
    deliveries-tasks n is_error,
    deliveries-append (tasks env n is_error) (deliver n is_error ∷ []),
  )

  settled-annotate : settled (execute_pr_annotate_workflow env []).1 ≡ 1
  unfolding execute_pr_annotate_workflow
  settled-annotate = ground arith

  settled-feedback : settled (execute_pr_feedback_workflow env []).1 ≡ 1
  unfolding execute_pr_feedback_workflow
  settled-feedback = ground arith

  settled-sarif : settled (execute_sarif_generation env []).1 ≡ 1
  unfolding execute_sarif_generation
  settled-sarif = grind (arith, settled-append, settled-tasks)

  -- Each of the three handlers settles its delivery exactly once, whatever fails.
  pub settles_once :
      (settled (execute_pr_annotate_workflow env []).1 ≡ 1)
      × (settled (execute_pr_feedback_workflow env []).1 ≡ 1)
      × (settled (execute_sarif_generation env []).1 ≡ 1)
  settles_once = (settled-annotate, settled-feedback, settled-sarif)

  -- An enabled SARIF message whose log is generated is given to every delivery agent exactly once,
  -- there being one at least.
  pub every_agent_delivers :
      (msg : Message) (n : ℕ)
      → env.decoded ≡ ok msg
      → env.is_enabled ≡ ok true
      → env.sarif ≡ ok tt
      → env.agents ≡ suc n
      → deliveries (execute_sarif_generation env []).1 ≡ suc n
  unfolding execute_sarif_generation
  every_agent_delivers msg n h1 h2 h3 h4 = grind (arith, deliveries-append, deliveries-tasks)

  -- A pull request's feedback is given back to its queue, without a decoration, where
  -- the report is not complete in time or CheckmarxOne answers with an error.
  pub report_missing_is_requeued :
      (msg : Message)
      → env.decoded ≡ ok msg
      → env.is_enabled ≡ ok true
      → ((env.report ≡ ok none) ⊎ (env.report ≡ raised cxone_error))
      → (execute_pr_feedback_workflow env []).1
        ≡ retrieve_report msg.projectid msg.scanid ∷ nack true ∷ []
  unfolding execute_pr_feedback_workflow
  report_missing_is_requeued msg h1 h2 h3 = ground arith
