-- ===== src/Broker/Consumers.antt =====
-- The consumers of queues that workflow_agent.py spawns.
pub mod Served
mod Examples
use cxone_flow_buildwork.Prelude.{
  String, ◌==◌, eq_iff, ◌≡◌, refl, Bool, true, false, ◌||◌, ◌&&◌, Option, none, some, List, [], ◌∷◌,
  ◌++◌, contains, All, All-append, Bool-cases, inl, inr, arith, if◌then◌else◌,
}
use cxone_flow_buildwork.Prelude.Run.{Result, ok, raised}
use cxone_flow_buildwork.Broker.{
  Binding, Destination, exchange, queue, setup, scan_bindings, resolver_bindings, tag_bindings,
  is_request_queue, dead_letter_exchange, queue_sarif_gen, queue_polling_legacy, queue_scan_polling,
  queue_annotate_pr, queue_feedback_pr, queue_resolver_complete, queue_resolver_timeout,
}

-- what a consumer calls for a message, and the service whose client it has
pub data Process : Type 0 where
  process_gen_sarif process_poll process_pr_annotate process_pr_feedback : Process
  resolver_results_agent resolver_timeout_agent : Process

pub data Client : Type 0 where
  pr_client resolver_client : Client

-- mq_agent, with its default for prefetch
pub record Consumer : Type 0 where
  pub process : Process
  pub moniker : String
  pub queue_name : String

-- the tasks that spawn_agents creates for one moniker, in order
abbrev pub agents : List (Client × Process × String)
agents =
    (pr_client, process_gen_sarif, queue_sarif_gen)
    ∷ (pr_client, process_poll, queue_polling_legacy)
    ∷ (pr_client, process_poll, queue_scan_polling)
    ∷ (pr_client, process_pr_annotate, queue_annotate_pr)
    ∷ (pr_client, process_pr_feedback, queue_feedback_pr)
    ∷ (resolver_client, resolver_results_agent, queue_resolver_complete)
    ∷ (resolver_client, resolver_timeout_agent, queue_resolver_timeout)
    ∷ []

abbrev pub created : Result (Unit {0}) → Consumer → Result (List Consumer) → Result (List Consumer)
created (raised e) consumer rest = raised e
created (ok _) consumer (raised e) = raised e
created (ok _) consumer (ok consumers) = ok (consumer ∷ consumers)

module _ (mq_client : Client → String → Result (Unit {0})) where
  -- the calls of g.create_task for one moniker; a client that cannot be made ends the group
  unfoldable pub create_tasks :
      String → List (Client × Process × String) → Result (List Consumer) → Result (List Consumer)
  create_tasks moniker [] others = others
  create_tasks moniker ((client, process, name) ∷ rest) others =
      created (mq_client client moniker)
        (record { process = process; moniker = moniker; queue_name = name })
        (create_tasks moniker rest others)

  unfoldable pub spawn_agents : List String → Result (List Consumer)
  unfolding create_tasks
  spawn_agents [] = ok []
  spawn_agents (moniker ∷ monikers) = create_tasks moniker agents (spawn_agents monikers)
