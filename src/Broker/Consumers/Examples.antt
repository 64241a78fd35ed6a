-- ===== src/Broker/Consumers/Examples.antt =====
-- The consumers of one service whose resolver has a tag.
use cxone_flow_buildwork.Prelude.{String, ◌≡◌, refl, All, List, [], ◌∷◌}
use cxone_flow_buildwork.Prelude.Run.{Result, ok}
use cxone_flow_buildwork.Broker.{
  Binding, setup, queue_sarif_gen, queue_polling_legacy, queue_scan_polling, queue_annotate_pr,
  queue_feedback_pr, queue_resolver_complete, queue_resolver_timeout,
}
use cxone_flow_buildwork.Broker.Consumers.{
  Process, Client, Consumer, process_gen_sarif, process_poll, process_pr_annotate,
  process_pr_feedback, resolver_results_agent, resolver_timeout_agent, create_tasks, spawn_agents,
}
use cxone_flow_buildwork.Broker.Consumers.Served.{IsRead, setup-IsRead}

abbrev connected : Client → String → Result (Unit {0})
connected _ moniker = ok tt

abbrev consumer : Process → String → Consumer
consumer process name = record { process = process; moniker = "gh"; queue_name = name }

abbrev consumers : List Consumer
consumers =
    consumer process_gen_sarif queue_sarif_gen
    ∷ consumer process_poll queue_polling_legacy
    ∷ consumer process_poll queue_scan_polling
    ∷ consumer process_pr_annotate queue_annotate_pr
    ∷ consumer process_pr_feedback queue_feedback_pr
    ∷ consumer resolver_results_agent queue_resolver_complete
    ∷ consumer resolver_timeout_agent queue_resolver_timeout
    ∷ []

spawned : spawn_agents connected ("gh" ∷ []) ≡ ok consumers
unfolding spawn_agents create_tasks
spawned = refl

abbrev queue_of : String → String
queue_of tag = tag

setup-IsRead_example :
    All
      (λ (b : Binding). IsRead queue_of ("linux" ∷ []) consumers "gh" b.destination)
      (setup queue_of ("linux" ∷ []))
setup-IsRead_example = setup-IsRead queue_of ("linux" ∷ []) connected ("gh" ∷ []) spawned "gh" refl
