-- ===== src/Feedback/Examples.antt =====
-- Concrete deliveries.
use cxone_flow_buildwork.Prelude.{String, ◌≡◌, refl, true, false, ◌==◌, none, [], ◌∷◌}
use cxone_flow_buildwork.Prelude.Run.{Result, ok, raised, other}
use cxone_flow_buildwork.Broker.{scan_input, queue_scan_wait, queue_annotate_pr}
use cxone_flow_buildwork.Broker.Examples.{compare, delivered, delivered_lem}
use cxone_flow_buildwork.Feedback.{Message, Environment, Connection, start_pr_scan_workflow}
use cxone_flow_buildwork.Feedback.Deliveries.{settled}
use cxone_flow_buildwork.Feedback.Processing.{
  process_pr_annotate, process_pr_feedback, process_gen_sarif, processed_once,
}
use cxone_flow_buildwork.Feedback.Publishing.{pr_scan_queues, come_to, topics}

abbrev message : Message
message = record { scanid = "s"; projectid = "p"; moniker = "gh"; text = ""; is_error = false }

abbrev environment : Environment
environment = record {
  decoded = ok message;
  is_enabled = ok true;
  inspector = ok none;
  report = ok none;
  annotation = λ msg project. ok "text";
  full_content = λ msg report. ok "text";
  decorated = raised (other 0);
  sarif = ok tt;
  agents = 2;
}

abbrev connection : Result (Unit {0}) → Connection
connection channel = record { channel = channel; exchange = ok true; published = ok true }

pr_scan_queues_example :
    come_to
      (delivered scan_input)
      (topics (start_pr_scan_workflow (connection (ok tt)) ("gh" ∷ []) []).1)
      queue_scan_wait
    ≡ (queue_scan_wait == queue_scan_wait) ∷ (queue_annotate_pr == queue_scan_wait) ∷ []
pr_scan_queues_example =
    pr_scan_queues (λ tag. "tag") [] compare delivered delivered_lem (connection (ok tt)) true "gh"
      queue_scan_wait refl refl refl

abbrev known_service : String → Result (Unit {0})
known_service moniker = ok tt

processed_once_example :
    (settled (process_pr_annotate environment known_service []).1 ≡ 1)
    × (settled (process_pr_feedback environment known_service []).1 ≡ 1)
    × (settled (process_gen_sarif environment known_service []).1 ≡ 1)
processed_once_example = processed_once environment known_service
