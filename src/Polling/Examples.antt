-- ===== src/Polling/Examples.antt =====
-- Deliveries of poll messages.
use Prim.Native.Nat.{◌^◌}
use cxone_flow_buildwork.Prelude.{min, ◌*◌, String, ◌≡◌, refl, true, false, [], ◌∷◌, arith}
use cxone_flow_buildwork.Prelude.Run.{Result, ok, raised, attribute_error}
use cxone_flow_buildwork.Workflows.{ScanWorkflow}
use cxone_flow_buildwork.Polling.{
  AwaitMessage, Inspection, Environment, PollConfig, process_poll, pr_feedback, ack, republish,
  feedback_error, close_channel,
}
use cxone_flow_buildwork.Polling.Backoff.{delay_after, delay_after_lem}
use cxone_flow_buildwork.Polling.Settling.{
  settled, settled_once, executing_polls_again, finished_told_once,
}

abbrev config : PollConfig
config = record { max_interval = 600000; backoff = 2 }

abbrev message : AwaitMessage
message = record {
  scan_id = "s";
  project_id = "p";
  moniker = "gh";
  workflow = ScanWorkflow.pr;
  drop_by = 100;
}

abbrev environment : Result Inspection → Environment
environment inspection = record {
  decoded = ok message;
  now = 50;
  open_channel = ok tt;
  inspect = inspection;
  started = λ handler. raised attribute_error;
  exchange = ok true;
  original_expiration = ok 400000;
  publish_acked = ok true;
  closed = ok tt;
}

abbrev running : Inspection
running = record { is_executing = true; is_successful = false; state_msg = "" }

abbrev broken : Inspection
broken = record { is_executing = false; is_successful = false; state_msg = "Failed" }

abbrev find : String → Result (Unit {0})
find moniker = ok tt

delay_after_lem_example : delay_after config 90000 3 ≡ min (90000 * 2 ^ 3) 600000
delay_after_lem_example = delay_after_lem config 90000 3 (omega arith) (omega arith)

settled_once_example : settled (process_poll config (environment (ok running)) find []).1 ≡ 1
settled_once_example =
    settled_once config (environment (ok running)) find 400000 true refl refl refl refl refl

executing_polls_again_example :
    process_poll config (environment (ok running)) find []
    ≡ (ok tt, republish (min (400000 * 2) 600000) ∷ ack ∷ close_channel ∷ [])
executing_polls_again_example =
    executing_polls_again config (environment (ok running)) find message running 400000 refl refl
      (omega arith) refl refl refl refl refl refl refl

finished_told_once_example :
    process_poll config (environment (ok broken)) find []
    ≡ (ok tt, feedback_error pr_feedback "Failed" ∷ ack ∷ close_channel ∷ [])
finished_told_once_example =
    finished_told_once config (environment (ok broken)) find message broken refl refl (omega arith)
      refl refl refl refl
