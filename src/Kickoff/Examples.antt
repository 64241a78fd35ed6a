-- ===== src/Kickoff/Examples.antt =====
-- A server with room for one kickoff scan.
use cxone_flow_buildwork.Prelude.{
  ℕ, String, ◌==◌, if◌then◌else◌, Option, ◌≡◌, refl, true, false, none, some, List, [], ◌∷◌, arith,
}
use cxone_flow_buildwork.Prelude.Dict.{Dict, get}
use cxone_flow_buildwork.Prelude.Texts.{split, grow, lower_equals}
use cxone_flow_buildwork.Prelude.Run.{Result, ok, raised, value_error}
use cxone_flow_buildwork.Orchestration.Types.{executing, Inspector}
use cxone_flow_buildwork.Orchestration.Scan.{Outcome}
use cxone_flow_buildwork.Kickoff.{
  ExecutingScan, KickoffServices, Status, fresh, execute, kickoff_impl,
}
use cxone_flow_buildwork.Kickoff.Tokens.{
  kickoff_service, HasBearer, valid_bearer_token, IsLive, admitted_has_token,
}
use cxone_flow_buildwork.Kickoff.Admission.{refused_does_nothing}

abbrev one_scan : ExecutingScan
one_scan = record { project_name = "a"; project_id = "p"; scan_id = "s"; scan_branch = "main" }

abbrev server : List ExecutingScan → Outcome → KickoffServices
server running outcome = record {
  running_ko_scans = ok running;
  one_scan_exists_on_branch = λ project branch. ok false;
  max_concurrent_scans = 1;
  completed_ko_scans = λ project. ok [];
  project_name = "b";
  push_scan_workflow = λ calls. (ok outcome, calls);
}

abbrev inspector : Inspector
inspector = record { project_id = "p"; scan_id = "s"; is_executing = true; is_failed = false }

started :
    kickoff_impl (execute (server [] (some inspector, executing)) "main" fresh)
    ≡ ok (
      Status.scan_started,
      some (record {
        running_scans = [];
        started_scan =
            some (record {
              project_name = "b";
              project_id = "p";
              scan_id = "s";
              scan_branch = "main";
            });
      }),
    )
unfolding execute kickoff_impl
started = refl

abbrev full : KickoffServices
full = server (one_scan ∷ []) (some inspector, executing)

refused_does_nothing_example :
    ((execute full "main" fresh).1.calls ≡ [])
    × ((execute full "main" fresh).1.started_scan ≡ none)
    × ((execute full "main" fresh).1.executing_scans ≡ one_scan ∷ [])
refused_does_nothing_example =
    refused_does_nothing full "main" (one_scan ∷ []) [] false refl refl refl
      (λ h. omega (arith, h.1))

abbrev decoded : String → Result (Option (Option ℕ))
decoded token = if token == "t0ken" then ok (some (some 100)) else raised value_error

abbrev headers : Dict String
headers = ("Authorization", "BEARER t0ken") ∷ []

let_through : valid_bearer_token decoded 99 kickoff_service headers ≡ ok true
unfolding valid_bearer_token lower_equals split grow get
let_through = refl

expired : valid_bearer_token decoded 100 kickoff_service headers ≡ ok false
unfolding valid_bearer_token lower_equals split grow get
expired = refl

admitted_has_token_example :
    (kickoff_service ≡ kickoff_service)
    × ((content scheme token : String) × (rest : List String) × HasBearer headers content scheme
          token rest
        × IsLive decoded 99 token)
admitted_has_token_example = admitted_has_token decoded 99 kickoff_service headers let_through
