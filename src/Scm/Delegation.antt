-- ===== src/Scm/Delegation.antt =====
-- The two maps of each SCM from events to handlers.
use cxone_flow_buildwork.Prelude.{
  String, ◌==◌, ◌≡◌, refl, true, if◌then◌else◌, Option, none, some, [], ◌∷◌, arith, eq_iff,
}
use cxone_flow_buildwork.Prelude.Dict.{Dict, IsDict, get, has_key, has_key-eq-false}
use cxone_flow_buildwork.Scm.{Workflow, Delegated, delegated_of, delegated_of_found}
use cxone_flow_buildwork.Scm.Github
use cxone_flow_buildwork.Scm.Gitlab
use cxone_flow_buildwork.Scm.Azure
use cxone_flow_buildwork.Scm.Bitbucket

abbrev put_first : String → Option Delegated → Dict Delegated → Dict Delegated
put_first k none d = d
put_first k (some x) d = (k, x) ∷ d

-- the delegated handlers that a map of workflows asks for
delegates : Dict Workflow → Dict Delegated
delegates [] = []
delegates ((k, w) ∷ d) = put_first k (delegated_of w) (delegates d)

get-put_first :
    (k event : String) (o : Option Delegated) (d : Dict Delegated) (found : Option Delegated)
    → get d event ≡ found
    → ((k == event) ≡ true → found ≡ none)
    → get (put_first k o d) event ≡ (if k == event then o else found)
unfolding get
get-put_first k event none d found h none_there = ground arith
get-put_first k event (some x) d found h none_there = ground arith

get-delegates :
    (d : Dict Workflow) (event : String)
    → IsDict d
    → get (delegates d) event ≡ delegated_of_found (get d event)
unfolding get delegates
get-delegates [] event h = refl
get-delegates ((k, w) ∷ d) event h = ground (
  arith,
  get-delegates d event h.1,
  has_key-eq-false d event,
  eq_iff k event,
  get-put_first k event (delegated_of w) (delegates d) (delegated_of_found (get d event)),
)

-- In each of the four orchestrators an event has a handler for the end of a delegated scan exactly if
-- the event's workflow scans, and it is the handler of that kind: of a push or of a pull request.
pub same_events :
    (event : String)
    → (get Github.delegate_scan_handler_map event
        ≡ delegated_of_found (get Github.workflow_map event))
      × (get Gitlab.delegate_scan_handler_map event
          ≡ delegated_of_found (get Gitlab.workflow_map event))
      × (get Azure.delegate_scan_handler_map event
          ≡ delegated_of_found (get Azure.workflow_map event))
      × (get Bitbucket.delegate_scan_handler_map event
          ≡ delegated_of_found (get Bitbucket.workflow_map event))
unfolding Github.delegate_scan_handler_map Github.workflow_map Gitlab.delegate_scan_handler_map
    Gitlab.workflow_map Azure.delegate_scan_handler_map Azure.workflow_map
    Bitbucket.delegate_scan_handler_map Bitbucket.workflow_map delegates has_key
same_events event = (
  get-delegates Github.workflow_map event (ground arith),
  get-delegates Gitlab.workflow_map event (ground arith),
  get-delegates Azure.workflow_map event (ground arith),
  get-delegates Bitbucket.workflow_map event (ground arith),
)
