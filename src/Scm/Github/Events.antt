-- ===== src/Scm/Github/Events.antt =====
-- The events of GitHub: what is read from a payload, and the maps from events to handlers
-- (orchestration/gh.py).
use cxone_flow_buildwork.Prelude.{
  String, ◌==◌, ◌<>◌, Bool, true, false, ◌||◌, Option, none, some, List, [], ◌∷◌, if◌then◌else◌,
}
use cxone_flow_buildwork.Prelude.Dict.{Dict}
use cxone_flow_buildwork.Prelude.Run.{Result, ok, raised}
use cxone_flow_buildwork.Scm.{
  first_found, Workflow, log_install, push_scan, pr_scan, pr_tag_update, Delegated, push, pr,
}

-- What the JSON paths find in a payload; an action that is found may be null.
pub record Payload : Type 0 where
  pub event : Option String
  pub action : Option (Option String)
  pub account_url : Option String
  pub install_fields : Result (Unit {0})
  pub ref : Option String
  pub after : Option String
  pub repository_name : Option String
  pub owner_name : Option String
  pub owner_login : Option String
  pub ssh_url : Option String
  pub clone_url : Option String
  pub default_branch : Option String
  pub html_url : Option String
  pub number : Option String
  pub base_ref : Option String
  pub base_sha : Option String
  pub head_ref : Option String
  pub head_sha : Option String
  pub is_draft : Option Bool
  pub state : Option String
  pub assignee : Option (Option String)
  pub assignees : Option (Option (List String))
  pub requested_reviewers : List (Dict String)

-- f"{…}" of a value that may be None
abbrev format : Option String → String
format none = "None"
format (some s) = s

abbrev format_action : Option String → String
format_action none = ""
format_action (some action) = action

abbrev pub event_of : Option (Option String) → Option String → Option String
event_of none event = event
event_of (some action) event = some (format event <> ":" <> format_action action)

-- __dispatch_event
unfoldable pub dispatch_event : Payload → Option String
dispatch_event p = event_of p.action p.event

-- the diagnostic event, at which __init__ returns early
abbrev is : Option String → String → Bool
is none name = false
is (some event) name = event == name

unfoldable pub is_diagnostic : Payload → Bool
is_diagnostic p = is p.event "ping"

abbrev has_code_urls : Option String → Bool
has_code_urls event = is event "push" || is event "pull_request"

abbrev is_install : Option String → Bool
is_install event = is event "installation" || is event "installation_repositories"

-- `$.repository[clone_url,ssh_url]` finds clone_url first
abbrev either_url : Option String → Option String → Option String
either_url none ssh_url = ssh_url
either_url (some url) ssh_url = some url

-- __route_url_parser_dispatch_map
unfoldable pub route_urls : Payload → Result (List String)
route_urls p =
    if is_install p.event
    then (elim (first_found p.account_url) [ raised e ↦ raised e | ok url ↦ ok (url ∷ []) ])
    else if has_code_urls p.event
    then (elim (first_found (either_url p.clone_url p.ssh_url)) [
      | raised e ↦ raised e
      | ok url ↦ ok (url ∷ [])
    ])
    else ok []

abbrev both_urls : Result String → Result String → Result (Dict String)
both_urls (raised e) http = raised e
both_urls (ok ssh) (raised e) = raised e
both_urls (ok ssh) (ok http) = ok (("ssh", ssh) ∷ ("http", http) ∷ [])

-- __clone_url_parser_dispatch_map
unfoldable pub clone_urls : Payload → Result (Dict String)
clone_urls p =
    if has_code_urls p.event
    then both_urls (first_found p.ssh_url) (first_found p.clone_url)
    else ok []

unfoldable pub workflow_map : Dict Workflow
workflow_map =
    ("installation:deleted", log_install)
    ∷ ("installation:unsuspend", log_install)
    ∷ ("installation:suspend", log_install)
    ∷ ("installation:created", log_install)
    ∷ ("installation_repositories:deleted", log_install)
    ∷ ("installation_repositories:unsuspend", log_install)
    ∷ ("installation_repositories:suspend", log_install)
    ∷ ("installation_repositories:created", log_install)
    ∷ ("push", push_scan)
    ∷ ("pull_request:opened", pr_scan)
    ∷ ("pull_request:synchronize", pr_scan)
    ∷ ("pull_request:ready_for_review", pr_scan)
    ∷ ("pull_request:reopened", pr_scan)
    ∷ ("pull_request:assigned", pr_tag_update)
    ∷ ("pull_request:unassigned", pr_tag_update)
    ∷ ("pull_request:review_request_removed", pr_tag_update)
    ∷ ("pull_request:review_requested", pr_tag_update)
    ∷ ("pull_request:closed", pr_tag_update)
    ∷ ("pull_request:converted_to_draft", pr_tag_update)
    ∷ []

unfoldable pub delegate_scan_handler_map : Dict Delegated
delegate_scan_handler_map =
    ("push", push)
    ∷ ("pull_request:opened", pr)
    ∷ ("pull_request:synchronize", pr)
    ∷ ("pull_request:ready_for_review", pr)
    ∷ ("pull_request:reopened", pr)
    ∷ []

abbrev is_filled {ℓ} : {A : Type ℓ} → List A → Bool
is_filled [] = false
is_filled (x ∷ xs) = true

-- len(self.__get_pr_assignees()) > 0
unfoldable pub has_assignees : Payload → Bool
has_assignees p =
    (elim p.assignees [ none ↦ false | some none ↦ false | some (some xs) ↦ is_filled xs ])
    || (elim p.assignee [ none ↦ false | some none ↦ false | some (some x) ↦ true ])

-- len(self.__get_pr_reviewers()) > 0, of the first value that is found
unfoldable pub has_reviewers : Payload → Bool
has_reviewers p = elim p.requested_reviewers [ [] ↦ false | xs ∷ rest ↦ is_filled xs ]

unfoldable pub pr_status : Payload → String
unfolding has_assignees has_reviewers
pr_status p =
    if has_assignees p
    then "REVIEWERS_ASSIGNED"
    else if has_reviewers p
    then "REVIEWERS_REQUESTED"
    else "NO_REVIEWERS"
