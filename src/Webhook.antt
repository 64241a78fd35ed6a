-- ===== src/Webhook.antt =====
-- orchestration/__init__.py (OrchestrationDispatch) and the webhook endpoints of wsgi.py: from a
-- request to the orchestrator that handles its event. The orchestrator is the record `Event`.
pub mod Authorization
mod Examples
use cxone_flow_buildwork.Prelude.{
  ℕ, String, Bool, true, false, Option, none, some, List, [], ◌∷◌, map, if◌then◌else◌,
}
use cxone_flow_buildwork.Prelude.Dict.{get}
use cxone_flow_buildwork.Prelude.Run.{
  Raised, route_not_found, not_authorized, attribute_error, key_error, is_exception, Result, ok,
  raised, Run, pure, raise, lift, try, ◌>>=◌,
}
use cxone_flow_buildwork.Config.{Entry, Tables, retrieve_services_by_route}

-- What OrchestrationDispatch asks of an orchestrator, whose methods act on a state.
pub record Event (S A : Type 0) : Type 0 where
  pub is_diagnostic : Bool
  pub route_urls : List String
  pub config_key : String
  -- is_signature_valid with the service's shared secret, or valid_bearer_token with its key
  pub is_authentic : Entry → Result Bool
  pub execute : Entry → Run S A
  pub handle_delegated_scan : Option Entry → String → Run S A

-- What execute returns: the number 204, None, or what the orchestrator returned.
pub data Reply (A : Type 0) : Type 0 where
  diagnostic : Reply A
  nothing : Reply A
  returned : A → Reply A

-- except RouteNotFoundException
abbrev pub is_route_not_found : Raised → Bool
is_route_not_found route_not_found = true
is_route_not_found _ = false

module _ {S A : Type 0} (matches : Entry → String → Bool) (t : Tables) (event : Event S A) where
  abbrev services : Run S (Option Entry)
  services = lift (retrieve_services_by_route matches t event.route_urls event.config_key)

  abbrev returning : Run S A → Run S (Reply A)
  returning m = do a ← m; pure (returned a)

  -- the `try` body of execute, once the services are known
  abbrev execute_with : Option Entry → Run S (Reply A)
  execute_with none = pure nothing
  execute_with (some entry) = do
    authentic ← lift (event.is_authentic entry)
    if authentic then returning (event.execute entry) else pure nothing

  unfoldable pub execute : Run S (Reply A)
  execute =
      if event.is_diagnostic
      then pure diagnostic
      else try (do found ← services; execute_with found)
          (λ e. if is_route_not_found e then pure nothing else raise e)

  unfoldable pub dispatch_delegated_scan_workflow : String → Run S (Reply A)
  dispatch_delegated_scan_workflow scan_id =
      try (do found ← services; returning (event.handle_delegated_scan found scan_id))
        (λ e. if is_route_not_found e then pure nothing else raise e)

  -- `services.kickoff` of None is an AttributeError; RouteNotFoundException is raised again
  abbrev kickoff_with : Option Entry → Run S A
  kickoff_with none = raise attribute_error
  kickoff_with (some entry) = do
    authentic ← lift (event.is_authentic entry)
    if authentic then event.execute entry else raise not_authorized

  unfoldable pub execute_kickoff : Run S A
  execute_kickoff = do found ← services; kickoff_with found

-- The endpoints /gh, /adoe and /gl, with the orchestrator already made; `accepted` is 204, or 201
-- for GitLab. An event is handed to the background; a diagnostic one is checked against the secret
-- of every service of the SCM.
pub data Response : Type 0 where
  accepted secret_known secret_unknown bad_request : Response

abbrev any_authentic : (Entry → Result Bool) → List Entry → Result Bool
any_authentic test [] = ok false
any_authentic test (e ∷ es) = elim (test e) [
  | raised x ↦ raised x
  | ok true ↦ ok true
  | ok false ↦ any_authentic test es
]

abbrev scm_services : Option (List Entry) → Result (List Entry)
scm_services none = raised key_error
scm_services (some entries) = ok entries

abbrev diagnostic_response : (Entry → Result Bool) → Result (List Entry) → Result Response
diagnostic_response test (raised e) = raised e
diagnostic_response test (ok entries) = elim (any_authentic test entries) [
  | raised e ↦ raised e
  | ok true ↦ ok secret_known
  | ok false ↦ ok secret_unknown
]

-- `except Exception: return Response(status=400)`
abbrev or_bad_request : Result Response → Result Response
or_bad_request (ok r) = ok r
or_bad_request (raised e) = if is_exception e then ok bad_request else raised e

unfoldable pub webhook_endpoint : {S A : Type 0} → Tables → Result (Event S A) → Result Response
unfolding get
webhook_endpoint t (raised e) = or_bad_request (raised e)
webhook_endpoint t (ok event) =
    if event.is_diagnostic
    then or_bad_request
        (diagnostic_response event.is_authentic (scm_services (get t.ordered event.config_key)))
    else ok accepted
