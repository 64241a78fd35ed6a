-- ===== src/Webhook/Authorization.antt =====
-- The check of an event's signature in orchestration/__init__.py.
use cxone_flow_buildwork.Prelude.{String, ◌≡◌, ◌≢◌, Bool, true, some, arith}
use cxone_flow_buildwork.Prelude.Run.{ok}
use cxone_flow_buildwork.Config.{Entry, Tables, retrieve_services_by_route}
use cxone_flow_buildwork.Webhook.{Event, returned, execute}

module _ {S A : Type 0} (matches : Entry → String → Bool) (t : Tables) (event : Event S A)
    (s : S) where
  -- If the signature is valid for no service that the event's route may find, the handler of the
  -- event does not run: the state stays, and nothing that the handler returns comes back.
  pub unauthentic_does_nothing :
      ((entry : Entry)
        → retrieve_services_by_route matches t event.route_urls event.config_key ≡ ok (some entry)
        → event.is_authentic entry ≢ ok true)
      → ((execute matches t event s).1 ≡ s)
        × ((a : A) → (execute matches t event s).0 ≢ ok (returned a))
  unfolding execute
  unauthentic_does_nothing h = (grind arith, λ a e. grind arith)
