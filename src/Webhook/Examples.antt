-- ===== src/Webhook/Examples.antt =====
-- A forged request.
use cxone_flow_buildwork.Prelude.{ℕ, suc, String, ◌≡◌, ◌≢◌, Bool, true, false, some, [], ◌∷◌}
use cxone_flow_buildwork.Prelude.Run.{ok}
use cxone_flow_buildwork.Config.{Entry, Tables, retrieve_services_by_route}
use cxone_flow_buildwork.Webhook.{Event, returned, execute}
use cxone_flow_buildwork.Webhook.Authorization.{unauthentic_does_nothing}

abbrev service : Entry
service = record { moniker = "gh-main"; service = 0 }

abbrev tables : Tables
tables = record { ordered = ("gh", service ∷ []) ∷ []; by_moniker = ("gh-main", service) ∷ [] }

abbrev every_url : Entry → String → Bool
every_url entry url = true

-- Its handler counts how often it ran.
abbrev forged : Event ℕ ℕ
forged = record {
  is_diagnostic = false;
  route_urls = "https://gh/org" ∷ [];
  config_key = "gh";
  is_authentic = λ entry. ok false;
  execute = λ entry n. (ok n, suc n);
  handle_delegated_scan = λ entry scan n. (ok n, n);
}

forged_is_unauthentic :
    (entry : Entry)
    → retrieve_services_by_route every_url tables forged.route_urls forged.config_key
      ≡ ok (some entry)
    → forged.is_authentic entry ≢ ok true
forged_is_unauthentic entry h e = cc

unauthentic_does_nothing_example :
    ((execute every_url tables forged 3).1 ≡ 3)
    × ((a : ℕ) → (execute every_url tables forged 3).0 ≢ ok (returned a))
unauthentic_does_nothing_example =
    unauthentic_does_nothing every_url tables forged 3 forged_is_unauthentic
