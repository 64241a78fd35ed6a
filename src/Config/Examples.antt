-- ===== src/Config/Examples.antt =====
-- A configuration of two GitHub services.
use cxone_flow_buildwork.Prelude.{
  Option, none, true, false, String, ◌≡◌, refl, Bool, ◌==◌, ◌&&◌, some, List, [], ◌∷◌,
  if◌then◌else◌,
}
use cxone_flow_buildwork.Prelude.Dict.{Dict, get, has_key}
use cxone_flow_buildwork.Prelude.Run.{Result, ok, raised, configuration_error}
use cxone_flow_buildwork.Config.{
  Entry, Tables, no_tables, register, register_all, retrieve_services_by_route,
}
use cxone_flow_buildwork.Config.Lookups.{load_amqp_settings, with_api_key, cxone_client_factory}
use cxone_flow_buildwork.Config.Credentials.{
  Auths, CloneAuth, auth_bearer, gh, connection_cloner, scm_api_auth_factory, secret_of,
}
use cxone_flow_buildwork.Config.Credentials.Sharing.{SameSecret, same_secret}
use cxone_flow_buildwork.Config.Services.{
  FeedbackConfig, PrFeedback, members, pr_feedback_service_factory,
}
use cxone_flow_buildwork.Config.Services.Exclusion.{excluded_is_not_kept}
use cxone_flow_buildwork.Decoration.{not_exploitable, low, info, state_of, severity_of}
use cxone_flow_buildwork.Decoration.Report.{Found, is_kept}
use cxone_flow_buildwork.Config.Monikers.{route_agrees_with_moniker}

abbrev main_entry : Entry
main_entry = record { moniker = "gh-main"; service = 0 }

abbrev other_entry : Entry
other_entry = record { moniker = "gh-other"; service = 1 }

abbrev tables : Tables
tables = record {
  ordered = ("gh", main_entry ∷ other_entry ∷ []) ∷ [];
  by_moniker = ("gh-main", main_entry) ∷ ("gh-other", other_entry) ∷ [];
}

abbrev matching : Entry → String → Bool
matching entry url = entry.moniker == "gh-other" && url == "https://gh/org"

abbrev config : List (String × Result Entry)
config = ("gh", ok main_entry) ∷ ("gh", ok other_entry) ∷ []

loaded : register_all config no_tables ≡ ok tables
unfolding register_all register
loaded = refl

duplicate_moniker :
    register_all (("gh", ok main_entry) ∷ ("adoe", ok main_entry) ∷ []) no_tables
    ≡ raised configuration_error
unfolding register_all register
duplicate_moniker = refl

found : get tables.ordered "gh" ≡ some (main_entry ∷ other_entry ∷ [])
unfolding get
found = refl

routed :
    retrieve_services_by_route matching tables ("https://gh/org" ∷ []) "gh" ≡ ok (some other_entry)
unfolding retrieve_services_by_route get
routed = refl

route_agrees_with_moniker_example : get tables.by_moniker other_entry.moniker ≡ some other_entry
route_agrees_with_moniker_example =
    route_agrees_with_moniker matching config tables ("https://gh/org" ∷ []) "gh"
      (main_entry ∷ other_entry ∷ []) other_entry loaded found routed

abbrev secret_files : String → Option String
secret_files path = some "s3cret"

abbrev cxone : Dict String
cxone = ("tenant", "t") ∷ ("iam-endpoint", "US") ∷ ("api-endpoint", "US") ∷ ("api-key", "key") ∷ []

client_is_made : cxone_client_factory secret_files cxone none ≡ ok (with_api_key "s3cret")
unfolding cxone_client_factory has_key get
client_is_made = refl

-- a GitHub connection with a token, and the file of the token
abbrev token_auth_dict : Auths
token_auth_dict = ("token", some "gh-token") ∷ []

abbrev token_file : String → Option String
token_file path = if path == "gh-token" then some "t0ken" else none

same_secret_example :
    (cloner : CloneAuth) × (connection_cloner token_file gh token_auth_dict none ≡ ok cloner)
    × SameSecret (auth_bearer "t0ken") cloner
unfolding scm_api_auth_factory secret_of get
same_secret_example = same_secret token_file gh token_auth_dict refl refl refl

-- a configuration that keeps low severities and a state out of the comments
abbrev feedback_config : FeedbackConfig
feedback_config = record {
  pr_enabled = some true;
  excluded_state = "Not Exploitable" ∷ [];
  excluded_severity = "Low" ∷ "Info" ∷ [];
  scan_monitor = record {
    poll_interval_seconds = none;
    scan_timeout_hours = some 4;
    poll_max_interval_seconds = none;
    poll_backoff_multiplier = none;
  };
  push = none;
  amqp = none;
}

abbrev low_result : Found
low_result = record {
  state = some "To Verify";
  severity = "Low";
  key = "XSS";
  cells = "low" ∷ "XSS" ∷ [];
}

-- the service that the configuration makes
abbrev feedback_service : PrFeedback
feedback_service = record {
  exclusions = record {
    excluded_severities = low ∷ info ∷ [];
    excluded_states = not_exploitable ∷ [];
  };
  enabled = true;
  interval_seconds = 60;
  scan_timeout = 4;
  amqp = (some "amqp://localhost:5672", none, none, "True");
}

excluded_is_not_kept_example : is_kept feedback_service.exclusions low_result ≡ false
unfolding pr_feedback_service_factory members load_amqp_settings state_of severity_of
excluded_is_not_kept_example =
    excluded_is_not_kept token_file "True" feedback_config {w = feedback_service} low_result
      "To Verify" refl refl refl
