-- ===== src/Config/Setup/Examples.antt =====
-- A GitHub service with a token, an agent's tags and first scans, and one with the deprecated element.
use cxone_flow_buildwork.Prelude.{◌==◌, ◌≡◌, refl, true, false, Option, none, some, [], ◌∷◌}
use cxone_flow_buildwork.Prelude.Dict.{Dict, has_key}
use cxone_flow_buildwork.Prelude.Run.{ok}
use cxone_flow_buildwork.Config.Lookups.{with_api_key}
use cxone_flow_buildwork.Config.Services.{disabled_workflow}
use cxone_flow_buildwork.Config.Credentials.{gh, auth_bearer, using_basic_auth, secret_of}
use cxone_flow_buildwork.Config.Setup.Connecting.{bundle, checked}
use cxone_flow_buildwork.Config.Setup.Resolving.{
  ResolverElement, ResolverService, dummy_service, signing_workflow, chain, Holds,
}
use cxone_flow_buildwork.Config.Setup.{
  World, Element, Services, imported, kickoff_service, setup_scm,
}
use cxone_flow_buildwork.Config.Setup.Sound.{
  IsSound, setup_scm-IsSound, deprecated_agent_is_dropped,
}

abbrev world : World
world = record {
  files = λ path. some path;
  default_ssl_verify = checked true;
  default_ssl = "True";
  compile = λ regex. ok tt;
  finds_in_random = λ regex. regex == ".*";
  passes_policy = λ secret. secret == "good";
  import_module = λ name. imported;
  from_private_key = λ key. ok tt;
}

abbrev agent_element : ResolverElement
agent_element = record {
  texts = ("private-key", "key") ∷ ("default-agent-tag", "linux") ∷ [];
  capture_resolver_logs = none;
  allowed_agent_tags = "linux" ∷ "windows" ∷ "linux" ∷ [];
  amqp = none;
  scan_retries = none;
  scan_timeout_seconds = some 60;
}

abbrev element_of : Dict (Option ResolverElement) → Element
element_of agents = record {
  texts = ("repo-match", "github.com/org") ∷ ("service-name", "gh") ∷ [];
  cxone =
      (
        "cxone",
        (
          ("tenant", "t")
              ∷ ("iam-endpoint", "US")
              ∷ ("api-endpoint", "US")
              ∷ ("api-key", "key")
              ∷ [],
          none,
        ),
      )
      ∷ [];
  feedback = none;
  scan_agents = agents;
  project_naming = none;
  project_groups = none;
  connection =
      (
        "connection",
        record {
          texts =
              ("base-url", "https://github.com/")
              ∷ ("api-url-suffix", "/api/v3/")
              ∷ ("shared-secret", "good")
              ∷ [];
          auths = ("api-auth", some (("token", some "tok") ∷ [])) ∷ [];
          ssl_verify = some (bundle "False");
        },
      )
      ∷ [];
  kickoff = some record { texts = ("ssh-public-key", "pub") ∷ []; max_concurrent_scans = some 40 };
}

abbrev services_with : ResolverService → Services
services_with resolver = record {
  repo_match = "github.com/org";
  service_moniker = "gh";
  client = with_api_key "key";
  pr = record {
    exclusions = record { excluded_severities = []; excluded_states = [] };
    enabled = false;
    interval_seconds = 60;
    scan_timeout = 48;
    amqp = (some "amqp://localhost:5672", none, none, "True");
  };
  push = disabled_workflow;
  poll = record {
    max_interval_seconds = 600;
    backoff_scalar = 2;
    amqp = (some "amqp://localhost:5672", none, none, "True");
  };
  resolver = resolver;
  naming = (none, false);
  grouping = ([], false);
  scm = record {
    display_url = "https://github.com/";
    session = record {
      api_url = "https://github.com/api/v3";
      auth = auth_bearer "tok";
      ssl_verify = bundle "False";
    };
    shared_secret = "good";
    cloner = using_basic_auth "git" "tok" false;
    ssl_no_verify = true;
  };
  kickoff = kickoff_service "pub" 10;
}

abbrev resolver : ResolverService
resolver = record {
  amqp = (some "amqp://localhost:5672", none, none, "True");
  workflow = signing_workflow false "key" 3 60;
  default_tag = some "linux";
  project_tag_key = some "resolver";
  agent_tags = "windows" ∷ "linux" ∷ [];
}

set_up :
    setup_scm world gh (element_of (("scan-agent", some agent_element) ∷ []))
    ≡ ok (services_with resolver)
unfolding setup_scm chain secret_of
set_up = refl

setup_scm-IsSound_example : IsSound world (services_with resolver)
setup_scm-IsSound_example =
    setup_scm-IsSound world gh (element_of (("scan-agent", some agent_element) ∷ [])) set_up

abbrev deprecated : Dict (Option ResolverElement)
deprecated = ("resolver", some agent_element) ∷ ("scan-agent", some agent_element) ∷ []

deprecated_there : has_key deprecated "resolver" ≡ true
unfolding has_key
deprecated_there = refl

set_up_without : setup_scm world gh (element_of deprecated) ≡ ok (services_with dummy_service)
unfolding setup_scm chain secret_of
set_up_without = refl

deprecated_agent_is_dropped_example :
    (setup_scm world gh (element_of deprecated) ≡ setup_scm world gh (element_of []))
    × Holds
        (λ (s : Services). s.resolver ≡ dummy_service)
        (setup_scm world gh (element_of deprecated))
deprecated_agent_is_dropped_example =
    deprecated_agent_is_dropped world gh (element_of deprecated) deprecated_there
