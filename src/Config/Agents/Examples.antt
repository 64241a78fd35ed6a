-- ===== src/Config/Agents/Examples.antt =====
-- An agent for one tag, with a resolver at a path.
use cxone_flow_buildwork.Prelude.{String, ◌≡◌, refl, Bool, true, false, none, some, List, [], ◌∷◌}
use cxone_flow_buildwork.Prelude.Dict.{get, has_key}
use cxone_flow_buildwork.Prelude.Texts.{rstrip}
use cxone_flow_buildwork.Prelude.Run.{Result, ok}
use cxone_flow_buildwork.Config.Lookups.{Files}
use cxone_flow_buildwork.Config.Agents.{
  Section, AgentConfig, ServicedAgent, append_agents, resolver_runner_factory, runner_by_path,
  with_prescan, agent_factory,
}
use cxone_flow_buildwork.Resolver.Runners.{shell_runner, directory}

abbrev nothing_there : String → Bool
nothing_there path = false

abbrev no_build : List String → Result String
no_build args = ok ""

abbrev key_file : Files
key_file path = some "PUBLIC KEY"

abbrev agent_config : AgentConfig
agent_config = record {
  texts = ("public-key", "key.pem") ∷ ("resolver-path", "/opt/ScaResolver") ∷ [];
  flags = [];
  sections = [];
  opts = none;
  amqp = none;
}

abbrev linux_agent : ServicedAgent
linux_agent = record {
  tag = "linux";
  public_key = "PUBLIC KEY";
  runner = shell_runner (some "/tmp/") none (some "/opt/ScaResolver") none;
  amqp = (some "amqp://localhost:5672", none, none, "True");
}

loaded :
    append_agents nothing_there nothing_there no_build key_file "True"
      (("linux", agent_config) ∷ [])
      []
    ≡ (ok tt, linux_agent ∷ [])
unfolding append_agents agent_factory resolver_runner_factory runner_by_path with_prescan directory
    rstrip get
loaded = refl

abbrev queue_of : String → String
queue_of tag = tag

abbrev container : Section
container = record {
  texts = ("supply-chain-toolkit-path", "/opt/toolkit") ∷ ("container-image-tag", "ubuntu") ∷ [];
  flags = [];
}

-- the new element beside the deprecated one
abbrev deprecated_config : AgentConfig
deprecated_config = record {
  texts = ("public-key", "key.pem") ∷ [];
  flags = [];
  sections =
      ("run-with-container", some container) ∷ ("run-resolver-with-container", some container) ∷ [];
  opts = none;
  amqp = none;
}

deprecated_there : has_key deprecated_config.sections "run-with-container" ≡ true
unfolding has_key
deprecated_there = refl

no_path : get deprecated_config.texts "resolver-path" ≡ none
unfolding get
no_path = refl

not_disabled : get deprecated_config.flags "disable-resolver" ≡ none
unfolding get
not_disabled = refl
