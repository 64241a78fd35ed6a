-- ===== src/Config/Agents.antt =====
-- The configuration of the resolver agent, config/resolver/__init__.py. A dict of the configuration is
-- given by the types of its values: texts, flags, and dicts of their own, which may be null. The build of
-- a toolkit's container and the file system are given.
pub mod Serviced
mod Examples
use cxone_flow_buildwork.Prelude.{
  ℕ, String, Bool, true, false, Option, none, some, List, [], ◌∷◌, ◌++◌, if◌then◌else◌,
}
use cxone_flow_buildwork.Prelude.Dict.{Dict, get}
use cxone_flow_buildwork.Prelude.Run.{
  configuration_error, Result, ok, raised, Run, lift, pure, ◌>>=◌, ◌>>◌,
}
use cxone_flow_buildwork.Config.Lookups.{
  Files, value_or_fail, value_or_default, value_warn_deprecated, secret_or_fail, load_amqp_settings,
}
use cxone_flow_buildwork.Config.Services.{Amqp, and_then}
use cxone_flow_buildwork.Resolver.Options.{Value}
use cxone_flow_buildwork.Resolver.Runners.{
  Runner, Script, no_resolver_runner, shell_runner, two_stage_runner, make_toolkit_runner,
  directory,
}

-- the elements pre-scan and run-resolver-with-container
pub record Section : Type 0 where
  pub texts : Dict String
  pub flags : Dict Bool

-- the element of one serviced tag
pub record AgentConfig : Type 0 where
  pub texts : Dict String
  pub flags : Dict Bool
  pub sections : Dict (Option Section)
  pub opts : Option (Dict Value)
  pub amqp : Option (Dict String)

-- ResolverRunnerAgent, as its constructor makes it
pub record ServicedAgent : Type 0 where
  pub tag : String
  pub public_key : String
  pub runner : Runner
  pub amqp : Amqp

module _ (path_exists is_file : String → Bool) (output : List String → Result String) where
  abbrev work_path : AgentConfig → String
  work_path c =
      value_warn_deprecated (some "scan-agent-work-path") (some "resolver-work-path") (some c.texts)
        "/tmp"

  abbrev pub container_runner_cfg : AgentConfig → Option Section
  container_runner_cfg c =
      value_warn_deprecated (some "run-resolver-with-container") (some "run-with-container")
        (some c.sections) none

  -- the call of ResolverToolkitRunner, and the `else` that raises
  unfoldable pub toolkit_or_fail : AgentConfig → Option Section → Result Runner
  unfolding value_or_fail value_or_default make_toolkit_runner
  toolkit_or_fail c none = raised configuration_error
  toolkit_or_fail c (some s) = and_then (value_or_fail "supply-chain-toolkit-path" s.texts) λ path.
      and_then (value_or_fail "container-image-tag" s.texts) λ tag.
        make_toolkit_runner path_exists is_file output (some (work_path c)) c.opts path tag
          (value_or_default "use-running-uid" (some s.flags) true)
          (value_or_default "use-running-gid" (some s.flags) true)

  unfoldable pub runner_by_path : AgentConfig → Option String → Result Runner
  unfolding directory toolkit_or_fail get value_warn_deprecated
  runner_by_path c (some path) = ok (
      shell_runner (directory (some (work_path c))) c.opts (some path)
        (get c.texts "resolver-run-as"))
  runner_by_path c none = toolkit_or_fail c (container_runner_cfg c)

  unfoldable pub with_prescan : AgentConfig → Option Section → Runner → Result Runner
  unfolding value_or_fail value_or_default directory
  with_prescan c none resolver_runner = ok resolver_runner
  with_prescan c (some s) resolver_runner =
      and_then (value_or_fail "container-image-tag" s.texts) λ tag.
        and_then (value_or_fail "script" s.texts) λ script. ok (
          two_stage_runner (directory (some (work_path c))) c.opts
            record {
              resolver_before = value_or_default "resolver-before-script" (some s.flags) false;
              container_tag = tag;
              shell = value_or_default "shell" (some s.texts) "/bin/sh";
              script = script;
              run_as_agent = value_or_default "run-as-agent" (some s.flags) true;
            }
            resolver_runner)

  -- __resolver_runner_factory
  unfoldable pub resolver_runner_factory : AgentConfig → Result Runner
  unfolding value_or_default get runner_by_path with_prescan
  resolver_runner_factory c =
      let disable_resolver = value_or_default "disable-resolver" (some c.flags) false in
      let prescan_dict = value_or_default "pre-scan" (some c.sections) none in
      and_then
        (if disable_resolver
          then ok no_resolver_runner
          else runner_by_path c (get c.texts "resolver-path"))
        (with_prescan c prescan_dict)

  module _ (files : Files) (default_ssl : String) where
    -- __agent_factory
    unfoldable pub agent_factory : String → AgentConfig → Result ServicedAgent
    unfolding secret_or_fail resolver_runner_factory load_amqp_settings
    agent_factory agent_tag c = and_then (secret_or_fail files "public-key" c.texts) λ key.
        and_then (resolver_runner_factory c) λ runner.
          and_then (load_amqp_settings files c.amqp default_ssl)
            λ amqp. ok record { tag = agent_tag; public_key = key; runner = runner; amqp = amqp }

    append_agent : ServicedAgent → Run (List ServicedAgent) (Unit {0})
    append_agent agent agents = (ok tt, agents ++ agent ∷ [])

    -- the loop of bootstrap over the tags, which adds to `__agents`
    unfoldable pub append_agents : Dict AgentConfig → Run (List ServicedAgent) (Unit {0})
    unfolding agent_factory append_agent
    append_agents [] = pure tt
    append_agents ((tag, c) ∷ rest) =
        lift (agent_factory tag c) >>= λ agent. append_agent agent >> append_agents rest

    abbrev agents_of_tags : Option (Dict AgentConfig) → Run (List ServicedAgent) (Unit {0})
    agents_of_tags none = pure tt
    agents_of_tags (some serviced_tags) = append_agents serviced_tags

    -- bootstrap, after the file is read: the element serviced-tags may be null
    unfoldable pub bootstrap :
        (texts : Dict String)
        → (tags : Dict (Option (Dict AgentConfig))) → Run (List ServicedAgent) (Unit {0})
    unfolding value_or_fail append_agents
    bootstrap texts tags = do
      secret_root ← lift (value_or_fail "secret-root-path" texts)
      serviced_tags ← lift (value_or_fail "serviced-tags" tags)
      agents_of_tags serviced_tags

-- spawn_agents of cx_scan_agent.py: one consumer for each agent, of the queue of its tag, which takes
-- one message at a time
pub record Consumer : Type 0 where
  pub queue : String
  pub prefetch : ℕ

unfoldable pub spawn_agents : (queue_name : String → String) → List ServicedAgent → List Consumer
spawn_agents queue_name [] = []
spawn_agents queue_name (agent ∷ agents) =
    record { queue = queue_name agent.tag; prefetch = 1 } ∷ spawn_agents queue_name agents
