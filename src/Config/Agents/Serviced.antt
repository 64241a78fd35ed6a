-- ===== src/Config/Agents/Serviced.antt =====
-- The agents that a configuration makes, and one that it refuses.
use mathlib.Core.List.{append-nil}
use cxone_flow_buildwork.Prelude.{
  String, ◌≡◌, refl, sym, ap, ◌∙◌, inl, inr, Bool, true, none, List, [], ◌∷◌, ◌++◌, map, arith,
}
use cxone_flow_buildwork.Prelude.Dict.{Dict, get, has_key}
use cxone_flow_buildwork.Prelude.Run.{configuration_error, Result, ok, raised, Result-cases}
use cxone_flow_buildwork.Config.Lookups.{Files, value_or_default, deprecated_is_ignored}
use cxone_flow_buildwork.Config.Agents.{
  AgentConfig, ServicedAgent, Consumer, container_runner_cfg, runner_by_path, toolkit_or_fail,
  resolver_runner_factory, agent_factory, append_agents, spawn_agents,
}

abbrev pub tag_of : ServicedAgent → String
tag_of agent = agent.tag

abbrev pub keys : Dict AgentConfig → List String
keys [] = []
keys ((tag, c) ∷ rest) = tag ∷ keys rest

abbrev pub consumer_of : (String → String) → String → Consumer
consumer_of queue_name tag = record { queue = queue_name tag; prefetch = 1 }

spawn_agents-eq :
    (queue_name : String → String) (agents : List ServicedAgent)
    → spawn_agents queue_name agents ≡ map (consumer_of queue_name) (map tag_of agents)
unfolding spawn_agents
spawn_agents-eq queue_name [] = refl
spawn_agents-eq queue_name (agent ∷ agents) =
    ap (λ rest. consumer_of queue_name agent.tag ∷ rest) (spawn_agents-eq queue_name agents)

keys_after :
    (before : List ServicedAgent) (agent : ServicedAgent) (tags : List String)
    → map tag_of (before ++ agent ∷ []) ++ tags ≡ map tag_of before ++ agent.tag ∷ tags
keys_after [] agent tags = refl
keys_after (first ∷ before) agent tags =
    ap (λ rest. first.tag ∷ rest) (keys_after before agent tags)

module _ (path_exists is_file : String → Bool) (output : List String → Result String) where
  -- An agent that still has the deprecated element run-with-container, and neither a path of the
  -- resolver nor the flag that disables it, is refused, although the warning for the element says that
  -- it may only stop to function in the future, and even where it has the new element beside it.
  pub deprecated_container_is_refused :
      (c : AgentConfig)
      → has_key c.sections "run-with-container" ≡ true
      → get c.texts "resolver-path" ≡ none
      → get c.flags "disable-resolver" ≡ none
      → resolver_runner_factory path_exists is_file output c ≡ raised configuration_error
  unfolding resolver_runner_factory runner_by_path toolkit_or_fail value_or_default
  deprecated_container_is_refused c deprecated no_path not_disabled =
      let nothing : container_runner_cfg path_exists is_file output c ≡ none =
        deprecated_is_ignored "run-resolver-with-container" "run-with-container" c.sections none
          deprecated in
      ground arith

  module _ (files : Files) (default_ssl : String) where
    agent_factory-tag :
        (tag : String) (c : AgentConfig) {agent : ServicedAgent}
        → agent_factory path_exists is_file output files default_ssl tag c ≡ ok agent
        → agent.tag ≡ tag
    unfolding agent_factory
    agent_factory-tag tag c {agent} h = ground arith

    append_agents-tags :
        (tags : Dict AgentConfig) (before agents : List ServicedAgent)
        → append_agents path_exists is_file output files default_ssl tags before ≡ (ok tt, agents)
        → map tag_of agents ≡ map tag_of before ++ keys tags
    unfolding append_agents
    append_agents-tags [] before agents h =
        let same : before ≡ agents = ap (λ (r : Result (Unit {0}) × List ServicedAgent). r.1) h in
        ap (map tag_of) (sym same) ∙ sym (append-nil (map tag_of before))
    append_agents-tags ((tag, c) ∷ rest) before agents h =
        elim (Result-cases (agent_factory path_exists is_file output files default_ssl tag c)) [
          | inl (agent, e) ↦
              let later : append_agents path_exists is_file output files default_ssl rest
                    (before ++ agent ∷ [])
                  ≡ (ok tt, agents) =
                ground arith in
              let name : agent.tag ≡ tag = agent_factory-tag tag c e in
              append_agents-tags rest (before ++ agent ∷ []) agents later
              ∙ (keys_after before agent (keys rest)
                  ∙ ap (λ (t : String). map tag_of before ++ t ∷ keys rest) name)
          | inr (r, e) ↦ absurd (ground arith)
        ]

    -- Where the loop of bootstrap ends without an exception, each tag of the configuration has exactly
    -- one consumer, in order: it takes one message at a time from the queue of the tag.
    pub tags_are_consumed :
        (queue_name : String → String) (tags : Dict AgentConfig) {agents : List ServicedAgent}
        → append_agents path_exists is_file output files default_ssl tags [] ≡ (ok tt, agents)
        → spawn_agents queue_name agents ≡ map (consumer_of queue_name) (keys tags)
    tags_are_consumed queue_name tags {agents} h =
        spawn_agents-eq queue_name agents
        ∙ ap (map (consumer_of queue_name)) (append_agents-tags tags [] agents h)
