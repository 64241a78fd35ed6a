-- ===== src/Config/Setup.antt =====
-- __setup_scm of config/server/__init__.py, which makes the services of one element of the configuration,
-- with the factories of the resolver and kickoff services, of naming and of grouping. A dict is given by
-- the types of its values. Given are regular expressions, the policy for shared secrets, the import of
-- a module and the loading of a key. Options that are handed on unread are left out: the scan
-- configuration, and the timeout, retries and proxies of a connection.
pub mod Resolving
pub mod Connecting
pub mod Sound
mod Examples
use Prim.Native.Char.{Char, code}
use cxone_flow_buildwork.Prelude.{
  ℕ, ◌+◌, leb, nat_beq, String, ◌==◌, ◌<>◌, Bool, true, false, not, ◌&&◌, Option, none, some, List,
  [], ◌∷◌, contains, map, if◌then◌else◌,
}
use cxone_flow_buildwork.Prelude.Dict.{Dict, get}
use cxone_flow_buildwork.Prelude.Texts.{lstrip, rstrip}
use cxone_flow_buildwork.Prelude.Run.{Raised, configuration_error, Result, ok, raised}
use cxone_flow_buildwork.Config.{max_concurrent_scans}
use cxone_flow_buildwork.Config.Lookups.{
  Files, Client, value_or_fail, value_or_default, value_warn_deprecated, secret_or_fail,
  load_amqp_settings, cxone_client_factory,
}
use cxone_flow_buildwork.Config.Services.{
  Amqp, FeedbackConfig, PrFeedback, PushFeedback, Polling, and_then, pr_feedback_service_factory,
  push_feedback_service_factory, polling_service_factory,
}
use cxone_flow_buildwork.Config.Credentials.{
  Scm, Auths, ApiAuth, CloneAuth, scm_api_auth_factory, connection_cloner,
}
use cxone_flow_buildwork.Config.Setup.Connecting.{Verify, Connection, ScmService, setup_connection}
use cxone_flow_buildwork.Config.Setup.Resolving.{
  ResolverElement, ResolverService, default, chain, resolver_service_factory,
}

-- the element project-naming
pub record NamingElement : Type 0 where
  pub texts : Dict String
  pub update_name : Option Bool

-- a rule of project-groups, and the element itself, whose first key has the misspelled name
pub record Rule : Type 0 where
  pub texts : Dict String
  pub groups : Dict (List String)

pub record GroupsElement : Type 0 where
  pub assignments : Dict (Option (List Rule))
  pub update_groups : Option Bool

pub record KickoffElement : Type 0 where
  pub texts : Dict String
  pub max_concurrent_scans : Option ℕ

-- one element of the configuration; a missing element and an empty `feedback` are none
pub record Element : Type 0 where
  pub texts : Dict String
  pub cxone : Dict (Dict String × Option (Dict String))
  pub feedback : Option FeedbackConfig
  pub scan_agents : Dict (Option ResolverElement)
  pub project_naming : Option NamingElement
  pub project_groups : Option GroupsElement
  pub connection : Dict Connection
  pub kickoff : Option KickoffElement

pub data Kickoff : Type 0 where
  dummy_kickoff : Kickoff
  kickoff_service : (ssh_public_key : String) → (max_concurrent_scans : ℕ) → Kickoff

-- CxOneFlowServices
pub record Services : Type 0 where
  pub repo_match : String
  pub service_moniker : String
  pub client : Client
  pub pr : PrFeedback
  pub push : PushFeedback
  pub poll : Polling
  pub resolver : ResolverService
  pub naming : Option String × Bool
  pub grouping : List (String × List String) × Bool
  pub scm : ScmService
  pub kickoff : Kickoff

-- How an import ends: with the module, with ModuleNotFoundError, or otherwise.
pub data Import : Type 0 where
  imported not_found : Import
  import_raises : Raised → Import

-- the other packages: whether a regular expression can be compiled and finds something in a random
-- text, and whether a text has the length and the characters of the policy
pub record World : Type 0 where
  pub files : Files
  pub default_ssl_verify : Verify
  pub default_ssl : String
  pub compile : String → Result (Unit {0})
  pub finds_in_random : String → Bool
  pub passes_policy : String → Bool
  pub import_module : String → Import
  pub from_private_key : String → Result (Unit {0})

module _ (w : World) where
  abbrev made_of : Import → String → Bool → Result (Option String × Bool)
  made_of imported name update = ok (some name, update)
  made_of not_found name update = raised configuration_error
  made_of (import_raises e) name update = raised e

  -- __setup_naming
  unfoldable pub setup_naming : Option NamingElement → Result (Option String × Bool)
  unfolding value_or_fail
  setup_naming none = ok (none, false)
  setup_naming (some c) =
      and_then (value_or_fail "module" c.texts)
        λ name. made_of (w.import_module name) name (default c.update_name false)

  -- the loop of __setup_grouping, with add_assignment_rule
  unfoldable pub add_rules : List Rule → Result (List (String × List String))
  unfolding value_or_fail lstrip
  add_rules [] = ok []
  add_rules (rule ∷ rules) =
      let others = add_rules rules in
      and_then (value_or_fail "repo-match" rule.texts) λ regex.
        and_then (value_or_fail "groups" rule.groups) λ groups.
          and_then (w.compile regex)
            λ _. and_then others λ rest. ok ((regex, map (lstrip 47) groups) ∷ rest)

  abbrev grouped : Option Bool → Option (List Rule) → Result (List (String × List String) × Bool)
  grouped update none = raised configuration_error
  grouped update (some rules) =
      and_then (add_rules rules) λ routes. ok (routes, default update false)

  -- __setup_grouping
  unfoldable pub setup_grouping : Option GroupsElement → Result (List (String × List String) × Bool)
  unfolding value_or_default add_rules
  setup_grouping none = ok ([], false)
  setup_grouping (some c) = grouped c.update_groups (
      value_or_default "group-assigments" (some c.assignments)
        (value_or_default "group-assignments" (some c.assignments) none))

  -- __kickoff_service_factory
  unfoldable pub kickoff_service_factory : Option KickoffElement → Result Kickoff
  unfolding secret_or_fail max_concurrent_scans
  kickoff_service_factory none = ok dummy_kickoff
  kickoff_service_factory (some c) =
      chain (secret_or_fail w.files "ssh-public-key" c.texts)
        λ key. ok (kickoff_service key (max_concurrent_scans c.max_concurrent_scans))

  -- __setup_scm
  unfoldable pub setup_scm : Scm → Element → Result Services
  unfolding value_or_fail cxone_client_factory pr_feedback_service_factory
      push_feedback_service_factory polling_service_factory value_warn_deprecated
      resolver_service_factory setup_naming setup_grouping setup_connection kickoff_service_factory
  setup_scm scm c = chain (value_or_fail "repo-match" c.texts) λ repo_match.
      chain (w.compile repo_match) λ _.
        if w.finds_in_random repo_match
        then raised configuration_error
        else (chain (value_or_fail "service-name" c.texts) λ service_moniker.
            chain (value_or_fail "cxone" c.cxone) λ cxone.
              chain (cxone_client_factory w.files cxone.0 cxone.1) λ client.
                chain (pr_feedback_service_factory w.files w.default_ssl c.feedback) λ pr.
                  chain (push_feedback_service_factory w.files w.default_ssl c.feedback) λ push.
                    chain (polling_service_factory w.files w.default_ssl c.feedback) λ poll.
                      let agent =
                        value_warn_deprecated (some "scan-agent") (some "resolver")
                          (some c.scan_agents) none in
                      chain
                        (resolver_service_factory w.files w.default_ssl w.from_private_key agent)
                        λ resolver. chain (setup_naming c.project_naming) λ naming.
                          chain (setup_grouping c.project_groups) λ grouping.
                            chain (value_or_fail "connection" c.connection) λ connection.
                              chain
                                (setup_connection w.files w.default_ssl_verify w.passes_policy scm
                                  connection)
                                λ scm_service. chain (kickoff_service_factory c.kickoff) λ kickoff.
                                  ok record {
                                    repo_match = repo_match;
                                    service_moniker = service_moniker;
                                    client = client;
                                    pr = pr;
                                    push = push;
                                    poll = poll;
                                    resolver = resolver;
                                    naming = naming;
                                    grouping = grouping;
                                    scm = scm_service;
                                    kickoff = kickoff;
                                  })
