-- ===== src/Lib.antt =====
-- CxOneFlow starts CheckmarxOne scans for the events of source control servers and feeds the
-- results back. A webhook (wsgi.py) makes an orchestrator for an event; the dispatcher finds the
-- configured service for the event's url and checks the signature; the orchestrator clones and scans,
-- or delegates the scan to a resolver agent. A started scan is a message that waits in a queue, is
-- polled until the scan ends, and then leads to a pull-request comment or a SARIF delivery.
--
-- Prelude: names and lemmas shared by all: tests on numbers, lists and their slices (Slices), texts,
--   Python dicts (Dict), and methods that change a state and may raise (Run).
-- Workflows: the enumerations of workflows/__init__.py.
-- Orchestration: orchestration/base.py. Types has the services as an orchestrator sees them: a record
--   of the answers to each call, and the calls as a log. Scan has its methods under their names;
--   execute_delegated_push and execute_delegated_pr are the two _execute_delegated methods. Below it,
--   Counts and Clone count calls, Gate and Feedback have the theorems on events.
-- Config: the tables of config/server/__init__.py. A service is its moniker and a number.
--   Credentials has its factories of cloners and API authorization, Services those of the feedback and
--   polling services, Setup the composition of a service, with Connecting and Resolving for its
--   connection and its resolver. Agents has config/resolver/__init__.py and cx_scan_agent.py.
-- Webhook: orchestration/__init__.py and the endpoints of wsgi.py.
-- Kickoff: orchestration/kickoff/__init__.py, with the endpoint of wsgi.py; Tokens has the token of a
--   request and kickoff_services/__init__.py.
-- Polling: workflows/scan_polling_service.py and process_poll of workflow_agent.py.
-- Broker: the declarations of rabbit_config.py and the routing keys as lists of words. Delivery states
--   what RabbitMQ documents of fanout and topic exchanges; Routing follows the messages; Consumers has
--   the queues that workflow_agent.py reads.
-- Resolver: Server has resolver_scan_service.py, resolver_workflow.py and the agents for expiry and
--   results; Agent has agent/resolver/runner_agent.py; TwoStage has two_stage_runner.py.
-- Http: the loops of api_utils/apisession.py, of the SARIF delivery and of the kickoff client.
-- Tokens: the cache of GitHub App tokens in api_utils/auth_factories.py.
-- Cxone: cxone_service: Groups, Project, Scans, Reports, and Engines, which a scan runs with.
-- Feedback: workflows/pr_feedback_service.py, push_feedback_service.py, pull_request.py, push.py.
--   Processing has the functions of workflow_agent.py that call it, Client workflows/base_service.py
--   and the delivery of a SARIF log by a message.
-- Scm: orchestration/gh.py, gl.py, adoe.py and bbdc.py, in Github, Gitlab, Azure and Bitbucket: the
--   event's name, the maps from events to handlers, what is read from a payload (Events below each), the
--   protected branches with their pages, the signature; each handler ends in a method of
--   Orchestration.Scan. Branches has the names of branches, Install the check of a GitHub App's
--   installation. Gates, Pushes, Protection, Delegation and Signatures have the theorems on these.
-- Comments: the comment that decorates a pull request (scm_services/gh.py, scm_services/gl.py) and
--   the pager of api_utils/pagers.py; Threads (scm_services/adoe.py), Activities (scm_services/bbdc.py).
-- Decoration: workflows/pr.py: the document and its tables, with the results in Results and the links
--   in Markup. Report has PullRequestFeedback: Findings the parts of a report, Kept those that come into
--   the tables, Counts the summary; Insertion has an insertion into a sorted list that fits what is
--   asked of the other package's.
-- Cloner: scm_services/cloner.py: the command and the url of each kind of authentication, sub-modules,
--   and the exceptions that a clone ends in.
-- Resolver.Options: agent/__init__.py, agent/resolver/resolver_opts.py, resolver_runner.py: the command
--   line of the resolver. Runners: the commands of its runners, Mounts where their results
--   are, Able whether they can run.
-- Config.Lookups: config/__init__.py: values, secrets, the choice of a client.
-- Logging: cxoneflow_logging/__init__.py: the registry of secrets and the masking of a message, as
--   lists of characters. Masking relates it to one pass over the message; Stars says
--   where a written line has a star, and Survival what is left.
-- Naming: naming_services/__init__.py, orchestration/naming and the orchestrators of kickoffs.
-- Tasks: task_management/__init__.py as steps of its threads. Locking has the invariant, Exit what
--   wait_for_exit can rely on.
--
-- A handler is a function from the log of what it did to a result and the log; what lies outside (the
-- broker, CheckmarxOne, git, the network) is a record of answers that a theorem quantifies over. An
-- exception keeps what was done before it. Concurrent deliveries of other messages are not modelled.
--
-- Loops with a limit recurse on the rounds that are left (clone_rounds, exec_rounds, post_rounds).
-- These loops have fuel: kickoff_rounds, where one more round than refused requests is enough;
-- poll_report, where 21 rounds are enough, since each takes 30 of the 600 seconds; read_branches, where
-- one more round than full pages is enough; read_pages, read_policies, read_matching and
-- find_existing_comment, with a round for each page.
--
-- Not modelled: the cryptography of signatures and tokens, the processes and temporary folders of git and
-- the resolver, the set-up of logging, the filters of a repository's configuration, the options of a SARIF
-- report, naming scripts, the permalinks to code.
pub mod Prelude
pub mod Workflows
pub mod Orchestration
pub mod Config
pub mod Webhook
pub mod Kickoff
pub mod Polling
pub mod Broker
pub mod Resolver
pub mod Http
pub mod Tasks
pub mod Tokens
pub mod Cxone
pub mod Feedback
pub mod Comments
pub mod Scm
pub mod Decoration
pub mod Cloner
pub mod Logging
pub mod Naming
