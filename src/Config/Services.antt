-- ===== src/Config/Services.antt =====
-- The factories of the feedback and polling services in config/server/__init__.py. The elements of the
-- dict `feedback` are given one by one: an element that is missing is none, and numbers are read. The
-- options of a SARIF report, and the proxies and certificates of a delivery, are left out.
pub mod Exclusion
use cxone_flow_buildwork.Prelude.{
  ℕ, String, Bool, true, false, ◌&&◌, Option, none, some, List, [], ◌∷◌, ◌++◌, if◌then◌else◌,
}
use cxone_flow_buildwork.Prelude.Dict.{Dict, get}
use cxone_flow_buildwork.Prelude.Run.{configuration_error, Result, ok, raised}
use cxone_flow_buildwork.Decoration.{ResultStates, ResultSeverity, state_of, severity_of}
use cxone_flow_buildwork.Decoration.Report.Kept.{Exclusions}
use cxone_flow_buildwork.Config.Lookups.{Files, value_or_fail, secret_or_fail, load_amqp_settings}

-- what _load_amqp_settings returns
abbrev pub Amqp : Type 0
Amqp = Option String × Option String × Option String × String

abbrev default_amqp : Amqp
default_amqp = (some "amqp://localhost:5672", none, none, "True")

-- the element scan-monitor
pub record ScanMonitor : Type 0 where
  pub poll_interval_seconds : Option ℕ
  pub scan_timeout_hours : Option ℕ
  pub poll_max_interval_seconds : Option ℕ
  pub poll_backoff_multiplier : Option ℕ

-- the element push; a list is expected of via-http-post, of dicts with numbers read
pub record AmqpDelivery : Type 0 where
  pub values : Dict String
  pub amqp : Option (Dict String)

pub record HttpDelivery : Type 0 where
  pub values : Dict String
  pub delivery_retries : Option ℕ
  pub delivery_retry_delay_seconds : Option ℕ

pub data HttpPost : Type 0 where
  not_a_list : HttpPost
  deliveries : List HttpDelivery → HttpPost

pub record PushConfig : Type 0 where
  pub enabled : Option Bool
  pub via_amqp : Option AmqpDelivery
  pub via_http_post : Option HttpPost

pub record FeedbackConfig : Type 0 where
  pub pr_enabled : Option Bool
  pub excluded_state : List String
  pub excluded_severity : List String
  pub scan_monitor : ScanMonitor
  pub push : Option PushConfig
  pub amqp : Option (Dict String)

abbrev default {ℓ} : {A : Type ℓ} → Option A → A → A
default none value = value
default (some configured) value = configured

abbrev pub and_then {ℓ} : {A B : Type ℓ} → Result A → (A → Result B) → Result B
and_then (ok a) f = f a
and_then (raised e) f = raised e

-- [enum(value) for value in values], where one that is no member ends in a configuration error
unfoldable pub members {ℓ} : {A : Type ℓ} → (String → Option A) → List String → Result (List A)
members enum [] = ok []
members enum (value ∷ values) = elim (enum value) [
  | none ↦ raised configuration_error
  | some member ↦ and_then (members enum values) λ others. ok (member ∷ others)
]

-- PRFeedbackService with its PullRequestWorkflow
pub record PrFeedback : Type 0 where
  pub exclusions : Exclusions
  pub enabled : Bool
  pub interval_seconds : ℕ
  pub scan_timeout : ℕ
  pub amqp : Amqp

-- ScanPollingService
pub record Polling : Type 0 where
  pub max_interval_seconds : ℕ
  pub backoff_scalar : ℕ
  pub amqp : Amqp

pub data Agent : Type 0 where
  amqp_agent :
      (shared_secret exchange : String) → (prefix suffix : Option String) → (amqp : Amqp) → Agent
  http_agent :
      (shared_secret endpoint_url : String) → (delivery_retries delivery_delay_seconds : ℕ) → Agent

-- PushFeedbackService with its PushWorkflow
pub record PushFeedback : Type 0 where
  pub agents : List Agent
  pub enabled : Bool
  pub interval_seconds : ℕ
  pub scan_timeout : ℕ
  pub amqp : Amqp

abbrev pub disabled_workflow : PushFeedback
disabled_workflow = record {
  agents = [];
  enabled = false;
  interval_seconds = 60;
  scan_timeout = 48;
  amqp = default_amqp;
}

module _ (files : Files) (default_ssl : String) where
  -- __pr_feedback_service_factory, of no elements or of some
  unfoldable pub pr_feedback_service_factory : Option FeedbackConfig → Result PrFeedback
  unfolding members load_amqp_settings
  pr_feedback_service_factory none = ok record {
    exclusions = record { excluded_severities = []; excluded_states = [] };
    enabled = false;
    interval_seconds = 60;
    scan_timeout = 48;
    amqp = default_amqp;
  }
  pr_feedback_service_factory (some c) = and_then (members state_of c.excluded_state) λ states.
      and_then (members severity_of c.excluded_severity) λ severities.
        and_then (load_amqp_settings files c.amqp default_ssl) λ amqp. ok record {
          exclusions = record { excluded_severities = severities; excluded_states = states };
          enabled = default c.pr_enabled false;
          interval_seconds = default c.scan_monitor.poll_interval_seconds 60;
          scan_timeout = default c.scan_monitor.scan_timeout_hours 48;
          amqp = amqp;
        }

  -- __polling_service_factory
  unfoldable pub polling_service_factory : Option FeedbackConfig → Result Polling
  unfolding load_amqp_settings
  polling_service_factory none =
      ok record { max_interval_seconds = 600; backoff_scalar = 2; amqp = default_amqp }
  polling_service_factory (some c) = and_then (load_amqp_settings files c.amqp default_ssl) λ amqp.
      ok record {
        max_interval_seconds = default c.scan_monitor.poll_max_interval_seconds 600;
        backoff_scalar = default c.scan_monitor.poll_backoff_multiplier 2;
        amqp = amqp;
      }

  -- the part on via-amqp of __push_feedback_service_factory
  unfoldable pub amqp_agents : Option AmqpDelivery → Result (List Agent)
  unfolding value_or_fail secret_or_fail load_amqp_settings get
  amqp_agents none = ok []
  amqp_agents (some d) = elim d.amqp [
    | none ↦ raised configuration_error
    | some amqp ↦ and_then (value_or_fail "exchange" d.values) λ exchange.
        and_then (secret_or_fail files "shared-secret" d.values) λ secret.
          and_then (load_amqp_settings files (some amqp) default_ssl) λ settings. ok (
            amqp_agent secret exchange (get d.values "topic-prefix") (get d.values "topic-suffix")
              settings
            ∷ [])
  ]

  unfoldable pub http_deliveries : List HttpDelivery → Result (List Agent)
  unfolding value_or_fail secret_or_fail
  http_deliveries [] = ok []
  http_deliveries (d ∷ ds) =
      let rest = http_deliveries ds in
      and_then (secret_or_fail files "shared-secret" d.values) λ secret.
        and_then (value_or_fail "endpoint-url" d.values) λ url. and_then rest λ agents. ok (
          http_agent secret url (default d.delivery_retries 2)
            (default d.delivery_retry_delay_seconds 60)
          ∷ agents)

  -- the part on via-http-post
  unfoldable pub http_agents : Option HttpPost → Result (List Agent)
  unfolding http_deliveries
  http_agents none = ok []
  http_agents (some not_a_list) = raised configuration_error
  http_agents (some (deliveries ds)) = http_deliveries ds

  abbrev is_none {ℓ} : {A : Type ℓ} → Option A → Bool
  is_none none = true
  is_none (some a) = false

  -- __push_feedback_service_factory where the workflow is enabled
  unfoldable pub enabled_push : FeedbackConfig → PushConfig → Result PushFeedback
  unfolding amqp_agents http_agents load_amqp_settings
  enabled_push c push =
      if is_none push.via_amqp && is_none push.via_http_post
      then raised configuration_error
      else (and_then (amqp_agents push.via_amqp) λ by_amqp.
          and_then (http_agents push.via_http_post) λ by_http.
            and_then (load_amqp_settings files c.amqp default_ssl) λ amqp. ok record {
              agents = by_amqp ++ by_http;
              enabled = default push.enabled false;
              interval_seconds = default c.scan_monitor.poll_interval_seconds 60;
              scan_timeout = default c.scan_monitor.scan_timeout_hours 48;
              amqp = amqp;
            })

  unfoldable pub push_feedback_service_factory : Option FeedbackConfig → Result PushFeedback
  unfolding enabled_push
  push_feedback_service_factory none = ok disabled_workflow
  push_feedback_service_factory (some c) = elim c.push [
    | none ↦ ok disabled_workflow
    | some push ↦ if default push.enabled false then enabled_push c push else ok disabled_workflow
  ]
