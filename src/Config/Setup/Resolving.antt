-- ===== src/Config/Setup/Resolving.antt =====
-- __resolver_service_factory of config/server/__init__.py. The key of the workflow is loaded by another
-- package.
use mathlib.Core.Path.{subst}
use cxone_flow_buildwork.Prelude.{
  ℕ, String, ◌≡◌, refl, Bool, true, false, Option, none, some, List, [], ◌∷◌, contains, arith,
  if◌then◌else◌,
}
use cxone_flow_buildwork.Prelude.Dict.{Dict, get}
use cxone_flow_buildwork.Prelude.Run.{Raised, configuration_error, Result, ok, raised}
use cxone_flow_buildwork.Config.Lookups.{
  Files, value_or_default, secret_or_fail, load_amqp_settings,
}
use cxone_flow_buildwork.Config.Services.{Amqp, and_then}

abbrev pub default {ℓ} : {A : Type ℓ} → Option A → A → A
default none value = value
default (some configured) value = configured

-- One statement after another, as and_then; this one is not computed before it is asked for.
unfoldable pub chain {ℓ} : {A B : Type ℓ} → Result A → (A → Result B) → Result B
chain (ok a) f = f a
chain (raised e) f = raised e

-- what holds of the value, where there is one
unfoldable pub Holds {ℓ} : {A : Type ℓ} → (A → Type 0) → Result A → Type 0
Holds P (ok a) = P a
Holds P (raised e) = Unit

pub chain-Holds {ℓ} :
    {A B : Type ℓ} (P : B → Type 0) (r : Result A) (f : A → Result B)
    → ((a : A) → r ≡ ok a → Holds P (f a))
    → Holds P (chain r f)
unfolding chain Holds
chain-Holds P (ok a) f h = h a refl
chain-Holds P (raised e) f h = tt

pub holds_of_ok {ℓ} :
    {A : Type ℓ} (P : A → Type 0) {r : Result A} {a : A} → Holds P r → r ≡ ok a → P a
unfolding Holds
holds_of_ok P h e = subst (Holds P) e h

pub ok-Holds {ℓ} : {A : Type ℓ} (P : A → Type 0) (a : A) → P a → Holds P (ok a)
unfolding Holds
ok-Holds P a h = h

pub raised-Holds {ℓ} : {A : Type ℓ} (P : A → Type 0) (e : Raised) → Holds P (raised e)
unfolding Holds
raised-Holds P e = tt

-- the element scan-agent
pub record ResolverElement : Type 0 where
  pub texts : Dict String
  pub capture_resolver_logs : Option Bool
  pub allowed_agent_tags : List String
  pub amqp : Option (Dict String)
  pub scan_retries : Option ℕ
  pub scan_timeout_seconds : Option ℕ

pub data ResolverWorkflow : Type 0 where
  dummy_workflow : ResolverWorkflow
  signing_workflow :
      (capture_logs : Bool) → (private_key : String) → (retries timeout : ℕ) → ResolverWorkflow

-- ResolverScanService
pub record ResolverService : Type 0 where
  pub amqp : Amqp
  pub workflow : ResolverWorkflow
  pub default_tag : Option String
  pub project_tag_key : Option String
  pub agent_tags : List String

-- list(set(tags)), whose order is arbitrary in the code
unfoldable pub distinct : List String → List String
distinct [] = []
distinct (tag ∷ tags) = let rest = distinct tags in if contains tag rest then rest else tag ∷ rest

abbrev pub is_allowed : Option String → List String → Bool
is_allowed none tags = true
is_allowed (some tag) tags = contains tag tags

abbrev pub dummy_service : ResolverService
dummy_service = record {
  amqp = (some "amqp://localhost:5672", none, none, "True");
  workflow = dummy_workflow;
  default_tag = none;
  project_tag_key = none;
  agent_tags = [];
}

module _ (files : Files) (default_ssl : String)
    (from_private_key : String → Result (Unit {0})) where
  -- __resolver_service_factory, of no elements or of some
  unfoldable pub resolver_service_factory : Option ResolverElement → Result ResolverService
  unfolding secret_or_fail get value_or_default distinct load_amqp_settings
  resolver_service_factory none = ok dummy_service
  resolver_service_factory (some c) = and_then (secret_or_fail files "private-key" c.texts) λ key.
      let default_tag = get c.texts "default-agent-tag" in
      let agent_tags = distinct c.allowed_agent_tags in
      if is_allowed default_tag agent_tags
      then (and_then (load_amqp_settings files c.amqp default_ssl) λ amqp.
          and_then (from_private_key key) λ _. ok record {
            amqp = amqp;
            workflow =
                signing_workflow (default c.capture_resolver_logs false) key
                  (default c.scan_retries 3) (default c.scan_timeout_seconds 10800);
            default_tag = default_tag;
            project_tag_key = some (value_or_default "resolver-tag-key" (some c.texts) "resolver");
            agent_tags = agent_tags;
          })
      else raised configuration_error

  -- The tag that a project is given by default is one that its service may use.
  pub default_is_allowed :
      (c : Option ResolverElement) {service : ResolverService}
      → resolver_service_factory c ≡ ok service
      → is_allowed service.default_tag service.agent_tags ≡ true
  unfolding resolver_service_factory
  default_is_allowed none {service} h = ground arith
  default_is_allowed (some c) {service} h = ground arith
