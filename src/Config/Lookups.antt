-- ===== src/Config/Lookups.antt =====
-- The lookups of CommonConfig in config/__init__.py, and the choice of a CheckmarxOne client. A dict of
-- the configuration has values of any type. The files below the secrets' folder are given.
use Prim.Native.Nat.{◌/◌}
use cxone_flow_buildwork.Prelude.{
  ℕ, ◌-◌, min, String, ◌≡◌, refl, Bool, true, false, ◌&&◌, Option, none, some, arith, if◌then◌else◌,
}
use cxone_flow_buildwork.Prelude.Dict.{Dict, get, has_key}
use cxone_flow_buildwork.Prelude.Run.{configuration_error, Result, ok, raised}

-- get_workers_count, of the number of processors and the environment's number
unfoldable pub get_workers_count : ℕ → Option ℕ → ℕ
get_workers_count cpus none = cpus / 2
get_workers_count cpus (some workers) = min (cpus - 1) workers

-- get_log_level and get_config_path, of the environment's variable
unfoldable pub get_log_level : Option String → String
get_log_level none = "INFO"
get_log_level (some level) = level

unfoldable pub get_config_path : Option String → String
get_config_path none = "./config.yaml"
get_config_path (some path) = path

-- get_default_ssl_verify_value, of REQUESTS_CA_BUNDLE; without a bundle it is False, here as a text
unfoldable pub get_default_ssl_verify_value : Option String → (path_exists : String → Bool) → String
get_default_ssl_verify_value (some ca_bundle) path_exists = ca_bundle
get_default_ssl_verify_value none path_exists =
    if path_exists "/etc/pki/tls/certs/ca-bundle.crt"
    then "/etc/pki/tls/certs/ca-bundle.crt"
    else if path_exists "/etc/ssl/certs/ca-certificates.crt"
    then "/etc/ssl/certs/ca-certificates.crt"
    else "False"

module _ {ℓ} {V : Type ℓ} where
  -- _get_value_for_key_or_fail
  unfoldable pub value_or_fail : String → Dict V → Result V
  unfolding get
  value_or_fail key config_dict = elim (get config_dict key) [
    | none ↦ raised configuration_error
    | some value ↦ ok value
  ]

  -- _get_value_for_key_or_default, where the dict may be None
  unfoldable pub value_or_default : String → Option (Dict V) → V → V
  unfolding get
  value_or_default key none default = default
  value_or_default key (some config_dict) default = elim (get config_dict key) [
    | none ↦ default
    | some value ↦ value
  ]

  abbrev in_dict : Option String → Dict V → Bool
  in_dict none config_dict = false
  in_dict (some key) config_dict = has_key config_dict key

  abbrev subscript_or : V → Option String → Dict V → V
  subscript_or default none config_dict = default
  subscript_or default (some key) config_dict = value_or_default key (some config_dict) default

  -- _get_value_for_key_or_default_warn_deprecated: the branch for a deprecated key sets `key` and
  -- falls through to `return default`
  unfoldable pub value_warn_deprecated :
      (desired_key deprecated_key : Option String) → Option (Dict V) → V → V
  unfolding has_key value_or_default
  value_warn_deprecated desired_key deprecated_key none default = default
  value_warn_deprecated desired_key deprecated_key (some config_dict) default =
      if in_dict deprecated_key config_dict
      then default
      else if in_dict desired_key config_dict
      then subscript_or default desired_key config_dict
      else default

  -- A dict that still has the deprecated key gets the default: the value of that key is not read, and
  -- neither is the value of the key that is desired, where both are there.
  pub deprecated_is_ignored :
      (desired deprecated : String) (config_dict : Dict V) (default : V)
      → has_key config_dict deprecated ≡ true
      → value_warn_deprecated (some desired) (some deprecated) (some config_dict) default ≡ default
  unfolding value_warn_deprecated
  deprecated_is_ignored desired deprecated config_dict default there = rw there refl

-- the secrets' files: none where the path is no file, and otherwise the stripped content
abbrev pub Files : Type 0
Files = String → Option String

module _ (files : Files) where
  abbrev contents_or : Option String → Option String → Option String
  contents_or default none = default
  contents_or default (some path) = elim (files path) [
    | none ↦ default
    | some contents ↦ some contents
  ]

  -- _get_file_contents_from_value_of_key_or_default, and the secret that is registered of it
  unfoldable pub secret_or_default : Dict String → String → Option String → Option String
  unfolding get
  secret_or_default config_dict key default = contents_or default (get config_dict key)

  -- _get_secret_from_value_of_key_or_fail
  unfoldable pub secret_or_fail : String → Dict String → Result String
  unfolding secret_or_default
  secret_or_fail key config_dict = elim (secret_or_default config_dict key none) [
    | none ↦ raised configuration_error
    | some secret ↦ ok secret
  ]

  -- _load_amqp_settings: url, user, password and, as a text, the check of certificates
  unfoldable pub load_amqp_settings :
      Option (Dict String)
      → (default_ssl : String) → Result (Option String × Option String × Option String × String)
  unfolding value_or_fail secret_or_default value_or_default
  load_amqp_settings none default_ssl = ok (some "amqp://localhost:5672", none, none, "True")
  load_amqp_settings (some amqp) default_ssl = elim (value_or_fail "amqp-url" amqp) [
    | raised e ↦ raised e
    | ok url ↦ ok (
      secret_or_default amqp "amqp-url" (some url),
      secret_or_default amqp "amqp-user" none,
      secret_or_default amqp "amqp-password" none,
      value_or_default "ssl-verify" (some amqp) default_ssl,
    )
  ]

-- _cxone_client_factory: the checks before a client is made, and the kind of client. `has` is
-- `key in kwargs.keys()`; an API key or the two OAuth secrets are loaded.
pub data Client : Type 0 where
  with_api_key : (key : String) → Client
  with_oauth : (id secret : String) → Client

abbrev pub CxoneKeys : Type 0
CxoneKeys = Dict String

module _ (files : Files) where
  oauth_client : Dict String → Result Client
  unfolding secret_or_fail
  oauth_client oauth = elim (secret_or_fail files "client-id" oauth) [
    | raised e ↦ raised e
    | ok id ↦ elim (secret_or_fail files "client-secret" oauth) [
      | raised e ↦ raised e
      | ok secret ↦ ok (with_oauth id secret)
    ]
  ]

  api_key_client : Dict String → Result Client
  unfolding secret_or_fail
  api_key_client kwargs = elim (secret_or_fail files "api-key" kwargs) [
    | raised e ↦ raised e
    | ok key ↦ ok (with_api_key key)
  ]

  -- the dict of the oauth element, where there is one
  unfoldable pub cxone_client_factory : Dict String → Option (Dict String) → Result Client
  unfolding oauth_client api_key_client has_key
  cxone_client_factory kwargs oauth =
      if has_key kwargs "tenant" && (has_key kwargs "iam-endpoint" && has_key kwargs "api-endpoint")
      then (elim oauth [
        | none ↦
            if has_key kwargs "api-key" then api_key_client kwargs else raised configuration_error
        | some params ↦
            if has_key kwargs "api-key" then raised configuration_error else oauth_client params
      ])
      else raised configuration_error

  abbrev has_required : Dict String → Bool
  has_required kwargs =
      has_key kwargs "tenant" && (has_key kwargs "iam-endpoint" && has_key kwargs "api-endpoint")

  -- what a client is made of
  abbrev pub Justifies : Dict String → Option (Dict String) → Client → Type 0
  Justifies kwargs oauth (with_api_key key) =
      (oauth ≡ none) × (secret_or_fail files "api-key" kwargs ≡ ok key)
  Justifies kwargs oauth (with_oauth id secret) =
      (has_key kwargs "api-key" ≡ false)
      × ((params : Dict String) × (oauth ≡ some params)
          × (secret_or_fail files "client-id" params ≡ ok id)
          × (secret_or_fail files "client-secret" params ≡ ok secret))

  api_key_client-Justifies :
      (kwargs : Dict String) (client : Client)
      → api_key_client kwargs ≡ ok client
      → Justifies kwargs none client
  unfolding api_key_client
  api_key_client-Justifies kwargs (with_api_key key) h = (refl, ground arith)
  api_key_client-Justifies kwargs (with_oauth id secret) h = absurd (ground arith)

  oauth_client-Justifies :
      (kwargs params : Dict String) (client : Client)
      → has_key kwargs "api-key" ≡ false
      → oauth_client params ≡ ok client
      → Justifies kwargs (some params) client
  unfolding oauth_client
  oauth_client-Justifies kwargs params (with_api_key key) lacks h = absurd (ground arith)
  oauth_client-Justifies kwargs params (with_oauth id secret) lacks h =
      (lacks, (params, refl, ground arith, ground arith))

  -- A client is made of exactly one kind of credential: the factory gives one with an API key only
  -- where there is an API key that can be read and no OAuth element, one with OAuth only where there
  -- is an OAuth element, both of whose secrets can be read, and no API key; and in both cases the
  -- three required elements are there.
  pub one_credential :
      (kwargs : Dict String) (oauth : Option (Dict String)) {client : Client}
      → cxone_client_factory kwargs oauth ≡ ok client
      → (has_required kwargs ≡ true) × Justifies kwargs oauth client
  unfolding cxone_client_factory
  one_credential kwargs none {client} h =
      (ground arith, api_key_client-Justifies kwargs client (ground arith))
  one_credential kwargs (some params) {client} h =
      (ground arith, oauth_client-Justifies kwargs params client (ground arith) (ground arith))
