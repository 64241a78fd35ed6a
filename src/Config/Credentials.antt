-- ===== src/Config/Credentials.antt =====
-- The credentials of a connection in config/server/__init__.py: what the four SCMs' factories make of the
-- elements api-auth and clone-auth. A value of such an element may be null. The files below the
-- secrets' folder are given; an ssh key is its path there, and a cloner is the call that makes it.
pub mod Sharing
use cxone_flow_buildwork.Prelude.{
  String, Bool, true, false, ◌&&◌, ◌≡◌, refl, Option, none, some, List, [], ◌∷◌, arith,
  if◌then◌else◌, Bool-cases,
}
use cxone_flow_buildwork.Prelude.Dict.{Dict, get, has_key}
use cxone_flow_buildwork.Prelude.Run.{configuration_error, type_error, Result, ok, raised}
use cxone_flow_buildwork.Config.Lookups.{Files}

-- the SCMs, by which __cloner_factories and __api_auth_factories choose
pub data Scm : Type 0 where
  bbdc adoe gh gl : Scm

pub data ApiAuth : Type 0 where
  auth_basic : (username password : String) → ApiAuth
  auth_bearer : (token : String) → ApiAuth
  github_app : (private_key : String) → ApiAuth

pub data CloneAuth : Type 0 where
  using_basic_auth : (username password : String) → (in_header : Bool) → CloneAuth
  using_token_auth : (token : String) → CloneAuth
  using_ssh_auth : (keyfile : String) → (port : Option String) → CloneAuth
  using_github_app_auth : (private_key : String) → CloneAuth

abbrev pub Auths : Type 0
Auths = Dict (Option String)

abbrev found : Option (Option String) → Option String
found none = none
found (some value) = value

-- a key with a value that is not null: __has_token_auth and __has_ssh_auth, and half of
-- __has_basic_auth
abbrev is_set : Option String → Bool
is_set none = false
is_set (some value) = true

unfoldable pub has_value : Auths → String → Bool
unfolding get
has_value config_dict key = is_set (found (get config_dict key))

unfoldable pub has_basic_auth : Auths → Bool
unfolding has_value
has_basic_auth config_dict = has_value config_dict "username" && has_value config_dict "password"

module _ (files : Files) where
  abbrev content : Option (Option String) → Result String
  content none = raised configuration_error
  content (some none) = raised type_error
  content (some (some path)) = elim (files path) [
    | none ↦ raised configuration_error
    | some secret ↦ ok secret
  ]

  -- _get_secret_from_value_of_key_or_fail; a path of None is a TypeError
  unfoldable pub secret_of : String → Auths → Result String
  unfolding get
  secret_of key config_dict = content (get config_dict key)

  unfoldable pub with_secret {ℓ} : {A : Type ℓ} → String → Auths → (String → A) → Result (Option A)
  with_secret key config_dict make = elim (secret_of key config_dict) [
    | raised e ↦ raised e
    | ok secret ↦ ok (some (make secret))
  ]

  unfoldable pub with_basic {ℓ} : {A : Type ℓ} → Auths → (String → String → A) → Result (Option A)
  unfolding with_secret
  with_basic config_dict make = elim (secret_of "username" config_dict) [
    | raised e ↦ raised e
    | ok username ↦ with_secret "password" config_dict (make username)
  ]

  abbrev token_cloner : Scm → String → CloneAuth
  token_cloner bbdc token = using_token_auth token
  token_cloner adoe token = using_basic_auth "" token true
  token_cloner gh token = using_basic_auth "git" token false
  token_cloner gl token = using_basic_auth "git" token false

  abbrev ssh_cloner : Auths → String → CloneAuth
  ssh_cloner config_dict keyfile = using_ssh_auth keyfile (found (get config_dict "ssh-port"))

  abbrev app_cloner : Scm → Auths → Result (Option CloneAuth)
  app_cloner gh config_dict =
      if has_key config_dict "app-private-key"
      then with_secret "app-private-key" config_dict using_github_app_auth
      else ok none
  app_cloner scm config_dict = ok none

  -- the four cloner factories
  unfoldable pub cloner_factory : Scm → Auths → Result (Option CloneAuth)
  unfolding has_basic_auth with_basic get
  cloner_factory scm config_dict =
      if has_basic_auth config_dict
      then with_basic config_dict (λ username password. using_basic_auth username password true)
      else if has_value config_dict "token"
      then with_secret "token" config_dict (token_cloner scm)
      else elim (found (get config_dict "ssh")) [
        | none ↦ app_cloner scm config_dict
        | some keyfile ↦ ok (some (ssh_cloner config_dict keyfile))
      ]

  -- __common_api_auth_factory and __adoe_api_auth_factory
  unfoldable pub token_or_basic : (String → ApiAuth) → Auths → Result (Option ApiAuth)
  unfolding has_basic_auth with_basic
  token_or_basic of_token config_dict =
      if has_value config_dict "token"
      then with_secret "token" config_dict of_token
      else if has_basic_auth config_dict
      then with_basic config_dict auth_basic
      else ok none

  abbrev or_app : Auths → Result (Option ApiAuth) → Result (Option ApiAuth)
  or_app config_dict (raised e) = raised e
  or_app config_dict (ok (some common)) = ok (some common)
  or_app config_dict (ok none) =
      if has_value config_dict "app-private-key"
      then with_secret "app-private-key" config_dict github_app
      else ok none

  -- the factories of API authorization
  unfoldable pub api_auth_factory : Scm → Auths → Result (Option ApiAuth)
  unfolding token_or_basic
  api_auth_factory adoe config_dict = token_or_basic (auth_basic "") config_dict
  api_auth_factory gh config_dict = or_app config_dict (token_or_basic auth_bearer config_dict)
  api_auth_factory scm config_dict = token_or_basic auth_bearer config_dict

  abbrev or_invalid {ℓ} : {A : Type ℓ} → Result (Option A) → Result A
  or_invalid (raised e) = raised e
  or_invalid (ok none) = raised configuration_error
  or_invalid (ok (some made)) = ok made

  -- __scm_api_auth_factory and __cloner_factory
  unfoldable pub scm_api_auth_factory : Scm → Option Auths → Result ApiAuth
  unfolding api_auth_factory
  scm_api_auth_factory scm none = raised configuration_error
  scm_api_auth_factory scm (some []) = raised configuration_error
  scm_api_auth_factory scm (some (entry ∷ entries)) =
      or_invalid (api_auth_factory scm (entry ∷ entries))

  unfoldable pub scm_cloner_factory : Scm → Auths → Result CloneAuth
  unfolding cloner_factory
  scm_cloner_factory scm config_dict = or_invalid (cloner_factory scm config_dict)

  -- clone_auth_dict of __setup_scm, and the cloner
  unfoldable pub connection_cloner : Scm → (api_auth : Auths) → Option Auths → Result CloneAuth
  unfolding scm_cloner_factory
  connection_cloner scm api_auth none = scm_cloner_factory scm api_auth
  connection_cloner scm api_auth (some clone_auth) = scm_cloner_factory scm clone_auth
