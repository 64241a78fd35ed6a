-- ===== src/Config/Setup/Connecting.antt =====
-- The part of __setup_scm in config/server/__init__.py on the element connection. The policy for shared
-- secrets is another package's.
use cxone_flow_buildwork.Prelude.{
  String, ◌==◌, ◌<>◌, ◌≡◌, Bool, true, not, Option, none, some, [], ◌∷◌, if◌then◌else◌, Bool-cases,
  inl, inr,
}
use cxone_flow_buildwork.Prelude.Dict.{Dict, get}
use cxone_flow_buildwork.Prelude.Texts.{lower_equals, lstrip, rstrip}
use cxone_flow_buildwork.Prelude.Run.{configuration_error, Result, ok, raised}
use cxone_flow_buildwork.Config.Lookups.{Files, value_or_fail, value_or_default, secret_or_fail}
use cxone_flow_buildwork.Config.Setup.Resolving.{
  default, chain, Holds, chain-Holds, ok-Holds, raised-Holds,
}
use cxone_flow_buildwork.Config.Credentials.{
  Scm, Auths, ApiAuth, CloneAuth, scm_api_auth_factory, connection_cloner,
}

-- ssl-verify is a flag or the path of a bundle
pub data Verify : Type 0 where
  checked : Bool → Verify
  bundle : String → Verify

pub record Connection : Type 0 where
  pub texts : Dict String
  pub auths : Dict (Option Auths)
  pub ssl_verify : Option Verify

-- APISession and SCMService
pub record Session : Type 0 where
  pub api_url : String
  pub auth : ApiAuth
  pub ssl_verify : Verify

pub record ScmService : Type 0 where
  pub display_url : String
  pub session : Session
  pub shared_secret : String
  pub cloner : CloneAuth
  pub ssl_no_verify : Bool

-- APISession.form_api_endpoint
unfoldable pub form_api_endpoint : String → Option String → String
unfolding lstrip rstrip
form_api_endpoint base_endpoint none = rstrip 47 base_endpoint
form_api_endpoint base_endpoint (some suffix) =
    if suffix == ""
    then rstrip 47 base_endpoint
    else rstrip 47 base_endpoint <> ("/" <> rstrip 47 (lstrip 47 suffix))

-- ssl_no_verify_git; the codes are those of "false"
unfoldable pub ssl_no_verify_git : Verify → Bool
unfolding lower_equals
ssl_no_verify_git (checked verify) = not verify
ssl_no_verify_git (bundle path) = lower_equals (102 ∷ 97 ∷ 108 ∷ 115 ∷ 101 ∷ []) path

module _ (files : Files) (default_ssl_verify : Verify) (passes_policy : String → Bool) where
  abbrev auths_or : Option Auths → Auths
  auths_or none = []
  auths_or (some auths) = auths

  -- The part of __setup_scm on the connection. An api-auth that is null ends in the exception of the
  -- session's authorization.
  unfoldable pub setup_connection : Scm → Connection → Result ScmService
  unfolding value_or_fail value_or_default form_api_endpoint scm_api_auth_factory secret_or_fail
      connection_cloner ssl_no_verify_git get
  setup_connection scm c = chain (value_or_fail "api-auth" c.auths) λ api_auth.
      chain (value_or_fail "base-url" c.texts) λ base_url.
        let api_url = form_api_endpoint base_url (get c.texts "api-url-suffix") in
        let verify = default c.ssl_verify default_ssl_verify in
        chain (scm_api_auth_factory files scm api_auth) λ auth.
          chain (secret_or_fail files "shared-secret" c.texts) λ secret.
            if passes_policy secret
            then (chain
                (connection_cloner files scm (auths_or api_auth)
                  (value_or_default "clone-auth" (some c.auths) none))
                λ cloner. ok record {
                  display_url = value_or_default "base-display-url" (some c.texts) base_url;
                  session = record { api_url = api_url; auth = auth; ssl_verify = verify };
                  shared_secret = secret;
                  cloner = cloner;
                  ssl_no_verify = ssl_no_verify_git verify;
                })
            else raised configuration_error

  -- The shared secret of a service fits the policy.
  pub secret_passes :
      (scm : Scm) (c : Connection)
      → Holds
          (λ (service : ScmService). passes_policy service.shared_secret ≡ true)
          (setup_connection scm c)
  unfolding setup_connection
  secret_passes scm c = chain-Holds _ _ _ λ api_auth _. chain-Holds _ _ _ λ base_url _.
      chain-Holds _ _ _ λ auth _. chain-Holds _ _ _ λ secret _.
        elim (Bool-cases (passes_policy secret)) [
          | inl e ↦ rw e (chain-Holds _ _ _ λ cloner _. ok-Holds _ _ e)
          | inr e ↦ rw e (raised-Holds _ _)
        ]
