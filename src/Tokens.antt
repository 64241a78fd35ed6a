-- ===== src/Tokens.antt =====
-- GithubAppAuthFactory of api_utils/auth_factories.py: the tokens of GitHub App installations, cached
-- for all services of the process. Times are seconds; an installation's id is a text.
pub mod Reuse
mod Examples
use cxone_flow_buildwork.Prelude.{
  ℕ, leb, String, Bool, true, false, ◌||◌, Option, none, some, List, [], ◌∷◌, ◌++◌, if◌then◌else◌,
}
use cxone_flow_buildwork.Prelude.Dict.{Dict, get, put}
use cxone_flow_buildwork.Prelude.Run.{
  auth_factory_error, Result, ok, raised, Run, pure, raise, lift, ◌>>=◌,
}

pub record Token : Type 0 where
  pub token : String
  pub expires_at : ℕ

-- __token_cache, and the requests for a token: the server's url, the app and the installation.
pub record Cache : Type 0 where
  pub tokens : Dict Token
  pub requests : List (String × String × String)

-- What an EventContext has at the places where the ids are looked for.
pub record Context : Type 0 where
  pub event_installation : Option String
  pub kickoff_installation : Option String
  pub app_id_header : Option String
  pub kickoff_app : Option String

abbrev first_id : Option String → Option String → Result String
first_id (some id) other = ok id
first_id none (some id) = ok id
first_id none none = raised auth_factory_error

unfoldable pub find_install_id : Context → Result String
find_install_id c = first_id c.event_installation c.kickoff_installation

unfoldable pub find_app_id : Context → Result String
find_app_id c = first_id c.app_id_header c.kickoff_app

-- `if datetime.now(exp.tzinfo) >= exp: token_tuple = None`
unfoldable pub unexpired : ℕ → Option Token → Option Token
unexpired now none = none
unexpired now (some t) = if leb t.expires_at now then none else some t

module _ (api_url : String) where
  -- the request for a new token, which `answer` tells the outcome of, and the cache written
  abbrev renew : String → String → Result Token → Run Cache Token
  renew install_id app_id (raised e) c =
      (raised e, record c { requests = c.requests ++ (api_url, app_id, install_id) ∷ [] })
  renew install_id app_id (ok t) c = (
    ok t,
    record c {
      tokens = put c.tokens install_id t;
      requests = c.requests ++ (api_url, app_id, install_id) ∷ [];
    },
  )

  abbrev or_renew : Bool → Option Token → Run Cache Token → Run Cache Token
  or_renew true cached m = m
  or_renew false none m = m
  or_renew false (some t) m = pure t

  unfoldable pub get_token_tuple : Bool → ℕ → Result Token → Context → Run Cache Token
  unfolding get put find_install_id find_app_id unexpired
  get_token_tuple force_reauth now answer ctx = do
    install_id ← lift (find_install_id ctx)
    app_id ← lift (find_app_id ctx)
    λ c.
        or_renew force_reauth (unexpired now (get c.tokens install_id))
          (renew install_id app_id answer) c

  abbrev get_with : Bool → ℕ → Result Token → Option Context → Run Cache Token
  get_with force_reauth now answer none = raise auth_factory_error
  get_with force_reauth now answer (some ctx) = get_token_tuple force_reauth now answer ctx

  -- get_token; get_auth puts the same token into a header
  unfoldable pub get_token : Bool → ℕ → Result Token → Option Context → Run Cache String
  unfolding get_token_tuple
  get_token force_reauth now answer event_context = do
    t ← get_with force_reauth now answer event_context
    pure t.token
