-- ===== src/Tokens/Reuse.antt =====
-- When a token is used again.
use cxone_flow_buildwork.Prelude.{ℕ, ◌<◌, String, eq_iff, ◌≡◌, ap, ◌⊎◌, Bool, false, some, arith}
use cxone_flow_buildwork.Prelude.Dict.{get, get-put}
use cxone_flow_buildwork.Prelude.Run.{Result, ok}
use cxone_flow_buildwork.Tokens.{
  Token, Cache, Context, find_install_id, find_app_id, unexpired, get_token_tuple,
}

module _ (api_url : String) (ctx : Context) where
  cached-get_token_tuple :
      (force : Bool) (now : ℕ) (answer : Result Token) (c : Cache) (install app : String)
      (t : Token)
      → find_install_id ctx ≡ ok install
      → find_app_id ctx ≡ ok app
      → (get_token_tuple api_url force now answer ctx c).0 ≡ ok t
      → get (get_token_tuple api_url force now answer ctx c).1.tokens install ≡ some t
  unfolding get_token_tuple unexpired
  cached-get_token_tuple force now answer c install app t h1 h2 h3 =
      ground (arith, h1, h2, get-put c.tokens install install t, eq_iff install install)

  reused :
      (now : ℕ) (answer : Result Token) (c : Cache) (install app : String) (t : Token)
      → find_install_id ctx ≡ ok install
      → find_app_id ctx ≡ ok app
      → get c.tokens install ≡ some t
      → now < t.expires_at
      → get_token_tuple api_url false now answer ctx c ≡ (ok t, c)
  unfolding get_token_tuple unexpired
  reused now answer c install app t h1 h2 h3 h4 = ground (arith, h1, h2, h3)

  -- After a token was given out, forced or not, it is given out again for the same installation
  -- until it expires, and no request is made for that.
  pub token_is_reused :
      (force : Bool) (earlier now : ℕ) (first second : Result Token) (c : Cache)
      (install app : String) (t : Token)
      → find_install_id ctx ≡ ok install
      → find_app_id ctx ≡ ok app
      → (get_token_tuple api_url force earlier first ctx c).0 ≡ ok t
      → now < t.expires_at
      → get_token_tuple api_url false now second ctx
          (get_token_tuple api_url force earlier first ctx c).1
        ≡ (ok t, (get_token_tuple api_url force earlier first ctx c).1)
  token_is_reused force earlier now first second c install app t h1 h2 h3 h4 =
      reused now second _ install app t h1 h2
        (cached-get_token_tuple force earlier first c install app t h1 h2 h3) h4

  -- A token that was not asked for just now has not expired.
  pub token_is_fresh :
      (force : Bool) (now : ℕ) (answer : Result Token) (c : Cache) (t : Token)
      → (get_token_tuple api_url force now answer ctx c).0 ≡ ok t
      → (answer ≡ ok t) ⊎ (now < t.expires_at)
  unfolding get_token_tuple unexpired
  token_is_fresh force now answer c t h = ground arith

-- The cache does not tell servers apart: a token that one server gave for an installation is sent to
-- another one for its installation of the same id.
pub token_for_another_server :
    (first_url second_url : String) (ctx other : Context) (now : ℕ) (answer second : Result Token)
    (c : Cache) (install app other_app : String) (t : Token)
    → find_install_id ctx ≡ ok install
    → find_app_id ctx ≡ ok app
    → find_install_id other ≡ ok install
    → find_app_id other ≡ ok other_app
    → (get_token_tuple first_url false now answer ctx c).0 ≡ ok t
    → now < t.expires_at
    → (get_token_tuple second_url false now second other
        (get_token_tuple first_url false now answer ctx c).1).0
      ≡ ok t
token_for_another_server first_url second_url ctx other now answer second c install app other_app t
      h1 h2 h3 h4 h5 h6 =
    ap (λ r. r.0)
      (reused second_url other now second _ install other_app t h3 h4
        (cached-get_token_tuple first_url ctx false now answer c install app t h1 h2 h5) h6)
