-- ===== src/Config/Credentials/Sharing.antt =====
-- Connections whose clones use the credentials of the API (config/server/__init__.py).
use cxone_flow_buildwork.Prelude.{
  String, true, false, ◌&&◌, ◌≡◌, refl, Option, none, some, [], ◌∷◌, arith, Bool-cases,
  Option-cases,
}
use mathlib.Core.Path.{subst}
use mathlib.Core.Logic.{inl, inr}
use cxone_flow_buildwork.Prelude.Dict.{get, has_key, has_key-eq-false}
use cxone_flow_buildwork.Prelude.Run.{Result, ok, raised, Result-cases}
use cxone_flow_buildwork.Config.Lookups.{Files}
use cxone_flow_buildwork.Config.Credentials.{
  Scm, bbdc, adoe, gh, gl, ApiAuth, auth_basic, auth_bearer, github_app, CloneAuth,
  using_basic_auth, using_token_auth, using_github_app_auth, Auths, has_value, has_basic_auth,
  secret_of, with_secret, with_basic, token_cloner, cloner_factory, token_or_basic,
  api_auth_factory, scm_api_auth_factory, scm_cloner_factory, connection_cloner, or_invalid, found,
}

-- the secret that the API's authorization is made of is the cloner's
abbrev pub SameSecret : ApiAuth → CloneAuth → Type 0
SameSecret (auth_basic username password) (using_basic_auth user secret in_header) =
    password ≡ secret
SameSecret (auth_bearer token) (using_basic_auth user secret in_header) = token ≡ secret
SameSecret (auth_bearer token) (using_token_auth secret) = token ≡ secret
SameSecret (github_app key) (using_github_app_auth secret) = key ≡ secret
SameSecret auth cloner = ⊥

module _ (files : Files) (scm : Scm) (d : Auths) where
  with_token :
      (token : String)
      → has_basic_auth d ≡ false
      → has_value d "token" ≡ true
      → secret_of files "token" d ≡ ok token
      → cloner_factory files scm d ≡ ok (some (token_cloner files scm token))
  unfolding cloner_factory with_secret
  with_token token basic has secret = ground arith

  with_password :
      (username password : String)
      → has_basic_auth d ≡ true
      → secret_of files "username" d ≡ ok username
      → secret_of files "password" d ≡ ok password
      → cloner_factory files scm d ≡ ok (some (using_basic_auth username password true))
  unfolding cloner_factory with_basic with_secret
  with_password username password basic user secret = ground arith

  abbrev Shared : ApiAuth → Type 0
  Shared auth =
      (cloner : CloneAuth) × (cloner_factory files scm d ≡ ok (some cloner))
      × SameSecret auth cloner

  from_token :
      (of_token : String → ApiAuth) {auth : ApiAuth}
      → ((token : String) → SameSecret (of_token token) (token_cloner files scm token))
      → has_basic_auth d ≡ false
      → has_value d "token" ≡ true
      → with_secret files "token" d of_token ≡ ok (some auth)
      → Shared auth
  unfolding with_secret
  from_token of_token {auth} same basic has h = elim (Result-cases (secret_of files "token" d)) [
    | inl (token, e) ↦
        let made : of_token token ≡ auth = ground arith in
        (
          token_cloner files scm token,
          with_token token basic has e,
          subst (λ a. SameSecret a (token_cloner files scm token)) made (same token),
        )
    | inr (r, e) ↦ absurd (ground arith)
  ]

  from_basic :
      {auth : ApiAuth}
      → has_basic_auth d ≡ true
      → with_basic files d auth_basic ≡ ok (some auth)
      → Shared auth
  unfolding with_basic with_secret
  from_basic {auth} basic h = elim (Result-cases (secret_of files "username" d)) [
    | inr (r, e) ↦ absurd (ground arith)
    | inl (username, e) ↦ elim (Result-cases (secret_of files "password" d)) [
      | inr (r, e2) ↦ absurd (ground arith)
      | inl (password, e2) ↦
          let made : auth_basic username password ≡ auth = ground arith in
          let cloner = using_basic_auth username password true in
          (
            cloner,
            with_password username password basic e e2,
            subst (λ a. SameSecret a cloner) made refl,
          )
    ]
  ]

  from_common :
      (of_token : String → ApiAuth) {auth : ApiAuth}
      → ((token : String) → SameSecret (of_token token) (token_cloner files scm token))
      → (has_basic_auth d && has_value d "token") ≡ false
      → token_or_basic files of_token d ≡ ok (some auth)
      → Shared auth
  unfolding token_or_basic
  from_common of_token same one h = elim (Bool-cases (has_value d "token")) [
    | inl has ↦ from_token of_token same (ground arith) has (ground arith)
    | inr lacks ↦ elim (Bool-cases (has_basic_auth d)) [
      | inl basic ↦ from_basic basic (ground arith)
      | inr no_basic ↦ absurd (ground arith)
    ]
  ]

with_secret-some :
    (files : Files) (key : String) (d : Auths) (make : String → ApiAuth)
    → ¬ (with_secret files key d make ≡ ok none)
unfolding with_secret
with_secret-some files key d make h = elim (Result-cases (secret_of files key d)) [
  | inl (secret, e) ↦ absurd (ground arith)
  | inr (r, e) ↦ absurd (ground arith)
]

no_common :
    (files : Files) (of_token : String → ApiAuth) (d : Auths)
    → token_or_basic files of_token d ≡ ok none
    → (has_value d "token" ≡ false) × (has_basic_auth d ≡ false)
unfolding token_or_basic with_basic
no_common files of_token d h = elim (Bool-cases (has_value d "token")) [
  | inl has ↦ absurd (with_secret-some files "token" d of_token (ground arith))
  | inr lacks ↦ elim (Bool-cases (has_basic_auth d)) [
    | inr no_basic ↦ (lacks, no_basic)
    | inl basic ↦ elim (Result-cases (secret_of files "username" d)) [
      | inl (username, e) ↦
          absurd (with_secret-some files "password" d (auth_basic username) (ground arith))
      | inr (r, e) ↦ absurd (ground arith)
    ]
  ]
]

has_value-has_key : (d : Auths) (key : String) → has_value d key ≡ true → has_key d key ≡ true
unfolding has_value
has_value-has_key d key h = elim (Bool-cases (has_key d key)) [
  | inl has ↦ has
  | inr lacks ↦ absurd (ground (arith, has_key-eq-false d key lacks))
]

no_value : (d : Auths) (key : String) → has_value d key ≡ false → found (get d key) ≡ none
unfolding has_value
no_value d key h = elim (Option-cases (found (get d key))) [
  | inl e ↦ e
  | inr (value, e) ↦ absurd (ground arith)
]

-- the clone with a GitHub App's key
app_clone :
    (files : Files) (d : Auths) (key : String)
    → has_basic_auth d ≡ false
    → has_value d "token" ≡ false
    → has_value d "ssh" ≡ false
    → has_value d "app-private-key" ≡ true
    → secret_of files "app-private-key" d ≡ ok key
    → cloner_factory files gh d ≡ ok (some (using_github_app_auth key))
unfolding cloner_factory with_secret
app_clone files d key basic token ssh app secret =
    ground (arith, no_value d "ssh" ssh, has_value-has_key d "app-private-key" app)

from_app :
    (files : Files) (d : Auths) {auth : ApiAuth}
    → has_basic_auth d ≡ false
    → has_value d "token" ≡ false
    → has_value d "ssh" ≡ false
    → has_value d "app-private-key" ≡ true
    → with_secret files "app-private-key" d github_app ≡ ok (some auth)
    → Shared files gh d auth
unfolding with_secret
from_app files d {auth} basic token ssh app h =
    elim (Result-cases (secret_of files "app-private-key" d)) [
      | inr (r, e) ↦ absurd (ground arith)
      | inl (key, e) ↦
          let made : github_app key ≡ auth = ground arith in
          (
            using_github_app_auth key,
            app_clone files d key basic token ssh app e,
            subst (λ a. SameSecret a (using_github_app_auth key)) made refl,
          )
    ]

shared :
    (files : Files) (scm : Scm) (d : Auths) {auth : ApiAuth}
    → (has_basic_auth d && has_value d "token") ≡ false
    → has_value d "ssh" ≡ false
    → api_auth_factory files scm d ≡ ok (some auth)
    → Shared files scm d auth
unfolding api_auth_factory
shared files bbdc d one ssh h = from_common files bbdc d auth_bearer (λ t. refl) one h
shared files adoe d one ssh h = from_common files adoe d (auth_basic "") (λ t. refl) one h
shared files gl d one ssh h = from_common files gl d auth_bearer (λ t. refl) one h
shared files gh d {auth} one ssh h = elim (Result-cases (token_or_basic files auth_bearer d)) [
  | inr (r, e) ↦ absurd (ground arith)
  | inl (common, e) ↦ elim (Option-cases common) [
    | inr (a, e2) ↦ from_common files gh d auth_bearer (λ t. refl) one (ground arith)
    | inl e2 ↦
        let (lacks, basic) = no_common files auth_bearer d (ground arith) in
        elim (Bool-cases (has_value d "app-private-key")) [
          | inl app ↦ from_app files d basic lacks ssh app (ground arith)
          | inr no_app ↦ absurd (ground arith)
        ]
  ]
]

or_invalid-ok {ℓ} :
    (files : Files) {A : Type ℓ} (r : Result (Option A)) {a : A}
    → or_invalid files r ≡ ok a
    → r ≡ ok (some a)
or_invalid-ok files (raised e) h = absurd (ground arith)
or_invalid-ok files (ok none) h = absurd (ground arith)
or_invalid-ok files (ok (some b)) h = ground arith

-- A connection without an element clone-auth can clone once its API can be used: if the API's
-- authorization is made, the element api-auth has no ssh key, and it does not have both a token and
-- a username with a password, then the cloner is made too, for each of the four SCMs, and of the same
-- secret: the same token, password or private key.
pub same_secret :
    (files : Files) (scm : Scm) (api_auth : Auths) {auth : ApiAuth}
    → scm_api_auth_factory files scm (some api_auth) ≡ ok auth
    → has_value api_auth "ssh" ≡ false
    → (has_basic_auth api_auth && has_value api_auth "token") ≡ false
    → (cloner : CloneAuth) × (connection_cloner files scm api_auth none ≡ ok cloner)
      × SameSecret auth cloner
unfolding scm_api_auth_factory connection_cloner scm_cloner_factory
same_secret files scm [] h ssh one = absurd (ground arith)
same_secret files scm (entry ∷ entries) h ssh one =
    let d = entry ∷ entries in
    let (cloner, made, same) = shared files scm d one ssh (or_invalid-ok files _ h) in
    (cloner, ground arith, same)
