-- ===== src/Kickoff/Tokens.antt =====
-- The token of a kickoff request: __get_auth_bearer_token and valid_bearer_token of
-- orchestration/kickoff/__init__.py, validate_jwt of kickoff_services/__init__.py, with its queries for
-- scans. The decoding of a token is another package's; times are in the unit of its `exp`.
use cxone_flow_buildwork.Prelude.{
  ℕ, ◌<◌, leb, String, ◌≡◌, refl, Bool, true, false, Option, none, some, List, [], ◌∷◌, inl, inr,
  Bool-cases, Option-cases, map, arith, if◌then◌else◌,
}
use cxone_flow_buildwork.Prelude.Dict.{Dict, get}
use cxone_flow_buildwork.Prelude.Texts.{split, lower_equals}
use cxone_flow_buildwork.Prelude.Run.{
  is_exception, index_error, key_error, type_error, Result, ok, raised, Result-cases,
}
use cxone_flow_buildwork.Kickoff.{ExecutingScan}

-- the codes of "bearer"
abbrev pub bearer : List ℕ
bearer = 98 ∷ 101 ∷ 97 ∷ 114 ∷ 101 ∷ 114 ∷ []

-- the two calls of `pop` on the reversed words
abbrev pub token_of : List String → Result (Option String)
token_of [] = raised index_error
token_of (scheme ∷ []) = if lower_equals bearer scheme then raised index_error else ok none
token_of (scheme ∷ token ∷ rest) = if lower_equals bearer scheme then ok (some token) else ok none

abbrev token_in : Option String → Result (Option String)
token_in none = ok none
token_in (some content) = token_of (split 32 content)

unfoldable pub get_auth_bearer_token : Dict String → Result (Option String)
unfolding get split lower_equals
get_auth_bearer_token headers = token_in (get headers "Authorization")

-- the header Authorization, its words and the scheme among them
abbrev pub HasBearer : Dict String → (content scheme token : String) → List String → Type 0
HasBearer headers content scheme token rest =
    (get headers "Authorization" ≡ some content)
    × (split 32 content ≡ scheme ∷ token ∷ rest)
    × (lower_equals bearer scheme ≡ true)

token_of-words :
    (words : List String) (token : String)
    → token_of words ≡ ok (some token)
    → (scheme : String) × (rest : List String) × (words ≡ scheme ∷ token ∷ rest)
      × (lower_equals bearer scheme ≡ true)
token_of-words [] token h = absurd (ground arith)
token_of-words (scheme ∷ []) token h = absurd (ground arith)
token_of-words (scheme ∷ t ∷ rest) token h = elim (Bool-cases (lower_equals bearer scheme)) [
  | inl is_bearer ↦ (scheme, rest, ground arith, is_bearer)
  | inr other ↦ absurd (ground arith)
]

get_auth_bearer_token-HasBearer :
    (headers : Dict String) (token : String)
    → get_auth_bearer_token headers ≡ ok (some token)
    → (content scheme : String) × (rest : List String) × HasBearer headers content scheme token rest
unfolding get_auth_bearer_token
get_auth_bearer_token-HasBearer headers token h =
    elim (Option-cases (get headers "Authorization")) [
      | inl none_there ↦ absurd (ground arith)
      | inr (content, there) ↦
          let (scheme, rest, words, is_bearer) =
            token_of-words (split 32 content) token (ground arith) in
          (content, scheme, rest, (there, words, is_bearer))
    ]

-- a payload, by its `exp`
abbrev pub Payload : Type 0
Payload = Option ℕ

-- KickoffService and DummyKickoffService
pub data Service : Type 0 where
  dummy_service kickoff_service : Service

module _ (decode : String → Result (Option Payload)) (now : ℕ) where
  abbrev unexpired : Payload → Result Bool
  unexpired none = raised key_error
  unexpired (some exp) = ok (if leb exp now then false else true)

  -- the body of the `try`
  abbrev checked : Result (Option Payload) → Result Bool
  checked (raised e) = raised e
  checked (ok none) = ok false
  checked (ok (some payload)) = unexpired payload

  -- `except Exception`
  abbrev caught : Result Bool → Result Bool
  caught (ok valid) = ok valid
  caught (raised e) = if is_exception e then ok false else raised e

  unfoldable pub validate_jwt : Service → Option String → Result Bool
  validate_jwt dummy_service token = ok false
  validate_jwt kickoff_service none = ok false
  validate_jwt kickoff_service (some token) = caught (checked (decode token))

  abbrev validated : Service → Result (Option String) → Result Bool
  validated service (raised e) = raised e
  validated service (ok token) = validate_jwt service token

  unfoldable pub valid_bearer_token : Service → Dict String → Result Bool
  unfolding get_auth_bearer_token validate_jwt
  valid_bearer_token service headers = validated service (get_auth_bearer_token headers)

  -- the token was decoded and is not expired
  abbrev pub IsLive : String → Type 0
  IsLive token = (exp : ℕ) × (decode token ≡ ok (some (some exp))) × (now < exp)

  validate_jwt-IsLive :
      (service : Service) (token : Option String)
      → validate_jwt service token ≡ ok true
      → (service ≡ kickoff_service) × ((t : String) × (token ≡ some t) × IsLive t)
  unfolding validate_jwt
  validate_jwt-IsLive dummy_service token h = absurd (ground arith)
  validate_jwt-IsLive kickoff_service none h = absurd (ground arith)
  validate_jwt-IsLive kickoff_service (some token) h = elim (Result-cases (decode token)) [
    | inl (none, e) ↦ absurd (ground arith)
    | inl (some none, e) ↦ absurd (ground arith)
    | inl (some (some exp), e) ↦ (refl, (token, refl, (exp, e, ground arith)))
    | inr (r, e) ↦ absurd (ground arith)
  ]

  -- A request is let through only by a service with a configured kickoff, never by the dummy, and only
  -- with a live token: it has a header Authorization whose words are the scheme `bearer`, in upper or
  -- lower case, and a token after it that is decoded with the service's key and expires later than now.
  pub admitted_has_token :
      (service : Service) (headers : Dict String)
      → valid_bearer_token service headers ≡ ok true
      → (service ≡ kickoff_service)
        × ((content scheme token : String) × (rest : List String) × HasBearer headers content scheme
              token rest
            × IsLive token)
  unfolding valid_bearer_token
  admitted_has_token service headers h = elim (Result-cases (get_auth_bearer_token headers)) [
    | inl (token, e) ↦
        let (made, (t, found, live)) = validate_jwt-IsLive service token (ground arith) in
        let (content, scheme, rest, has) =
          get_auth_bearer_token-HasBearer headers t (ground arith) in
        (made, (content, scheme, t, rest, has, live))
    | inr (r, e) ↦ absurd (ground arith)
  ]

-- A scan of the pager, and the queries, each of what its request lists. The dummy's two queries take one
-- more argument than their callers give.
pub record Scan : Type 0 where
  pub project_name : String
  pub project_id : String
  pub id : String
  pub branch : String

unfoldable pub one_scan_exists_on_branch : Option (List Scan) → Bool
one_scan_exists_on_branch none = false
one_scan_exists_on_branch (some []) = false
one_scan_exists_on_branch (some (scan ∷ scans)) = true

unfoldable pub get_completed_ko_scans_by_project :
    Service → (project_name : String) → List Scan → Result (List ExecutingScan)
get_completed_ko_scans_by_project dummy_service name scans = raised type_error
get_completed_ko_scans_by_project kickoff_service name scans = ok (
    map
      (λ (scan : Scan). record {
        project_name = name;
        project_id = scan.project_id;
        scan_id = scan.id;
        scan_branch = scan.branch;
      })
      scans)

unfoldable pub get_running_ko_scans : Service → List Scan → Result (List ExecutingScan)
get_running_ko_scans dummy_service scans = raised type_error
get_running_ko_scans kickoff_service scans = ok (
    map
      (λ (scan : Scan). record {
        project_name = scan.project_name;
        project_id = scan.project_id;
        scan_id = scan.id;
        scan_branch = scan.branch;
      })
      scans)
