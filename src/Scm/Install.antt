-- ===== src/Scm/Install.antt =====
-- The check of a GitHub App's installation, __log_app_install of orchestration/gh.py: which of the
-- expected events and permissions are missing. What it logs is the two verdicts and these lists.
use cxone_flow_buildwork.Prelude.{
  ℕ, leb, String, ◌==◌, ◌≡◌, Bool, true, false, not, ◌||◌, Option, none, some, List, [], ◌∷◌,
  contains, arith, eq_iff, Option-cases, inl, inr, if◌then◌else◌,
}
use cxone_flow_buildwork.Prelude.Dict.{Dict, IsDict, get, remove, get-remove, has_key-eq-false}
use cxone_flow_buildwork.Prelude.Run.{key_error, Result, ok, raised, Result-cases}

abbrev pub expected_events : List String
expected_events = "pull_request" ∷ "pull_request_review" ∷ "push" ∷ []

abbrev pub expected_permissions : Dict String
expected_permissions = ("contents", "read") ∷ ("metadata", "read") ∷ ("pull_requests", "write") ∷ []

-- __permission_weights[…]
unfoldable pub permission_weight : String → Result ℕ
permission_weight permission =
    if permission == "read" then ok 1 else if permission == "write" then ok 2 else raised key_error

-- the events that are expected, and that the installation does not have
unfoldable pub unhandled_events : List String → List String → List String
unhandled_events [] events = []
unhandled_events (x ∷ xs) events =
    let rest = unhandled_events xs events in if contains x events then rest else x ∷ rest

abbrev compare_weights : Result ℕ → Result ℕ → Result Bool
compare_weights (raised e) granted = raised e
compare_weights (ok m) (raised e) = raised e
compare_weights (ok m) (ok n) = ok (leb m n)

unfoldable pub is_enough : (required granted : String) → Result Bool
unfolding permission_weight
is_enough required granted =
    compare_weights (permission_weight required) (permission_weight granted)

abbrev without : Dict String → String → Bool → Dict String
without not_found p true = remove not_found p
without not_found p false = not_found

-- the loop over the permissions of the payload
unfoldable pub permissions_not_found : Dict String → Dict String → Result (Dict String)
unfolding get remove
permissions_not_found not_found [] = ok not_found
permissions_not_found not_found ((p, granted) ∷ rest) = elim (get not_found p) [
  | none ↦ permissions_not_found not_found rest
  | some required ↦ elim (is_enough required granted) [
    | raised e ↦ raised e
    | ok enough ↦ permissions_not_found (without not_found p enough) rest
  ]
]

abbrev is_filled {ℓ} : {A : Type ℓ} → List A → Bool
is_filled [] = false
is_filled (x ∷ xs) = true

-- `warned` and `bad`, for one of the actions that are checked; the first is also logged as an error
unfoldable pub is_checked : String → Bool
is_checked action = contains action ("created" ∷ "new_permissions_accepted" ∷ "added" ∷ [])

unfoldable pub verdict :
    (target_type repo_selection : String)
    → Option (List String)
    → Option (Dict String)
    → Result (Bool × Bool)
unfolding unhandled_events permissions_not_found
verdict target_type repo_selection events permissions =
    let warned = not (target_type == "Organization") || not (repo_selection == "all") in
    let unhandled : List String = elim events [
      | none ↦ expected_events
      | some found ↦ unhandled_events expected_events found
    ] in
    let missing : Result (Dict String) = elim permissions [
      | none ↦ ok expected_permissions
      | some found ↦ permissions_not_found expected_permissions found
    ] in
    elim missing [
      | raised e ↦ raised e
      | ok left ↦ ok (warned, is_filled unhandled || is_filled left)
    ]

-- what is left of a requirement
abbrev pub still_missing : Option String → Option String → Option String
still_missing none granted = none
still_missing (some required) none = some required
still_missing (some required) (some granted) = elim (is_enough required granted) [
  | raised e ↦ some required
  | ok enough ↦ if enough then none else some required
]

-- Where the loop ends without an error, a permission is left as not found exactly if it was asked for,
-- and the installation does not grant it or grants it with too small a weight. A payload has each
-- permission once.
pub permission_left :
    (not_found granted left : Dict String) (k : String)
    → IsDict granted
    → permissions_not_found not_found granted ≡ ok left
    → get left k ≡ still_missing (get not_found k) (get granted k)
unfolding permissions_not_found get
permission_left not_found [] left k once h = ground arith
permission_left not_found ((p, g) ∷ rest) left k once h = elim (Option-cases (get not_found p)) [
  | inl no_need ↦ ground (
    arith,
    permission_left not_found rest left k once.1,
    has_key-eq-false rest p once.0,
    eq_iff p k,
  )
  | inr (required, need) ↦ elim (Result-cases (is_enough required g)) [
    | inr (e, failed) ↦ absurd (ground arith)
    | inl (true, enough) ↦ ground (
      arith,
      permission_left (remove not_found p) rest left k once.1,
      get-remove not_found p k,
      has_key-eq-false rest p once.0,
      eq_iff p k,
    )
    | inl (false, small) ↦ ground (
      arith,
      permission_left not_found rest left k once.1,
      has_key-eq-false rest p once.0,
      eq_iff p k,
    )
  ]
]
