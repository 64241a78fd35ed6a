-- ===== src/Scm/Azure/Events.antt =====
-- The events of Azure DevOps: what is read from a payload, and which branches a page of policies
-- protects (orchestration/adoe.py).
use text.Mathlib.Text.{starts_with}
use cxone_flow_buildwork.Prelude.{
  ℕ, String, ◌==◌, Bool, true, false, Option, none, some, List, [], ◌∷◌, if◌then◌else◌,
}
use cxone_flow_buildwork.Prelude.Run.{Result, ok, raised}
use cxone_flow_buildwork.Orchestration.Types.{Services}
use cxone_flow_buildwork.Scm.{subscript}
use cxone_flow_buildwork.Scm.Branches.{normalize_branch_name}

-- Reviewers' votes: __pr_status_map; any other vote is missing there.
pub data Vote : Type 0 where
  rejected wait_author no_review approved_comments approved unknown : Vote

abbrev status_of : Vote → Option String
status_of rejected = some "REJECTED"
status_of wait_author = some "WAIT_AUTHOR"
status_of no_review = some "NO_REVIEW"
status_of approved_comments = some "APPROVED_COMMENTS"
status_of approved = some "APPROVED"
status_of unknown = none

unfoldable pub statuses_of : List Vote → Result (List String)
statuses_of [] = ok []
statuses_of (vote ∷ votes) = elim (subscript (status_of vote)) [
  | raised e ↦ raised e
  | ok status ↦ elim (statuses_of votes) [
    | raised e ↦ raised e
    | ok statuses ↦ ok (status ∷ statuses)
  ]
]

pub record Payload : Type 0 where
  pub event_type : String
  pub remote_url : String
  pub default_branches : List String
  pub project_name : String
  pub repo_name : String
  pub repo_id : String
  pub collection : String
  pub ref_names : List String
  pub new_object_ids : List String
  pub is_draft : Option Bool
  pub self_link : Option String
  pub source_ref : Option String
  pub target_ref : Option String
  pub source_commit : Option String
  pub target_commit : Option String
  pub pull_request_id : Option String
  pub votes : List Vote
  pub status : Option String

-- one of `value[*].settings.scope[*]`
pub record Policy : Type 0 where
  pub ref_name : Option String
  pub repository_id : Option String
  pub match_kind : Option String

-- The answers; a page says whether there is a continuation token.
pub record Environment : Type 0 where
  pub services : Services
  pub matches : String → Bool
  pub scheme : String → String
  pub org : String
  pub ssh_url : Result String
  pub found_scans : (project_name pr_id : String) → (commit : Option String) → Result (List String)
  pub repo_details : Result (Option String)
  pub policies : ℕ → Result (List Policy × Bool)
  pub refs : ℕ → Result (List String × Bool)
  pub fuel : ℕ

-- The loop over the policies of a page: what it adds to `branches` and to `prefix_branches`.
abbrev pub Added : Type 0
Added = List String × List String

abbrev add_policy : String → String → Added → Added
add_policy branch kind added =
    (branch ∷ added.0, (if kind == "Prefix" then branch ∷ added.1 else added.1))

abbrev and_then {ℓ} : {A B : Type ℓ} → Result A → (A → Result B) → Result B
and_then (ok a) f = f a
and_then (raised e) f = raised e

unfoldable pub policy_branches : String → List Policy → Result Added
unfolding normalize_branch_name
policy_branches repo_id [] = ok ([], [])
policy_branches repo_id (p ∷ ps) =
    let rest = policy_branches repo_id ps in
    elim p.ref_name [
      | none ↦ rest
      | some name ↦ and_then (subscript p.repository_id) λ id.
          if id == repo_id
          then (and_then (subscript p.match_kind) λ kind.
              and_then rest λ added. ok (add_policy (normalize_branch_name name) kind added))
          else rest
    ]

-- re.compile("|".join(re.escape(p) …)).match(branch)
unfoldable pub match_check : List String → String → Bool
match_check [] branch = false
match_check (prefix ∷ prefixes) branch =
    let rest = match_check prefixes branch in if starts_with branch prefix then true else rest

unfoldable pub matching : List String → List String → List String
unfolding match_check
matching prefixes [] = []
matching prefixes (branch ∷ branches) =
    let rest = matching prefixes branches in
    if match_check prefixes branch then branch ∷ rest else rest
