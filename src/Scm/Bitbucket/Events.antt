-- ===== src/Scm/Bitbucket/Events.antt =====
-- The events of Bitbucket Data Center: what is read from a payload (orchestration/bbdc.py).
use cxone_flow_buildwork.Prelude.{
  String, ◌==◌, ◌<>◌, Bool, true, false, Option, none, some, List, [], ◌∷◌, contains, if◌then◌else◌,
}
use cxone_flow_buildwork.Prelude.Dict.{Dict, update}
use cxone_flow_buildwork.Prelude.Run.{Result, ok, raised}
use cxone_flow_buildwork.Scm.{subscript}
use cxone_flow_buildwork.Scm.Branches.{dedupe}

-- one of `changes`: its type, the display id of its ref and its toHash
pub record Change : Type 0 where
  pub kind : String
  pub display_id : Option String
  pub to_hash : Option String

-- `toRef` and `fromRef`
pub record PrRef : Type 0 where
  pub display_id : Option String
  pub latest_commit : Option String

-- `clone` is the dict from names to links that a comprehension makes of each list of links.
pub record Payload : Type 0 where
  pub event_key : Option String
  pub push_clone : Dict String
  pub pr_clone : Dict String
  pub changes : List Change
  pub push_project_key : Option String
  pub push_project_name : Option String
  pub push_slug : Option String
  pub push_name : Option String
  pub draft : Option Bool
  pub self_link : Option String
  pub to_ref : Option PrRef
  pub from_ref : Option PrRef
  pub pr_project_key : Option String
  pub pr_project_name : Option String
  pub pr_slug : Option String
  pub pr_name : Option String
  pub id : Option String
  pub state : Option String
  pub reviewer_status : List String

abbrev is : Option String → String → Bool
is none name = false
is (some value) name = value == name

unfoldable pub is_diagnostic : Payload → Bool
is_diagnostic p = is p.event_key "diagnostics:ping"

-- __clone_urls: `… | …`
unfoldable pub clone_urls : Payload → Dict String
unfolding update
clone_urls p = update p.push_clone p.pr_clone

abbrev pub scannable_change_types : List String
scannable_change_types = "ADD" ∷ "UPDATE" ∷ []

-- whether some change is of a type that can be scanned
unfoldable pub has_scannable : List Change → Bool
has_scannable [] = false
has_scannable (change ∷ changes) =
    let rest = has_scannable changes in
    if contains change.kind scannable_change_types then true else rest

abbrev first_change : List Change → Result (Option String × Option String)
first_change [] = ok (none, none)
first_change (change ∷ changes) = elim (subscript change.display_id) [
  | raised e ↦ raised e
  | ok branch ↦ elim (subscript change.to_hash) [
    | raised e ↦ raised e
    | ok hash ↦ ok (some branch, some hash)
  ]
]

-- the branch and the hash of a push: those of the first change
unfoldable pub push_branch_and_hash : List Change → Result (Option String × Option String)
unfolding has_scannable
push_branch_and_hash changes =
    if has_scannable changes then first_change changes else ok (none, none)

unfoldable pub join_slash : List String → String
join_slash [] = ""
join_slash (x ∷ []) = x
join_slash (x ∷ y ∷ rest) = x <> "/" <> join_slash (y ∷ rest)

abbrev or_no_reviewers : List String → String
or_no_reviewers [] = "NO_REVIEWERS"
or_no_reviewers (x ∷ xs) = join_slash (x ∷ xs)

-- __pr_status, of the set of the reviewers' statuses
unfoldable pub pr_status : List String → String
unfolding dedupe join_slash
pr_status statuses = or_no_reviewers (dedupe statuses)
