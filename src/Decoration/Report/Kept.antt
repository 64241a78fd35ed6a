-- ===== src/Decoration/Report/Kept.antt =====
-- The results that come into a table: __test_in_enum and the loops over results of
-- PullRequestFeedback in workflows/pr.py.
use cxone_flow_buildwork.Prelude.{
  ℕ, nat_beq, String, ◌<>◌, Bool, true, false, not, ◌||◌, Option, none, some, List, [], ◌∷◌,
  if◌then◌else◌,
}
use cxone_flow_buildwork.Prelude.Run.{pure, lift, ◌>>=◌, ◌>>◌}
use cxone_flow_buildwork.Decoration.{
  ResultStates, to_verify, not_exploitable, proposed_not_exploitable, confirmed, urgent,
  ResultSeverity, critical, high, medium, low, info, state_of, severity_of, severity_rank_key, Row,
  Section, Deco, start_detail_section, as_severity, Library, add_row,
}

-- the members' places in their enumerations, by which they are told apart; `rank` of the severities
abbrev pub rank : ResultSeverity → ℕ
rank critical = 0
rank high = 1
rank medium = 2
rank low = 3
rank info = 4

abbrev place : ResultStates → ℕ
place to_verify = 0
place not_exploitable = 1
place proposed_not_exploitable = 2
place confirmed = 3
place urgent = 4

-- `x in exclusions`
unfoldable pub severity_in : ResultSeverity → List ResultSeverity → Bool
severity_in x [] = false
severity_in x (y ∷ ys) = nat_beq (rank x) (rank y) || severity_in x ys

unfoldable pub state_in : ResultStates → List ResultStates → Bool
state_in x [] = false
state_in x (y ∷ ys) = nat_beq (place x) (place y) || state_in x ys

-- __test_in_enum: a value of no member is in no list of exclusions
abbrev pub test_in_severities : Option ResultSeverity → List ResultSeverity → Bool
test_in_severities none excluded = false
test_in_severities (some x) excluded = severity_in x excluded

abbrev pub test_in_states : Option ResultStates → List ResultStates → Bool
test_in_states none excluded = false
test_in_states (some x) excluded = state_in x excluded

-- What a loop over the results sees of one: its state (none where the loop does not ask for it), its
-- severity, and the sort key and the cells of its row, less the rank.
pub record Found : Type 0 where
  pub state : Option String
  pub severity : String
  pub key : String
  pub cells : List String

pub record Exclusions : Type 0 where
  pub excluded_severities : List ResultSeverity
  pub excluded_states : List ResultStates

abbrev is_excluded_state : Exclusions → Option String → Bool
is_excluded_state ex none = false
is_excluded_state ex (some state) = test_in_states (state_of state) ex.excluded_states

unfoldable pub is_kept : Exclusions → Found → Bool
unfolding state_in severity_in
is_kept ex f = not (
    is_excluded_state ex f.state
    || test_in_severities (severity_of f.severity) ex.excluded_severities)

abbrev pub row_of : Found → ResultSeverity → Row
row_of f severity = record {
  severity = severity;
  key = severity_rank_key severity <> f.key;
  cells = f.cells;
}

module _ (lib : Library) (ex : Exclusions) where
  -- add_sast_detail and the three like it
  unfoldable pub add_detail : Section → Found → Deco (Unit {0})
  add_detail section f = do
    severity ← lift (as_severity (severity_of f.severity))
    add_row lib section (row_of f severity)

  abbrev unless_added : Bool → Section → Deco (Unit {0})
  unless_added true section = pure tt
  unless_added false section = start_detail_section section

  -- The loop that __add_sast_details and the three like it share, over the results one after another.
  unfoldable pub add_details : Section → Bool → List Found → Deco (Unit {0})
  unfolding is_kept add_detail
  add_details section title_added [] = pure tt
  add_details section title_added (f ∷ fs) =
      let skipped = add_details section title_added fs in
      let rest = add_details section true fs in
      if is_kept ex f
      then (do unless_added title_added section; add_detail section f; rest)
      else skipped
