-- ===== src/Decoration/Results.antt =====
-- The result enumerations of workflows/__init__.py, and the row of a table of results
-- (SortedDetailRows of workflows/pr.py).
use cxone_flow_buildwork.Prelude.{String, ◌==◌, Option, none, some, List, if◌then◌else◌}
use cxone_flow_buildwork.Prelude.Run.{value_error, Result, ok, raised}

pub data ResultStates : Type 0 where
  to_verify not_exploitable proposed_not_exploitable confirmed urgent : ResultStates

pub data ResultSeverity : Type 0 where
  critical high medium low info : ResultSeverity

-- ResultStates(value), where there is one
unfoldable pub state_of : String → Option ResultStates
state_of value =
    if value == "To Verify"
    then some to_verify
    else if value == "Not Exploitable"
    then some not_exploitable
    else if value == "Proposed Not Exploitable"
    then some proposed_not_exploitable
    else if value == "Confirmed"
    then some confirmed
    else if value == "Urgent"
    then some urgent
    else none

-- ResultSeverity(value), where there is one
unfoldable pub severity_of : String → Option ResultSeverity
severity_of value =
    if value == "Critical"
    then some critical
    else if value == "High"
    then some high
    else if value == "Medium"
    then some medium
    else if value == "Low"
    then some low
    else if value == "Info"
    then some info
    else if value == "Information"
    then some info
    else if value == ""
    then some info
    else none

-- the first value of a member
abbrev pub severity_str : ResultSeverity → String
severity_str critical = "Critical"
severity_str high = "High"
severity_str medium = "Medium"
severity_str low = "Low"
severity_str info = "Info"

-- f"{rank:03}"
abbrev pub severity_rank_key : ResultSeverity → String
severity_rank_key critical = "000"
severity_rank_key high = "001"
severity_rank_key medium = "002"
severity_rank_key low = "003"
severity_rank_key info = "004"

-- DetailRow: its key in the sorted list, and its cells in the output's order
pub record Row : Type 0 where
  pub severity : ResultSeverity
  pub key : String
  pub cells : List String

-- ResultSeverity(severity), of a text
abbrev pub as_severity : Option ResultSeverity → Result ResultSeverity
as_severity none = raised value_error
as_severity (some severity) = ok severity

-- SortedList(key = …) of the sortedcontainers package, as far as it is used
pub record SortedList : Type 0 where
  pub add : Row → List Row → List Row
