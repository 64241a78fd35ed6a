-- ===== src/Decoration/Report/Counts.antt =====
-- The summary of PullRequestFeedback in workflows/pr.py: its columns and its counts.
use cxone_flow_buildwork.Prelude.{
  ℕ, zero, suc, String, ◌<>◌, Option, none, some, List, [], ◌∷◌, map, if◌then◌else◌,
}
use cxone_flow_buildwork.Decoration.{
  ResultSeverity, critical, high, medium, low, info, severity_str, join, Deco, add_to_summary,
}
use cxone_flow_buildwork.Decoration.Report.Kept.{severity_in}
use cxone_flow_buildwork.Decoration.Report.Findings.{Engine, sast_engine, sca_engine, iac_engine}

-- iteration over ResultSeverity, and __included_severities
abbrev pub all_severities : List ResultSeverity
all_severities = critical ∷ high ∷ medium ∷ low ∷ info ∷ []

unfoldable pub included : List ResultSeverity → List ResultSeverity → List ResultSeverity
unfolding severity_in
included excluded [] = []
included excluded (x ∷ xs) =
    let rest = included excluded xs in if severity_in x excluded then rest else x ∷ rest

unfoldable pub included_severities : List ResultSeverity → List ResultSeverity
unfolding included
included_severities excluded = included excluded all_severities

-- sev.values
abbrev pub values : ResultSeverity → List String
values critical = "Critical" ∷ "0" ∷ []
values high = "High" ∷ "1" ∷ []
values medium = "Medium" ∷ "2" ∷ []
values low = "Low" ∷ "3" ∷ []
values info = "Info" ∷ "Information" ∷ "" ∷ "4" ∷ []

-- the loop over the values in __get_result_count_map, from a count that stays none at `-`
unfoldable pub first_count : (String → ℕ) → List String → Option ℕ
first_count count [] = none
first_count count (v ∷ vs) =
    let rest = first_count count vs in elim (count v) [ zero ↦ rest | suc n ↦ some (suc n) ]

-- counts_by_sev[sev] of __get_result_count_map, for an included severity
unfoldable pub result_count : (String → ℕ) → ResultSeverity → Option ℕ
unfolding first_count
result_count count severity = first_count count (values severity)

module _ (str : ℕ → String) where
  abbrev str_or_dash : Option ℕ → String
  str_or_dash none = "-"
  str_or_dash (some n) = str n

  -- add_summary_entry
  unfoldable pub summary_entry : String → (String → ℕ) → List ResultSeverity → String
  unfolding result_count join
  summary_entry engine count severities =
      let sev_part = join "|" (map (λ sev. str_or_dash (result_count count sev)) severities) in
      "|" <> (engine <> ("|" <> (sev_part <> "|")))

  abbrev repeat_cell : List ResultSeverity → String
  repeat_cell [] = ""
  repeat_cell (x ∷ xs) = "| :-: " <> repeat_cell xs

  -- start_summary_section and __add_summary_section
  unfoldable pub add_summary_section : List ResultSeverity → (Engine → String → ℕ) → Deco (Unit {0})
  unfolding summary_entry included_severities add_to_summary
  add_summary_section excluded count =
      let severities = included_severities excluded in
      let sev_header = join " | " (map severity_str severities) in
      add_to_summary (
        "\n"
        ∷ "# Summary of Vulnerabilities"
        ∷ "\n"
        ∷ ("| Engine | " <> (sev_header <> " |"))
        ∷ ("|--" <> (repeat_cell severities <> "|"))
        ∷ summary_entry "SAST" (count sast_engine) severities
        ∷ summary_entry "SCA" (count sca_engine) severities
        ∷ summary_entry "IaC" (count iac_engine) severities
        ∷ [])
