-- ===== src/Decoration/Report.antt =====
-- PullRequestFeedback of workflows/pr.py: which results of an enhanced report come into the tables, in
-- which form, and the counts of the summary. JSON paths find the parts of the report, and URLs are
-- taken apart, in other packages: a report here is what was found.
pub mod Kept
pub mod Findings
pub mod Counts
use cxone_flow_buildwork.Prelude.{
  ℕ, zero, suc, nat_beq, String, ◌==◌, ◌<>◌, Bool, true, false, not, ◌||◌, Option, none, some, List,
  [], ◌∷◌, ◌++◌, map, if◌then◌else◌,
}
use cxone_flow_buildwork.Prelude.Texts.{split, last_part}
use cxone_flow_buildwork.Prelude.Run.{pure, lift, ◌>>=◌, ◌>>◌}
use cxone_flow_buildwork.Decoration.{
  ResultStates, to_verify, not_exploitable, proposed_not_exploitable, confirmed, urgent,
  ResultSeverity, critical, high, medium, low, info, state_of, severity_of, severity_str,
  severity_rank_key, Row, join, Section, sast, sca, iac, resolved, Deco, start_detail_section,
  add_to_annotation, add_to_summary, as_severity, link, normalized_version, Library,
  severity_indicator, add_row, scan_link, sca_result_link,
}
unfoldable pub use Kept.*
unfoldable pub use Findings.*
unfoldable pub use Counts.*

-- __translate_engine_status, and the line of the engines
abbrev translate_engine_status : String → String
translate_engine_status status = if status == "Completed" then "&#x2705;" else "&#x274c;"

unfoldable pub status_content : List EngineStatus → String
status_content [] = ""
status_content (e ∷ es) =
    (translate_engine_status e.status <> ("&nbsp;**" <> (e.name <> "**&nbsp;&nbsp;")))
    <> status_content es

module _ (lib : Library) (str : ℕ → String) (ex : Exclusions) (about : About)
    (report : EnhancedReport) where
  unfoldable pub add_annotation_section : Deco (Unit {0})
  unfolding status_content scan_link
  add_annotation_section = do
    add_to_annotation (
        "**Results for Scan ID "
        <> (scan_link lib about.display_url about.project_id about.scanid about.source_branch
            <> "**"))
    add_to_annotation ("\n" <> status_content report.scanner_status)

  -- __init__
  unfoldable pub pull_request_feedback : Deco (Unit {0})
  pull_request_feedback = do
    add_annotation_section
    add_summary_section str ex.excluded_severities report.count
    add_details lib ex sast false (each (sast_found lib about) report.sast_results)
    add_details lib ex resolved false
        (each (resolved_found lib about) report.resolved_vulnerabilities)
    add_details lib ex sca false (each (sca_found lib about) report.packages)
    add_details lib ex iac false (each (iac_found lib about) report.technologies)
