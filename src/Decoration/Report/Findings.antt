-- ===== src/Decoration/Report/Findings.antt =====
-- The parts of an enhanced report, and the row of each result: what the four loops of
-- PullRequestFeedback in workflows/pr.py read.
use cxone_flow_buildwork.Prelude.{
  ℕ, String, ◌==◌, ◌<>◌, none, some, List, [], ◌∷◌, ◌++◌, map, if◌then◌else◌,
}
use cxone_flow_buildwork.Prelude.Texts.{split, last_part}
use cxone_flow_buildwork.Decoration.{
  join, link, normalized_version, Library, severity_indicator, sca_result_link,
}
use cxone_flow_buildwork.Decoration.Report.Kept.{Found}

pub record Vulnerability : Type 0 where
  pub state : String
  pub severity : String
  pub source_file_name : String
  pub source_line : String
  pub result_viewer_link : String

pub record SastResult : Type 0 where
  pub query_description_link : String
  pub query_name : String
  pub vulnerabilities : List Vulnerability

pub record CategoryResult : Type 0 where
  pub state : String
  pub severity : String
  pub cve : String

pub record ScaPackage : Type 0 where
  pub package_name : String
  pub package_version : String
  pub package_id : String
  pub categories : List (List CategoryResult)

pub record IacResult : Type 0 where
  pub state : String
  pub severity : String
  pub file_name : String
  pub result_viewer_link : String

pub record IacQuery : Type 0 where
  pub query_name : String
  pub results_list : List IacResult

pub record Technology : Type 0 where
  pub name : String
  pub queries : List IacQuery

-- urllib.parse's six parts of a URL
pub record ParsedUrl : Type 0 where
  pub path : String
  pub unparse : String → String

pub record ResolvedResult : Type 0 where
  pub severity : String
  pub vulnerability_link : String
  pub parsed_url : ParsedUrl

pub record ResolvedVulnerability : Type 0 where
  pub vulnerability_name : String
  pub resolved_results : List ResolvedResult

pub record EngineStatus : Type 0 where
  pub name : String
  pub status : String

pub data Engine : Type 0 where
  sast_engine sca_engine iac_engine : Engine

-- `count` is the number of results of an engine with a value for severity that are exploitable.
pub record EnhancedReport : Type 0 where
  pub scanner_status : List EngineStatus
  pub sast_results : List SastResult
  pub packages : List ScaPackage
  pub technologies : List Technology
  pub resolved_vulnerabilities : List ResolvedVulnerability
  pub count : Engine → String → ℕ

-- one list of the results of nested loops
unfoldable pub each {ℓ} : {A B : Type ℓ} → (A → List B) → List A → List B
each f [] = []
each f (x ∷ xs) = f x ++ each f xs

-- path_components.insert(len(path_components) - 1, project_id)
unfoldable pub insert_before_last : String → List String → List String
insert_before_last x [] = x ∷ []
insert_before_last x (y ∷ []) = x ∷ y ∷ []
insert_before_last x (y ∷ z ∷ rest) = y ∷ insert_before_last x (z ∷ rest)

-- path_components.pop(), for what it leaves
unfoldable pub without_last : List String → List String
without_last [] = []
without_last (x ∷ []) = []
without_last (x ∷ y ∷ rest) = x ∷ without_last (y ∷ rest)

unfoldable pub fix_components : String → List String → List String
unfolding last_part insert_before_last without_last
fix_components project_id components =
    if last_part "" components == project_id
    then insert_before_last project_id (without_last components)
    else components

-- the path of fixed_link, and the link
unfoldable pub fix_path : String → String → String
unfolding fix_components split join
fix_path project_id path = join "/" (fix_components project_id (split 47 path))

unfoldable pub fixed_link : String → ResolvedResult → String
unfolding split last_part fix_path
fixed_link project_id r =
    if last_part "" (split 47 r.parsed_url.path) == project_id
    then r.parsed_url.unparse (fix_path project_id r.parsed_url.path)
    else r.vulnerability_link

-- What one decoration is about; `permalink` is code_permalink_func of the pull request's details.
pub record About : Type 0 where
  pub display_url : String
  pub project_id : String
  pub scanid : String
  pub source_branch : String
  pub permalink : String → String → String

module _ (lib : Library) (about : About) where
  unfoldable pub sast_found : SastResult → List Found
  unfolding severity_indicator
  sast_found x =
      map
        (λ (vuln : Vulnerability).
          let issue = link x.query_description_link x.query_name in
          let source =
            "`"
            <> (vuln.source_file_name
                <> ("`;"
                    <> link (about.permalink vuln.source_file_name vuln.source_line)
                        vuln.source_line)) in
          record {
            state = some vuln.state;
            severity = vuln.severity;
            key = issue;
            cells =
                severity_indicator lib vuln.severity
                ∷ issue
                ∷ source
                ∷ link vuln.result_viewer_link "Attack Vector"
                ∷ [];
          })
        x.vulnerabilities

  unfoldable pub sca_found : ScaPackage → List Found
  unfolding severity_indicator sca_result_link normalized_version
  sca_found x =
      each
        (map (λ (r : CategoryResult). record {
          state = some r.state;
          severity = r.severity;
          key = x.package_name <> (normalized_version lib.pad x.package_version <> r.cve);
          cells =
              severity_indicator lib r.severity
              ∷ r.cve
              ∷ (x.package_name <> (":" <> x.package_version))
              ∷ sca_result_link lib about.display_url about.project_id about.scanid "Risk Details"
                  r.cve x.package_id
              ∷ [];
        }))
        x.categories

  unfoldable pub iac_found : Technology → List Found
  unfolding severity_indicator
  iac_found x =
      each
        (λ (query : IacQuery).
          map
            (λ (r : IacResult). record {
              state = some r.state;
              severity = r.severity;
              key = x.name;
              cells =
                  severity_indicator lib r.severity
                  ∷ x.name
                  ∷ ("`" <> (r.file_name <> ("`" <> link (about.permalink r.file_name "1") "view")))
                  ∷ query.query_name
                  ∷ link r.result_viewer_link "Risk Details"
                  ∷ [];
            })
            query.results_list)
        x.queries

  unfoldable pub resolved_found : ResolvedVulnerability → List Found
  unfolding severity_indicator fixed_link
  resolved_found vuln =
      map
        (λ (r : ResolvedResult). record {
          state = none;
          severity = r.severity;
          key = vuln.vulnerability_name;
          cells =
              severity_indicator lib r.severity
              ∷ vuln.vulnerability_name
              ∷ link (fixed_link about.project_id r) "View"
              ∷ [];
        })
        vuln.resolved_results
