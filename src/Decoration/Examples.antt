-- ===== src/Decoration/Examples.antt =====
-- A small report, its decoration, and the theorems at it.
use cxone_flow_buildwork.Prelude.{
  ℕ, String, ◌==◌, ◌<>◌, ◌≡◌, refl, true, false, none, some, List, [], ◌∷◌, if◌then◌else◌,
}
use cxone_flow_buildwork.Decoration.{
  info, not_exploitable, severity_of, state_of, start_detail_section, add_row, Row, sast, join,
  Decoration, empty, Library, rows_of, summary_content, full_content, matches_identifier,
}
use cxone_flow_buildwork.Decoration.Report.{Found, Exclusions, add_details, fix_path}
use cxone_flow_buildwork.Decoration.Insertion.{insert, insertion, insertion-IsSortedList}
use cxone_flow_buildwork.Decoration.Identifier.{content_matches}
use cxone_flow_buildwork.Decoration.Rows.{Ends, all_known, table_filled}

abbrev library : Library
library = record {
  sorted = insertion;
  artifact_url = λ path. "https://flow/artifacts/" <> path;
  lower = λ s. s;
  quote_plus = λ s. s;
  join_path = join "/";
  pad = λ s. none;
}

abbrev found : String → String → String → Found
found state severity key = record {
  state = some state;
  severity = severity;
  key = key;
  cells = key ∷ [];
}

abbrev results : List Found
results =
    found "Confirmed" "Low" "b"
    ∷ found "To Verify" "High" "c"
    ∷ found "Not Exploitable" "High" "d"
    ∷ found "Urgent" "Low" "a"
    ∷ []

abbrev exclusions : Exclusions
exclusions = record { excluded_severities = info ∷ []; excluded_states = not_exploitable ∷ [] }

abbrev keys : List Row → List String
keys [] = []
keys (row ∷ rows) = row.key ∷ keys rows

rows_in_order :
    keys (rows_of sast (add_details library exclusions sast false results empty).1)
    ≡ "001c" ∷ "003a" ∷ "003b" ∷ []
unfolding add_details insert severity_of state_of start_detail_section add_row
rows_in_order = refl

link_is_fixed : fix_path "p" "/results/s/p/sast" ≡ "/results/s/p/sast"
unfolding fix_path
link_is_fixed = refl

wrong_link_is_fixed : fix_path "p" "/results/s/p" ≡ "/results/p/s"
unfolding fix_path
wrong_link_is_fixed = refl

knowns : all_known exclusions results ≡ true
unfolding all_known severity_of state_of
knowns = refl

table_filled_example : (d' : Decoration) × Ends library exclusions sast false results empty d'
table_filled_example =
    table_filled library exclusions sast insertion-IsSortedList false results empty knowns tt

strange : Found
strange = record { state = some "Urgent"; severity = "Severe"; key = "x"; cells = [] }

content_matches_example :
    (matches_identifier (full_content library empty) ≡ true)
    × (matches_identifier (summary_content library empty) ≡ true)
content_matches_example = content_matches library empty

abbrev counts : String → ℕ
counts value = if value == "Info" then 2 else if value == "Information" then 3 else 0
