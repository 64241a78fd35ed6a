-- ===== src/Decoration.antt =====
-- The comment that decorates a pull request: SortedDetailRows, PullRequestDecoration and
-- PullRequestAnnotation of workflows/pr.py, from the
-- results' tables to the text. `sortedcontainers`, URL quoting and the joining of paths are given.
pub mod Results
pub mod Markup
pub mod Report
pub mod Links
pub mod Identifier
pub mod Rows
pub mod Insertion
pub mod Summary
mod Examples
use Prim.Native.Char.{Char, code}
use text.Mathlib.Text.{starts_with}
use cxone_flow_buildwork.Prelude.{
  nat_beq, String, ◌==◌, ◌<>◌, Bool, true, false, Option, none, some, List, [], ◌∷◌, ◌++◌,
  if◌then◌else◌,
}
use cxone_flow_buildwork.Prelude.Dict.{Dict, get}
use cxone_flow_buildwork.Prelude.Texts.{split}
use cxone_flow_buildwork.Prelude.Run.{Raised, value_error, Result, ok, raised, Run, lift, ◌>>=◌}
unfoldable pub use Results.*
unfoldable pub use Markup.*

abbrev pub row_str : Row → String
row_str row = "| " <> (join " | " row.cells <> " |")

unfoldable pub row_strs : List Row → List String
row_strs [] = []
row_strs (row ∷ rows) = row_str row ∷ row_strs rows

-- the four tables of the details
pub data Section : Type 0 where
  sast sca iac resolved : Section

-- an item of the details: a text, or a table, which is printed as it is at the end
pub data Item : Type 0 where
  line : String → Item
  table : Section → Item

-- __elements, less the constant ones, and the tables
pub record Decoration : Type 0 where
  pub annotation : List String
  pub summary : List String
  pub details : List Item
  pub sast_rows : List Row
  pub sca_rows : List Row
  pub iac_rows : List Row
  pub resolved_rows : List Row

abbrev pub empty : Decoration
empty = record {
  annotation = [];
  summary = [];
  details = [];
  sast_rows = [];
  sca_rows = [];
  iac_rows = [];
  resolved_rows = [];
}

abbrev pub rows_of : Section → Decoration → List Row
rows_of sast d = d.sast_rows
rows_of sca d = d.sca_rows
rows_of iac d = d.iac_rows
rows_of resolved d = d.resolved_rows

abbrev pub set_rows : Section → List Row → Decoration → Decoration
set_rows sast rows d = record d { sast_rows = rows }
set_rows sca rows d = record d { sca_rows = rows }
set_rows iac rows d = record d { iac_rows = rows }
set_rows resolved rows d = record d { resolved_rows = rows }

abbrev pub Deco : Type 0 → Type 0
Deco A = Run Decoration A

-- start_sast_detail_section and the three like it
unfoldable pub heading : Section → List Item
heading sast =
    line "\n"
    ∷ line "# SAST Results"
    ∷ line "| Severity | Issue | Source | Checkmarx Insight |"
    ∷ line "| :-: | - | - | - |"
    ∷ table sast
    ∷ []
heading sca =
    line "\n"
    ∷ line "# SCA Results"
    ∷ line "\n"
    ∷ line "| Severity | CVE | Package | Checkmarx Insight |"
    ∷ line "| :-: | - | - | - |"
    ∷ table sca
    ∷ []
heading iac =
    line "\n"
    ∷ line "# IAC Results"
    ∷ line "\n"
    ∷ line "| Severity | Technology | Source | Query | Checkmarx Insight |"
    ∷ line "| :-: | - | - | - | - |"
    ∷ table iac
    ∷ []
heading resolved =
    line "\n"
    ∷ line "# Resolved SAST Results"
    ∷ line "\n"
    ∷ line "| Severity | Name | Checkmarx Insight |"
    ∷ line "| :-: | - | - |"
    ∷ table resolved
    ∷ []

unfoldable pub start_detail_section : Section → Deco (Unit {0})
start_detail_section section d = (ok tt, record d { details = d.details ++ heading section })

unfoldable pub add_to_annotation : String → Deco (Unit {0})
add_to_annotation added d = (ok tt, record d { annotation = d.annotation ++ added ∷ [] })

unfoldable pub add_to_summary : List String → Deco (Unit {0})
add_to_summary lines d = (ok tt, record d { summary = d.summary ++ lines })

module _ (lib : Library) where
  -- add_row
  unfoldable pub add_row : Section → Row → Deco (Unit {0})
  add_row section row d = (ok tt, set_rows section (lib.sorted.add row (rows_of section d)) d)

  abbrev pub identifier : String
  identifier = "[//]:#cxoneflow"

  abbrev item_str : Decoration → Item → String
  item_str d (line s) = s
  item_str d (table section) = join "\n" (row_strs (rows_of section d))

  unfoldable pub item_strs : Decoration → List Item → List String
  unfolding row_strs join
  item_strs d [] = []
  item_strs d (item ∷ items) = item_str d item ∷ item_strs d items

  -- what __get_content appends for the keys up to the details, in the order of __elements
  abbrev before_details : Decoration → List String
  before_details d =
      "\n"
      ∷ identifier
      ∷ "\n"
      ∷ header_image lib
      ∷ "\n"
      ∷ "\n"
      ∷ (d.annotation ++ "\n" ∷ "\n" ∷ (d.summary ++ "\n" ∷ []))

  unfoldable pub summary_content : Decoration → String
  unfolding join
  summary_content d = join "\n" (before_details d)

  unfoldable pub full_content : Decoration → String
  unfolding join item_strs
  full_content d = join "\n" (before_details d ++ "\n" ∷ (item_strs d d.details ++ "\n" ∷ []))

  -- PullRequestAnnotation
  unfoldable pub pull_request_annotation :
      (display_url project_id scanid annotation branch : String) → Decoration
  unfolding add_to_annotation scan_link
  pull_request_annotation display_url project_id scanid annotation branch =
      let added = annotation <> (": " <> scan_link lib display_url project_id scanid branch) in
      (add_to_annotation added empty).1

abbrev is_newline : Char → Bool
is_newline c = nat_beq (code c) 10

-- text.replace("\n", "")
unfoldable pub without_newlines : String → String
without_newlines String.[] = String.[]
without_newlines (String.◌∷◌ c s) =
    let rest = without_newlines s in if is_newline c then rest else String.◌∷◌ c rest

-- matches_identifier
unfoldable pub matches_identifier : String → Bool
unfolding without_newlines
matches_identifier s = starts_with (without_newlines s) "[//]:#cxoneflow"
