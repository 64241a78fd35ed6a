-- ===== src/Decoration/Markup.antt =====
-- The texts and links that the decoration of a pull request is made of (workflows/pr.py).
use cxone_flow_buildwork.Prelude.{String, ◌<>◌, Option, none, some, List, [], ◌∷◌}
use cxone_flow_buildwork.Prelude.Dict.{Dict, get}
use cxone_flow_buildwork.Prelude.Texts.{split}
use cxone_flow_buildwork.Decoration.Results.{SortedList}

-- sep.join(parts)
unfoldable pub join : String → List String → String
join sep [] = ""
join sep (x ∷ []) = x
join sep (x ∷ y ∷ rest) = x <> (sep <> join sep (y ∷ rest))

-- f"[{…}]({…})" and f"![{…}]({…})"
abbrev pub link : String → String → String
link url display_name = "[" <> (display_name <> ("](" <> (url <> ")")))

abbrev pub image : String → String → String
image url display_name = "!" <> link url display_name

abbrev severity_map : Dict String
severity_map =
    ("critical", "critical.png")
    ∷ ("high", "high.png")
    ∷ ("medium", "medium.png")
    ∷ ("low", "low.png")
    ∷ ("information", "info.png")
    ∷ ("info", "info.png")
    ∷ ("informational", "info.png")
    ∷ []

abbrev or_default_severity : Option String → String
or_default_severity none = "info.png"
or_default_severity (some img) = img

-- ScaDetailRows.normalized_version: `pad` is f"{int(x):03}", which has no value where int raises
unfoldable pub pad_all : (String → Option String) → List String → Option (List String)
pad_all pad [] = some []
pad_all pad (x ∷ xs) = elim (pad x) [
  | none ↦ none
  | some y ↦ elim (pad_all pad xs) [ none ↦ none | some ys ↦ some (y ∷ ys) ]
]

unfoldable pub normalized_version : (String → Option String) → String → String
unfolding pad_all split join
normalized_version pad version = elim (pad_all pad (split 46 version)) [
  | none ↦ version
  | some elements ↦ join "." elements
]

-- What is given: the list type, `_form_artifact_url` of the server's base URL, `lower`, `quote_plus`,
-- the joined names of a pathlib Path, and `pad`.
pub record Library : Type 0 where
  pub sorted : SortedList
  pub artifact_url : String → String
  pub lower : String → String
  pub quote_plus : String → String
  pub join_path : List String → String
  pub pad : String → Option String

module _ (lib : Library) where
  unfoldable pub severity_indicator : String → String
  unfolding get
  severity_indicator severity =
      image (lib.artifact_url (or_default_severity (get severity_map (lib.lower severity))))
        severity

  -- scan_link
  unfoldable pub scan_link : (display_url project_id scanid branch : String) → String
  scan_link display_url project_id scanid branch =
      let query =
        "scans?id="
        <> (scanid
            <> ("&filter_by_Scan_Id=" <> (scanid <> ("&branch=" <> lib.quote_plus branch)))) in
      link (display_url <> lib.join_path ("projects" ∷ project_id ∷ query ∷ [])) scanid

  -- sca_result_link
  unfoldable pub sca_result_link :
      (display_url project_id scanid title cve package_id : String) → String
  sca_result_link display_url project_id scanid title cve package_id =
      let display_path =
        lib.join_path ("results" ∷ project_id ∷ scanid ∷ "sca?internalPath=" ∷ []) in
      let internal_path =
        "%2Fvulnerabilities%2F"
        <> (cve <> ("%253A" <> (package_id <> "%2FvulnerabilityDetailsGql"))) in
      link (display_url <> (display_path <> internal_path)) title

  -- header_image
  abbrev pub header_image : String
  header_image = image (lib.artifact_url "checkmarx.png") "CheckmarxOne"
