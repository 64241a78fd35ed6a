-- ===== src/Decoration/Rows.antt =====
-- The tables of the details (workflows/pr.py).
use mathlib.Core.List.Perm
use mathlib.Core.List.{Perm, perm_middle, append-nil}
use mathlib.Core.Path.{subst}
use text.Mathlib.Text.{is_le}
use Prim.Native.String.{compare}
use cxone_flow_buildwork.Prelude.{
  ◌≡◌, ◌∙◌, refl, sym, ap, Bool, true, false, ◌||◌, ◌&&◌, not, Option, none, some, List, [], ◌∷◌,
  ◌++◌, All, arith, Bool-cases, Option-cases, inl, inr, if◌then◌else◌,
}
use cxone_flow_buildwork.Prelude.Run.{ok, raised, value_error}
use cxone_flow_buildwork.Decoration.{
  ResultSeverity, severity_of, Row, Section, sast, sca, iac, resolved, Item, Decoration, rows_of,
  set_rows, SortedList, heading, start_detail_section, add_row, Library,
}
use cxone_flow_buildwork.Decoration.Report.{
  Found, Exclusions, is_kept, severity_in, row_of, add_detail, add_details,
}

-- in the order of the keys
abbrev pub Sorted : List Row → Type 0
Sorted [] = Unit
Sorted (row ∷ rows) =
    All (λ (later : Row). is_le (compare row.key later.key) ≡ true) rows × Sorted rows

-- What the package documents of SortedList.add: the list stays sorted, with one more element.
pub record IsSortedList (l : SortedList) : Type 0 where
  pub add-Perm : (row : Row) (rows : List Row) → Perm (l.add row rows) (row ∷ rows)
  pub add-Sorted : (row : Row) (rows : List Row) → Sorted rows → Sorted (l.add row rows)

-- one row for each result that is kept, where its severity is known
abbrev row_before : Found → Option ResultSeverity → List Row → List Row
row_before f none rows = rows
row_before f (some severity) rows = row_of f severity ∷ rows

unfoldable pub kept_rows : Exclusions → List Found → List Row
unfolding is_kept severity_of
kept_rows ex [] = []
kept_rows ex (f ∷ fs) =
    let rest = kept_rows ex fs in
    if is_kept ex f then row_before f (severity_of f.severity) rest else rest

abbrev is_known : Option ResultSeverity → Bool
is_known none = false
is_known (some severity) = true

-- the severity of each result that is kept is one of the enumeration's
unfoldable pub all_known : Exclusions → List Found → Bool
unfolding is_kept severity_of
all_known ex [] = true
all_known ex (f ∷ fs) = (not (is_kept ex f) || is_known (severity_of f.severity)) && all_known ex fs

unfoldable pub any_kept : Exclusions → List Found → Bool
unfolding is_kept
any_kept ex [] = false
any_kept ex (f ∷ fs) = is_kept ex f || any_kept ex fs

abbrev pub headed : Bool → Bool → Section → List Item
headed title_added any section = if title_added then [] else if any then heading section else []

rows_of-set_rows :
    (section : Section) (rows : List Row) (d : Decoration)
    → (rows_of section (set_rows section rows d) ≡ rows)
      × ((set_rows section rows d).details ≡ d.details)
rows_of-set_rows sast rows d = (refl, refl)
rows_of-set_rows sca rows d = (refl, refl)
rows_of-set_rows iac rows d = (refl, refl)
rows_of-set_rows resolved rows d = (refl, refl)

rows_of-start :
    (section other : Section) (d : Decoration)
    → rows_of section (start_detail_section other d).1 ≡ rows_of section d
unfolding start_detail_section
rows_of-start sast other d = refl
rows_of-start sca other d = refl
rows_of-start iac other d = refl
rows_of-start resolved other d = refl

module _ (lib : Library) (ex : Exclusions) (section : Section) where
  -- the table and the heading that one loop leaves
  abbrev pub Filled : Bool → List Found → Decoration → Decoration → Type 0
  Filled title_added fs d d' =
      Perm (rows_of section d') (kept_rows ex fs ++ rows_of section d)
      × Sorted (rows_of section d')
      × (d'.details ≡ d.details ++ headed title_added (any_kept ex fs) section)

  abbrev pub Ends : Bool → List Found → Decoration → Decoration → Type 0
  Ends title_added fs d d' =
      (add_details lib ex section title_added fs d ≡ (ok tt, d')) × Filled title_added fs d d'

  -- the heading, where it is not there yet, and the row
  opened : Bool → Decoration → Decoration
  opened true d = d
  opened false d = (start_detail_section section d).1

  with_row : Bool → Found → ResultSeverity → Decoration → Decoration
  unfolding opened
  with_row title_added f severity d =
      let d1 = opened title_added d in
      set_rows section (lib.sorted.add (row_of f severity) (rows_of section d1)) d1

  one_row :
      (title_added : Bool) (f : Found) (fs : List Found) (d : Decoration)
      {severity : ResultSeverity}
      → is_kept ex f ≡ true
      → severity_of f.severity ≡ some severity
      → add_details lib ex section title_added (f ∷ fs) d
        ≡ add_details lib ex section true fs (with_row title_added f severity d)
  unfolding add_details add_detail add_row with_row start_detail_section
  one_row true f fs d kept known = ground arith
  one_row false f fs d kept known = ground arith

  rows_of-with_row :
      (title_added : Bool) (f : Found) (severity : ResultSeverity) (d : Decoration)
      → (rows_of section (with_row title_added f severity d)
          ≡ lib.sorted.add (row_of f severity) (rows_of section d))
        × ((with_row title_added f severity d).details
            ≡ d.details ++ headed title_added true section)
  unfolding with_row start_detail_section
  rows_of-with_row true f severity d =
      let added = lib.sorted.add (row_of f severity) (rows_of section d) in
      let h = rows_of-set_rows section added d in (h.0, h.1 ∙ sym (append-nil d.details))
  rows_of-with_row false f severity d =
      let d1 = (start_detail_section section d).1 in
      let added = lib.sorted.add (row_of f severity) (rows_of section d1) in
      let h = rows_of-set_rows section added d1 in
      (h.0 ∙ ap (lib.sorted.add (row_of f severity)) (rows_of-start section section d), h.1)

  skip :
      (title_added : Bool) (f : Found) (fs : List Found) (d d' : Decoration)
      → is_kept ex f ≡ false
      → Ends title_added fs d d'
      → Ends title_added (f ∷ fs) d d'
  unfolding add_details kept_rows any_kept
  skip title_added f fs d d' h filled = rw h filled

  headed-once :
      (title_added any : Bool) (d d1 d' : Decoration)
      → d1.details ≡ d.details ++ headed title_added true section
      → d'.details ≡ d1.details ++ headed true any section
      → d'.details ≡ d.details ++ headed title_added true section
  headed-once title_added any d d1 d' e e' = cc (e, e', append-nil d1.details)

  keep :
      (laws : IsSortedList lib.sorted) (title_added : Bool) (f : Found) (fs : List Found)
      (severity : ResultSeverity) (d d' : Decoration)
      → is_kept ex f ≡ true
      → severity_of f.severity ≡ some severity
      → Ends true fs (with_row title_added f severity d) d'
      → Ends title_added (f ∷ fs) d d'
  unfolding kept_rows any_kept
  keep laws title_added f fs severity d d' kept known (run, (perm, sorted, details)) =
      let row = row_of f severity in
      let d1 = with_row title_added f severity d in
      let (rows, opened_details) = rows_of-with_row title_added f severity d in
      let added =
        subst (λ r. Perm r (row ∷ rows_of section d)) (sym rows)
          (laws.add-Perm row (rows_of section d)) in
      let all = Perm.trans perm (
        Perm.trans (Perm.append_left (kept_rows ex fs) added)
          (perm_middle (kept_rows ex fs) (rows_of section d))) in
      (
        one_row title_added f fs d kept known ∙ run,
        rw (kept, known)
            (all, sorted, headed-once title_added (any_kept ex fs) d d1 d' opened_details details),
      )

  -- A loop over results whose kept ones all have a known severity ends, and leaves the section's table
  -- in the order of its keys, with one row more for each result that is kept and with no other change;
  -- the section's heading is added exactly once if some result is kept and it was not there, and not
  -- at all otherwise. The table was in order before, and SortedList.add keeps it so.
  pub table_filled :
      (laws : IsSortedList lib.sorted) (title_added : Bool) (fs : List Found) (d : Decoration)
      → all_known ex fs ≡ true
      → Sorted (rows_of section d)
      → (d' : Decoration) × Ends title_added fs d d'
  unfolding add_details all_known kept_rows any_kept
  table_filled laws true [] d known sorted =
      (d, (refl, (Perm.refl _, sorted, sym (append-nil d.details))))
  table_filled laws false [] d known sorted =
      (d, (refl, (Perm.refl _, sorted, sym (append-nil d.details))))
  table_filled laws title_added (f ∷ fs) d known sorted = elim (Bool-cases (is_kept ex f)) [
    | inr dropped ↦
        let (d', rest) = table_filled laws title_added fs d (ground arith) sorted in
        (d', skip title_added f fs d d' dropped rest)
    | inl kept ↦ elim (Option-cases (severity_of f.severity)) [
      | inl unknown ↦ absurd (ground arith)
      | inr (severity, e) ↦
          let d1 = with_row title_added f severity d in
          let in_order = laws.add-Sorted (row_of f severity) (rows_of section d) sorted in
          let sorted' = subst Sorted (sym (rows_of-with_row title_added f severity d).0) in_order in
          let (d', rest) = table_filled laws true fs d1 (ground arith) sorted' in
          (d', keep laws title_added f fs severity d d' kept e rest)
    ]
  ]

  unknown_here :
      (title_added : Bool) (f : Found) (later : List Found) (d : Decoration)
      → is_kept ex f ≡ true
      → severity_of f.severity ≡ none
      → (add_details lib ex section title_added (f ∷ later) d).0 ≡ raised value_error
  unfolding add_details add_detail start_detail_section
  unknown_here true f later d kept unknown = ground arith
  unknown_here false f later d kept unknown = ground arith

  -- A result that is kept although its severity is none of the enumeration's ends the whole loop with
  -- a ValueError, wherever it stands among the results.
  pub unknown_severity :
      (title_added : Bool) (before : List Found) (f : Found) (later : List Found) (d : Decoration)
      → is_kept ex f ≡ true
      → severity_of f.severity ≡ none
      → (add_details lib ex section title_added (before ++ f ∷ later) d).0 ≡ raised value_error
  unfolding add_details
  unknown_severity title_added [] f later d kept unknown =
      unknown_here title_added f later d kept unknown
  unknown_severity title_added (g ∷ before) f later d kept unknown =
      elim (Bool-cases (is_kept ex g)) [
        | inr dropped ↦ rw dropped (unknown_severity title_added before f later d kept unknown)
        | inl also ↦ elim (Option-cases (severity_of g.severity)) [
          | inl e ↦ unknown_here title_added g (before ++ f ∷ later) d also e
          | inr (severity, e) ↦
              let d1 = with_row title_added g severity d in
              ap (λ r. r.0) (one_row title_added g (before ++ f ∷ later) d also e)
              ∙ unknown_severity true before f later d1 kept unknown
        ]
      ]

-- No row of a result that is kept has a severity that is excluded.
kept_row-severity :
    (ex : Exclusions) (f : Found) (severity : ResultSeverity)
    → is_kept ex f ≡ true
    → severity_of f.severity ≡ some severity
    → severity_in severity ex.excluded_severities ≡ false
unfolding is_kept
kept_row-severity ex f severity kept known = ground arith

pub kept_rows-severity :
    (ex : Exclusions) (fs : List Found)
    → All (λ (row : Row). severity_in row.severity ex.excluded_severities ≡ false) (kept_rows ex fs)
unfolding kept_rows
kept_rows-severity ex [] = tt
kept_rows-severity ex (f ∷ fs) = elim (Bool-cases (is_kept ex f)) [
  | inr dropped ↦ rw dropped (kept_rows-severity ex fs)
  | inl kept ↦ elim (Option-cases (severity_of f.severity)) [
    | inl unknown ↦ rw (kept, unknown) (kept_rows-severity ex fs)
    | inr (severity, e) ↦
        rw (kept, e) (kept_row-severity ex f severity kept e, kept_rows-severity ex fs)
  ]
]
