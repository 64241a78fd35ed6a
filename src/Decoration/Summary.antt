-- ===== src/Decoration/Summary.antt =====
-- The columns and the counts of the summary (workflows/pr.py).
use cxone_flow_buildwork.Prelude.{
  ℕ, suc, String, ◌≡◌, refl, true, not, ◌&&◌, none, some, List, [], ◌∷◌, All, arith,
}
use cxone_flow_buildwork.Decoration.{ResultSeverity, critical, high, medium, low, info}
use cxone_flow_buildwork.Decoration.Report.{
  rank, severity_in, included, included_severities, all_severities, first_count, result_count,
}

severity_in-rank :
    (x y : ResultSeverity) (excluded : List ResultSeverity)
    → rank x ≡ rank y
    → severity_in x excluded ≡ severity_in y excluded
unfolding severity_in
severity_in-rank x y [] h = refl
severity_in-rank x y (z ∷ zs) h = ground (arith, severity_in-rank x y zs h)

severity_in-included :
    (x : ResultSeverity) (excluded xs : List ResultSeverity)
    → severity_in x (included excluded xs) ≡ (severity_in x xs && not (severity_in x excluded))
unfolding included severity_in
severity_in-included x excluded [] = refl
severity_in-included x excluded (y ∷ ys) =
    ground (arith, severity_in-included x excluded ys, severity_in-rank x y excluded)

in_all : (x : ResultSeverity) → severity_in x all_severities ≡ true
unfolding severity_in
in_all critical = refl
in_all high = refl
in_all medium = refl
in_all low = refl
in_all info = refl

first_count-eq-none :
    (count : String → ℕ) (vs : List String)
    → All (λ (v : String). count v ≡ 0) vs
    → first_count count vs ≡ none
unfolding first_count
first_count-eq-none count [] h = refl
first_count-eq-none count (v ∷ vs) h = ground (arith, first_count-eq-none count vs h.1)

-- A severity has a column in the summary exactly if it is not excluded.
pub column_iff :
    (x : ResultSeverity) (excluded : List ResultSeverity)
    → severity_in x (included_severities excluded) ≡ not (severity_in x excluded)
unfolding included_severities
column_iff x excluded = ground (arith, severity_in-included x excluded all_severities, in_all x)

-- Where results have two of the values for the lowest severity, "Info" and "Information", the summary
-- counts those with the first one only.
pub aliases_are_lost :
    (count : String → ℕ) (n m : ℕ)
    → count "Info" ≡ suc n
    → count "Information" ≡ suc m
    → result_count count info ≡ some (suc n)
unfolding result_count first_count
aliases_are_lost count n m h k = ground arith
