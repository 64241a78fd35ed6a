-- ===== src/Orchestration/Scan/Counts.antt =====
-- How many calls of a kind an event has made.
use cxone_flow_buildwork.Prelude.{ℕ, ◌+◌, ◌≡◌, List, [], ◌∷◌, ◌++◌, arith}
use cxone_flow_buildwork.Orchestration.Types.{
  Call, clone, execute_scan, start_sarif_feedback, start_pr_scan_workflow,
}

abbrev pub is_scan : Call → ℕ
is_scan (execute_scan branch tags) = 1
is_scan _ = 0

abbrev pub is_clone : Call → ℕ
is_clone (clone url force) = 1
is_clone _ = 0

-- How many scans, or clones, the calls hold.
abbrev pub scans : List Call → ℕ
scans [] = 0
scans (c ∷ calls) = is_scan c + scans calls

abbrev pub clones : List Call → ℕ
clones [] = 0
clones (c ∷ calls) = is_clone c + clones calls

pub scans-append :
    (calls : List Call) (c : Call) → scans (calls ++ c ∷ []) ≡ scans calls + is_scan c
scans-append [] c = omega arith
scans-append (d ∷ calls) c = omega (arith, scans-append calls c)

pub clones-append :
    (calls : List Call) (c : Call) → clones (calls ++ c ∷ []) ≡ clones calls + is_clone c
clones-append [] c = omega arith
clones-append (d ∷ calls) c = omega (arith, clones-append calls c)

-- Feedback workflows that were started, for a push or for a pull request.
abbrev pub is_start : Call → ℕ
is_start (start_sarif_feedback p i d) = 1
is_start (start_pr_scan_workflow p i d) = 1
is_start _ = 0

abbrev pub starts : List Call → ℕ
starts [] = 0
starts (c ∷ calls) = is_start c + starts calls

pub starts-append :
    (calls : List Call) (c : Call) → starts (calls ++ c ∷ []) ≡ starts calls + is_start c
starts-append [] c = omega arith
starts-append (d ∷ calls) c = omega (arith, starts-append calls c)

pub ruleset count_laws = (scans-append, clones-append, starts-append)
