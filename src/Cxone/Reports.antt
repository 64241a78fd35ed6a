-- ===== src/Cxone/Reports.antt =====
-- CxOneService.retrieve_report: a report is asked for, and its state polled until it is complete.
-- Times are seconds.
use native.Mathlib.Decide.{dec_le}
use cxone_flow_buildwork.Prelude.{
  ℕ, zero, suc, ◌+◌, ◌*◌, ◌≤◌, ltb, String, ◌==◌, ◌≡◌, refl, Bool, true, false, Option, none, some,
  List, [], ◌∷◌, ◌++◌, arith, if◌then◌else◌,
}
use cxone_flow_buildwork.Prelude.Run.{
  cxone_error, Result, ok, raised, Run, pure, raise, call, ◌>>=◌, ◌>>◌,
}

pub data Act : Type 0 where
  create_report : (projectid scanid : String) → Act
  sleep : ℕ → Act
  report_status : (reportid : String) → Act
  download_report : (reportid : String) → Act

-- How retrieve_report ends: with the report, with None after the time is over, or, in the model
-- only, without fuel.
pub data Ended : Type 0 where
  report : String → Ended
  timed_out out_of_fuel : Ended

abbrev pub report_poll_delay_seconds : ℕ
report_poll_delay_seconds = 30

abbrev pub report_generate_timeout_seconds : ℕ
report_generate_timeout_seconds = 600

abbrev key_or_fail : Option String → Run (List Act) String
key_or_fail none = raise cxone_error
key_or_fail (some value) = pure value

-- `elapsed n` is the time since the start when the loop's condition is evaluated for the n-th time,
-- from 0; a response without the key is `none`.
module _ (elapsed : ℕ → ℕ) (status : ℕ → Result (Option String)) (download : Result String) where
  unfoldable pub poll_report : ℕ → ℕ → String → Run (List Act) Ended
  poll_report zero n reportid = pure out_of_fuel
  poll_report (suc fuel) n reportid =
      let rest = poll_report fuel (suc n) reportid in
      do
        call (sleep report_poll_delay_seconds) (ok tt)
        if ltb (elapsed n) report_generate_timeout_seconds
            then (do
              answer ← call (report_status reportid) (status n)
              state ← key_or_fail answer
              if state == "completed"
                  then (do
                    content ← call (download_report reportid) download
                    pure (report content))
                  else rest)
            else pure timed_out

  unfoldable pub retrieve_report :
      Result (Option String) → ℕ → String → String → Run (List Act) Ended
  unfolding poll_report
  retrieve_report created fuel projectid scanid = do
    answer ← call (create_report projectid scanid) created
    reportid ← key_or_fail answer
    poll_report fuel 0 reportid

  abbrev pub is_ended : Result Ended → Bool
  is_ended (ok out_of_fuel) = false
  is_ended _ = true

  poll_report_ends :
      (fuel n : ℕ) (reportid : String) (acts : List Act)
      → ((i : ℕ) → 30 * i ≤ elapsed i)
      → n ≤ 20
      → 21 ≤ n + fuel
      → is_ended (poll_report fuel n reportid acts).0 ≡ true
  unfolding poll_report
  poll_report_ends zero n reportid acts h small k = absurd (omega (arith, small, k))
  poll_report_ends (suc fuel) n reportid acts h small k = elim (dec_le 20 n) [
    | yes last ↦ grind (arith, h n)
    | no before ↦
        let next = poll_report_ends fuel (suc n) reportid in
        let after = (acts ++ sleep 30 ∷ []) ++ report_status reportid ∷ [] in
        ground (arith, next after h (omega (arith, before)) (omega (arith, k)))
  ]

  -- Where every round takes the 30 seconds that it sleeps, the polling ends within 21 rounds,
  -- whatever CheckmarxOne answers: with the report, with None, or with an exception.
  pub report_ends :
      (created : Result (Option String)) (fuel : ℕ) (projectid scanid : String)
      → ((i : ℕ) → 30 * i ≤ elapsed i)
      → 21 ≤ fuel
      → is_ended (retrieve_report created fuel projectid scanid []).0 ≡ true
  unfolding retrieve_report
  report_ends (raised e) fuel projectid scanid h k = refl
  report_ends (ok none) fuel projectid scanid h k = refl
  report_ends (ok (some reportid)) fuel projectid scanid h k =
      poll_report_ends fuel 0 reportid _ h (omega arith) (omega (arith, k))
