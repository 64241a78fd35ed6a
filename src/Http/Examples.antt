-- ===== src/Http/Examples.antt =====
-- Concrete answers.
use cxone_flow_buildwork.Prelude.{
  ℕ, ◌+◌, ◌<◌, ltb, ◌≡◌, refl, Bool, true, none, some, [], arith, if◌then◌else◌,
}
use cxone_flow_buildwork.Prelude.Run.{Result, ok}
use cxone_flow_buildwork.Kickoff.{scan_started}
use cxone_flow_buildwork.Http.{sends}
use cxone_flow_buildwork.Http.Session.{exec, exec_returns, is_retried}
use cxone_flow_buildwork.Http.KickoffClient.{kickoff_scan, kickoff_waits, slept, waits}

abbrev granted : Bool → Result (Unit {0})
granted force = ok tt

abbrev unavailable : ℕ → ℕ
unavailable n = 503

-- Two errors, then a success.
abbrev recovering : ℕ → Result ℕ
recovering n = if ltb n 2 then ok 503 else ok 200

abbrev busy : ℕ → Result ℕ
busy n = if ltb n 2 then ok 429 else ok 201

abbrev denied : ℕ → Result ℕ
denied n = ok 401

recovering_before :
    (i : ℕ) → i < 2 → (recovering i ≡ ok (unavailable i)) × (is_retried (unavailable i) ≡ true)
recovering_before i h = (ground arith, refl)

busy_before : (i : ℕ) → i < 2 → busy i ≡ ok 429
busy_before i h = ground arith

exec_returns_example :
    ((exec granted recovering 3 []).0 ≡ ok 200) × (sends (exec granted recovering 3 []).1 ≡ 2 + 1)
exec_returns_example =
    exec_returns granted recovering (λ force. refl) unavailable 2 3 200 (omega arith)
      recovering_before refl refl

kickoff_waits_example :
    ((kickoff_scan busy none 3 []).0 ≡ ok (some scan_started))
    × (slept busy none (kickoff_scan busy none 3 []).1 ≡ waits busy none 2 0)
kickoff_waits_example = kickoff_waits busy none (λ delay n. refl) 2 3 (omega arith) busy_before refl
