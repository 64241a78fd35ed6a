-- ===== src/Resolver/TwoStage/ExitCode.antt =====
-- The return code of a two-stage run.
use cxone_flow_buildwork.Prelude.{
  ℕ, nat_beq, ◌≡◌, ◌≢◌, Bool, Option, some, none, arith, if◌then◌else◌,
}
use cxone_flow_buildwork.Prelude.Run.{Raised, process_error, cancelled, Result, ok, raised}
use cxone_flow_buildwork.Resolver.Agent.{Completed}
use cxone_flow_buildwork.Resolver.TwoStage.{execute_resolver}

-- How a process ended: with a return code, also where that is an error.
abbrev pub code_of : Result Completed → Option ℕ
code_of (ok completed) = some completed.returncode
code_of (raised (process_error code output)) = some code
code_of (raised e) = none

abbrev pub returned_code : Result Completed → Option ℕ
returned_code (ok completed) = some completed.returncode
returned_code (raised e) = none

-- Where both processes end with a return code, the run's code is that of the stage that ran first
-- and failed, and 0 exactly if none failed.
pub first_failure_code :
    (before : Bool) (resolver script : Result Completed) (r s : ℕ)
    → code_of resolver ≡ some r
    → code_of script ≡ some s
    → returned_code (execute_resolver before resolver script)
      ≡ some (if before then (if nat_beq r 0 then s else r) else (if nat_beq s 0 then r else s))
unfolding execute_resolver
first_failure_code before resolver script r s h k = ground arith

-- Where the container cannot be started at all, so that the script ends without a return code and
-- not by a cancellation, and the resolver's own run ends with code 0, the whole run reports success.
pub lost_script_failure :
    (before : Bool) (resolver : Result Completed) (e : Raised)
    → code_of resolver ≡ some 0
    → code_of (raised e) ≡ none
    → e ≢ cancelled
    → returned_code (execute_resolver before resolver (raised e)) ≡ some 0
unfolding execute_resolver
lost_script_failure before resolver e h k c = ground arith
