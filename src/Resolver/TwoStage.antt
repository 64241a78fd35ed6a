-- ===== src/Resolver/TwoStage.antt =====
-- A resolver run beside a shell script in a container (agent/resolver/two_stage_runner.py).
pub mod ExitCode
use cxone_flow_buildwork.Prelude.{
  ℕ, nat_beq, String, ◌<>◌, Bool, true, false, not, Option, none, some, List, [], if◌then◌else◌,
}
use cxone_flow_buildwork.Prelude.Run.{
  Raised, process_error, cancelled, attribute_error, Result, ok, raised, Run, pure, raise, lift,
  try, ◌>>=◌, ◌>>◌,
}
use cxone_flow_buildwork.Resolver.Agent.{Completed}

-- The local variables of execute_resolver that outlive an exception.
pub record Locals : Type 0 where
  pub exit_code : ℕ
  pub result_log : String

abbrev pub Staged : Type 0 → Type 0
Staged A = Run Locals A

abbrev text : Option String → String
text none = ""
text (some s) = s

-- `try: … except CalledProcessError: CompletedProcess(…)`, with the process's output
abbrev pub completed_by : Result Completed → Result Completed
completed_by (raised (process_error code output)) =
    ok (record { returncode = code; stdout = output })
completed_by result = result

abbrev set_exit_code : ℕ → Staged (Unit {0})
set_exit_code code st = (ok tt, record st { exit_code = code })

-- `exit_code = x if exit_code == 0 else exit_code`
abbrev first_code : ℕ → Staged (Unit {0})
first_code code st =
    (ok tt, record st { exit_code = (if nat_beq st.exit_code 0 then code else st.exit_code) })

abbrev set_log : String → Staged (Unit {0})
set_log log st = (ok tt, record st { result_log = log })

module _ (resolver_before : Bool) (resolver script : Result Completed) where
  run_before : Staged (Option Completed)
  run_before =
      if resolver_before
      then (do completed ← lift (completed_by resolver); pure (some completed))
      else pure none

  code_before : Option Completed → Staged (Unit {0})
  code_before none = pure tt
  code_before (some completed) = set_exit_code completed.returncode

  run_after : Option Completed → Staged Completed
  run_after before = elim before [
    | some completed ↦ pure completed
    | none ↦ lift (completed_by resolver)
  ]

  -- the body of the outer `try`
  unfoldable pub stages : Staged (Unit {0})
  unfolding run_before code_before run_after
  stages = do
    before ← run_before
    code_before before
    shell ← lift (completed_by script)
    first_code shell.returncode
    resolved ← run_after before
    first_code resolved.returncode
    set_log (text resolved.stdout <> text shell.stdout)

  abbrev is_cancelled : Raised → Bool
  is_cancelled cancelled = true
  is_cancelled _ = false

  -- A cancellation goes on; any other exception is logged, and the run ends with what it has.
  unfoldable pub execute_resolver : Result Completed
  unfolding stages
  execute_resolver =
      let start : Locals = record { exit_code = 0; result_log = "" } in
      let (result, st) = try stages (λ e. if is_cancelled e then raise e else pure tt) start in
      elim result [
        | raised e ↦ raised e
        | ok _ ↦ ok (record { returncode = st.exit_code; stdout = some st.result_log })
      ]
