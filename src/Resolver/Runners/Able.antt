-- ===== src/Resolver/Runners/Able.antt =====
-- Whether a runner can run, and what the agent answers for one that cannot.
use cxone_flow_buildwork.Prelude.{
  String, ◌≡◌, ◌≢◌, ◌∙◌, Bool, true, false, Option, none, some, List, arith,
}
use cxone_flow_buildwork.Prelude.Dict.{Dict}
use cxone_flow_buildwork.Prelude.Run.{type_error, Result, ok, raised, ◌>>◌}
use cxone_flow_buildwork.Resolver.{ScanMessage, Act, nack, act}
use cxone_flow_buildwork.Resolver.Agent
use cxone_flow_buildwork.Resolver.Options.{Value}
use cxone_flow_buildwork.Resolver.Runners.{
  Runner, no_resolver_runner, shell_runner, toolkit_runner, two_stage_runner, get_resolver_exec_cmd,
  is_command, can_execute, kind_of,
}

unable :
    (path_exists is_file : String → Bool) (root : String) (work_path : Option String)
    (opts : Option (Dict Value)) (path : String) (user : Option String)
    → path_exists path ≡ false
    → path_exists "ScaResolver" ≡ false
    → can_execute path_exists is_file root (shell_runner work_path opts (some path) user)
      ≡ raised type_error
unfolding can_execute get_resolver_exec_cmd
unable path_exists is_file root work_path opts path user none_there no_default = ground arith

is_command-ne-false : (r : Result (List String)) → is_command r ≢ ok false
is_command-ne-false (ok cmd) h = absurd (ground arith)
is_command-ne-false (raised e) h = absurd (ground arith)

-- A runner that cannot run is never found out by `can_execute`: in its context the answer is true, or
-- the call raises.
pub can_execute_lem :
    (path_exists is_file : String → Bool) (root : String) (runner : Runner)
    → can_execute path_exists is_file root runner ≢ ok false
unfolding can_execute
can_execute_lem path_exists is_file root no_resolver_runner h = absurd (ground arith)
can_execute_lem path_exists is_file root (shell_runner w o p u) h =
    is_command-ne-false (get_resolver_exec_cmd path_exists is_file root (shell_runner w o p u)) h
can_execute_lem path_exists is_file root (toolkit_runner _ _ tag) h = absurd (ground arith)
can_execute_lem path_exists is_file root (two_stage_runner _ _ _ resolver) h =
    can_execute_lem path_exists is_file root resolver h

-- Where neither the configured path of the resolver nor ScaResolver is there, a message with a valid
-- signature that reaches the agent's block is answered, through the TypeError that the command's
-- construction raises, by a failure without an exit code, and is rejected, if the runner's cleanup does
-- not raise.
pub missing_resolver_is_reported :
    (path_exists is_file : String → Bool) (root : String) (work_path : Option String)
    (opts : Option (Dict Value)) (path : String) (user : Option String)
    → path_exists path ≡ false
    → path_exists "ScaResolver" ≡ false
    → (tag : String) (r : Agent.Runner) (msg : ScanMessage) (log : List Act)
    → r.can_execute
      ≡ can_execute path_exists is_file root (shell_runner work_path opts (some path) user)
    → r.suppresses ≡ Agent.suppresses_of (kind_of (shell_runner work_path opts (some path) user))
    → r.signature_valid msg ≡ true
    → r.executor ≡ ok tt
    → r.from_public_key ≡ ok tt
    → r.left ≡ ok tt
    → Agent.runner_agent tag r (ok msg) log
      ≡ (Agent.send_failure_response tag r msg none none >> act (nack false)) log
unfolding kind_of Agent.runner_agent Agent.send_failure_response
missing_resolver_is_reported path_exists is_file root work_path opts path user none_there no_default
      tag r msg log able no_drop valid entered key left =
    let cannot : r.can_execute ≡ raised type_error =
      able ∙ unable path_exists is_file root work_path opts path user none_there no_default in
    ground arith
