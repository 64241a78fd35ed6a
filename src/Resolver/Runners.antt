-- ===== src/Resolver/Runners.antt =====
-- The runners of the resolver: their constructors, execution contexts and commands, in
-- agent/resolver/resolver_runner.py, shell_runner.py, toolkit_runner.py, noresolver_runner.py and
-- two_stage_runner.py. Processes and the file system are given; a run's directory is given by its name.
pub mod Able
pub mod Mounts
mod Examples
use cxone_flow_buildwork.Prelude.{
  ℕ, nat_beq, String, ◌<>◌, Bool, true, false, ◌&&◌, Option, none, some, List, [], ◌∷◌, ◌++◌,
  if◌then◌else◌,
}
use cxone_flow_buildwork.Prelude.Dict.{Dict}
use cxone_flow_buildwork.Prelude.Texts.{rstrip}
use cxone_flow_buildwork.Prelude.Run.{Raised, type_error, resolver_agent_error, Result, ok, raised}
use cxone_flow_buildwork.Resolver.Agent.{
  Completed, RunnerKind, no_resolver, shell, toolkit, two_stage,
}
use cxone_flow_buildwork.Resolver.TwoStage.{completed_by}
use cxone_flow_buildwork.Resolver.TwoStage
use cxone_flow_buildwork.Resolver.Options.{
  Value, Paths, clone_path, result_container_out_file_path, result_resolver_out_file_path,
  exec_opts,
}

abbrev slash : ℕ
slash = 47

-- workpath.rstrip("/") + "/", in both base classes
unfoldable pub directory : Option String → Option String
unfolding rstrip
directory none = none
directory (some workpath) = some (rstrip slash workpath <> "/")

-- the run of a script beside the resolver
pub record Script : Type 0 where
  pub resolver_before : Bool
  pub container_tag : String
  pub shell : String
  pub script : String
  pub run_as_agent : Bool

-- A runner with what its constructor keeps. The options are the dict of ResolverOpts.
pub data Runner : Type 0 where
  no_resolver_runner : Runner
  shell_runner :
      (work_path : Option String) (opts : Option (Dict Value))
      (resolver_path runas_user : Option String)
      → Runner
  toolkit_runner :
      (work_path : Option String) (opts : Option (Dict Value)) (run_container_tag : String) → Runner
  two_stage_runner :
      (work_path : Option String) (opts : Option (Dict Value)) → Script → Runner → Runner

unfoldable pub kind_of : Runner → RunnerKind
kind_of no_resolver_runner = no_resolver
kind_of (shell_runner work_path opts resolver_path runas) = shell
kind_of (toolkit_runner work_path opts tag) = toolkit
kind_of (two_stage_runner work_path opts script resolver) = two_stage

-- __get_build_container_tag: the arguments of the build, whose output names the container
unfoldable pub build_args : String → String → (uid gid : Bool) → List String
build_args toolkit_path container_tag uid gid =
    ((toolkit_path <> "autobuild.sh") ∷ "-t" ∷ container_tag ∷ "-d" ∷ toolkit_path ∷ [])
    ++ ((if uid then "-u" ∷ [] else []) ++ (if gid then "-g" ∷ [] else []))

-- `not cmd == None`: a command is never None
abbrev pub is_command : Result (List String) → Result Bool
is_command (raised e) = raised e
is_command (ok cmd) = ok true

module _ (path_exists is_file : String → Bool) where
  -- __check_cmd_on_path_or_fail: `not a and b` is `(not a) and b`
  unfoldable pub check_cmd_on_path_or_fail : String → Result (Unit {0})
  check_cmd_on_path_or_fail cmd_name =
      if path_exists cmd_name
      then ok tt
      else if is_file cmd_name
      then raised resolver_agent_error
      else ok tt

  -- ResolverToolkitRunner.__init__, where `output` is what the build prints
  unfoldable pub make_toolkit_runner :
      (output : List String → Result String)
      → Option String
      → Option (Dict Value)
      → (toolkit_path container_tag : String) (uid gid : Bool) → Result Runner
  unfolding check_cmd_on_path_or_fail build_args directory rstrip
  make_toolkit_runner output workpath opts toolkit_path container_tag uid gid =
      elim (check_cmd_on_path_or_fail "docker") [
        | raised e ↦ raised e
        | ok _ ↦ elim (check_cmd_on_path_or_fail "bash") [
          | raised e ↦ raised e
          | ok _ ↦
              elim (output (build_args (rstrip slash toolkit_path <> "/") container_tag uid gid)) [
                | raised e ↦ raised e
                | ok printed ↦ ok (toolkit_runner (directory workpath) opts (rstrip 10 printed))
              ]
        ]
      ]

  abbrev found_resolver : Option String → Option (List String)
  found_resolver none = if path_exists "ScaResolver" then some ("ScaResolver" ∷ []) else none
  found_resolver (some path) =
      if path_exists path && is_file path
      then some (path ∷ [])
      else if path_exists "ScaResolver"
      then some ("ScaResolver" ∷ [])
      else none

  -- an f-string shows None by that word
  abbrev home_of : Option String → String
  home_of none = "None"
  home_of (some work_path) = work_path

  abbrev runas_cmd : Option String → Option String → List String
  runas_cmd work_path none = []
  runas_cmd work_path (some user) = "sudo" ∷ "-u" ∷ user ∷ ("HOME=" <> home_of work_path) ∷ []

  -- `runas + cmd`, where cmd may be None
  abbrev added_to : List String → Option (List String) → Result (List String)
  added_to runas none = raised type_error
  added_to runas (some cmd) = ok (runas ++ cmd)

  -- The context's constructor strips the work path again; the run's directory is `root`. The base
  -- class's method, which the two-stage context does not override, raises.
  unfoldable pub get_resolver_exec_cmd : (root : String) → Runner → Result (List String)
  unfolding directory
  get_resolver_exec_cmd root no_resolver_runner = ok []
  get_resolver_exec_cmd root (shell_runner work_path opts resolver_path runas) =
      added_to (runas_cmd (directory work_path) runas) (found_resolver resolver_path)
  get_resolver_exec_cmd root (toolkit_runner work_path opts tag) = ok (
      "docker"
      ∷ "run"
      ∷ "-t"
      ∷ "--rm"
      ∷ "-v"
      ∷ (clone_path root <> ":/sandbox/input:ro")
      ∷ "-v"
      ∷ (root <> ":/sandbox/output")
      ∷ tag
      ∷ [])
  get_resolver_exec_cmd root (two_stage_runner work_path opts script resolver) =
      raised (Raised.other 0)

  -- can_execute within the context; the two-stage context asks the context of its resolver
  unfoldable pub can_execute : (root : String) → Runner → Result Bool
  unfolding get_resolver_exec_cmd
  can_execute root (two_stage_runner work_path opts script resolver) = can_execute root resolver
  can_execute root runner = is_command (get_resolver_exec_cmd root runner)

-- where a context's command finds the clone and writes its results
unfoldable pub execution_paths : (root : String) → Runner → Paths
execution_paths root (toolkit_runner work_path opts tag) = record {
  scan_path = "/sandbox/input_sandbox";
  container_out = "/sandbox/output/container/container.json";
  resolver_out = "/sandbox/output/resolver/resolver.json";
}
execution_paths root runner = record {
  scan_path = clone_path root;
  container_out = result_container_out_file_path root;
  resolver_out = result_resolver_out_file_path root;
}

-- the command of a two-stage run's script, for the agent's user and group ids as texts
unfoldable pub script_cmd : (root ids : String) → Script → List String
script_cmd root ids s =
    ("docker" ∷ "run" ∷ "-t" ∷ "--rm" ∷ [])
    ++ ((if s.run_as_agent then "-u" ∷ ids ∷ [] else [])
        ++ ("-v"
            ∷ (clone_path root <> ":/code")
            ∷ "-w"
            ∷ "/code"
            ∷ "--entrypoint"
            ∷ s.shell
            ∷ s.container_tag
            ∷ "-c"
            ∷ s.script
            ∷ []))

-- `cmd + exec_opts`
abbrev with_opts : Result (List String) → List String → Result (List String)
with_opts (raised e) opts = raised e
with_opts (ok cmd) opts = ok (cmd ++ opts)

-- The command line of a run, which a two-stage run leaves to the context of its resolver; without a
-- resolver there is none.
unfoldable pub args_of :
    (path_exists is_file : String → Bool) (root : String)
    → Runner
    → (project_name exclusions : String) → Option (Result (List String))
unfolding get_resolver_exec_cmd execution_paths exec_opts
args_of path_exists is_file root no_resolver_runner name exclusions = none
args_of path_exists is_file root (shell_runner work_path opts resolver_path runas) name exclusions =
    let runner = shell_runner work_path opts resolver_path runas in
    some (
      with_opts (get_resolver_exec_cmd path_exists is_file root runner)
        (exec_opts root (execution_paths root runner) opts name exclusions))
args_of path_exists is_file root (toolkit_runner work_path opts tag) name exclusions =
    let runner = toolkit_runner work_path opts tag in
    some (
      with_opts (get_resolver_exec_cmd path_exists is_file root runner)
        (exec_opts root (execution_paths root runner) opts name exclusions))
args_of path_exists is_file root (two_stage_runner work_path opts script resolver) name exclusions =
    args_of path_exists is_file root resolver name exclusions

-- execute_resolver of each context, where `run` is a process with its HOME, and the change of modes of
-- the clone's files, which only a shell context with a user does, is left out.
module _ (path_exists is_file : String → Bool) (root ids : String)
    (run : Option String → List String → Result Completed) where
  -- with no command line there is nothing to run
  abbrev run_with : Option String → Option (Result (List String)) → Result Completed
  run_with home none = ok (record { returncode = 0; stdout = none })
  run_with home (some (raised e)) = raised e
  run_with home (some (ok args)) = completed_by (run home args)

  unfoldable pub execute_resolver : Runner → (project_name exclusions : String) → Result Completed
  unfolding args_of directory script_cmd
  execute_resolver no_resolver_runner name exclusions =
      ok (record { returncode = 0; stdout = none })
  execute_resolver (shell_runner work_path opts resolver_path runas) name exclusions =
      run_with (directory work_path) (
        args_of path_exists is_file root (shell_runner work_path opts resolver_path runas) name
          exclusions)
  execute_resolver (toolkit_runner work_path opts tag) name exclusions =
      run_with (directory work_path)
        (args_of path_exists is_file root (toolkit_runner work_path opts tag) name exclusions)
  execute_resolver (two_stage_runner work_path opts script resolver) name exclusions =
      TwoStage.execute_resolver script.resolver_before (execute_resolver resolver name exclusions)
        (run (some "/code") (script_cmd root ids script))
