-- ===== src/Resolver/Runners/Examples.antt =====
-- A toolkit and a shell runner in the directory /tmp/w.
use cxone_flow_buildwork.Prelude.{
  String, ◌==◌, ◌≡◌, refl, Bool, true, false, Option, none, some, List, [], ◌∷◌, ◌++◌,
}
use cxone_flow_buildwork.Prelude.Run.{Result, ok}
use cxone_flow_buildwork.Prelude.Texts.{rstrip}
use cxone_flow_buildwork.Resolver.TwoStage
use cxone_flow_buildwork.Resolver.Agent.{Completed}
use cxone_flow_buildwork.Resolver.Options.{exec_opts, as_args, has_one_of}
use cxone_flow_buildwork.Resolver.Runners.{
  Script, Runner, args_of, no_resolver_runner, shell_runner, toolkit_runner, two_stage_runner,
  check_cmd_on_path_or_fail, make_toolkit_runner, build_args, directory, get_resolver_exec_cmd,
  execution_paths, execute_resolver,
}
use cxone_flow_buildwork.Resolver.Runners.Mounts.{LeadsTo, results_are_found}

abbrev nothing_there : String → Bool
nothing_there path = false

abbrev built : List String → Result String
built args = ok "cxone-toolkit:1\n"

toolkit_is_made :
    make_toolkit_runner nothing_there nothing_there built
      (some "/tmp")
      none
      "/opt/toolkit/"
      "ubuntu"
      true
      false
    ≡ ok (toolkit_runner (some "/tmp/") none "cxone-toolkit:1")
unfolding make_toolkit_runner check_cmd_on_path_or_fail build_args directory rstrip
toolkit_is_made = refl

abbrev toolkit_args : List String
toolkit_args =
    "docker" ∷ "run" ∷ "-t" ∷ "--rm" ∷ "-v" ∷ "/tmp/w/clone:/sandbox/input:ro" ∷ "-v"
    ∷ "/tmp/w:/sandbox/output" ∷ "cxone-toolkit:1" ∷ []

toolkit_cmd :
    get_resolver_exec_cmd nothing_there nothing_there "/tmp/w"
      (toolkit_runner none none "cxone-toolkit:1")
    ≡ ok toolkit_args
unfolding get_resolver_exec_cmd
toolkit_cmd = refl

abbrev npm : Script
npm = record {
  resolver_before = true;
  container_tag = "node";
  shell = "/bin/sh";
  script = "npm ci";
  run_as_agent = false;
}

-- a toolkit that a script runs beside
abbrev staged : Runner
staged = two_stage_runner none none npm (toolkit_runner none none "cxone-toolkit:1")

abbrev staged_args : List String
staged_args =
    toolkit_args
    ++ ("offline" ∷ "--excludes" ∷ "docs" ∷ "--logs-path" ∷ "/tmp/w" ∷ "--scan-path"
        ∷ "/sandbox/input_sandbox" ∷ "--containers-result-path"
        ∷ "/sandbox/output/container/container.json" ∷ "--resolver-result-path"
        ∷ "/sandbox/output/resolver/resolver.json" ∷ "--project-name" ∷ "org/repo" ∷ [])

staged_line :
    args_of nothing_there nothing_there "/tmp/w" staged "org/repo" "docs" ≡ some (ok staged_args)
unfolding args_of get_resolver_exec_cmd execution_paths exec_opts as_args has_one_of
staged_line = refl

results_are_found_example :
    LeadsTo staged staged_args "--resolver-result-path" "/tmp/w/resolver/resolver.json"
    × LeadsTo staged staged_args "--containers-result-path" "/tmp/w/container/container.json"
results_are_found_example =
    results_are_found nothing_there nothing_there "/tmp/w" "org/repo" "docs" staged staged_args
      staged_line

abbrev resolver_there : String → Bool
resolver_there path = path == "/opt/ScaResolver"

run_as_user :
    get_resolver_exec_cmd resolver_there resolver_there "/tmp/w"
      (shell_runner (some "/tmp/") none (some "/opt/ScaResolver") (some "scan"))
    ≡ ok ("sudo" ∷ "-u" ∷ "scan" ∷ "HOME=/tmp/" ∷ "/opt/ScaResolver" ∷ [])
unfolding get_resolver_exec_cmd directory rstrip
run_as_user = refl

abbrev script : Script
script = record {
  resolver_before = false;
  container_tag = "node";
  shell = "/bin/sh";
  script = "npm ci";
  run_as_agent = true;
}

abbrev fails : Option String → List String → Result Completed
fails home args = ok record { returncode = 7; stdout = some "no npm" }

script_fails :
    execute_resolver nothing_there nothing_there "/tmp/w" "1000:1000" fails
      (two_stage_runner (some "/tmp/") none script no_resolver_runner)
      "org/repo"
      ""
    ≡ ok record { returncode = 7; stdout = some "no npm" }
unfolding execute_resolver TwoStage.execute_resolver
script_fails = refl
