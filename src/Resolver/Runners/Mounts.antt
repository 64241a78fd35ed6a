-- ===== src/Resolver/Runners/Mounts.antt =====
-- Where the command of a runner writes its results.
use mathlib.Core.Path.{subst}
use mathlib.Core.List.{append_assoc}
use cxone_flow_buildwork.Prelude.{
  ap, inl, inr, String, ◌<>◌, ◌≡◌, refl, sym, ◌∙◌, Bool, Option, some, List, [], ◌∷◌, ◌++◌, arith,
}
use cxone_flow_buildwork.Prelude.Dict.{Dict}
use cxone_flow_buildwork.Prelude.Run.{ok, Result-cases}
use cxone_flow_buildwork.Resolver.Options.{
  Value, Paths, exec_opts, resolver_opts, exclude_opts, clone_path, result_container_out_file_path,
  result_resolver_out_file_path,
}
use cxone_flow_buildwork.Resolver.Runners.{
  Runner, no_resolver_runner, shell_runner, toolkit_runner, two_stage_runner, get_resolver_exec_cmd,
  args_of, execution_paths,
}

-- the arguments have the option with this value
abbrev pub HasOption : List String → (name value : String) → Type 0
HasOption args name value = (before after : List String) × (args ≡ before ++ name ∷ value ∷ after)

-- a path in the container that is this path outside, by a folder that is mounted
abbrev pub IsMounted : List String → (inside outside : String) → Type 0
IsMounted args inside outside =
    (host guest rest : String) × HasOption args "-v" (host <> (":" <> guest))
    × (inside ≡ guest <> rest)
    × (outside ≡ host <> rest)

-- what a run of the command line writes to `inside` is at `outside`
abbrev pub IsSeen : Runner → List String → (inside outside : String) → Type 0
IsSeen no_resolver_runner args inside outside = ⊥
IsSeen (shell_runner work_path opts path user) args inside outside = inside ≡ outside
IsSeen (toolkit_runner work_path opts tag) args inside outside = IsMounted args inside outside
IsSeen (two_stage_runner work_path opts script resolver) args inside outside =
    IsSeen resolver args inside outside

-- the value of the option is where the agent finds the file `outside`
abbrev pub LeadsTo : Runner → List String → (name outside : String) → Type 0
LeadsTo runner args name outside =
    (inside : String) × HasOption args name inside × IsSeen runner args inside outside

HasOption-after :
    (xs : List String) {args : List String} {name value : String}
    → HasOption args name value
    → HasOption (xs ++ args) name value
HasOption-after xs {args} {name} {value} (before, after, e) =
    (xs ++ before, after, ap (λ l. xs ++ l) e ∙ sym (append_assoc xs before (name ∷ value ∷ after)))

HasOption-append :
    (xs : List String) {args : List String} {name value : String}
    → HasOption args name value
    → HasOption (args ++ xs) name value
HasOption-append xs {args} {name} {value} (before, after, e) =
    (before, after ++ xs, ap (λ l. l ++ xs) e ∙ append_assoc before (name ∷ value ∷ after) xs)

exec_opts-HasOption :
    (root : String) (paths : Paths) (opts : Option (Dict Value)) (name exclusions : String)
    → HasOption
        (exec_opts root paths opts name exclusions)
        "--resolver-result-path"
        paths.resolver_out
      × HasOption
          (exec_opts root paths opts name exclusions)
          "--containers-result-path"
          paths.container_out
unfolding exec_opts
exec_opts-HasOption root paths opts name exclusions = (
  HasOption-after ("offline" ∷ resolver_opts opts exclusions) (
      HasOption-after (exclude_opts opts exclusions) (
        "--logs-path" ∷ root ∷ "--scan-path" ∷ paths.scan_path ∷ "--containers-result-path"
            ∷ paths.container_out ∷ [],
        "--project-name" ∷ name ∷ [],
        refl,
      )),
  HasOption-after ("offline" ∷ resolver_opts opts exclusions) (
      HasOption-after (exclude_opts opts exclusions) (
        "--logs-path" ∷ root ∷ "--scan-path" ∷ paths.scan_path ∷ [],
        "--resolver-result-path" ∷ paths.resolver_out ∷ "--project-name" ∷ name ∷ [],
        refl,
      )),
)

some_value : {A : Type 0} {x y : A} → some x ≡ some y → x ≡ y
some_value h = cc

ok_value : {A : Type 0} {x y : A} → ok x ≡ ok y → x ≡ y
ok_value h = cc

abbrev toolkit_cmd : (root tag : String) → List String
toolkit_cmd root tag =
    "docker"
    ∷ "run"
    ∷ "-t"
    ∷ "--rm"
    ∷ "-v"
    ∷ (clone_path root <> ":/sandbox/input:ro")
    ∷ "-v"
    ∷ (root <> ":/sandbox/output")
    ∷ tag
    ∷ []

output-IsMounted :
    (root tag : String) (opts : List String) (rest : String)
    → IsMounted (toolkit_cmd root tag ++ opts) ("/sandbox/output" <> rest) (root <> rest)
output-IsMounted root tag opts rest = (
  root,
  "/sandbox/output",
  rest,
  HasOption-append opts (
    "docker" ∷ "run" ∷ "-t" ∷ "--rm" ∷ "-v" ∷ (clone_path root <> ":/sandbox/input:ro") ∷ [],
    tag ∷ [],
    refl,
  ),
  refl,
  refl,
)

-- The agent finds the results where the resolver writes them. The command line of a run, which for a
-- two-stage run is its resolver's, has both options for a path of results, and what is written at the
-- option's path is at the path that the agent reads: for a shell runner it is the same path, and for
-- the toolkit, which runs in a container, the two agree by a folder that the command mounts.
pub results_are_found :
    (path_exists is_file : String → Bool) (root name exclusions : String) (runner : Runner)
    (args : List String)
    → args_of path_exists is_file root runner name exclusions ≡ some (ok args)
    → LeadsTo runner args "--resolver-result-path" (result_resolver_out_file_path root)
      × LeadsTo runner args "--containers-result-path" (result_container_out_file_path root)
unfolding args_of get_resolver_exec_cmd execution_paths
results_are_found path_exists is_file root name exclusions no_resolver_runner args h =
    absurd (ground arith)
results_are_found path_exists is_file root name exclusions (shell_runner w o p u) args h =
    elim (Result-cases (get_resolver_exec_cmd path_exists is_file root (shell_runner w o p u))) [
      | inr (e, failed) ↦ absurd (ground arith)
      | inl (cmd, made) ↦
          let paths = execution_paths root (shell_runner w o p u) in
          let line : cmd ++ exec_opts root paths o name exclusions ≡ args = ground arith in
          let (x, y) = exec_opts-HasOption root paths o name exclusions in
          subst
            (λ l.
              LeadsTo (shell_runner w o p u) l "--resolver-result-path"
                (result_resolver_out_file_path root)
              × LeadsTo (shell_runner w o p u) l "--containers-result-path"
                  (result_container_out_file_path root))
            line
            (
              (paths.resolver_out, HasOption-after cmd x, refl),
              (paths.container_out, HasOption-after cmd y, refl),
            )
    ]
results_are_found path_exists is_file root name exclusions (toolkit_runner w o tag) args h =
    let paths = execution_paths root (toolkit_runner w o tag) in
    let opts = exec_opts root paths o name exclusions in
    let (x, y) = exec_opts-HasOption root paths o name exclusions in
    subst
      (λ l.
        LeadsTo (toolkit_runner w o tag) l "--resolver-result-path"
          (result_resolver_out_file_path root)
        × LeadsTo (toolkit_runner w o tag) l "--containers-result-path"
            (result_container_out_file_path root))
      (ok_value (some_value h))
      (
        (
          paths.resolver_out,
          HasOption-after (toolkit_cmd root tag) x,
          output-IsMounted root tag opts "/resolver/resolver.json",
        ),
        (
          paths.container_out,
          HasOption-after (toolkit_cmd root tag) y,
          output-IsMounted root tag opts "/container/container.json",
        ),
      )
results_are_found path_exists is_file root name exclusions (two_stage_runner _ _ _ r) args h =
    results_are_found path_exists is_file root name exclusions r args h
