-- ===== src/Resolver/Options.antt =====
-- The command line of the resolver: DictCmdLineOpts of agent/__init__.py, ResolverOpts of
-- agent/resolver/resolver_opts.py, and the paths and arguments of ResolverExecutionContext in
-- agent/resolver/resolver_runner.py. The directory that the run works in is given by its name.
pub mod Leak
mod Examples
use Prim.Native.String.{count}
use cxone_flow_buildwork.Prelude.{
  ℕ, nat_beq, String, ◌==◌, ◌<>◌, ◌≡◌, Bool, true, false, not, ◌&&◌, ◌||◌, Option, none, some, List,
  [], ◌∷◌, ◌++◌, contains, if◌then◌else◌,
}
use cxone_flow_buildwork.Prelude.Dict.{Dict, get, has_key}

-- a value of the options' dict: None, a text, or something else
pub data Value : Type 0 where
  absent : Value
  text_value : String → Value
  other_value : Value

abbrev pub forbidden_opts : List String
forbidden_opts =
    "logs-path" ∷ "a" ∷ "account" ∷ "containers-result-path" ∷ "resolver-result-path"
    ∷ "project-name" ∷ "authentication-server-url" ∷ "p" ∷ "password" ∷ "sso-provider"
    ∷ "sca-app-url" ∷ "s" ∷ "scan-path" ∷ "server-url" ∷ "u" ∷ "username" ∷ "project-tags"
    ∷ "scan-tags" ∷ "bypass-exitcode" ∷ "no-upload-manifest" ∷ "help" ∷ "manifests-path" ∷ "t"
    ∷ "project-teams" ∷ "q" ∷ "quiet" ∷ "save-evidence-path" ∷ "severity-threshold"
    ∷ "report-content" ∷ "report-extension" ∷ "report-path" ∷ "report-type" ∷ "sast-result-path"
    ∷ "cxpassword" ∷ "cxuser" ∷ "cxprojectid" ∷ "cxprojectname" ∷ "cxserver" ∷ []

-- ResolverOpts._validate_arg
unfoldable pub validate_arg : String → Bool
validate_arg name = not (contains name forbidden_opts)

-- `-k` or `--k`
abbrev pub flag : String → String
flag k = (if nat_beq (count k) 1 then "-" else "--") <> k

-- what one option adds, where `proc` is the processor of the loop at that time
abbrev pub emit : (String → String) → String → Value → List String
emit proc k absent = flag k ∷ []
emit proc k (text_value value) = flag k ∷ proc value ∷ []
emit proc k other_value = []

abbrev pub chosen : Option (String → String) → (String → String) → String → String
chosen none proc = proc
chosen (some found) proc = found

unfoldable pub is_option : String → Bool
unfolding validate_arg
is_option k = not (nat_beq (count k) 0) && validate_arg k

-- the loop of _compile; the processor stays what it was last set to
unfoldable pub compile : Dict (String → String) → (String → String) → Dict Value → List String
unfolding get is_option
compile opt_processor proc [] = []
compile opt_processor proc ((k, value) ∷ rest) =
    let proc' = chosen (get opt_processor k) proc in
    let args = compile opt_processor proc' rest in
    if is_option k then emit proc' k value ++ args else args

-- as_args; the dict may be None, and `identity` is `lambda x: x`
abbrev identity : String → String
identity x = x

unfoldable pub as_args : Option (Dict Value) → Dict (String → String) → List String
unfolding compile
as_args none opt_processor = []
as_args (some opts) opt_processor = compile opt_processor identity opts

unfoldable pub has_one_of : Option (Dict Value) → List String → Bool
unfolding has_key
has_one_of none keys = false
has_one_of (some opts) [] = false
has_one_of (some opts) (k ∷ keys) = has_key opts k || has_one_of (some opts) keys

-- The paths below the run's directory, whose name has no slash at its end.
module _ (root : String) where
  abbrev pub clone_path : String
  clone_path = root <> "/clone"

  abbrev pub result_container_out_file_path : String
  result_container_out_file_path = root <> "/container/container.json"

  abbrev pub result_resolver_out_file_path : String
  result_resolver_out_file_path = root <> "/resolver/resolver.json"

-- where a run of the resolver reads the clone and writes its results
pub record Paths : Type 0 where
  pub scan_path : String
  pub container_out : String
  pub resolver_out : String

abbrev pub merge_exclusions : (exclusions x : String) → String
merge_exclusions exclusions x = x <> ("," <> exclusions)

-- resolver_opts and exclude_opts of execute_resolver
abbrev pub resolver_opts : Option (Dict Value) → (exclusions : String) → List String
resolver_opts opts exclusions =
    as_args opts
      (("e", merge_exclusions exclusions) ∷ ("excludes", merge_exclusions exclusions) ∷ [])

abbrev pub exclude_opts : Option (Dict Value) → (exclusions : String) → List String
exclude_opts opts exclusions =
    if has_one_of opts ("excludes" ∷ "e" ∷ []) then [] else "--excludes" ∷ exclusions ∷ []

-- the arguments after the command itself in execute_resolver
unfoldable pub exec_opts :
    (root : String) → Paths → Option (Dict Value) → (project_name exclusions : String) → List String
unfolding as_args has_one_of
exec_opts root paths opts project_name exclusions =
    ("offline" ∷ resolver_opts opts exclusions)
    ++ (exclude_opts opts exclusions
        ++ ("--logs-path" ∷ root ∷ "--scan-path" ∷ paths.scan_path ∷ "--containers-result-path"
            ∷ paths.container_out ∷ "--resolver-result-path" ∷ paths.resolver_out ∷ "--project-name"
            ∷ project_name ∷ []))
