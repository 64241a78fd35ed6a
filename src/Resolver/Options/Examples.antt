-- ===== src/Resolver/Options/Examples.antt =====
-- A dict of options with exclusions, a path and a forbidden name.
use cxone_flow_buildwork.Prelude.{String, ◌<>◌, ◌≡◌, refl, some, [], ◌∷◌}
use cxone_flow_buildwork.Prelude.Dict.{Dict, get, has_key}
use cxone_flow_buildwork.Resolver.Options.{Value, absent, text_value, Paths, compile, exec_opts}

abbrev with_tests : String → String
with_tests x = x <> ",**/test/**"

abbrev processors : Dict (String → String)
processors = ("e", with_tests) ∷ ("excludes", with_tests) ∷ []

abbrev plain : String → String
plain x = x

abbrev opts : Dict Value
opts = ("log-level", text_value "Debug") ∷ ("verbose", absent) ∷ []

leaked_log_level :
    compile processors plain (("e", text_value "*.md") ∷ opts)
    ≡ "-e" ∷ "*.md,**/test/**" ∷ "--log-level" ∷ "Debug,**/test/**" ∷ "--verbose" ∷ []
unfolding compile get
leaked_log_level = refl

abbrev work_paths : Paths
work_paths = record {
  scan_path = "/work/clone";
  container_out = "/c.json";
  resolver_out = "/r.json";
}

exclusions_are_added :
    exec_opts "/work" work_paths (some (("v", absent) ∷ [])) "org/repo" "**/test/**"
    ≡ "offline" ∷ "-v" ∷ "--excludes" ∷ "**/test/**" ∷ "--logs-path" ∷ "/work" ∷ "--scan-path"
      ∷ "/work/clone" ∷ "--containers-result-path" ∷ "/c.json" ∷ "--resolver-result-path"
      ∷ "/r.json" ∷ "--project-name" ∷ "org/repo" ∷ []
unfolding exec_opts get has_key
exclusions_are_added = refl
