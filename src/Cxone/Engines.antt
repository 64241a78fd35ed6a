-- ===== src/Cxone/Engines.antt =====
-- The engines of a scan in cxone_service/__init__.py: __get_engine_config_for_scan, sca_selected,
-- execute_scan. The filters of the repository's configuration are
-- computed by another package, and so is the list of enabled scanners.
pub mod Selected
use cxone_flow_buildwork.Prelude.{
  String, ◌==◌, eq_iff, ◌≡◌, refl, sym, ◌∙◌, Bool, true, false, not, ◌||◌, Option, none, some, List,
  [], ◌∷◌, ◌++◌, contains, map, Bool-cases, inl, inr, arith, if◌then◌else◌,
}
use cxone_flow_buildwork.Prelude.Dict.{Dict, get, put, has_key, update}
use cxone_flow_buildwork.Prelude.Run.{Raised, cxone_error, Result, ok, raised, Result-cases}

-- the parameters of each engine
abbrev pub EngineConfig : Type 0
EngineConfig = Dict (Dict String)

abbrev pub minimum_engine_selection : EngineConfig
minimum_engine_selection = ("sast", []) ∷ []

-- the list of the missing engines, and the loop that adds them
unfoldable pub missing_engines : EngineConfig → List String → List String
unfolding has_key
missing_engines config [] = []
missing_engines config (engine ∷ engines) =
    let rest = missing_engines config engines in
    if has_key config engine then rest else engine ∷ rest

unfoldable pub add_missing : List String → EngineConfig → EngineConfig
unfolding put
add_missing [] config = config
add_missing (engine ∷ engines) config = add_missing engines (put config engine [])

abbrev pub or_minimum : EngineConfig → EngineConfig
or_minimum [] = minimum_engine_selection
or_minimum (engine ∷ engines) = engine ∷ engines

module _ (default_engine_config : EngineConfig) where
  unfoldable pub with_enabled : List String → EngineConfig
  unfolding missing_engines add_missing
  with_enabled enabled =
      add_missing (missing_engines default_engine_config enabled) default_engine_config

  module _ (enabled_scanners : Result (List String))
      (filters : EngineConfig → Result EngineConfig) where
    abbrev pub filtered : Result EngineConfig → Result EngineConfig
    filtered (raised e) = raised e
    filtered (ok config) = ok (or_minimum config)

    -- __get_engine_config_for_scan; `filters` loads the repository's configuration and computes with it
    unfoldable pub get_engine_config_for_scan : Result EngineConfig
    unfolding with_enabled
    get_engine_config_for_scan = elim enabled_scanners [
      | raised e ↦ raised e
      | ok enabled ↦ filtered (filters (with_enabled enabled))
    ]

    abbrev has_sca : Result EngineConfig → Result Bool
    has_sca (raised e) = raised e
    has_sca (ok config) = ok (has_key config "sca")

    unfoldable pub sca_selected : Result Bool
    unfolding has_key get_engine_config_for_scan
    sca_selected =
        if has_key default_engine_config "sca" then ok true else has_sca get_engine_config_for_scan

    -- execute_scan, of the invoker's answer: whether it is a success, and its scan
    unfoldable pub execute_scan :
        (scan_tags default_scan_tags : Dict String)
        → (invoke : EngineConfig → Dict String → Result (Bool × String)) → Result String
    unfolding get_engine_config_for_scan update
    execute_scan scan_tags default_scan_tags invoke = elim get_engine_config_for_scan [
      | raised e ↦ raised e
      | ok config ↦ elim (invoke config (update scan_tags default_scan_tags)) [
        | raised e ↦ raised e
        | ok (success, scan) ↦ if success then ok scan else raised cxone_error
      ]
    ]
