-- ===== src/Cxone/Engines/Selected.antt =====
-- Which engines a scan runs with.
use cxone_flow_buildwork.Prelude.{
  String, ◌==◌, eq_iff, ◌≡◌, refl, ◌∙◌, true, ◌||◌, List, [], ◌∷◌, contains, Bool-cases, inl, inr,
  arith,
}
use cxone_flow_buildwork.Prelude.Dict.{put, has_key}
use cxone_flow_buildwork.Prelude.Run.{Result, ok, Result-cases}
use cxone_flow_buildwork.Cxone.Engines.{
  EngineConfig, or_minimum, missing_engines, add_missing, with_enabled, get_engine_config_for_scan,
  sca_selected,
}

has_key-put :
    (config : EngineConfig) (engine e : String)
    → has_key (put config engine []) e ≡ (has_key config e || engine == e)
unfolding has_key put
has_key-put [] engine e = ground arith
has_key-put ((k, v) ∷ config) engine e =
    ground (arith, has_key-put config engine e, eq_iff k engine, eq_iff engine e, eq_iff k e)

has_key-add_missing :
    (engines : List String) (config : EngineConfig) (e : String)
    → has_key (add_missing engines config) e ≡ (has_key config e || contains e engines)
unfolding add_missing
has_key-add_missing [] config e = ground arith
has_key-add_missing (engine ∷ engines) config e = ground (
  arith,
  has_key-add_missing engines (put config engine []) e,
  has_key-put config engine e,
  eq_iff engine e,
  eq_iff e engine,
)

contains-missing_engines :
    (config : EngineConfig) (enabled : List String) (e : String)
    → (has_key config e || contains e (missing_engines config enabled))
      ≡ (has_key config e || contains e enabled)
unfolding missing_engines
contains-missing_engines config [] e = refl
contains-missing_engines config (engine ∷ enabled) e =
    ground (arith, contains-missing_engines config enabled e, eq_iff e engine)

-- The engines before the filters are those of the default configuration and the enabled ones.
pub has_key-with_enabled :
    (config : EngineConfig) (enabled : List String) (e : String)
    → has_key (with_enabled config enabled) e ≡ (has_key config e || contains e enabled)
unfolding with_enabled
has_key-with_enabled config enabled e =
    has_key-add_missing (missing_engines config enabled) config e
    ∙ contains-missing_engines config enabled e

-- the filters remove no engine
abbrev pub IsFilter : (EngineConfig → Result EngineConfig) → Type 0
IsFilter filters =
    (config filtered : EngineConfig)
    → filters config ≡ ok filtered
    → (e : String) → has_key config e ≡ true
    → has_key filtered e ≡ true

or_minimum-keeps :
    (config : EngineConfig) (e : String)
    → has_key config e ≡ true
    → has_key (or_minimum config) e ≡ true
unfolding has_key
or_minimum-keeps [] e h = absurd (ground arith)
or_minimum-keeps (engine ∷ engines) e h = h

module _ (default_engine_config : EngineConfig) (enabled_scanners : Result (List String))
    (filters : EngineConfig → Result EngineConfig) (law : IsFilter filters) where
  default_engine_stays :
      (e : String) {config : EngineConfig}
      → has_key default_engine_config e ≡ true
      → get_engine_config_for_scan default_engine_config enabled_scanners filters ≡ ok config
      → has_key config e ≡ true
  unfolding get_engine_config_for_scan
  default_engine_stays e {config} there h = elim (Result-cases enabled_scanners) [
    | inr (r, e1) ↦ absurd (ground arith)
    | inl (enabled, e1) ↦
        elim (Result-cases (filters (with_enabled default_engine_config enabled))) [
          | inr (r, e2) ↦ absurd (ground arith)
          | inl (found, e2) ↦
              let before : has_key (with_enabled default_engine_config enabled) e ≡ true =
                ground (arith, has_key-with_enabled default_engine_config enabled e) in
              let kept = law (with_enabled default_engine_config enabled) found e2 e before in
              ground (arith, or_minimum-keeps found e kept)
        ]
  ]

  -- The query for the SCA engine agrees with the engines that a scan runs with: where the filters
  -- remove no engine and the engines of a scan can be computed, sca_selected answers without an
  -- exception, and exactly whether SCA is among these engines.
  pub sca_selected_lem :
      {config : EngineConfig}
      → get_engine_config_for_scan default_engine_config enabled_scanners filters ≡ ok config
      → sca_selected default_engine_config enabled_scanners filters ≡ ok (has_key config "sca")
  unfolding sca_selected
  sca_selected_lem {config} h = elim (Bool-cases (has_key default_engine_config "sca")) [
    | inl there ↦ ground (arith, default_engine_stays "sca" there h)
    | inr lacks ↦ ground arith
  ]
