-- ===== src/Cxone/Examples.antt =====
-- A project with a tag of another service, a pull request's scan, and a group.
use cxone_flow_buildwork.Cxone.Engines.{EngineConfig, get_engine_config_for_scan, sca_selected}
use cxone_flow_buildwork.Cxone.Engines.Selected.{IsFilter, sca_selected_lem}
use cxone_flow_buildwork.Prelude.{
  ℕ, String, ◌≡◌, refl, Bool, true, false, none, some, List, [], ◌∷◌, arith,
}
use cxone_flow_buildwork.Prelude.Dict.{Dict, get, put, has_key, IsDict}
use cxone_flow_buildwork.Prelude.Run.{Result, ok}
use cxone_flow_buildwork.Cxone.Groups.{GroupDef, Cache}
use cxone_flow_buildwork.Cxone.Project.{Service, Project}
use cxone_flow_buildwork.Cxone.Scans.{Scan}

abbrev service : Service
service = record {
  moniker = "gh-main";
  version = "2.0";
  default_project_tags = ("team", "red") ∷ [];
  rename_legacy = false;
  update_groups = true;
}

abbrev tags : Dict String
tags = ("service", "gh-old") ∷ ("owner", "me") ∷ []

abbrev project : Project
project = record { id = "p"; name = "org/repo"; tags = tags; groups = none }

abbrev list_set : List String → List String
list_set groups = groups

abbrev resolving : ℕ → Result (List String)
resolving n = ok ("g" ∷ [])

abbrev refused : ℕ → Bool
refused n = false

tags-IsDict : IsDict tags
unfolding has_key
tags-IsDict = (refl, (refl, tt))

tags_read :
    (get tags "owner" ≡ some "me")
    × (get tags "service" ≡ some "gh-old")
    × (get tags "team" ≡ none)
    × (get service.default_project_tags "team" ≡ some "red")
unfolding get
tags_read = (refl, refl, refl, refl)

abbrev pr_scan : Scan
pr_scan = record { id = "s"; tags = ("pr-id", "7") ∷ ("commit", "c0ffee") ∷ [] }

abbrev updatable : String → Result Bool
updatable id = ok true

abbrev cache : Cache
cache = record { index = ("red", "id-1") ∷ []; errors = []; searches = [] }

abbrev search : String → Result (List GroupDef)
search path = ok []

cache_read : (get cache.index "red" ≡ some "id-1") × (get cache.index "blue" ≡ none)
unfolding get
cache_read = (refl, refl)

abbrev engines : EngineConfig
engines = ("sca", []) ∷ []

abbrev no_filters : EngineConfig → Result EngineConfig
no_filters config = ok config

no_filters-IsFilter : IsFilter no_filters
no_filters-IsFilter config filtered h e there = ground arith

computed :
    get_engine_config_for_scan engines (ok ("sast" ∷ "sca" ∷ [])) no_filters
    ≡ ok (("sca", []) ∷ ("sast", []) ∷ [])
unfolding get_engine_config_for_scan has_key put
computed = refl

sca_selected_lem_example :
    sca_selected engines (ok ("sast" ∷ "sca" ∷ [])) no_filters ≡ ok (has_key engines "sca")
unfolding has_key
sca_selected_lem_example =
    sca_selected_lem engines (ok ("sast" ∷ "sca" ∷ [])) no_filters no_filters-IsFilter computed
