-- ===== src/Cxone/Project/Update.antt =====
-- When a project is written back, and how often that is tried.
use cxone_flow_buildwork.Prelude.{
  ℕ, ◌+◌, ◌≤◌, String, ◌==◌, ◌≡◌, ◌↔◌, Bool, false, some, List, [], ◌∷◌, ◌++◌, arith,
}
use cxone_flow_buildwork.Prelude.Dict.{Dict, get, put, IsDict}
use cxone_flow_buildwork.Prelude.Run.{Result, ok, raised, cxone_error}
use cxone_flow_buildwork.Cxone.Project.{
  Service, Project, Act, update_project, missing_tags, new_tags, merged_tags, is_empty,
  update_rounds, refresh_project, create_or_retrieve_project,
}
use cxone_flow_buildwork.Cxone.Project.Tags.{tag_is_kept}

abbrev is_update : Act → ℕ
is_update (update_project p) = 1
is_update _ = 0

-- The writes of the project.
abbrev pub updates : List Act → ℕ
updates [] = 0
updates (a ∷ acts) = is_update a + updates acts

updates-append : (xs ys : List Act) → updates (xs ++ ys) ≡ updates xs + updates ys
updates-append [] ys = omega arith
updates-append (x ∷ xs) ys = omega (arith, updates-append xs ys)

is_empty-put : (d : Dict String) (k v : String) → is_empty (put d k v) ≡ false
unfolding put
is_empty-put [] k v = ground arith
is_empty-put ((j, w) ∷ d) k v = ground arith

-- A project whose `service` tag names another service is written back at every event, and the tag
-- is not changed by that.
pub stale_service_tag :
    (s : Service) (tags : Dict String) (service : String)
    → IsDict tags
    → get tags "service" ≡ some service
    → (service == s.moniker) ≡ false
    → (is_empty (new_tags s tags) ≡ false) × (get (merged_tags s tags) "service" ≡ some service)
unfolding new_tags
stale_service_tag s tags service h e other = (
  ground (
    arith,
    e,
    other,
    is_empty-put (missing_tags s.default_project_tags tags) "service" s.moniker,
  ),
  tag_is_kept s tags "service" service h e,
)

module _ (s : Service) (list_set : List String → List String)
    (resolve_groups : ℕ → Result (List String)) (updated : ℕ → Bool) where
  updates-update_rounds :
      (p : Project) (groups : List String) (acts : List Act)
      → updates (update_rounds s list_set resolve_groups updated p groups acts).1 ≤ updates acts + 2
  unfolding update_rounds
  updates-update_rounds p groups acts = grind (arith, updates-append)

  updates-refresh_project :
      (name : String) (rename : Bool) (p : Project) (acts : List Act)
      → updates (refresh_project s list_set resolve_groups updated name rename p acts).1
        ≤ updates acts + 2
  unfolding refresh_project
  updates-refresh_project name rename p acts = grind (arith, updates-update_rounds)

  -- One event writes the project at most twice.
  pub two_updates :
      (listed : Result (List Project)) (find : String → List Project → List Project)
      (created : Result Project) (default_name dynamic_name : String)
      → updates
          (create_or_retrieve_project s list_set resolve_groups updated listed find created
            default_name dynamic_name []).1
        ≤ 2
  unfolding create_or_retrieve_project
  two_updates listed find created default_name dynamic_name =
      grind (arith, updates-refresh_project, updates-append)

  -- A write that is refused is tried once more, with the groups resolved again after their cache
  -- was purged; CxOneException is raised exactly if that one is refused too. Assumed: resolving the
  -- groups again succeeds.
  pub update_error_iff :
      (p : Project) (groups resolved : List String)
      → resolve_groups 1 ≡ ok resolved
      → ((update_rounds s list_set resolve_groups updated p groups []).0 ≡ raised cxone_error)
        ↔ ((updated 0 ≡ false) × (updated 1 ≡ false))
  unfolding update_rounds
  update_error_iff p groups resolved h = ground arith
