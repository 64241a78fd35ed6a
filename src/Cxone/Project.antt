-- ===== src/Cxone/Project.antt =====
-- CxOneService.__create_or_retrieve_project: the project of a repository is created, or found and
-- brought up to date. What JSONPath finds by a name and the order of `list(set(…))` are given.
pub mod Tags
pub mod Update
use cxone_flow_buildwork.Prelude.{
  ℕ, zero, suc, String, ◌==◌, Bool, true, false, not, ◌&&◌, ◌||◌, Option, none, some, List, [], ◌∷◌,
  ◌++◌, contains, if◌then◌else◌,
}
use cxone_flow_buildwork.Prelude.Dict.{Dict, get, has_key, put, update}
use cxone_flow_buildwork.Prelude.Run.{
  cxone_error, index_error, Result, ok, raised, Run, pure, raise, lift, call, ◌>>=◌, ◌>>◌,
}

pub record Project : Type 0 where
  pub id : String
  pub name : String
  pub tags : Dict String
  pub groups : Option (List String)

-- The fields of CxOneService that the method reads.
pub record Service : Type 0 where
  pub moniker : String
  pub version : String
  pub default_project_tags : Dict String
  pub rename_legacy : Bool
  pub update_groups : Bool

pub data Act : Type 0 where
  list_projects : Act
  create_project : (name : String) → (groups : List String) → Dict String → Act
  update_project : Project → Act
  purge_cache : Act

abbrev pub Cx : Type 0 → Type 0
Cx A = Run (List Act) A

-- `{k: defaults[k] for k in defaults.keys() if k not in tags.keys()}`
unfoldable pub missing_tags : Dict String → Dict String → Dict String
unfolding has_key
missing_tags [] tags = []
missing_tags ((k, v) ∷ defaults) tags =
    let rest = missing_tags defaults tags in if has_key tags k then rest else (k, v) ∷ rest

-- the value that new_tags['service'] is set to, where it is set
abbrev service_tag : String → Option String → Dict String → Dict String
service_tag moniker none new_tags = put new_tags "service" moniker
service_tag moniker (some service) new_tags =
    if service == moniker then new_tags else put new_tags "service" moniker

unfoldable pub new_tags : Service → Dict String → Dict String
unfolding missing_tags get put
new_tags s tags =
    service_tag s.moniker (get tags "service") (missing_tags s.default_project_tags tags)

abbrev pub is_empty : Dict String → Bool
is_empty [] = true
is_empty (entry ∷ rest) = false

-- `project_json['tags'] = new_tags | project_json['tags']`
unfoldable pub merged_tags : Service → Dict String → Dict String
unfolding update
merged_tags s tags = if is_empty (new_tags s tags) then tags else update (new_tags s tags) tags

abbrev or_empty : Option (List String) → List String
or_empty none = []
or_empty (some groups) = groups

abbrev any_new : List String → List String → Bool
any_new [] groups = false
any_new (x ∷ xs) groups = not (contains x groups) || any_new xs groups

-- The last match, as `.pop()` takes it.
abbrev last : List Project → Option Project
last [] = none
last (p ∷ ps) = elim (last ps) [ none ↦ some p | some q ↦ some q ]

module _ (s : Service) (list_set : List String → List String)
    (resolve_groups : ℕ → Result (List String)) (updated : ℕ → Bool) where
  memberships : ℕ → List String → Cx (List String)
  memberships n groups = do resolved ← lift (resolve_groups n); pure (list_set (groups ++ resolved))

  -- the groups that the project is to have, and whether they call for an update
  new_groups : List String → Cx (Option (List String))
  unfolding memberships
  new_groups groups =
      if s.update_groups
      then (do
        new_list ← memberships 0 groups
        pure (if any_new new_list groups then some new_list else none))
      else pure none

  -- `while True`: one retry, with the groups resolved again after a purge of their cache
  unfoldable pub update_rounds : Project → List String → Cx Project
  unfolding memberships
  update_rounds project groups = do
    call (update_project project) (ok tt)
    if updated 0 then pure project else (do
      call purge_cache (ok tt)
      again ← memberships 1 groups
      let retried = record project { groups = some again }
      call (update_project retried) (ok tt)
      if updated 1 then pure retried else raise cxone_error)

  abbrev with_groups : Option (List String) → Project → Project
  with_groups none p = p
  with_groups (some groups) p = record p { groups = some groups }

  abbrev is_given : Option (List String) → Bool
  is_given none = false
  is_given (some groups) = true

  -- the branch for a project that exists
  unfoldable pub refresh_project : String → Bool → Project → Cx Project
  unfolding new_groups new_tags merged_tags
  refresh_project dynamic_name do_name_update found = do
    let tagged = record found {
      tags = merged_tags s found.tags;
      name = (if do_name_update then dynamic_name else found.name);
    }
    groups ← new_groups (or_empty found.groups)
    let project = with_groups groups tagged
    if (not (is_empty (new_tags s found.tags)) || do_name_update) || is_given groups
        then update_rounds project (or_empty found.groups)
        else pure project

  -- filteredTotalCount is 0
  abbrev no_projects : List Project → Bool
  no_projects [] = true
  no_projects (p ∷ ps) = false

  abbrev choose : Option Project → Option Project → Cx (Project × Bool)
  choose (some p) default_match = pure (p, false)
  choose none (some p) = pure (p, s.rename_legacy)
  choose none none = raise index_error

  unfoldable pub create_or_retrieve_project :
      (listed : Result (List Project))
      → (find : String → List Project → List Project) → (created : Result Project)
      → (default_name dynamic_name : String) → Cx Project
  unfolding update
  create_or_retrieve_project listed find created default_name dynamic_name = do
    projects ← call list_projects listed
    if no_projects projects
        then (do
          groups ← lift (resolve_groups 0)
          call
              (create_project dynamic_name groups (
                update s.default_project_tags
                  (("cxone-flow", s.version) ∷ ("service", s.moniker) ∷ [])))
              created)
        else (do
          (found, do_name_update) ←
              choose (last (find dynamic_name projects)) (last (find default_name projects))
          refresh_project dynamic_name do_name_update found)
