-- ===== src/Naming.antt =====
-- The names of projects: naming_services/__init__.py, orchestration/naming, and the default names of the
-- orchestrators of kickoffs in orchestration/kickoff. A naming script is the user's.
use cxone_flow_buildwork.Prelude.{String, ◌<>◌, Option, none, some, List}
use cxone_flow_buildwork.Prelude.Run.{Result, ok, raised}

-- the four create_project_name, one of each SCM
unfoldable pub ado_project_name : (collection_name project_name repo_name : String) → String
ado_project_name collection_name project_name repo_name =
    collection_name <> ("/" <> (project_name <> ("/" <> repo_name)))

unfoldable pub bbdc_project_name : (project_key project_name repo_name : String) → String
bbdc_project_name project_key project_name repo_name =
    project_key <> ("/" <> (project_name <> ("/" <> repo_name)))

unfoldable pub gh_project_name : (organization repo_name : String) → String
gh_project_name organization repo_name = organization <> ("/" <> repo_name)

unfoldable pub gl_project_name : (repo_path_with_namespace : String) → String
gl_project_name repo_path_with_namespace = repo_path_with_namespace

-- the kickoff messages, with the fields that an orchestrator reads
pub data KickoffMsg : Type 0 where
  ado_msg :
      (clone_urls : List String) (collection_name project_name repo_name : String) → KickoffMsg
  bbdc_msg : (clone_urls : List String) (project_key project_name repo_name : String) → KickoffMsg
  gh_msg : (clone_urls : List String) (repo_organization_name repo_name : String) → KickoffMsg
  gl_msg : (clone_urls : List String) (repo_path_with_namespace : String) → KickoffMsg

-- the property config_key
unfoldable pub config_key : KickoffMsg → String
config_key (ado_msg urls collection project repo) = "adoe"
config_key (bbdc_msg urls key project repo) = "bbdc"
config_key (gh_msg urls organization repo) = "gh"
config_key (gl_msg urls path) = "gl"

-- the property route_urls
unfoldable pub route_urls : KickoffMsg → List String
route_urls (ado_msg urls collection project repo) = urls
route_urls (bbdc_msg urls key project repo) = urls
route_urls (gh_msg urls organization repo) = urls
route_urls (gl_msg urls path) = urls

unfoldable pub get_default_cxone_project_name : KickoffMsg → String
unfolding ado_project_name bbdc_project_name gh_project_name gl_project_name
get_default_cxone_project_name (ado_msg urls collection project repo) =
    ado_project_name collection project repo
get_default_cxone_project_name (bbdc_msg urls key project repo) = bbdc_project_name key project repo
get_default_cxone_project_name (gh_msg urls organization repo) = gh_project_name organization repo
get_default_cxone_project_name (gl_msg urls path) = gl_project_name path

-- ProjectNamingService.get_project_name, of what the script returns, where there is one
unfoldable pub get_project_name : Option (Result (Option String)) → (default_name : String) → String
get_project_name none default_name = default_name
get_project_name (some (ok none)) default_name = default_name
get_project_name (some (ok (some name))) default_name = name
get_project_name (some (raised e)) default_name = default_name
