-- ===== src/Cxone/Project/Tags.antt =====
-- The tags of a project that is brought up to date.
use cxone_flow_buildwork.Prelude.{
  String, ◌==◌, eq_iff, ◌≡◌, refl, false, none, some, [], ◌∷◌, arith,
}
use cxone_flow_buildwork.Prelude.Dict.{Dict, get, get-put, get-update, IsDict, has_key-eq-true}
use cxone_flow_buildwork.Cxone.Project.{Service, missing_tags, new_tags, merged_tags}

get-missing_tags :
    (defaults tags : Dict String) (k : String)
    → get tags k ≡ none
    → get (missing_tags defaults tags) k ≡ get defaults k
unfolding missing_tags get
get-missing_tags [] tags k h = refl
get-missing_tags ((j, v) ∷ defaults) tags k h =
    ground (arith, get-missing_tags defaults tags k h, eq_iff j k, has_key-eq-true tags k)

-- Bringing a project up to date never changes a tag that it has.
pub tag_is_kept :
    (s : Service) (tags : Dict String) (k v : String)
    → IsDict tags
    → get tags k ≡ some v
    → get (merged_tags s tags) k ≡ some v
unfolding merged_tags
tag_is_kept s tags k v h e = ground (arith, get-update (new_tags s tags) tags k h)

-- A default tag other than `service` that a project lacks is added with its default value.
pub default_tag_is_added :
    (s : Service) (tags : Dict String) (k v : String)
    → IsDict tags
    → get tags k ≡ none
    → (k == "service") ≡ false
    → get s.default_project_tags k ≡ some v
    → get (merged_tags s tags) k ≡ some v
unfolding merged_tags new_tags
default_tag_is_added s tags k v h absent other e = ground (
  arith,
  get-update (new_tags s tags) tags k h,
  get-missing_tags s.default_project_tags tags k absent,
  get-put (missing_tags s.default_project_tags tags) "service" k s.moniker,
  eq_iff "service" k,
  eq_iff k "service",
)
