-- ===== src/Cxone/Scans.antt =====
-- CxOneService.update_scan_pr_tags and find_pr_scans: the scans of one pull request among those of a
-- commit, which the pager lists.
use cxone_flow_buildwork.Prelude.{
  String, ◌==◌, ◌≡◌, refl, Bool, true, false, Option, none, some, List, [], ◌∷◌, ◌++◌, arith,
  if◌then◌else◌,
}
use cxone_flow_buildwork.Prelude.Dict.{Dict, get, put, get-put}
use cxone_flow_buildwork.Prelude.Run.{Result, ok, Run, pure, call, ◌>>=◌}

pub record Scan : Type 0 where
  pub id : String
  pub tags : Dict String

-- update_scan_tags(client, id, {"tags" : …})
pub data Act : Type 0 where
  update_scan_tags : (id : String) → Dict String → Act

abbrev is_pr_id : Option String → String → Bool
is_pr_id none by_pr_id = false
is_pr_id (some pr_id) by_pr_id = pr_id == by_pr_id

-- `PR_ID_TAG in scan['tags'] and str(…) == by_pr_id`
unfoldable pub is_of_pr : Scan → String → Bool
unfolding get
is_of_pr scan by_pr_id = is_pr_id (get scan.tags "pr-id") by_pr_id

unfoldable pub find_pr_scans : List Scan → String → List String
unfolding is_of_pr
find_pr_scans [] by_pr_id = []
find_pr_scans (scan ∷ scans) by_pr_id =
    let rest = find_pr_scans scans by_pr_id in
    if is_of_pr scan by_pr_id then scan.id ∷ rest else rest

module _ (target state status : String) where
  unfoldable pub updated_tags : Dict String → Dict String
  unfolding put
  updated_tags tags = put (put (put tags "pr-target" target) "pr-state" state) "pr-status" status

  -- `responses` says of each scan whether the update's response is a success
  unfoldable pub update_scan_pr_tags :
      (String → Result Bool) → List Scan → String → Run (List Act) (List String)
  unfolding is_of_pr updated_tags
  update_scan_pr_tags responses [] by_pr_id = pure []
  update_scan_pr_tags responses (scan ∷ scans) by_pr_id =
      let rest = update_scan_pr_tags responses scans by_pr_id in
      if is_of_pr scan by_pr_id
      then (do
        updated ← call (update_scan_tags scan.id (updated_tags scan.tags)) (responses scan.id)
        scans_updated ← rest
        pure (if updated then scan.id ∷ scans_updated else scans_updated))
      else rest

  -- The scans that are updated where every update succeeds are those that find_pr_scans names, in
  -- the same order.
  pub updates_what_it_finds :
      (responses : String → Result Bool) (scans : List Scan) (by_pr_id : String) (acts : List Act)
      → ((id : String) → responses id ≡ ok true)
      → (update_scan_pr_tags responses scans by_pr_id acts).0 ≡ ok (find_pr_scans scans by_pr_id)
  unfolding update_scan_pr_tags find_pr_scans
  updates_what_it_finds responses [] by_pr_id acts h = refl
  updates_what_it_finds responses (scan ∷ scans) by_pr_id acts h = ground (
    arith,
    h scan.id,
    updates_what_it_finds responses scans by_pr_id acts h,
    updates_what_it_finds responses scans by_pr_id
        (acts ++ update_scan_tags scan.id (updated_tags scan.tags) ∷ []) h,
  )

  -- An update sets the target, the state and the status, and leaves each other tag as it is.
  pub updated_tags_lem :
      (tags : Dict String) (k : String)
      → (get (updated_tags tags) "pr-target" ≡ some target)
        × (get (updated_tags tags) "pr-state" ≡ some state)
        × (get (updated_tags tags) "pr-status" ≡ some status)
        × (get (updated_tags tags) k ≡ (
            if "pr-status" == k
            then some status
            else if "pr-state" == k
            then some state
            else if "pr-target" == k
            then some target
            else get tags k))
  unfolding updated_tags
  updated_tags_lem tags k = (
    grind (arith, get-put),
    grind (arith, get-put),
    grind (arith, get-put),
    grind (arith, get-put),
  )
