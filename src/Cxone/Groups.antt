-- ===== src/Cxone/Groups.antt =====
-- GroupingService: the ids of CheckmarxOne groups by path, cached, and the errors of each path.
use cxone_flow_buildwork.Prelude.{
  ℕ, suc, String, ◌==◌, eq_iff, ◌≡◌, Bool, true, false, Option, none, some, List, [], ◌∷◌, ◌++◌,
  arith, if◌then◌else◌,
}
use cxone_flow_buildwork.Prelude.Dict.{
  Dict, get, has_key, put, remove, get-put, has_key-eq-false, has_key-eq-true,
}
use cxone_flow_buildwork.Prelude.Run.{Result, ok, raised}

-- One group of an answer: its name and its id.
abbrev pub GroupDef : Type 0
GroupDef = String × String

-- __groupid_index, __path_res_errors, and the searches made
pub record Cache : Type 0 where
  pub index : Dict String
  pub errors : Dict ℕ
  pub searches : List String

abbrev pub one_more : Option ℕ → ℕ
one_more none = 1
one_more (some n) = suc n

-- __increment_error
unfoldable pub increment_error : String → Cache → Cache
unfolding get put
increment_error path c = record c { errors = put c.errors path (one_more (get c.errors path)) }

-- `for gdef in group_defs: if gdef['name'] == path: …; break`
unfoldable pub remember : String → List GroupDef → Cache → Cache
unfolding put
remember path [] c = c
remember path ((name, id) ∷ defs) c =
    let rest = remember path defs c in
    if name == path then record c { index = put c.index path id } else rest

errors-increment_error :
    (path : String) (c : Cache)
    → get (increment_error path c).errors path ≡ some (one_more (get c.errors path))
unfolding increment_error
errors-increment_error path c =
    ground (arith, get-put c.errors path path (one_more (get c.errors path)), eq_iff path path)

module _ (search : String → Result (List GroupDef)) where
  -- What the search for one path does. An empty answer goes on with the next path at once, and so
  -- the result says whether the lines after the lock run.
  abbrev searched : String → Result (List GroupDef) → Cache → Bool × Cache
  searched path (raised e) c = (true, increment_error path c)
  searched path (ok []) c = (false, increment_error path c)
  searched path (ok defs) c = (true, remember path defs c)

  abbrev note_search : String → Cache → Cache
  note_search path c = record c { searches = c.searches ++ path ∷ [] }

  abbrev look_up : String → Cache → Bool × Cache
  look_up path c =
      if has_key c.index path then (true, c) else searched path (search path) (note_search path c)

  -- the last lines of the loop: the id if there is one, and the errors forgotten
  abbrev take_id : String → Bool × Cache → Option String × Cache
  take_id path (false, c) = (none, c)
  take_id path (true, c) = elim (get c.index path) [
    | none ↦ (none, c)
    | some id ↦
        (some id, if has_key c.errors path then record c { errors = remove c.errors path } else c)
  ]

  unfoldable pub resolve_group_id : String → Cache → Option String × Cache
  unfolding get has_key remove increment_error remember
  resolve_group_id path c = take_id path (look_up path c)

  abbrev add : Option String → List String → List String
  add none ids = ids
  add (some id) ids = id ∷ ids

  -- __resolve_group_ids
  unfoldable pub resolve_group_ids : List String → Cache → List String × Cache
  unfolding resolve_group_id
  resolve_group_ids [] c = ([], c)
  resolve_group_ids (path ∷ paths) c =
      let (id, c') = resolve_group_id path c in
      let (ids, c'') = resolve_group_ids paths c' in (add id ids, c'')

  -- A path whose id is cached is resolved without a search, to that id.
  pub cached_group :
      (path id : String) (c : Cache)
      → get c.index path ≡ some id
      → ((resolve_group_id path c).0 ≡ some id)
        × ((resolve_group_id path c).1.searches ≡ c.searches)
        × ((resolve_group_id path c).1.index ≡ c.index)
  unfolding resolve_group_id
  cached_group path id c h = ground (arith, has_key-eq-false c.index path)

  -- An id that is found for a path is then in the cache, so that the next search for it is saved.
  pub resolved_is_cached :
      (path id : String) (c : Cache)
      → (resolve_group_id path c).0 ≡ some id
      → get (resolve_group_id path c).1.index path ≡ some id
  unfolding resolve_group_id
  resolved_is_cached path id c h = ground arith

  -- A search that fails or finds no group counts one error for the path and resolves nothing.
  pub failed_search :
      (path : String) (c : Cache)
      → get c.index path ≡ none
      → search path ≡ ok []
      → ((resolve_group_id path c).0 ≡ none)
        × (get (resolve_group_id path c).1.errors path ≡ some (one_more (get c.errors path)))
  unfolding resolve_group_id
  failed_search path c h k =
      ground (
        arith,
        h,
        k,
        has_key-eq-true c.index path,
        errors-increment_error path (note_search path c),
      )
