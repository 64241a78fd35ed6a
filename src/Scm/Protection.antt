-- ===== src/Scm/Protection.antt =====
-- Which branches an event's handling holds for protected, and what follows for the scan.
use text.Mathlib.TextPositions.{eq_refl}
use cxone_flow_buildwork.Prelude.{
  ℕ, zero, suc, ◌<◌, String, ◌==◌, ◌≡◌, refl, Bool, false, ◌||◌, ◌&&◌, some, List, [], ◌∷◌, ◌++◌,
  length-append, length, contains, arith, eq_iff,
}
use cxone_flow_buildwork.Prelude.Run.{ok}
use cxone_flow_buildwork.Scm
use cxone_flow_buildwork.Scm.{ScmCall}
use cxone_flow_buildwork.Scm.Branches.{
  normalize_branch_name, append_if, dedupe, contains-append, contains-dedupe,
}
use cxone_flow_buildwork.Scm.Github
use cxone_flow_buildwork.Scm.Gitlab

-- GitHub: the names on the pages from one to the last, in the order that the pager yields them
unfoldable pub names_of : (ℕ → List String) → (more offset : ℕ) → List String
unfolding Github.pop_all
names_of pages zero offset = Github.pop_all (pages offset)
names_of pages (suc more) offset = Github.pop_all (pages offset) ++ names_of pages more (suc offset)

-- pages of 100 names and then one with fewer
abbrev pub Paged : (ℕ → List String) → (more offset : ℕ) → Type 0
Paged pages zero offset = length (pages offset) < 100
Paged pages (suc more) offset = (length (pages offset) ≡ 100) × Paged pages more (suc offset)

length-pop_all : (xs : List String) → length (Github.pop_all xs) ≡ length xs
unfolding Github.pop_all
length-pop_all [] = refl
length-pop_all (x ∷ xs) =
    omega (arith, length-append {0} (Github.pop_all xs) (x ∷ []), length-pop_all xs)

module _ (env : Github.Environment) (p : Github.Payload) (delegated_scan : Bool)
    (pages : ℕ → List String) (answers : (i : ℕ) → env.page i ≡ ok (some (pages i))) where
  read_branches_lem :
      (more fuel offset : ℕ) (calls : List ScmCall)
      → Paged pages more offset
      → more < fuel
      → (Github.read_branches env p delegated_scan fuel offset calls).0
        ≡ ok (names_of pages more offset)
  unfolding Github.read_branches names_of
  read_branches_lem more zero offset calls full h = absurd (omega arith)
  read_branches_lem zero (suc fuel) offset calls full h =
      ground (arith, answers offset, length-pop_all (pages offset))
  read_branches_lem (suc more) (suc fuel) offset calls full h = ground (
    arith,
    answers offset,
    length-pop_all (pages offset),
    read_branches_lem more fuel (suc offset) (calls ++ Scm.request "branches?protected=True" ∷ [])
        full.1 (omega arith),
  )

  -- GitHub answers 100 protected branches on each page but the last: then the branches held for
  -- protected are all names on the pages, those of each page from its end, and where there is none it
  -- is the default branch. More fuel than full pages is enough.
  pub protected_pages :
      (more : ℕ) {default_branch : String} (calls : List ScmCall)
      → p.default_branch ≡ some default_branch
      → Paged pages more 0
      → more < env.fuel
      → (Github.get_protected_branches env p delegated_scan calls).0
        ≡ ok (elim (names_of pages more 0) [ [] ↦ default_branch ∷ [] | b ∷ bs ↦ b ∷ bs ])
  unfolding Github.get_protected_branches
  protected_pages more calls h full enough =
      grind (arith, read_branches_lem more env.fuel 0 calls full enough)

-- GitLab: a protected name is the branch's own or a wildcard that matches it
abbrev pub protects : (String → String → Bool) → String → String → Bool
protects fnmatch branch pattern = pattern == branch || fnmatch branch pattern

unfoldable pub any_protects : (String → String → Bool) → String → List String → Bool
unfolding normalize_branch_name
any_protects fnmatch branch [] = false
any_protects fnmatch branch (pattern ∷ patterns) =
    protects fnmatch branch (normalize_branch_name pattern) || any_protects fnmatch branch patterns

contains-append_if :
    (b : Bool) (xs : List String) (x y : String)
    → contains y (append_if b xs x) ≡ (contains y xs || (b && y == x))
contains-append_if b xs x y = ground (arith, contains-append y xs (x ∷ []))

module _ (fnmatch : String → String → Bool) (target source : String) where
  -- one round of the loop over the protected names
  one_name :
      (v : String) (branches : List String)
      → contains target (
          append_if
            (fnmatch source v)
            (append_if (fnmatch target v) (branches ++ v ∷ []) target)
            source)
        ≡ (contains target branches || protects fnmatch target v)
  one_name v branches = ground (
    arith,
    contains-append_if (fnmatch source v) (append_if (fnmatch target v) (branches ++ v ∷ []) target)
        source target,
    contains-append_if (fnmatch target v) (branches ++ v ∷ []) target target,
    contains-append target branches (v ∷ []),
    eq_refl target,
    eq_iff v target,
    eq_iff target v,
    eq_iff target source,
  )

  module _ (target_is_plain : normalize_branch_name target ≡ target)
      (source_is_plain : normalize_branch_name source ≡ source) where
    contains-add_protected :
        (branches patterns : List String)
        → contains target (Gitlab.add_protected fnmatch target source branches patterns)
          ≡ (contains target branches || any_protects fnmatch target patterns)
    unfolding Gitlab.add_protected any_protects
    contains-add_protected branches [] = ground arith
    contains-add_protected branches (pattern ∷ patterns) =
        let v = normalize_branch_name pattern in
        let added =
          append_if (fnmatch source v) (append_if (fnmatch target v) (branches ++ v ∷ []) target)
            source in
        rw (target_is_plain, source_is_plain)
          (ground (arith, one_name v branches, contains-add_protected added patterns))

-- GitLab, on an open merge request: the target is among the branches held for protected exactly if it
-- is the default branch that the API answers, or one of the protected names is it or, as a wildcard,
-- matches it. The names of the target and the source are as normalizing leaves them.
pub target_protected_iff :
    (env : Gitlab.Environment) (p : Gitlab.Payload) (target source : String)
    {default_branch : String} {names : List String} (calls : List ScmCall)
    → normalize_branch_name target ≡ target
    → normalize_branch_name source ≡ source
    → env.api_default_branch ≡ ok (some default_branch)
    → env.api_protected_branches ≡ ok names
    → (branches : List String) × ((Gitlab.load_protected env p false target source calls).0
        ≡ ok branches)
      × (contains target branches ≡ (
          target == normalize_branch_name default_branch || any_protects env.fnmatch target names))
unfolding Gitlab.load_protected
target_protected_iff env p target source {default_branch} {names} calls ht hs hd hn =
    let found =
      Gitlab.add_protected env.fnmatch target source (normalize_branch_name default_branch ∷ [])
        names in
    (
      dedupe found,
      ground arith,
      ground (
        arith,
        contains-dedupe target found,
        contains-add_protected env.fnmatch target source ht hs
            (normalize_branch_name default_branch ∷ []) names,
      ),
    )
