-- ===== src/Scm/Branches.antt =====
-- AbstractOrchestrator.normalize_branch_name of orchestration/base.py, and lists as sets of branches.
use Prim.Native.String.{String, count}
use text.Mathlib.TextLemmas.{nil-append, cons-append, length-cons}
use text.Mathlib.TextPositions.{starts_with-append}
use text.Mathlib.Text.{starts_with}
use cxone_flow_buildwork.Prelude.{
  ℕ, zero, suc, ◌<>◌, ◌≡◌, refl, Bool, true, false, ◌||◌, List, [], ◌∷◌, ◌++◌, contains, arith,
  eq_iff, if◌then◌else◌,
}
use cxone_flow_buildwork.Prelude.Texts.{lstrip}

-- .replace("refs/heads/", ""), from the left: the number is what is left of the match being dropped
unfoldable pub drop_ref : ℕ → String → String
drop_ref skip String.[] = String.[]
drop_ref zero (String.◌∷◌ c s) = elim (starts_with (String.◌∷◌ c s) "refs/heads/") [
  | true ↦ drop_ref 10 s
  | false ↦ String.◌∷◌ c (drop_ref 0 s)
]
drop_ref (suc skip) (String.◌∷◌ c s) = drop_ref skip s

unfoldable pub normalize_branch_name : String → String
unfolding lstrip drop_ref
normalize_branch_name branch = drop_ref 0 (lstrip 47 branch)

-- the text has "refs/heads/" in it
unfoldable pub has_ref : String → Bool
has_ref String.[] = false
has_ref (String.◌∷◌ c s) = starts_with (String.◌∷◌ c s) "refs/heads/" || has_ref s

-- set(xs), in some order
unfoldable pub dedupe : List String → List String
dedupe [] = []
dedupe (x ∷ xs) = let rest = dedupe xs in if contains x xs then rest else x ∷ rest

-- `xs.append(x)` under an `if`
abbrev pub append_if : Bool → List String → String → List String
append_if b xs x = if b then xs ++ x ∷ [] else xs

pub contains-dedupe : (x : String) (xs : List String) → contains x (dedupe xs) ≡ contains x xs
unfolding dedupe
contains-dedupe x [] = refl
contains-dedupe x (y ∷ ys) = ground (arith, contains-dedupe x ys, eq_iff x y)

pub contains-append :
    (x : String) (xs ys : List String) → contains x (xs ++ ys) ≡ (contains x xs || contains x ys)
contains-append x [] ys = refl
contains-append x (y ∷ xs) ys = ground (arith, contains-append x xs ys)

pub drop_ref_plain : (name : String) → has_ref name ≡ false → drop_ref 0 name ≡ name
unfolding drop_ref has_ref
drop_ref_plain String.[] h = refl
drop_ref_plain (String.◌∷◌ c s) h = ground (arith, drop_ref_plain s)

ref_cons : (name : String) → "refs/heads/" <> name ≡ String.◌∷◌ "r" ("efs/heads/" <> name)
ref_cons name = cons-append "r" "efs/heads/" name

-- what is left of a match is dropped
drop_rest : (rest name : String) → drop_ref (count rest) (rest <> name) ≡ drop_ref 0 name
unfolding drop_ref
drop_rest String.[] name = rw (nil-append name)
drop_rest (String.◌∷◌ c rest) name =
    rw (length-cons c rest, cons-append c rest name) (drop_rest rest name)

-- The branch that a full reference names is normalized to its name, where the name does not have
-- "refs/heads/" in it.
pub normalize_ref :
    (name : String) → has_ref name ≡ false → normalize_branch_name ("refs/heads/" <> name) ≡ name
unfolding normalize_branch_name
normalize_ref name h =
    let starts = starts_with-append "refs/heads/" name in
    ground (arith, ref_cons name, starts, drop_rest "efs/heads/" name, drop_ref_plain name h)
