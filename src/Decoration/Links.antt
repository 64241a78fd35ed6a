-- ===== src/Decoration/Links.antt =====
-- The link of a resolved result (workflows/pr.py).
use text.Mathlib.TextLemmas.{nil-append, cons-append}
use mathlib.Core.Path.{subst}
use Prim.Native.Char.{Char, code}
use cxone_flow_buildwork.Prelude.{
  nat_beq, String, ◌==◌, ◌<>◌, ◌≡◌, refl, Bool, true, false, List, [], ◌∷◌, All, arith, eq_iff,
  Bool-cases, inl, inr,
}
use cxone_flow_buildwork.Prelude.Texts.{
  Lacks, has_code, grow, split, split-Lacks, last_part, last_part-Lacks,
}
use cxone_flow_buildwork.Decoration.{join}
use cxone_flow_buildwork.Decoration.Report.{
  insert_before_last, without_last, fix_components, fix_path,
}

-- a component before two more is left where it is
fix_later :
    (p x y z : String) (rest : List String)
    → fix_components p (x ∷ y ∷ z ∷ rest) ≡ x ∷ fix_components p (y ∷ z ∷ rest)
unfolding fix_components insert_before_last without_last last_part
fix_later p x y z [] = ground arith
fix_later p x y z (w ∷ rest) = ground arith

insert-cons :
    (p : String) (xs : List String)
    → (a : String) × (r : List String) × (insert_before_last p xs ≡ a ∷ r)
unfolding insert_before_last
insert-cons p [] = (p, [], refl)
insert-cons p (x ∷ []) = (p, x ∷ [], refl)
insert-cons p (x ∷ y ∷ rest) = (x, insert_before_last p (y ∷ rest), refl)

-- two components stay at least two
fix-cons :
    (p y z : String) (rest : List String)
    → (a b : String) × (r : List String) × (fix_components p (y ∷ z ∷ rest) ≡ a ∷ b ∷ r)
unfolding fix_components last_part insert_before_last without_last
fix-cons p y z [] = elim (Bool-cases (z == p)) [
  | inl moved ↦ (p, y, [], ground arith)
  | inr kept ↦ (y, z, [], ground arith)
]
fix-cons p y z (w ∷ rest) = elim (Bool-cases (last_part w rest == p)) [
  | inl moved ↦
      let (a, r, e) = insert-cons p (z ∷ without_last (w ∷ rest)) in (y, a, r, ground (arith, e))
  | inr kept ↦ (y, z, w ∷ rest, ground arith)
]

fix-fix_later :
    (p x y z : String) (rest : List String)
    → fix_components p (fix_components p (y ∷ z ∷ rest)) ≡ fix_components p (y ∷ z ∷ rest)
    → fix_components p (fix_components p (x ∷ y ∷ z ∷ rest)) ≡ fix_components p (x ∷ y ∷ z ∷ rest)
fix-fix_later p x y z rest ih =
    let (a, b, r, e) = fix-cons p y z rest in
    cc (fix_later p x y z rest, e, fix_later p x a b r, ih)

fix-fix :
    (p : String) (xs : List String) → fix_components p (fix_components p xs) ≡ fix_components p xs
unfolding fix_components insert_before_last without_last last_part
fix-fix p [] = ground arith
fix-fix p (x ∷ []) = ground (arith, eq_iff x p)
fix-fix p (x ∷ y ∷ []) = ground (arith, eq_iff y p, eq_iff x p)
fix-fix p (x ∷ y ∷ z ∷ rest) = fix-fix_later p x y z rest (fix-fix p (y ∷ z ∷ rest))

-- Components that lack the slash, joined, are split into themselves.
split-plain : (x : String) → Lacks 47 x → split 47 x ≡ x ∷ []
unfolding split grow has_code
split-plain String.[] h = refl
split-plain (String.◌∷◌ c s) h = ground (arith, split-plain s)

split-cons : (x s : String) → Lacks 47 x → split 47 (x <> ("/" <> s)) ≡ x ∷ split 47 s
unfolding split grow has_code
split-cons String.[] s h = rw (nil-append ("/" <> s), cons-append "/" "" s, nil-append s) refl
split-cons (String.◌∷◌ c x) s h = rw (cons-append c x ("/" <> s)) (ground (arith, split-cons x s))

split-join :
    (x : String) (xs : List String)
    → All (Lacks 47) (x ∷ xs)
    → split 47 (join "/" (x ∷ xs)) ≡ x ∷ xs
unfolding join
split-join x [] h = split-plain x h.0
split-join x (y ∷ ys) h = cc (split-cons x (join "/" (y ∷ ys)) h.0, split-join y ys h.1)

insert-Lacks :
    (p : String) (xs : List String)
    → Lacks 47 p
    → All (Lacks 47) xs
    → All (Lacks 47) (insert_before_last p xs)
unfolding insert_before_last
insert-Lacks p [] hp h = (hp, tt)
insert-Lacks p (x ∷ []) hp h = (hp, h)
insert-Lacks p (x ∷ y ∷ rest) hp h = (h.0, insert-Lacks p (y ∷ rest) hp h.1)

without_last-Lacks : (xs : List String) → All (Lacks 47) xs → All (Lacks 47) (without_last xs)
unfolding without_last
without_last-Lacks [] h = tt
without_last-Lacks (x ∷ []) h = tt
without_last-Lacks (x ∷ y ∷ rest) h = (h.0, without_last-Lacks (y ∷ rest) h.1)

fix-Lacks :
    (p : String) (xs : List String) → All (Lacks 47) xs → All (Lacks 47) (fix_components p xs)
unfolding fix_components has_code
fix-Lacks p xs h = elim (Bool-cases (last_part "" xs == p)) [
  | inl moved ↦
      let same = (eq_iff (last_part "" xs) p).0 moved in
      let hp = subst (Lacks 47) same (last_part-Lacks 47 "" xs refl h) in
      rw moved (insert-Lacks p (without_last xs) hp (without_last-Lacks xs h))
  | inr kept ↦ rw kept h
]

grow_nonempty :
    (b : Bool) (c : Char) (parts : List String)
    → (a : String) × (r : List String) × (grow b c parts ≡ a ∷ r)
unfolding grow
grow_nonempty true c parts = ("", parts, refl)
grow_nonempty false c [] = (String.◌∷◌ c "", [], refl)
grow_nonempty false c (p ∷ ps) = (String.◌∷◌ c p, ps, refl)

split_nonempty : (s : String) → (a : String) × (r : List String) × (split 47 s ≡ a ∷ r)
unfolding split grow
split_nonempty String.[] = ("", [], refl)
split_nonempty (String.◌∷◌ c s) = grow_nonempty (nat_beq (code c) 47) c (split 47 s)

fix_nonempty :
    (p : String) (xs : List String) (a : String) (r : List String)
    → xs ≡ a ∷ r
    → (b : String) × (s : List String) × (fix_components p xs ≡ b ∷ s)
unfolding fix_components
fix_nonempty p xs a r e = elim (Bool-cases (last_part "" xs == p)) [
  | inl moved ↦ let (b, s, e') = insert-cons p (without_last xs) in (b, s, rw moved e')
  | inr kept ↦ (a, r, rw kept e)
]

-- Fixing the path of a link that is fixed already changes nothing: whatever the path and the
-- project's id are, fixing twice is fixing once.
pub fix_path_idem :
    (project_id path : String)
    → fix_path project_id (fix_path project_id path) ≡ fix_path project_id path
unfolding fix_path
fix_path_idem p path =
    let xs = fix_components p (split 47 path) in
    let (a, r, e) = split_nonempty path in
    let (b, s, e') = fix_nonempty p (split 47 path) a r e in
    let lacks = subst (All (Lacks 47)) e' (fix-Lacks p (split 47 path) (split-Lacks 47 path)) in
    cc (e', split-join b s lacks, fix-fix p (split 47 path))
