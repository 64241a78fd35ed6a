-- ===== src/Decoration/Insertion.antt =====
-- An insertion into a sorted list, which meets what is asked of SortedList.add.
use Prim.Native.String.{compare}
use Prim.Native.String.compare
use mathlib.Core.List.Perm
use mathlib.Core.List.{Perm}
use text.Mathlib.Text.{is_le}
use cxone_flow_buildwork.Prelude.{
  String, ◌≡◌, true, false, List, [], ◌∷◌, All, arith, Bool-cases, inl, inr, if◌then◌else◌,
}
use cxone_flow_buildwork.Decoration.{Row, SortedList}
use cxone_flow_buildwork.Decoration.Rows.{Sorted, IsSortedList}

leq_total : (s t : String) → is_le (compare s t) ≡ false → is_le (compare t s) ≡ true
leq_total String.[] String.[] h = ground (arith, compare.nil-nil)
leq_total String.[] (String.◌∷◌ d t) h = ground (arith, compare.nil-cons d t)
leq_total (String.◌∷◌ c s) String.[] h = ground (arith, compare.nil-cons c s)
leq_total (String.◌∷◌ c s) (String.◌∷◌ d t) h =
    ground (arith, leq_total s t, compare.cons-cons c d s t, compare.cons-cons d c t s)

leq_trans :
    (s t u : String)
    → is_le (compare s t) ≡ true
    → is_le (compare t u) ≡ true
    → is_le (compare s u) ≡ true
leq_trans String.[] t String.[] h k = ground (arith, compare.nil-nil)
leq_trans String.[] t (String.◌∷◌ e u) h k = ground (arith, compare.nil-cons e u)
leq_trans (String.◌∷◌ c s) String.[] u h k = ground (arith, compare.cons-nil c s)
leq_trans (String.◌∷◌ c s) (String.◌∷◌ d t) String.[] h k = ground (arith, compare.cons-nil d t)
leq_trans (String.◌∷◌ c s) (String.◌∷◌ d t) (String.◌∷◌ e u) h k = ground (
  arith,
  leq_trans s t u,
  compare.cons-cons c d s t,
  compare.cons-cons d e t u,
  compare.cons-cons c e s u,
)

-- after the rows whose keys are not greater
unfoldable pub insert : Row → List Row → List Row
insert row [] = row ∷ []
insert row (r ∷ rows) =
    let rest = insert row rows in if is_le (compare r.key row.key) then r ∷ rest else row ∷ r ∷ rows

abbrev pub insertion : SortedList
insertion = record { add = insert }

insert-Perm : (row : Row) (rows : List Row) → Perm (insert row rows) (row ∷ rows)
unfolding insert
insert-Perm row [] = Perm.refl _
insert-Perm row (r ∷ rows) = elim (Bool-cases (is_le (compare r.key row.key))) [
  | inl later ↦ rw later (Perm.trans (Perm.cons r (insert-Perm row rows)) (Perm.swap row r rows))
  | inr here ↦ rw here (Perm.refl _)
]

-- below a key
abbrev Below : String → List Row → Type 0
Below key rows = All (λ (later : Row). is_le (compare key later.key) ≡ true) rows

Below-trans :
    (k l : String) (rows : List Row) → is_le (compare k l) ≡ true → Below l rows → Below k rows
Below-trans k l [] h below = tt
Below-trans k l (r ∷ rows) h below = (leq_trans k l r.key h below.0, Below-trans k l rows h below.1)

Below-insert :
    (k : String) (row : Row) (rows : List Row)
    → is_le (compare k row.key) ≡ true
    → Below k rows
    → Below k (insert row rows)
unfolding insert
Below-insert k row [] h below = (h, tt)
Below-insert k row (r ∷ rows) h below = elim (Bool-cases (is_le (compare r.key row.key))) [
  | inl later ↦ rw later (below.0, Below-insert k row rows h below.1)
  | inr here ↦ rw here (h, below)
]

insert-Sorted : (row : Row) (rows : List Row) → Sorted rows → Sorted (insert row rows)
unfolding insert
insert-Sorted row [] sorted = (tt, tt)
insert-Sorted row (r ∷ rows) sorted = elim (Bool-cases (is_le (compare r.key row.key))) [
  | inl later ↦
      rw later (Below-insert r.key row rows later sorted.0, insert-Sorted row rows sorted.1)
  | inr here ↦
      let less = leq_total r.key row.key here in
      rw here ((less, Below-trans row.key r.key rows less sorted.0), sorted)
]

pub insertion-IsSortedList : IsSortedList insertion
insertion-IsSortedList = record { add-Perm = insert-Perm; add-Sorted = insert-Sorted }
