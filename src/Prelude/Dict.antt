-- ===== src/Prelude/Dict.antt =====
-- Python's `dict` with text keys, in insertion order: a write to a key that is there keeps its place.
use Prim.Native.String.{String}
use mathlib.Core.Path.{◌≡◌, refl}
use mathlib.Core.Bool.{Bool, true, false, ◌||◌}
use mathlib.Core.Option.{Option, none, some}
use mathlib.Core.List.{List, [], ◌∷◌}
use native.Mathlib.Omega.{arith}
use text.Mathlib.Text.{◌==◌}
use text.Mathlib.TextEquality.{eq_iff}
use cxone_flow_buildwork.Prelude.Tests.{Bool-cases, if◌then◌else◌}
use mathlib.Core.Logic.{inl, inr}

abbrev pub Dict {ℓ} : Type ℓ → Type ℓ
Dict V = List (String × V)

module _ {ℓ} {V : Type ℓ} where
  -- d.get(k)
  unfoldable pub get : Dict V → String → Option V
  get [] k = none
  get ((j, v) ∷ d) k = if j == k then some v else get d k

  -- k in d.keys()
  unfoldable pub has_key : Dict V → String → Bool
  has_key [] k = false
  has_key ((j, v) ∷ d) k = j == k || has_key d k

  -- d[k] = v
  unfoldable pub put : Dict V → String → V → Dict V
  put [] k v = (k, v) ∷ []
  put ((j, w) ∷ d) k v = let rest = put d k v in if j == k then (j, v) ∷ d else (j, w) ∷ rest

  -- del d[k], where the key is there
  unfoldable pub remove : Dict V → String → Dict V
  remove [] k = []
  remove ((j, w) ∷ d) k = let rest = remove d k in if j == k then rest else (j, w) ∷ rest

  -- d | e, and d.update(e): the right side wins
  unfoldable pub update : Dict V → Dict V → Dict V
  update d [] = d
  update d ((k, v) ∷ e) = update (put d k v) e

  pub get-put :
      (d : Dict V) (k j : String) (v : V) → get (put d k v) j ≡ (if k == j then some v else get d j)
  unfolding get put
  get-put [] k j v = refl
  get-put ((i, w) ∷ d) k j v = ground (arith, get-put d k j v, eq_iff i k, eq_iff i j, eq_iff k j)

  pub get-remove :
      (d : Dict V) (k j : String) → get (remove d k) j ≡ (if k == j then none else get d j)
  unfolding get remove
  get-remove [] k j = ground arith
  get-remove ((i, w) ∷ d) k j = ground (arith, get-remove d k j, eq_iff i k, eq_iff i j, eq_iff k j)

  pub has_key-eq-false : (d : Dict V) (k : String) → has_key d k ≡ false → get d k ≡ none
  unfolding get has_key
  has_key-eq-false [] k h = refl
  has_key-eq-false ((j, v) ∷ d) k h = ground (arith, has_key-eq-false d k)

  pub has_key-eq-true :
      (d : Dict V) (k : String) → has_key d k ≡ true → (v : V) × (get d k ≡ some v)
  unfolding get has_key
  has_key-eq-true [] k h = cc
  has_key-eq-true ((j, v) ∷ d) k h = elim (Bool-cases (j == k)) [
    | inl same ↦ (v, ground arith)
    | inr other ↦ let (w, e) = has_key-eq-true d k (ground arith) in (w, ground arith)
  ]

  -- A dict has each key once.
  abbrev pub IsDict : Dict V → Type 0
  IsDict [] = Unit {0}
  IsDict ((k, v) ∷ d) = (has_key d k ≡ false) × IsDict d

  abbrev pub or_else : Option V → Option V → Option V
  or_else none p = p
  or_else (some v) p = some v

  pub get-update :
      (d e : Dict V) (k : String) → IsDict e → get (update d e) k ≡ or_else (get e k) (get d k)
  unfolding get update
  get-update d [] k h = refl
  get-update d ((j, v) ∷ e) k h =
      ground (
        arith,
        get-update (put d j v) e k h.1,
        get-put d j k v,
        has_key-eq-false e j h.0,
        eq_iff j k,
      )
