-- ===== src/Prelude/Texts.antt =====
-- Python's operations on texts that the code calls: `split` with a separator of one character, the
-- last part of it, `lstrip`, `rstrip` and `replace` as far as they are used.
use Prim.Native.Char.{Char, code}
use Prim.Native.Nat.{ℕ, ◌+◌}
use Prim.Native.String.{String}
use mathlib.Core.Path.{◌≡◌, refl}
use mathlib.Core.Bool.{Bool, true, false, ◌||◌, ◌&&◌}
use mathlib.Core.List.{List, [], ◌∷◌}
use native.Mathlib.Omega.{arith}
use cxone_flow_buildwork.Prelude.Tests.{nat_beq, leb, if◌then◌else◌}
use cxone_flow_buildwork.Prelude.Lists.{All}

-- whether the character with this code is in the text
unfoldable pub has_code : ℕ → String → Bool
has_code k String.[] = false
has_code k (String.◌∷◌ c s) = nat_beq (code c) k || has_code k s

-- one more character before the first part, or a new part
unfoldable pub grow : Bool → Char → List String → List String
grow true c parts = String.[] ∷ parts
grow false c [] = String.◌∷◌ c String.[] ∷ []
grow false c (part ∷ parts) = String.◌∷◌ c part ∷ parts

-- s.split(sep)
unfoldable pub split : ℕ → String → List String
unfolding grow
split sep String.[] = String.[] ∷ []
split sep (String.◌∷◌ c s) = grow (nat_beq (code c) sep) c (split sep s)

-- xs[-1:].pop(), where xs is not empty
unfoldable pub last_part : String → List String → String
last_part first [] = first
last_part first (x ∷ xs) = last_part x xs

-- s.lstrip(c), for the code of c
unfoldable pub lstrip : ℕ → String → String
lstrip k String.[] = String.[]
lstrip k (String.◌∷◌ c s) =
    let rest = lstrip k s in if nat_beq (code c) k then rest else String.◌∷◌ c s

abbrev or_nothing : Bool → Char → String → String
or_nothing true c String.[] = String.[]
or_nothing _ c s = String.◌∷◌ c s

-- s.rstrip(c), for the code of c
unfoldable pub rstrip : ℕ → String → String
rstrip k String.[] = String.[]
rstrip k (String.◌∷◌ c s) = or_nothing (nat_beq (code c) k) c (rstrip k s)

abbrev lower_code : Char → ℕ
lower_code c = if leb 65 (code c) && leb (code c) 90 then code c + 32 else code c

-- s.lower() == word, for the codes of a word
unfoldable pub lower_equals : List ℕ → String → Bool
lower_equals [] String.[] = true
lower_equals [] (String.◌∷◌ c s) = false
lower_equals (k ∷ ks) String.[] = false
lower_equals (k ∷ ks) (String.◌∷◌ c s) = nat_beq (lower_code c) k && lower_equals ks s

abbrev pub Lacks : ℕ → String → Type 0
Lacks k s = has_code k s ≡ false

grow-Lacks :
    (sep : ℕ) (b : Bool) (c : Char) (parts : List String)
    → nat_beq (code c) sep ≡ b
    → All (Lacks sep) parts
    → All (Lacks sep) (grow b c parts)
unfolding grow has_code
grow-Lacks sep true c parts e h = (refl, h)
grow-Lacks sep false c [] e h = (ground arith, tt)
grow-Lacks sep false c (p ∷ ps) e h = (ground (arith, h.0), h.1)

pub split-Lacks : (sep : ℕ) (s : String) → All (Lacks sep) (split sep s)
unfolding split has_code
split-Lacks sep String.[] = (refl, tt)
split-Lacks sep (String.◌∷◌ c s) =
    grow-Lacks sep (nat_beq (code c) sep) c (split sep s) refl (split-Lacks sep s)

-- The last part of a text lacks the character that the text is split at.
pub last_part-Lacks :
    (sep : ℕ) (first : String) (parts : List String)
    → Lacks sep first
    → All (Lacks sep) parts
    → Lacks sep (last_part first parts)
unfolding last_part
last_part-Lacks sep first [] h hs = h
last_part-Lacks sep first (x ∷ xs) h hs = last_part-Lacks sep x xs hs.0 hs.1
