-- ===== src/Logging.antt =====
-- The redaction of secrets in cxoneflow_logging/__init__.py: SecretRegistry and RedactingStreamHandler. A
-- text is its list of characters. Given are the comparison of characters that ignores case, and what
-- `__default_regex` matches at a place, which depends on the text from there on.
pub mod Masking
pub mod Stars
pub mod Survival
mod Examples
use Prim.Native.Char.{Char, code}
use cxone_flow_buildwork.Prelude.{
  ℕ, zero, suc, ◌+◌, ◌-◌, ltb, nat_beq, Bool, true, false, not, ◌&&◌, ◌||◌, Option, none, some,
  List, [], ◌∷◌, ◌++◌, length, if◌then◌else◌,
}
use cxone_flow_buildwork.Prelude.Slices.{take, drop, replicate}

abbrev pub Text : Type 0
Text = List Char

abbrev pub star : Char
star = "*"

abbrev backslash : Char
backslash = "\\"

-- The characters that re.escape puts a backslash before.
abbrev special_codes : List ℕ
special_codes =
    9 ∷ 10 ∷ 11 ∷ 12 ∷ 13 ∷ 32 ∷ 35 ∷ 36 ∷ 38 ∷ 40 ∷ 41 ∷ 42 ∷ 43 ∷ 45 ∷ 46 ∷ 63 ∷ 91 ∷ 92 ∷ 93 ∷ 94
    ∷ 123 ∷ 124 ∷ 125 ∷ 126 ∷ []

abbrev one_of : ℕ → List ℕ → Bool
one_of k [] = false
one_of k (j ∷ js) = nat_beq k j || one_of k js

unfoldable pub escape : Text → Text
escape [] = []
escape (c ∷ cs) =
    let rest = escape cs in if one_of (code c) special_codes then backslash ∷ c ∷ rest else c ∷ rest

-- secret.replace("\n", "").replace("\r", "")
unfoldable pub one_line : Text → Text
one_line [] = []
one_line (c ∷ cs) =
    let rest = one_line cs in if nat_beq (code c) 10 || nat_beq (code c) 13 then rest else c ∷ rest

abbrev pub same_text : Text → Text → Bool
same_text [] [] = true
same_text (c ∷ cs) (d ∷ ds) = nat_beq (code c) (code d) && same_text cs ds
same_text _ _ = false

-- `secret in __secrets`, whose members are escaped
unfoldable pub is_member : Text → List Text → Bool
unfolding escape
is_member secret [] = false
is_member secret (s ∷ secrets) = same_text secret (escape s) || is_member secret secrets

-- register: a registry is the list of the texts whose escaped forms are in `__secrets`
unfoldable pub register : Option Text → List Text → List Text
unfolding is_member one_line
register none secrets = secrets
register (some secret) secrets =
    if is_member secret secrets then secrets else secrets ++ one_line secret ∷ []

-- What the default regular expression matches: a header, then the group `secret`, then one more
-- character at most.
pub record Header : Type 0 where
  pub header : ℕ
  pub secret : ℕ
  pub total : ℕ

-- m.start and m.end of the two groups, where they take part in the match
pub record Match : Type 0 where
  pub secret : Option (ℕ × ℕ)
  pub any : Option (ℕ × ℕ)

module _ (same : Char → Char → Bool) (header : Text → Option Header) where
  -- an escaped text matches itself, without regard to case
  unfoldable pub is_prefix : Text → Text → Bool
  is_prefix [] msg = true
  is_prefix (c ∷ cs) [] = false
  is_prefix (c ∷ cs) (d ∷ msg) = same c d && is_prefix cs msg

  -- `s1|s2|…` at a place: the length of the first text that matches. After an empty match at the
  -- place, only one that is not empty counts.
  unfoldable pub alternative : (nonempty : Bool) → List Text → Text → Option ℕ
  unfolding is_prefix
  alternative nonempty [] msg = none
  alternative nonempty (s ∷ secrets) msg =
      let rest = alternative nonempty secrets msg in
      if is_prefix s msg && (not nonempty || ltb 0 (length s)) then some (length s) else rest

  -- a match that is not empty: where it masks, from the place on, and its length
  pub record Found : Type 0 where
    pub skip : ℕ
    pub size : ℕ
    pub total : ℕ
    pub groups : ℕ → Match

  abbrev pub literal_found : ℕ → Found
  literal_found n = record {
    skip = 0;
    size = n;
    total = n;
    groups = λ pos. record { secret = none; any = some (pos, pos + n) };
  }

  abbrev pub header_found : Header → Found
  header_found h = record {
    skip = h.header;
    size = h.secret;
    total = h.total;
    groups =
        λ pos. record { secret = some (pos + h.header, pos + (h.header + h.secret)); any = none };
  }

  abbrev pub found_of : Option Header → Option ℕ → Option Found
  found_of (some h) n = some (header_found h)
  found_of none none = none
  found_of none (some n) = some (literal_found n)

  unfoldable pub match_at : List Text → Text → Option Found
  unfolding alternative
  match_at secrets msg = found_of (header msg) (alternative true secrets msg)

  abbrev pub empty_match : ℕ → Option Header → Option ℕ → List Match
  empty_match pos none (some zero) = record { secret = none; any = some (pos, pos) } ∷ []
  empty_match pos h n = []

  -- the empty match that finditer gives before any other at the place
  unfoldable pub empties : List Text → Text → ℕ → List Match
  unfolding alternative
  empties secrets msg pos = empty_match pos (header msg) (alternative false secrets msg)

  abbrev pub next_matches : Option Found → ℕ → (ℕ → ℕ → List Match) → List Match
  next_matches none pos after = after zero (suc pos)
  next_matches (some found) pos after = found.groups pos ∷ after (found.total - 1) (suc pos)

  -- __compiled_regex.finditer(logmsg), from a place on, after the rest of the match before it
  unfoldable pub finditer : List Text → Text → (rest_of_match pos : ℕ) → List Match
  unfolding match_at empties
  finditer secrets [] rest pos = empties secrets [] pos
  finditer secrets (c ∷ cs) (suc rest) pos = finditer secrets cs rest (suc pos)
  finditer secrets (c ∷ cs) zero pos =
      empties secrets (c ∷ cs) pos
      ++ next_matches (match_at secrets (c ∷ cs)) pos (finditer secrets cs)

-- msg[0:start] + '*' * (end - start) + msg[end:], where both are -1 for a group without a part
unfoldable pub mask : Option (ℕ × ℕ) → Text → Text
unfolding take drop replicate
mask none msg = take (length msg - 1) msg ++ drop (length msg - 1) msg
mask (some (start, end)) msg = take start msg ++ (replicate (end - start) star ++ drop end msg)

-- the loop of format; without secrets there is no group `any`
unfoldable pub mask_all : List Match → Text → Text
unfolding mask
mask_all [] msg = msg
mask_all (m ∷ matches) msg = mask_all matches (mask m.any (mask m.secret msg))

module _ (same : Char → Char → Bool) (header : Text → Option Header) where
  unfoldable pub format : List Text → Text → Text
  unfolding finditer mask_all
  format secrets msg = mask_all (finditer same header secrets msg 0 0) msg
