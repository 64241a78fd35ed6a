-- ===== src/Logging/Stars.antt =====
-- Where the line that is written has a star.
use mathlib.Core.Path.{subst}
use mathlib.Core.List.{append_assoc}
use Prim.Native.Char.{Char}
use cxone_flow_buildwork.Prelude.{
  ℕ, zero, suc, ◌+◌, ◌-◌, ◌≤◌, ◌<◌, ◌≡◌, refl, sym, ap, ◌∙◌, arith, ltb, Bool, true, ◌&&◌, Option,
  none, some, List, [], ◌∷◌, ◌++◌, length, Bool-cases, Option-cases, inl, inr,
}
use cxone_flow_buildwork.Prelude.Slices.{
  take, drop, replicate, get_elem?, length-drop, drop-append, get_elem?-length, get_elem?-replicate,
}
use cxone_flow_buildwork.Logging.{
  Text, star, Header, Found, literal_found, found_of, is_prefix, alternative, match_at, format,
}
use cxone_flow_buildwork.Logging.Masking.{
  IsWithin, segment, redact, redact-step, redact-skip, match_at-fits, length-segment, drop-pred,
  format-redact,
}

-- The default regular expression matches nowhere in the text.
abbrev pub HeaderFree : (Text → Option Header) → Text → Type 0
HeaderFree header [] = Unit {0}
HeaderFree header (c ∷ cs) = (header (c ∷ cs) ≡ none) × HeaderFree header cs

HeaderFree-drop :
    (header : Text → Option Header) (n : ℕ) (t : Text)
    → HeaderFree header t
    → HeaderFree header (drop n t)
unfolding drop
HeaderFree-drop header zero t h = h
HeaderFree-drop header (suc n) [] h = tt
HeaderFree-drop header (suc n) (c ∷ cs) h = HeaderFree-drop header n cs h.1

module _ (same : Char → Char → Bool) (header : Text → Option Header)
    (reflexive : (c : Char) → same c c ≡ true) where
  is_prefix-append : (s t : Text) → is_prefix same header s (s ++ t) ≡ true
  unfolding is_prefix
  is_prefix-append [] t = refl
  is_prefix-append (c ∷ s) t = ground (arith, reflexive c, is_prefix-append s t)

  -- some alternative matches where a registered text stands
  alternative-finds :
      (before after : List Text) (s t : Text)
      → 1 ≤ length s
      → (n : ℕ) × (alternative same header true (before ++ s ∷ after) (s ++ t) ≡ some n)
  unfolding alternative
  alternative-finds [] after s t h = (length s, ground (arith, is_prefix-append s t))
  alternative-finds (x ∷ before) after s t h =
      let (n, found) = alternative-finds before after s t h in
      elim (Bool-cases (is_prefix same header x (s ++ t) && ltb 0 (length x))) [
        | inl here ↦ (length x, ground arith)
        | inr other ↦ (n, ground arith)
      ]

module _ (same : Char → Char → Bool) (header : Text → Option Header) (secrets : List Text)
    (within : IsWithin header) where
  literal_match :
      (t : Text) (f : Found same header)
      → header t ≡ none
      → match_at same header secrets t ≡ some f
      → (f.skip ≡ 0) × (f.size ≡ f.total)
  unfolding match_at
  literal_match t f none_here e = elim (Option-cases (alternative same header true secrets t)) [
    | inl e2 ↦ absurd (ground arith)
    | inr (n, e2) ↦ (ground arith, ground arith)
  ]

  star_in_match :
      (t rest : Text) (f : Found same header) (k : ℕ)
      → header t ≡ none
      → match_at same header secrets t ≡ some f
      → k < f.total
      → get_elem? (segment same header secrets f t ++ rest) k ≡ some star
  unfolding take
  star_in_match t rest f k none_here e lt =
      let (skip, size) = literal_match t f none_here e in
      let tail = take (f.total - (f.skip + f.size)) (drop (f.skip + f.size) t) in
      let stars = get_elem?-replicate f.size k star (tail ++ rest) (omega arith) in
      let start : take f.skip t ≡ [] = ap (λ n. take n t) skip in
      ap (λ l. get_elem? ((l ++ (replicate f.size star ++ tail)) ++ rest) k) start
      ∙ (ap (λ l. get_elem? l k) (append_assoc (replicate f.size star) tail rest) ∙ stars)

  after_match :
      (c : Char) (cs : Text) (f : Found same header) (k : ℕ)
      → match_at same header secrets (c ∷ cs) ≡ some f
      → get_elem? (redact same header secrets (c ∷ cs) 0) (f.total + k)
        ≡ get_elem? (redact same header secrets (drop f.total (c ∷ cs)) 0) k
  after_match c cs f k e =
      let t = c ∷ cs in
      let (a, b, pos) = match_at-fits same header secrets t f within e in
      let seg = segment same header secrets f t in
      let later = redact same header secrets cs (f.total - 1) in
      let size : length seg ≡ f.total = length-segment same header secrets f t a b in
      ap (λ l. get_elem? l (f.total + k)) (redact-step same header secrets c cs (some f) e)
      ∙ (ap (λ n. get_elem? (seg ++ later) (n + k)) (sym size)
          ∙ (get_elem?-length seg later k
              ∙ ap (λ l. get_elem? l k)
                  (redact-skip same header secrets cs (f.total - 1)
                    ∙ ap (λ w. redact same header secrets w 0)
                        (drop-pred same header secrets f.total c cs pos))))

  -- the first character of the text `s` that a match starts at, or that lies in a match
  abbrev Masked : Text → ℕ → Type 0
  Masked w k = get_elem? (redact same header secrets w 0) k ≡ some star

  in_match :
      (c : Char) (cs : Text) (f : Found same header) (k : ℕ)
      → header (c ∷ cs) ≡ none
      → match_at same header secrets (c ∷ cs) ≡ some f
      → k < f.total
      → Masked (c ∷ cs) k
  in_match c cs f k none_here e lt =
      ap (λ l. get_elem? l k) (redact-step same header secrets c cs (some f) e)
      ∙ star_in_match (c ∷ cs) (redact same header secrets cs (f.total - 1)) f k none_here e lt

  match_hides_rest :
      (n : ℕ) (a r : Text)
      → length a ≤ n
      → HeaderFree header (a ++ r)
      → Masked r 0
      → Masked (a ++ r) (length a)
  unfolding drop get_elem?
  match_hides_rest n [] r h free first = first
  match_hides_rest zero (c ∷ a) r h free first = absurd (omega arith)
  match_hides_rest (suc n) (c ∷ a) r h free first =
      elim (Option-cases (match_at same header secrets (c ∷ (a ++ r)))) [
        | inl e ↦
            ap (λ l. get_elem? l (suc (length a)))
              (redact-step same header secrets c (a ++ r) none e)
            ∙ match_hides_rest n a r (omega arith) free.1 first
        | inr (f, e) ↦ elim (Bool-cases (ltb (length (c ∷ a)) f.total)) [
          | inl inside ↦ in_match c (a ++ r) f (length (c ∷ a)) free.0 e (ground arith)
          | inr beyond ↦
              let t = c ∷ a in
              let d = length t - f.total in
              let (x, y, pos) = match_at-fits same header secrets (t ++ r) f within e in
              let place : f.total + d ≡ length t = ground arith in
              let cut : drop f.total (t ++ r) ≡ drop f.total t ++ r =
                drop-append f.total t r (ground arith) in
              let left : length (drop f.total t) ≡ d = length-drop f.total t in
              let again =
                match_hides_rest n (drop f.total t) r (ground arith)
                  (subst (HeaderFree header) cut (HeaderFree-drop header f.total (t ++ r) free))
                  first in
              ap (λ k. get_elem? (redact same header secrets (t ++ r) 0) k) (sym place)
              ∙ (after_match c (a ++ r) f d e
                  ∙ (ap (λ w. get_elem? (redact same header secrets w 0) d) cut
                      ∙ (ap (λ k. get_elem? (redact same header secrets (drop f.total t ++ r) 0) k)
                            (sym left)
                          ∙ again)))
        ]
      ]

HeaderFree-append :
    (header : Text → Option Header) (a r : Text) → HeaderFree header (a ++ r) → HeaderFree header r
HeaderFree-append header [] r h = h
HeaderFree-append header (c ∷ a) r h = HeaderFree-append header a r h.1

first_masked :
    (same : Char → Char → Bool) (header : Text → Option Header) (earlier later : List Text)
    (c : Char) (cs after : Text)
    → ((c : Char) → same c c ≡ true)
    → IsWithin header
    → header (c ∷ (cs ++ after)) ≡ none
    → get_elem? (redact same header (earlier ++ (c ∷ cs) ∷ later) (c ∷ (cs ++ after)) 0) 0
      ≡ some star
unfolding match_at
first_masked same header earlier later c cs after reflexive within none_here =
    let secrets = earlier ++ (c ∷ cs) ∷ later in
    let (n, found) =
      alternative-finds same header reflexive earlier later (c ∷ cs) after (ground arith) in
    let f = literal_found same header n in
    let e : match_at same header secrets (c ∷ (cs ++ after)) ≡ some f =
      ap (λ h. found_of same header h (alternative same header true secrets (c ∷ (cs ++ after))))
        none_here
      ∙ ap (found_of same header none) found in
    let (x, y, pos) = match_at-fits same header secrets (c ∷ (cs ++ after)) f within e in
    in_match same header secrets within c (cs ++ after) f 0 none_here e (omega (arith, pos))

-- The line that is written has a star in place of a registered text's first character.
pub first_is_star :
    (same : Char → Char → Bool) (header : Text → Option Header) (earlier later : List Text)
    (before secret after : Text)
    → ((c : Char) → same c c ≡ true)
    → IsWithin header
    → HeaderFree header (before ++ (secret ++ after))
    → 1 ≤ length secret
    → get_elem?
        (format same header (earlier ++ secret ∷ later) (before ++ (secret ++ after)))
        (length before)
      ≡ some star
first_is_star same header earlier later before [] after reflexive within free long =
    absurd (omega arith)
first_is_star same header earlier later before (c ∷ cs) after reflexive within free long =
    let secrets = earlier ++ (c ∷ cs) ∷ later in
    let r = c ∷ (cs ++ after) in
    let here = HeaderFree-append header before r free in
    ap (λ l. get_elem? l (length before)) (format-redact same header secrets within (before ++ r))
    ∙ match_hides_rest same header secrets within (length before) before r (omega arith) free
        (first_masked same header earlier later c cs after reflexive within here.0)
