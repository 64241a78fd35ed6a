-- ===== src/Logging/Masking.antt =====
-- What a log line becomes, in one pass from its start to its end.
use mathlib.Core.Path.{subst}
use mathlib.Core.List.{append_assoc, append-nil}
use Prim.Native.Char.{Char}
use cxone_flow_buildwork.Prelude.{
  ℕ, zero, suc, ◌+◌, ◌-◌, ◌≤◌, ◌≡◌, refl, sym, ap, ◌∙◌, arith, Bool, true, false, Option, none,
  some, List, [], ◌∷◌, ◌++◌, length, length-append, Option-cases, inl, inr,
}
use cxone_flow_buildwork.Prelude.Slices.{
  take, drop, replicate, take-append-drop, length-take, length-drop, length-replicate, drop-drop,
  take-length, drop-length,
}
use cxone_flow_buildwork.Logging.{
  Text, star, Header, Match, Found, header_found, literal_found, empty_match, next_matches,
  is_prefix, alternative, match_at, empties, finditer, mask, mask_all, format,
}

mask-none : (msg : Text) → mask none msg ≡ msg
unfolding mask
mask-none msg = take-append-drop (length msg - 1) msg

mask-empty : (n : ℕ) (msg : Text) → mask (some (n, n)) msg ≡ msg
unfolding mask replicate
mask-empty n msg = let none_left : n - n ≡ 0 = omega arith in rw none_left (take-append-drop n msg)

mask-at :
    (pre w : Text) (h s : ℕ)
    → mask (some (length pre + h, length pre + (h + s))) (pre ++ w)
      ≡ pre ++ (take h w ++ (replicate s star ++ drop (h + s) w))
unfolding mask
mask-at pre w h s =
    let size : length pre + (h + s) - (length pre + h) ≡ s = omega arith in
    rw (size, take-length pre w h, drop-length pre w (h + s))
      (append_assoc pre (take h w) (replicate s star ++ drop (h + s) w))

-- what is asked of the default regular expression's matches: they lie within the text
abbrev pub IsWithin : (Text → Option Header) → Type 0
IsWithin header =
    (t : Text) (h : Header)
    → header t ≡ some h
    → (h.header + h.secret ≤ h.total) × (h.total ≤ length t) × (1 ≤ h.total)

module _ (same : Char → Char → Bool) (header : Text → Option Header) (secrets : List Text) where
  -- the characters of a match, with the masked part replaced
  abbrev pub segment : Found same header → Text → Text
  segment f t =
      take f.skip t
      ++ (replicate f.size star ++ take (f.total - (f.skip + f.size)) (drop (f.skip + f.size) t))

  abbrev next_text : Option (Found same header) → Char → Text → (ℕ → Text) → Text
  next_text none c cs after = c ∷ after zero
  next_text (some f) c cs after = segment f (c ∷ cs) ++ after (f.total - 1)

  -- one pass over the text, with the rest of the last match to be passed over
  unfoldable pub redact : Text → ℕ → Text
  unfolding match_at
  redact [] rest = []
  redact (c ∷ cs) (suc rest) = redact cs rest
  redact (c ∷ cs) zero = next_text (match_at same header secrets (c ∷ cs)) c cs (redact cs)

  is_prefix-length : (s t : Text) → is_prefix same header s t ≡ true → length s ≤ length t
  unfolding is_prefix
  is_prefix-length [] t h = omega arith
  is_prefix-length (c ∷ s) [] h = absurd (ground arith)
  is_prefix-length (c ∷ s) (d ∷ t) h = ground (arith, is_prefix-length s t)

  alternative-fits :
      (ss : List Text) (t : Text) (n : ℕ)
      → alternative same header true ss t ≡ some n
      → (1 ≤ n) × (n ≤ length t)
  unfolding alternative
  alternative-fits [] t n h = absurd (ground arith)
  alternative-fits (s ∷ ss) t n h = ground (arith, is_prefix-length s t, alternative-fits ss t n)

  pub match_at-fits :
      (t : Text) (f : Found same header)
      → IsWithin header
      → match_at same header secrets t ≡ some f
      → (f.skip + f.size ≤ f.total) × (f.total ≤ length t) × (1 ≤ f.total)
  unfolding match_at
  match_at-fits t f within h = elim (Option-cases (header t)) [
    | inr (hd, e) ↦ ground (arith, within t hd e)
    | inl e ↦ elim (Option-cases (alternative same header true secrets t)) [
      | inl e2 ↦ absurd (ground arith)
      | inr (n, e2) ↦ ground (arith, alternative-fits secrets t n e2)
    ]
  ]

  -- both groups of a match, of which one takes part
  abbrev Masks : Found same header → Type 0
  Masks f =
      (ms : List Match) (pos : ℕ) (msg : Text)
      → mask_all (f.groups pos ∷ ms) msg
        ≡ mask_all ms (mask (some (pos + f.skip, pos + (f.skip + f.size))) msg)

  header-Masks : (h : Header) → Masks (header_found same header h)
  unfolding mask_all
  header-Masks h ms pos msg = ap (mask_all ms) (mask-none _)

  literal-Masks : (n : ℕ) → Masks (literal_found same header n)
  unfolding mask_all
  literal-Masks n ms pos msg =
      let from : pos ≡ pos + 0 = omega arith in
      let to : pos + n ≡ pos + (0 + n) = omega arith in
      ap (λ m. mask_all ms (mask (some (pos, pos + n)) m)) (mask-none msg)
      ∙ (ap (λ k. mask_all ms (mask (some (k, pos + n)) msg)) from
          ∙ ap (λ k. mask_all ms (mask (some (pos + 0, k)) msg)) to)

  groups-mask :
      (t : Text) (f : Found same header) → match_at same header secrets t ≡ some f → Masks f
  unfolding match_at
  groups-mask t f h = elim (Option-cases (header t)) [
    | inr (hd, e) ↦
        let same_found : header_found same header hd ≡ f = ground arith in
        subst Masks same_found (header-Masks hd)
    | inl e ↦ elim (Option-cases (alternative same header true secrets t)) [
      | inl e2 ↦ absurd (ground arith)
      | inr (n, e2) ↦
          let same_found : literal_found same header n ≡ f = ground arith in
          subst Masks same_found (literal-Masks n)
    ]
  ]

  empty_match-mask :
      (pos : ℕ) (h : Option Header) (n : Option ℕ) (ms : List Match) (msg : Text)
      → mask_all (empty_match same header pos h n ++ ms) msg ≡ mask_all ms msg
  unfolding mask_all
  empty_match-mask pos none (some zero) ms msg =
      ap (λ m. mask_all ms (mask (some (pos, pos)) m)) (mask-none msg)
      ∙ ap (mask_all ms) (mask-empty pos msg)
  empty_match-mask pos none (some (suc n)) ms msg = refl
  empty_match-mask pos none none ms msg = refl
  empty_match-mask pos (some h) n ms msg = refl

  empties-mask :
      (t : Text) (pos : ℕ) (ms : List Match) (msg : Text)
      → mask_all (empties same header secrets t pos ++ ms) msg ≡ mask_all ms msg
  unfolding empties
  empties-mask t pos = empty_match-mask pos (header t) (alternative same header false secrets t)

  finditer-skip :
      (t : Text) (rest pos : ℕ)
      → rest ≤ length t
      → finditer same header secrets t rest pos
        ≡ finditer same header secrets (drop rest t) 0 (pos + rest)
  unfolding finditer drop
  finditer-skip t zero pos h = ap (λ k. finditer same header secrets t 0 k) (omega arith)
  finditer-skip [] (suc rest) pos h = absurd (omega arith)
  finditer-skip (c ∷ cs) (suc rest) pos h =
      let place : suc pos + rest ≡ pos + suc rest = omega arith in
      finditer-skip cs rest (suc pos) (omega arith)
      ∙ ap (λ k. finditer same header secrets (drop rest cs) 0 k) place

  pub redact-skip : (t : Text) (rest : ℕ) → redact t rest ≡ redact (drop rest t) 0
  unfolding redact drop
  redact-skip t zero = refl
  redact-skip [] (suc rest) = refl
  redact-skip (c ∷ cs) (suc rest) = redact-skip cs rest

  abbrev found_at : Text → ℕ → List Match
  found_at t pos = finditer same header secrets t 0 pos

  finditer-step :
      (c : Char) (cs : Text) (pos : ℕ) (o : Option (Found same header))
      → match_at same header secrets (c ∷ cs) ≡ o
      → found_at (c ∷ cs) pos
        ≡ empties same header secrets (c ∷ cs) pos
          ++ next_matches same header o pos (finditer same header secrets cs)
  unfolding finditer
  finditer-step c cs pos o e =
      ap
        (λ x.
          empties same header secrets (c ∷ cs) pos
          ++ next_matches same header x pos (finditer same header secrets cs))
        e

  pub redact-step :
      (c : Char) (cs : Text) (o : Option (Found same header))
      → match_at same header secrets (c ∷ cs) ≡ o
      → redact (c ∷ cs) 0 ≡ next_text o c cs (redact cs)
  unfolding redact
  redact-step c cs o e = ap (λ x. next_text x c cs (redact cs)) e

  -- what a match covers, and what follows
  segment-drop :
      (f : Found same header) (t : Text)
      → f.skip + f.size ≤ f.total
      → take f.skip t ++ (replicate f.size star ++ drop (f.skip + f.size) t)
        ≡ segment f t ++ drop f.total t
  segment-drop f t h =
      let k = f.skip + f.size in
      let rest : k + (f.total - k) ≡ f.total = omega arith in
      let tail = drop k t in
      let parts : take (f.total - k) tail ++ drop f.total t ≡ tail =
        ap (λ n. take (f.total - k) tail ++ drop n t) (sym rest)
        ∙ (ap (λ l. take (f.total - k) tail ++ l) (sym (drop-drop (f.total - k) k t))
            ∙ take-append-drop (f.total - k) tail) in
      let x = take f.skip t in
      let y = replicate f.size star in
      let z = take (f.total - k) tail in
      ap (λ l. x ++ (y ++ l)) (sym parts)
      ∙ (ap (λ l. x ++ l) (sym (append_assoc y z (drop f.total t)))
          ∙ sym (append_assoc x (y ++ z) (drop f.total t)))

  pub length-segment :
      (f : Found same header) (t : Text)
      → f.skip + f.size ≤ f.total
      → f.total ≤ length t
      → length (segment f t) ≡ f.total
  length-segment f t a b = ground (
    arith,
    length-append (take f.skip t)
        (replicate f.size star ++ take (f.total - (f.skip + f.size)) (drop (f.skip + f.size) t)),
    length-append (replicate f.size star)
        (take (f.total - (f.skip + f.size)) (drop (f.skip + f.size) t)),
    length-take f.skip t,
    length-replicate f.size star,
    length-take (f.total - (f.skip + f.size)) (drop (f.skip + f.size) t),
    length-drop (f.skip + f.size) t,
  )

  pub drop-pred : (n : ℕ) (c : Char) (cs : Text) → 1 ≤ n → drop (n - 1) cs ≡ drop n (c ∷ cs)
  unfolding drop
  drop-pred zero c cs h = absurd (omega arith)
  drop-pred (suc m) c cs h = let one : suc m - 1 ≡ m = omega arith in ap (λ k. drop k cs) one

  -- What is left to mask after the first match: the places that were found are those of the text that
  -- the loop has by then, since a match keeps the length.
  match-mask :
      (pre : Text) (c : Char) (cs : Text) (f : Found same header)
      → IsWithin header
      → match_at same header secrets (c ∷ cs) ≡ some f
      → mask_all (found_at (c ∷ cs) (length pre)) (pre ++ c ∷ cs)
        ≡ mask_all
            (found_at (drop f.total (c ∷ cs)) (length (pre ++ segment f (c ∷ cs))))
            ((pre ++ segment f (c ∷ cs)) ++ drop f.total (c ∷ cs))
  match-mask pre c cs f within e =
      let t = c ∷ cs in
      let msg = pre ++ t in
      let p = length pre in
      let (a, b, pos) = match_at-fits t f within e in
      let later = finditer same header secrets cs (f.total - 1) (suc p) in
      let place : suc p + (f.total - 1) ≡ length (pre ++ segment f t) =
        ground (arith, length-append pre (segment f t), length-segment f t a b) in
      ap (λ ms. mask_all ms msg) (finditer-step c cs p (some f) e)
      ∙ (empties-mask t p (f.groups p ∷ later) msg
          ∙ (groups-mask t f e later p msg
              ∙ (ap (mask_all later) (
                    mask-at pre t f.skip f.size
                    ∙ (ap (λ l. pre ++ l) (segment-drop f t a)
                        ∙ sym (append_assoc pre (segment f t) (drop f.total t))))
                  ∙ ap (λ ms. mask_all ms ((pre ++ segment f t) ++ drop f.total t))
                      (finditer-skip cs (f.total - 1) (suc p) (omega (arith, b, pos))
                        ∙ (ap (λ w. found_at w (suc p + (f.total - 1))) (drop-pred f.total c cs pos)
                            ∙ ap (λ q. found_at (drop f.total t) q) place)))))

  plain-mask :
      (pre : Text) (c : Char) (cs : Text)
      → match_at same header secrets (c ∷ cs) ≡ none
      → mask_all (found_at (c ∷ cs) (length pre)) (pre ++ c ∷ cs)
        ≡ mask_all (found_at cs (length (pre ++ c ∷ []))) ((pre ++ c ∷ []) ++ cs)
  plain-mask pre c cs e =
      let t = c ∷ cs in
      let p = length pre in
      let place : suc p ≡ length (pre ++ c ∷ []) = ground (arith, length-append pre (c ∷ [])) in
      ap (λ ms. mask_all ms (pre ++ t)) (finditer-step c cs p none e)
      ∙ (empties-mask t p (found_at cs (suc p)) (pre ++ t)
          ∙ (ap (λ m. mask_all (found_at cs (suc p)) m) (sym (append_assoc pre (c ∷ []) cs))
              ∙ ap (λ q. mask_all (found_at cs q) ((pre ++ c ∷ []) ++ cs)) place))

  format_from :
      (n : ℕ) (pre w : Text)
      → IsWithin header
      → length w ≤ n
      → mask_all (found_at w (length pre)) (pre ++ w) ≡ pre ++ redact w 0
  unfolding finditer redact mask_all
  format_from n pre [] within h =
      subst (λ ms. mask_all ms (pre ++ []) ≡ pre ++ [])
        (append-nil (empties same header secrets [] (length pre)))
        (empties-mask [] (length pre) [] (pre ++ []))
  format_from zero pre (c ∷ cs) within h = absurd (omega arith)
  format_from (suc n) pre (c ∷ cs) within h =
      elim (Option-cases (match_at same header secrets (c ∷ cs))) [
        | inl e ↦
            plain-mask pre c cs e
            ∙ (format_from n (pre ++ c ∷ []) cs within (omega arith)
                ∙ (append_assoc pre (c ∷ []) (redact cs 0)
                    ∙ ap (λ l. pre ++ l) (sym (redact-step c cs none e))))
        | inr (f, e) ↦
            let t = c ∷ cs in
            let (a, b, pos) = match_at-fits t f within e in
            let shorter : length (drop f.total t) ≤ n = ground (arith, length-drop f.total t) in
            match-mask pre c cs f within e
            ∙ (format_from n (pre ++ segment f t) (drop f.total t) within shorter
                ∙ (append_assoc pre (segment f t) (redact (drop f.total t) 0)
                    ∙ ap (λ l. pre ++ l)
                        (ap (λ l. segment f t ++ l)
                            (sym (
                              redact-skip cs (f.total - 1)
                              ∙ ap (λ w. redact w 0) (drop-pred f.total c cs pos)))
                          ∙ sym (redact-step c cs (some f) e))))
      ]

  -- A line that is logged: the loop of slices, with the places that were found in the original line,
  -- comes to one pass from the start that replaces what a match masks by as many stars. Assumed: a
  -- match of the default regular expression lies within the line and has a character.
  pub format-redact : IsWithin header → (msg : Text) → format same header secrets msg ≡ redact msg 0
  unfolding format
  format-redact within msg = format_from (length msg) [] msg within (omega arith)
