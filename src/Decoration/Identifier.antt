-- ===== src/Decoration/Identifier.antt =====
-- How a comment is known for a decoration (workflows/pr.py).
use text.Mathlib.TextLemmas.{nil-append, cons-append}
use text.Mathlib.TextPositions.{starts_with-append}
use cxone_flow_buildwork.Prelude.{String, ◌<>◌, ◌≡◌, ◌∙◌, refl, true, arith}
use cxone_flow_buildwork.Decoration.{
  join, Decoration, Library, summary_content, full_content, without_newlines, matches_identifier,
}

without_newlines-append :
    (s t : String) → without_newlines (s <> t) ≡ without_newlines s <> without_newlines t
unfolding without_newlines
without_newlines-append String.[] t = rw (nil-append t, nil-append (without_newlines t)) refl
without_newlines-append (String.◌∷◌ c s) t = rw (cons-append c s t) (
    ground
      (arith, without_newlines-append s t, cons-append c (without_newlines s) (without_newlines t)))

-- a text that begins as __get_content does
begins-matches :
    (rest : String) → matches_identifier ("\n" <> ("\n" <> ("[//]:#cxoneflow" <> rest))) ≡ true
unfolding matches_identifier without_newlines
begins-matches rest =
    let tail = "[//]:#cxoneflow" <> rest in
    let stripped = "[//]:#cxoneflow" <> without_newlines rest in
    let blank = λ (t : String). without_newlines-append "\n" t ∙ nil-append (without_newlines t) in
    let e = blank ("\n" <> tail) ∙ blank tail ∙ without_newlines-append "[//]:#cxoneflow" rest in
    rw e (starts_with-append "[//]:#cxoneflow" (without_newlines rest))

-- Whatever is in a decoration, both its full content and its summary are recognized by
-- `matches_identifier` as a decoration, so that the next one finds the comment.
pub content_matches :
    (lib : Library) (d : Decoration)
    → (matches_identifier (full_content lib d) ≡ true)
      × (matches_identifier (summary_content lib d) ≡ true)
unfolding full_content summary_content join
content_matches lib d = (begins-matches _, begins-matches _)
