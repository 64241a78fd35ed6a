-- ===== src/Comments/Target.antt =====
-- The comment that the two services write to.
use cxone_flow_buildwork.Prelude.{
  String, ◌≡◌, refl, Bool, true, false, Option, none, some, List, [], ◌∷◌, All, arith,
}
use cxone_flow_buildwork.Prelude.Run.{ok}
use cxone_flow_buildwork.Comments.{Comment, pop_target, note_target}

-- Both keys are there, as the servers' APIs document.
abbrev pub has_keys : Comment → Bool
has_keys comment = elim comment.id [
  | none ↦ false
  | some id ↦ elim comment.body [ none ↦ false | some body ↦ true ]
]

abbrev pub or_first : Option String → Option String → Option String
or_first none target = target
or_first (some id) target = some id

module _ (matches : String → Bool) where
  note_target-pop_target :
      (comments : List Comment) (target : Option String)
      → All (λ c. has_keys c ≡ true) comments
      → note_target matches target comments ≡ ok (or_first (pop_target matches comments) target)
  unfolding note_target pop_target
  note_target-pop_target [] target h = refl
  note_target-pop_target (comment ∷ comments) target h =
      grind (arith, h.0, λ (t : Option String). note_target-pop_target comments t h.1)

  -- Among comments that have an id and a body, the loop of the GitLab service, which goes forward and
  -- lets a later match replace an earlier one, chooses the comment that the GitHub service, which
  -- goes backward and stops at the first match, chooses on a page.
  pub same_target :
      (comments : List Comment)
      → All (λ c. has_keys c ≡ true) comments
      → note_target matches none comments ≡ ok (pop_target matches comments)
  same_target comments h = grind (arith, note_target-pop_target comments none h)
