-- ===== src/Comments/Paging.antt =====
-- The pages of comments that the GitHub service reads.
use cxone_flow_buildwork.Prelude.{
  ℕ, suc, ◌≤◌, ◌<◌, String, ◌≡◌, Bool, none, some, List, [], ◌∷◌, length, arith,
}
use cxone_flow_buildwork.Prelude.Run.{Result, ok}
use cxone_flow_buildwork.Comments.{
  Comment, list_comments, create_comment, update_comment, chosen_content, pop_target, read_pages,
  gh_exec_pr_decorate,
}

module _ (matches : String → Bool) (len : String → ℕ) (pages : ℕ → Result (List Comment))
    (written : String → Result (Unit {0})) (full summary : String) where
  -- On a pull request that has comments, but less than one page of them, the decoration that is
  -- there is replaced, and a new one is made only where there is none. Two rounds are enough.
  pub short_page :
      (fuel : ℕ) (comments : List Comment)
      → pages 0 ≡ ok comments
      → pages 1 ≡ ok []
      → 1 ≤ length comments
      → length comments < 100
      → (gh_exec_pr_decorate matches len pages written (suc (suc fuel)) full summary []).1
        ≡ (elim (pop_target matches comments) [
          | some id ↦
              list_comments 0 ∷ update_comment id (chosen_content len 65535 full summary) ∷ []
          | none ↦
              list_comments 0
              ∷ list_comments 1
              ∷ create_comment (chosen_content len 65535 full summary)
              ∷ []
        ])
  unfolding gh_exec_pr_decorate read_pages
  short_page fuel comments h k some_there few = ground arith

  -- A full first page is taken for the last one: if it has no decoration, a new comment is made, and
  -- no other page is read, whatever is on it.
  pub full_page_ends_search :
      (fuel : ℕ) (comments : List Comment)
      → pages 0 ≡ ok comments
      → 100 ≤ length comments
      → pop_target matches comments ≡ none
      → (gh_exec_pr_decorate matches len pages written (suc fuel) full summary []).1
        ≡ list_comments 0 ∷ create_comment (chosen_content len 65535 full summary) ∷ []
  unfolding gh_exec_pr_decorate read_pages
  full_page_ends_search fuel comments h many missing = ground arith
