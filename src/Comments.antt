-- ===== src/Comments.antt =====
-- The comment that decorates a pull request: GHService and GLService (scm_services/gh.py,
-- scm_services/gl.py) and the pager (api_utils/pagers.py). Whether a text has the decoration's
-- identifier, and the length of a text, are given.
pub mod Target
pub mod Paging
pub mod Threads
pub mod Activities
mod Examples
use cxone_flow_buildwork.Prelude.{
  ℕ, zero, suc, leb, String, Bool, true, false, Option, none, some, List, [], ◌∷◌, length,
  if◌then◌else◌,
}
use cxone_flow_buildwork.Prelude.Run.{
  key_error, Result, ok, raised, Run, pure, raise, lift, call, ◌>>=◌, ◌>>◌,
}

-- The keys of a comment that the code reads, which may be missing.
pub record Comment : Type 0 where
  pub id : Option String
  pub body : Option String

pub data Act : Type 0 where
  list_comments : (page : ℕ) → Act
  create_comment : (body : String) → Act
  update_comment : (id body : String) → Act

abbrev pub Api : Type 0 → Type 0
Api A = Run (List Act) A

-- What the loop over the comments ends with; without fuel only in the model.
pub data Found : Type 0 where
  found : String → Found
  absent out_of_fuel : Found

abbrev pub api_page_max : ℕ
api_page_max = 100

-- `full if len(full) <= max else summary`
unfoldable pub chosen_content : (String → ℕ) → ℕ → String → String → String
chosen_content len max_chars full summary = if leb (len full) max_chars then full else summary

module _ (matches : String → Bool) where
  -- the condition on one comment in the loop of GHService.exec_pr_decorate
  abbrev target_of : Comment → Option String
  target_of comment = elim comment.id [
    | none ↦ none
    | some id ↦ elim comment.body [
      | none ↦ none
      | some body ↦ if matches body then some id else none
    ]
  ]

  -- `buf.pop()` takes the last comment of a page first
  unfoldable pub pop_target : List Comment → Option String
  pop_target [] = none
  pop_target (comment ∷ rest) = elim (pop_target rest) [
    | none ↦ target_of comment
    | some id ↦ some id
  ]

  abbrev is_empty : List Comment → Bool
  is_empty [] = true
  is_empty (comment ∷ comments) = false

  -- async_api_page_generator with __comment_data_extractor, up to the loop's `break`
  unfoldable pub read_pages : (ℕ → Result (List Comment)) → ℕ → ℕ → Api Found
  unfolding pop_target
  read_pages pages zero offset = pure out_of_fuel
  read_pages pages (suc fuel) offset =
      let rest = read_pages pages fuel (suc offset) in
      do
        buf ← call (list_comments offset) (pages offset)
        if is_empty buf then pure absent else elim (pop_target buf) [
          | some id ↦ pure (found id)
          | none ↦ if leb api_page_max (length buf) then pure absent else rest
        ]

  abbrev write : (String → Result (Unit {0})) → String → Found → Api (Unit {0})
  write written content (found id) = call (update_comment id content) (written content)
  write written content absent = call (create_comment content) (written content)
  write written content out_of_fuel = pure tt

  unfoldable pub gh_exec_pr_decorate :
      (len : String → ℕ)
      → (pages : ℕ → Result (List Comment)) → (written : String → Result (Unit {0})) → (fuel : ℕ)
      → (full summary : String) → Api (Unit {0})
  unfolding chosen_content read_pages
  gh_exec_pr_decorate len pages written fuel full summary = do
    target ← read_pages pages fuel 0
    write written (chosen_content len 65535 full summary) target

  -- the loop of GLService.exec_pr_decorate: a later match replaces an earlier one
  abbrev read : Option String → Result String
  read none = raised key_error
  read (some value) = ok value

  unfoldable pub note_target : Option String → List Comment → Result (Option String)
  note_target target [] = ok target
  note_target target (comment ∷ comments) =
      let kept = note_target target comments in
      let replaced = λ (id : String). note_target (some id) comments in
      elim (read comment.body) [
        | raised e ↦ raised e
        | ok body ↦
            if matches body
            then (elim (read comment.id) [ raised e ↦ raised e | ok id ↦ replaced id ])
            else kept
      ]

  abbrev as_found : Option String → Found
  as_found none = absent
  as_found (some id) = found id

  unfoldable pub gl_exec_pr_decorate :
      (len : String → ℕ)
      → (comments : Result (List Comment)) → (written : String → Result (Unit {0}))
      → (full summary : String) → Api (Unit {0})
  unfolding chosen_content note_target
  gl_exec_pr_decorate len comments written full summary = do
    existing ← call (list_comments 0) comments
    target ← lift (note_target none existing)
    write written (chosen_content len 1000000 full summary) (as_found target)
