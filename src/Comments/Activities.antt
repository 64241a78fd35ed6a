-- ===== src/Comments/Activities.antt =====
-- The decoration in Bitbucket Data Center: BBDCService of scm_services/bbdc.py, with its own pager.
use cxone_flow_buildwork.Prelude.{
  ℕ, zero, suc, ◌<◌, String, ◌≡◌, Bool, true, false, ◌&&◌, Option, none, some, List, [], ◌∷◌, ◌++◌,
  arith, if◌then◌else◌,
}
use cxone_flow_buildwork.Prelude.Run.{Result, ok, Run, other, pure, raise, call, ◌>>=◌}
use cxone_flow_buildwork.Comments.{chosen_content}

-- the comment of an activity, as far as the code reads it: the two flags are none where their key
-- is missing
pub record Comment : Type 0 where
  pub id : ℕ
  pub version : ℕ
  pub thread_resolved : Option Bool
  pub editable : Option Bool
  pub text : Option String

pub record Page : Type 0 where
  pub items : List (Option Comment)
  pub is_last_page : Bool

pub data Act : Type 0 where
  list_activities : (start : ℕ) → Act
  add_comment : (text : String) → Act
  update_comment : (id version : ℕ) → (text : String) → Act

abbrev pub Found : Type 0
Found = Option (ℕ × ℕ)

module _ (matches : String → Bool) where
  abbrev is_open : Option Bool → Bool
  is_open none = false
  is_open (some true) = false
  is_open (some false) = true

  abbrev is_set : Option Bool → Bool
  is_set none = false
  is_set (some b) = b

  abbrev is_own : Option String → Bool
  is_own none = false
  is_own (some text) = matches text

  -- the conditions on one activity in __find_existing_comment
  unfoldable pub existing : Option Comment → Found
  existing none = none
  existing (some c) =
      if is_open c.thread_resolved && (is_set c.editable && is_own c.text)
      then some (c.id, c.version)
      else none

  -- `buf.pop()` takes the last activity of a page first
  unfoldable pub pop_existing : List (Option Comment) → Found
  unfolding existing
  pop_existing [] = none
  pop_existing (item ∷ items) = elim (pop_existing items) [
    | none ↦ existing item
    | some found ↦ some found
  ]

  abbrev is_empty : List (Option Comment) → Bool
  is_empty [] = true
  is_empty (item ∷ items) = false

  -- __find_existing_comment over __bbdc_paged_items_gen; without fuel only in the model
  unfoldable pub find_existing_comment :
      (ℕ → Result Page) → (fuel offset : ℕ) → Run (List Act) Found
  unfolding pop_existing
  find_existing_comment pages zero offset = raise (other 0)
  find_existing_comment pages (suc fuel) offset =
      let rest = find_existing_comment pages fuel (suc offset) in
      do
        page ← call (list_activities offset) (pages offset)
        if is_empty page.items then pure none else elim (pop_existing page.items) [
          | some found ↦ pure (some found)
          | none ↦ if page.is_last_page then pure none else rest
        ]

  abbrev write : (String → Result (Unit {0})) → String → Found → Run (List Act) (Unit {0})
  write written content none = call (add_comment content) (written content)
  write written content (some (id, version)) =
      call (update_comment id version content) (written content)

  unfoldable pub bbdc_exec_pr_decorate :
      (len : String → ℕ)
      → (pages : ℕ → Result Page) → (written : String → Result (Unit {0})) → (fuel : ℕ)
      → (full summary : String) → Run (List Act) (Unit {0})
  unfolding chosen_content find_existing_comment
  bbdc_exec_pr_decorate len pages written fuel full summary = do
    found ← find_existing_comment pages fuel 0
    write written (chosen_content len 32000 full summary) found

  -- pages with activities, of which the last one alone says that it is the last
  abbrev pub Paged : (ℕ → Page) → (more offset : ℕ) → Type 0
  Paged page zero offset =
      ((page offset).is_last_page ≡ true) × (is_empty (page offset).items ≡ false)
  Paged page (suc more) offset =
      ((page offset).is_last_page ≡ false)
      × (is_empty (page offset).items ≡ false)
      × Paged page more (suc offset)

  abbrev pub or_later : Found → Found → Found
  or_later none later = later
  or_later (some found) later = some found

  -- the first comment of the program on the pages, each read from its end
  unfoldable pub first_existing : (ℕ → Page) → (more offset : ℕ) → Found
  unfolding pop_existing
  first_existing page zero offset = pop_existing (page offset).items
  first_existing page (suc more) offset =
      or_later (pop_existing (page offset).items) (first_existing page more (suc offset))

  -- All pages are searched up to the first comment of the program: the one that is found is the first
  -- on the pages, each read from its end, and none is found only where there is none on any page. As
  -- much fuel as there are pages is enough.
  pub all_pages_searched :
      (page : ℕ → Page) (more fuel offset : ℕ) (acts : List Act)
      → Paged page more offset
      → more < fuel
      → (find_existing_comment (λ i. ok (page i)) fuel offset acts).0
        ≡ ok (first_existing page more offset)
  unfolding find_existing_comment first_existing
  all_pages_searched page more zero offset acts paged h = absurd (omega arith)
  all_pages_searched page zero (suc fuel) offset acts paged h = ground arith
  all_pages_searched page (suc more) (suc fuel) offset acts paged h = ground (
    arith,
    all_pages_searched page more fuel (suc offset) (acts ++ list_activities offset ∷ []) paged.2
        (omega arith),
  )
