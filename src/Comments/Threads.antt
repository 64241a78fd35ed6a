-- ===== src/Comments/Threads.antt =====
-- The decoration in Azure DevOps: ADOEService of scm_services/adoe.py. A thread carries the program's
-- own property; the Markdown translation and the length of a text are given.
use cxone_flow_buildwork.Prelude.{
  ℕ, ltb, String, ◌≡◌, ◌⊎◌, refl, Bool, true, false, not, ◌&&◌, Option, none, some, List, [], ◌∷◌,
  ◌++◌, All, arith, if◌then◌else◌,
}
use cxone_flow_buildwork.Prelude.Run.{Result, ok, Run, call, ◌>>=◌}

-- a thread of a pull request: whether its properties have the program's key, and whether it is deleted
pub record Thread : Type 0 where
  pub id : String
  pub has_property : Bool
  pub is_deleted : Bool

pub data Act : Type 0 where
  list_threads : Act
  create_thread : (content scanid : String) → Act
  update_thread : (id content : String) → Act

abbrev pub is_decoration : Thread → Bool
is_decoration thread = thread.has_property && not thread.is_deleted

-- __get_pr_thread, for what it finds among the threads
unfoldable pub find_thread : List Thread → Option String
find_thread [] = none
find_thread (thread ∷ threads) =
    let rest = find_thread threads in if is_decoration thread then some thread.id else rest

abbrev pub max_content_chars : ℕ
max_content_chars = 150000

module _ (markdown : String → String) (len : String → ℕ) where
  unfoldable pub ado_content : (full summary : String) → String
  ado_content full summary =
      let content = markdown full in
      if ltb max_content_chars (len content) then markdown summary else content

  abbrev write :
      (String → Result (Unit {0}))
      → Option String
      → (content scanid : String) → Run (List Act) (Unit {0})
  write written none content scanid = call (create_thread content scanid) (written content)
  write written (some id) content scanid = call (update_thread id content) (written content)

  unfoldable pub ado_exec_pr_decorate :
      Result (List Thread)
      → (String → Result (Unit {0}))
      → (scanid full summary : String) → Run (List Act) (Unit {0})
  unfolding find_thread ado_content
  ado_exec_pr_decorate threads written scanid full summary = do
    found ← call list_threads threads
    write written (find_thread found) (ado_content full summary) scanid

-- a thread of another, or a deleted one
abbrev pub IsOther : Thread → Type 0
IsOther thread = (thread.has_property ≡ false) ⊎ (thread.is_deleted ≡ true)

find_other :
    (threads later : List Thread)
    → All IsOther threads
    → find_thread (threads ++ later) ≡ find_thread later
unfolding find_thread
find_other [] later others = refl
find_other (thread ∷ threads) later (other, others) =
    ground (arith, find_other threads later others)

find_none : (threads : List Thread) → All IsOther threads → find_thread threads ≡ none
unfolding find_thread
find_none [] others = refl
find_none (thread ∷ threads) (other, others) = ground (arith, find_none threads others)

-- A pull request has one decoration. Where a thread has the program's property and is not deleted, and
-- every thread before it is another's or deleted, a decoration updates this thread and creates none;
-- and where all threads are another's or deleted, it creates one and updates none.
pub one_thread :
    (markdown : String → String) (len : String → ℕ) (before later : List Thread) (own : Thread)
    (written : String → Result (Unit {0})) (scanid full summary : String)
    → All IsOther before
    → own.has_property ≡ true
    → own.is_deleted ≡ false
    → ((ado_exec_pr_decorate markdown len
          (ok (before ++ own ∷ later))
          written
          scanid
          full
          summary
          []).1
        ≡ list_threads ∷ update_thread own.id (ado_content markdown len full summary) ∷ [])
      × ((ado_exec_pr_decorate markdown len (ok before) written scanid full summary []).1
          ≡ list_threads ∷ create_thread (ado_content markdown len full summary) scanid ∷ [])
unfolding ado_exec_pr_decorate find_thread
one_thread markdown len before later own written scanid full summary others has kept =
    let found : find_thread (before ++ own ∷ later) ≡ some own.id =
      ground (arith, find_other before (own ∷ later) others) in
    (rw found refl, rw (find_none before others) refl)
