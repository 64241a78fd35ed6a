-- ===== src/Comments/Examples.antt =====
-- Pull requests with few and with many comments.
use cxone_flow_buildwork.Prelude.{
  ℕ, zero, suc, String, ◌==◌, ◌≡◌, refl, Bool, true, false, none, some, List, [], ◌∷◌, inr,
}
use cxone_flow_buildwork.Prelude.Run.{Result, ok}
use cxone_flow_buildwork.Comments.Threads
use cxone_flow_buildwork.Comments.Threads.{
  Thread, ado_content, ado_exec_pr_decorate, find_thread, one_thread,
}
use cxone_flow_buildwork.Comments.Activities
use cxone_flow_buildwork.Comments.Activities.{
  Page, find_existing_comment, first_existing, all_pages_searched,
}
use cxone_flow_buildwork.Comments.{Comment, pop_target}

abbrev is_decoration : String → Bool
is_decoration text = text == "decoration"

abbrev comment : String → String → Comment
comment id body = record { id = some id; body = some body }

abbrev few : List Comment
few = comment "1" "decoration" ∷ comment "2" "LGTM" ∷ comment "3" "decoration" ∷ []

abbrev copies : ℕ → List Comment
copies zero = []
copies (suc n) = comment "1" "LGTM" ∷ copies n

abbrev few_pages : ℕ → Result (List Comment)
few_pages zero = ok few
few_pages (suc n) = ok []

-- The decoration is on the second page.
abbrev many_pages : ℕ → Result (List Comment)
many_pages zero = ok (copies 100)
many_pages (suc zero) = ok (comment "2" "decoration" ∷ [])
many_pages (suc (suc n)) = ok []

abbrev written : String → Result (Unit {0})
written body = ok tt

abbrev len : String → ℕ
len text = 10

many_have_none : pop_target is_decoration (copies 100) ≡ none
unfolding pop_target
many_have_none = refl

abbrev own_thread : Thread
own_thread = record { id = "9"; has_property = true; is_deleted = false }

abbrev deleted_thread : Thread
deleted_thread = record { id = "8"; has_property = true; is_deleted = true }

one_thread_example :
    ((ado_exec_pr_decorate
        (λ s. s)
        len
        (ok (deleted_thread ∷ own_thread ∷ []))
        written
        "s"
        "full"
        "short"
        []).1
      ≡ Threads.list_threads
        ∷ Threads.update_thread "9" (ado_content (λ s. s) len "full" "short")
        ∷ [])
    × ((ado_exec_pr_decorate
          (λ s. s)
          len
          (ok (deleted_thread ∷ []))
          written
          "s"
          "full"
          "short"
          []).1
        ≡ Threads.list_threads
          ∷ Threads.create_thread (ado_content (λ s. s) len "full" "short") "s"
          ∷ [])
one_thread_example =
    one_thread (λ s. s) len (deleted_thread ∷ []) [] own_thread written "s" "full" "short"
      (inr refl, tt) refl refl

abbrev activity : ℕ → String → Activities.Comment
activity id text = record {
  id = id;
  version = 1;
  thread_resolved = some false;
  editable = some true;
  text = some text;
}

abbrev activities : ℕ → Page
activities zero = record { items = none ∷ some (activity 1 "LGTM") ∷ []; is_last_page = false }
activities (suc n) = record { items = some (activity 2 "decoration") ∷ []; is_last_page = true }
