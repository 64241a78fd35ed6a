-- ===== src/Tasks.antt =====
-- TaskManager of task_management/__init__.py: coroutines handed to the background loop, the list of the
-- futures that are monitored, and its lock. Threads are interleaved: each webhook's thread is in
-- `in_background`, and the main thread is in `wait_for_exit`. The loop has one thread: it ends the
-- coroutines, one at a time, and calls `__callback` for each at its end, so that no coroutine ends
-- while a callback waits for the lock. A task is a number, and stands for its thread and its future.
-- in_foreground, which uses neither the lock nor the list, is left out.
pub mod Locking
pub mod Exit
mod Examples
use cxone_flow_buildwork.Prelude.{
  ℕ, nat_beq, ◌≡◌, Bool, true, false, Option, none, some, List, [], ◌∷◌, ◌++◌, if◌then◌else◌,
}

-- how a coroutine ended: with a result or an exception of its own, or cancelled
pub data Outcome : Type 0 where
  finished cancelled : Outcome

-- A task before in_background; its lines one by one, in which the task may end too; in the list; after
-- its callback. `lost` is a task whose callback raised, and `stuck` one whose callback waits for the
-- lock that its own thread holds.
pub data Stage : Type 0 where
  new locked scheduled watching listed told lost stuck : Stage
  early watched ended : Outcome → Stage

-- The lines of in_background that change neither the lock nor the list: run_coroutine_threadsafe, and
-- add_done_callback, which calls the callback at once for a future that is done.
pub data Local : Stage → Stage → Type 0 where
  schedule : Local locked scheduled
  add_done_callback : Local scheduled watching
  call_at_once : {o : Outcome} → Local (early o) stuck

-- The end of a coroutine, and whether the loop's thread then has a callback to call.
pub data End : Stage → Stage → Bool → Type 0 where
  end_early : (o : Outcome) → End scheduled (early o) false
  end_watched : (o : Outcome) → End watching (watched o) true
  end_listed : (o : Outcome) → End listed (ended o) true

-- the last line of in_background
pub data Append : Stage → Stage → Type 0 where
  append_running : Append watching listed
  append_ended : {o : Outcome} → Append (watched o) (ended o)

-- `loop` is the task whose callback the loop's thread is in.
pub record System : Type 0 where
  pub stage : ℕ → Stage
  pub lock : Option ℕ
  pub loop : Option ℕ
  pub monitored : List ℕ
  pub exited : Bool

abbrev pub set : (ℕ → Stage) → ℕ → Stage → ℕ → Stage
set stage i p j = if nat_beq i j then p else stage j

-- __monitored.remove(future)
unfoldable pub remove : ℕ → List ℕ → List ℕ
remove i [] = []
remove i (j ∷ js) = let rest = remove i js in if nat_beq i j then js else j ∷ rest

abbrev pub callback_of : Bool → ℕ → Option ℕ
callback_of called i = if called then some i else none

-- One step of some thread. `future.exception()` of a cancelled future raises, before the future is
-- removed; the lock is released then too.
pub data Step (s : System) : System → Type 0 where
  enter :
      (i : ℕ)
      → s.stage i ≡ new
      → s.lock ≡ none
      → Step s (record s { stage = set s.stage i locked; lock = some i })
  local :
      (i : ℕ) {p q : Stage}
      → s.stage i ≡ p
      → Local p q
      → Step s (record s { stage = set s.stage i q })
  end :
      (i : ℕ) {p q : Stage} {called : Bool}
      → s.stage i ≡ p
      → s.loop ≡ none
      → End p q called
      → Step s (record s { stage = set s.stage i q; loop = callback_of called i })
  append :
      (i : ℕ) {p q : Stage}
      → s.stage i ≡ p
      → Append p q
      → Step s
          (record s { stage = set s.stage i q; lock = none; monitored = s.monitored ++ i ∷ [] })
  callback :
      (i : ℕ)
      → s.stage i ≡ ended finished
      → s.loop ≡ some i
      → s.lock ≡ none
      → Step s
          (record s { stage = set s.stage i told; loop = none; monitored = remove i s.monitored })
  callback_raises :
      (i : ℕ)
      → s.stage i ≡ ended cancelled
      → s.loop ≡ some i
      → s.lock ≡ none
      → Step s (record s { stage = set s.stage i lost; loop = none })
  wait_for_exit : s.lock ≡ none → s.monitored ≡ [] → Step s (record s { exited = true })

abbrev pub bootstrap : System
bootstrap = record { stage = λ i. new; lock = none; loop = none; monitored = []; exited = false }

pub data Steps (s : System) : System → Type 0 where
  stay : Steps s s
  more : {t u : System} → Steps s t → Step t u → Steps s u

abbrev pub IsReachable : System → Type 0
IsReachable = Steps bootstrap
