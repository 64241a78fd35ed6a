-- ===== src/Tasks/Exit.antt =====
-- What the main thread waits for, and when it waits forever.
use cxone_flow_buildwork.Prelude.{
  ℕ, Bool, nat_beq, ◌≡◌, ◌≢◌, ◌⊎◌, inl, inr, refl, none, some, List, [], arith, Bool-cases,
}
use cxone_flow_buildwork.Tasks.{
  finished, cancelled, Stage, new, locked, scheduled, watching, listed, told, lost, stuck, early,
  watched, ended, Local, End, Append, System, Step, Steps, stay, more, bootstrap, IsReachable,
}
use cxone_flow_buildwork.Tasks.Locking.{holds, in_list, Inv, Inv-Step, Append-lists}

Inv-bootstrap : Inv bootstrap
Inv-bootstrap = record { listing = λ i. refl; locking = λ i. refl }

Inv-Steps : {s t : System} → Inv s → Steps s t → Inv t
Inv-Steps inv stay = inv
Inv-Steps inv (more steps step) = Inv-Step (Inv-Steps inv steps) step

-- what the test of wait_for_exit asks, under the lock
abbrev pub CanExit : System → Type 0
CanExit s = (s.lock ≡ none) × (s.monitored ≡ [])

idle_stage : (p : Stage) → in_list p ≡ 0 → holds p ≡ 0 → (p ≡ new) ⊎ (p ≡ told)
idle_stage new a b = inl refl
idle_stage told a b = inr refl
idle_stage locked a b = absurd (omega arith)
idle_stage scheduled a b = absurd (omega arith)
idle_stage watching a b = absurd (omega arith)
idle_stage listed a b = absurd (omega arith)
idle_stage lost a b = absurd (omega arith)
idle_stage stuck a b = absurd (omega arith)
idle_stage (early o) a b = absurd (omega arith)
idle_stage (watched o) a b = absurd (omega arith)
idle_stage (ended o) a b = absurd (omega arith)

-- wait_for_exit ends only when no task is on its way: in whatever order the threads have run, where
-- the lock is free and nothing is monitored, each task has either not been handed over yet, or has
-- ended, was told to the log by its callback and removed.
pub exit_leaves_nothing :
    {s : System} → IsReachable s → CanExit s → (i : ℕ) → (s.stage i ≡ new) ⊎ (s.stage i ≡ told)
exit_leaves_nothing {s} reached (free, empty) i =
    let inv = Inv-Steps Inv-bootstrap reached in
    idle_stage (s.stage i) (ground (arith, inv.listing i)) (ground (arith, inv.locking i))

Local-stuck : {p q : Stage} → Local p q → p ≢ stuck
Local-stuck Local.schedule h = absurd (ground arith)
Local-stuck Local.add_done_callback h = absurd (ground arith)
Local-stuck Local.call_at_once h = absurd (ground arith)

End-stuck : {p q : Stage} {called : Bool} → End p q called → p ≢ stuck
End-stuck (End.end_early o) h = absurd (ground arith)
End-stuck (End.end_watched o) h = absurd (ground arith)
End-stuck (End.end_listed o) h = absurd (ground arith)

Append-stuck : {p q : Stage} → Append p q → p ≢ stuck
Append-stuck Append.append_running h = absurd (ground arith)
Append-stuck Append.append_ended h = absurd (ground arith)

-- a task that waits for its own lock, and what it keeps
pub record IsStuck (i : ℕ) (monitored : List ℕ) (s : System) : Type 0 where
  pub at : s.stage i ≡ stuck
  pub lock : s.lock ≡ some i
  pub list : s.monitored ≡ monitored

IsStuck-Step :
    {i : ℕ} {list : List ℕ} {s t : System} → Inv s → IsStuck i list s → Step s t → IsStuck i list t
IsStuck-Step inv h (Step.enter j at free) = absurd (ground (arith, h.lock))
IsStuck-Step {i} inv h (Step.local j at mv) = elim (Bool-cases (nat_beq j i)) [
  | inl same ↦ absurd (Local-stuck mv (ground (arith, h.at)))
  | inr other ↦ record { at = ground (arith, h.at); lock = h.lock; list = h.list }
]
IsStuck-Step {i} inv h (Step.end j at idle ending) = elim (Bool-cases (nat_beq j i)) [
  | inl same ↦ absurd (End-stuck ending (ground (arith, h.at)))
  | inr other ↦ record { at = ground (arith, h.at); lock = h.lock; list = h.list }
]
IsStuck-Step {i} inv h (Step.append j at mv) =
    absurd (Append-stuck mv (ground (arith, h.at, h.lock, inv.locking j, Append-lists mv)))
IsStuck-Step inv h (Step.callback j at called free) = absurd (ground (arith, h.lock))
IsStuck-Step inv h (Step.callback_raises j at called free) = absurd (ground (arith, h.lock))
IsStuck-Step inv h (Step.wait_for_exit free empty) = absurd (ground (arith, h.lock))

IsStuck-Steps :
    {i : ℕ} {list : List ℕ} {s t : System} → Inv s → IsStuck i list s → Steps s t → IsStuck i list t
IsStuck-Steps inv h stay = h
IsStuck-Steps inv h (more steps step) =
    IsStuck-Step (Inv-Steps inv steps) (IsStuck-Steps inv h steps) step

-- A coroutine that ends before its callback is added stops the program's background work for good: from
-- every reachable state in which the lock is free and the loop's thread is in no callback, and for every
-- task that is not handed over yet, the threads can run so that the task's thread keeps the lock
-- forever, and the list of monitored futures stays as it is, whatever happens afterwards.
pub lock_is_kept :
    {s : System} (i : ℕ)
    → IsReachable s
    → s.lock ≡ none
    → s.loop ≡ none
    → s.stage i ≡ new
    → (t : System) × Steps s t
      × ((u : System) → Steps t u → (u.lock ≡ some i) × (u.monitored ≡ s.monitored))
lock_is_kept {s} i reached free idle fresh =
    let one = more stay (Step.enter i fresh free) in
    let two = more one (Step.local i (ground arith) Local.schedule) in
    let three = more two (Step.end i (ground arith) idle (End.end_early finished)) in
    let four = more three (Step.local i (ground arith) (Local.call_at_once {o = finished})) in
    let inv = Inv-Steps (Inv-Steps Inv-bootstrap reached) four in
    (
      _,
      four,
      λ u steps.
          let after =
            IsStuck-Steps {i = i} {list = s.monitored} inv
              (record { at = ground arith; lock = refl; list = refl }) steps in
          (after.lock, after.list),
    )

-- a cancelled task that is monitored
abbrev IsCancelled : Stage → Type 0
IsCancelled p = (p ≡ ended cancelled) ⊎ (p ≡ lost)

Local-IsCancelled : {p q : Stage} → Local p q → ¬ IsCancelled p
Local-IsCancelled Local.schedule h = absurd (ground arith)
Local-IsCancelled Local.add_done_callback h = absurd (ground arith)
Local-IsCancelled Local.call_at_once h = absurd (ground arith)

End-IsCancelled : {p q : Stage} {called : Bool} → End p q called → ¬ IsCancelled p
End-IsCancelled (End.end_early o) h = absurd (ground arith)
End-IsCancelled (End.end_watched o) h = absurd (ground arith)
End-IsCancelled (End.end_listed o) h = absurd (ground arith)

Append-IsCancelled : {p q : Stage} → Append p q → ¬ IsCancelled p
Append-IsCancelled Append.append_running h = absurd (ground arith)
Append-IsCancelled Append.append_ended h = absurd (ground arith)

IsCancelled-list : (p : Stage) → IsCancelled p → in_list p ≡ 1
IsCancelled-list p h = ground arith

IsCancelled-Step :
    {s t : System} (i : ℕ) → Step s t → IsCancelled (s.stage i) → IsCancelled (t.stage i)
IsCancelled-Step i (Step.enter j at free) h = ground arith
IsCancelled-Step i (Step.local j at mv) h = elim (Bool-cases (nat_beq j i)) [
  | inl same ↦ absurd (Local-IsCancelled mv (ground arith))
  | inr other ↦ ground arith
]
IsCancelled-Step i (Step.end j at idle ending) h = elim (Bool-cases (nat_beq j i)) [
  | inl same ↦ absurd (End-IsCancelled ending (ground arith))
  | inr other ↦ ground arith
]
IsCancelled-Step i (Step.append j at mv) h = elim (Bool-cases (nat_beq j i)) [
  | inl same ↦ absurd (Append-IsCancelled mv (ground arith))
  | inr other ↦ ground arith
]
IsCancelled-Step i (Step.callback j at called free) h = ground arith
IsCancelled-Step i (Step.callback_raises j at called free) h = ground arith
IsCancelled-Step i (Step.wait_for_exit free empty) h = h

IsCancelled-Steps :
    {s t : System} (i : ℕ) → Steps s t → IsCancelled (s.stage i) → IsCancelled (t.stage i)
IsCancelled-Steps i stay h = h
IsCancelled-Steps i (more steps step) h = IsCancelled-Step i step (IsCancelled-Steps i steps h)

-- A monitored task that ends cancelled is never taken from the list, since its callback raises: once
-- that has happened, wait_for_exit does not end, in whatever order the threads run.
pub cancelled_is_kept :
    {s t : System} (i : ℕ) → IsReachable s → s.stage i ≡ ended cancelled → Steps s t → ¬ CanExit t
cancelled_is_kept {s} {t} i reached at steps (free, empty) =
    let inv = Inv-Steps (Inv-Steps Inv-bootstrap reached) steps in
    let kept = IsCancelled-Steps i steps (inl at) in
    absurd (ground (arith, inv.listing i, IsCancelled-list (t.stage i) kept))
