-- ===== src/Tasks/Examples.antt =====
-- One task from its thread to its callback, and one that is cancelled.
use cxone_flow_buildwork.Prelude.{◌≡◌, ◌⊎◌, refl, some}
use cxone_flow_buildwork.Tasks.{
  Outcome, finished, cancelled, new, told, Local, End, Append, System, Step, Steps, stay, more,
  IsReachable, remove,
}
use cxone_flow_buildwork.Tasks.Exit.{CanExit, exit_leaves_nothing, lock_is_kept, cancelled_is_kept}

-- Some reachable state, as the run leads to it.
record Reached : Type 0 where
  last : System
  reached : IsReachable last

-- the lines of in_background for task 0, and the end of its coroutine afterwards
abbrev handed_over : Outcome → Reached
handed_over o = record {
  last = _;
  reached =
      more
        (more
          (more (more (more stay (Step.enter 0 refl refl)) (Step.local 0 refl Local.schedule))
            (Step.local 0 refl Local.add_done_callback))
          (Step.append 0 refl Append.append_running))
        (Step.end 0 refl refl (End.end_listed o));
}

abbrev served : Reached
unfolding remove
served = record {
  last = _;
  reached = more (handed_over finished).reached (Step.callback 0 refl refl refl);
}

served_stage : served.last.stage 0 ≡ told
unfolding served
served_stage = refl

exit_leaves_nothing_example : (served.last.stage 0 ≡ new) ⊎ (served.last.stage 0 ≡ told)
unfolding served
exit_leaves_nothing_example = exit_leaves_nothing served.reached (refl, refl) 0

lock_is_kept_example :
    (t : System) × Steps served.last t
    × ((u : System) → Steps t u → (u.lock ≡ some 1) × (u.monitored ≡ served.last.monitored))
unfolding served
lock_is_kept_example = lock_is_kept 1 served.reached refl refl refl

cancelled_is_kept_example : ¬ CanExit (handed_over cancelled).last
cancelled_is_kept_example = cancelled_is_kept 0 (handed_over cancelled).reached refl stay
