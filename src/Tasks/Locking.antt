-- ===== src/Tasks/Locking.antt =====
-- Which tasks are in the list, and which one holds the lock.
use cxone_flow_buildwork.Prelude.{
  ℕ, Bool, ◌+◌, ◌-◌, nat_beq, ◌≡◌, refl, Option, none, some, List, [], ◌∷◌, ◌++◌, arith,
  if◌then◌else◌,
}
use cxone_flow_buildwork.Tasks.{
  Stage, locked, scheduled, watching, listed, lost, stuck, early, watched, ended, Local, End,
  Append, System, remove, Step,
}

-- between the lock's acquisition and its release in in_background
abbrev pub holds : Stage → ℕ
holds locked = 1
holds scheduled = 1
holds (early o) = 1
holds watching = 1
holds (watched o) = 1
holds stuck = 1
holds _ = 0

abbrev pub in_list : Stage → ℕ
in_list listed = 1
in_list (ended o) = 1
in_list lost = 1
in_list _ = 0

abbrev pub count : ℕ → List ℕ → ℕ
count i [] = 0
count i (j ∷ js) = (if nat_beq i j then 1 else 0) + count i js

abbrev pub owns : ℕ → Option ℕ → ℕ
owns i none = 0
owns i (some j) = if nat_beq i j then 1 else 0

pub count-append : (i : ℕ) (xs ys : List ℕ) → count i (xs ++ ys) ≡ count i xs + count i ys
count-append i [] ys = omega arith
count-append i (x ∷ xs) ys = omega (arith, count-append i xs ys)

pub count-remove :
    (i j : ℕ) (xs : List ℕ)
    → count j (remove i xs) ≡ (if nat_beq i j then count j xs - 1 else count j xs)
unfolding remove
count-remove i j [] = ground arith
count-remove i j (x ∷ xs) = ground (arith, count-remove i j xs)

-- Each task is in the list as often as its stage says, and has the lock if its stage says so.
pub record Inv (s : System) : Type 0 where
  pub listing : (i : ℕ) → count i s.monitored ≡ in_list (s.stage i)
  pub locking : (i : ℕ) → owns i s.lock ≡ holds (s.stage i)

pub Local-keeps : {p q : Stage} → Local p q → (in_list p ≡ in_list q) × (holds p ≡ holds q)
Local-keeps Local.schedule = (refl, refl)
Local-keeps Local.add_done_callback = (refl, refl)
Local-keeps Local.call_at_once = (refl, refl)

pub End-keeps :
    {p q : Stage} {called : Bool} → End p q called → (in_list p ≡ in_list q) × (holds p ≡ holds q)
End-keeps (End.end_early o) = (refl, refl)
End-keeps (End.end_watched o) = (refl, refl)
End-keeps (End.end_listed o) = (refl, refl)

pub Append-lists :
    {p q : Stage} → Append p q → (in_list p ≡ 0) × (in_list q ≡ 1) × (holds p ≡ 1) × (holds q ≡ 0)
Append-lists Append.append_running = (refl, refl, refl, refl)
Append-lists Append.append_ended = (refl, refl, refl, refl)

pub Inv-Step : {s t : System} → Inv s → Step s t → Inv t
unfolding remove
Inv-Step {s} inv (Step.enter i at free) = record {
  listing = λ j. ground (arith, inv.listing j);
  locking = λ j. ground (arith, inv.locking j);
}
Inv-Step {s} inv (Step.local i at mv) = record {
  listing = λ j. ground (arith, inv.listing j, inv.listing i, Local-keeps mv);
  locking = λ j. ground (arith, inv.locking j, inv.locking i, Local-keeps mv);
}
Inv-Step {s} inv (Step.end i at idle ending) = record {
  listing = λ j. ground (arith, inv.listing j, inv.listing i, End-keeps ending);
  locking = λ j. ground (arith, inv.locking j, inv.locking i, End-keeps ending);
}
Inv-Step {s} inv (Step.append i at mv) = record {
  listing =
      λ j. ground (arith, inv.listing j, count-append j s.monitored (i ∷ []), Append-lists mv);
  locking = λ j. ground (arith, inv.locking j, inv.locking i, Append-lists mv);
}
Inv-Step {s} inv (Step.callback i at called free) = record {
  listing = λ j. ground (arith, inv.listing j, count-remove i j s.monitored);
  locking = λ j. ground (arith, inv.locking j);
}
Inv-Step {s} inv (Step.callback_raises i at called free) = record {
  listing = λ j. ground (arith, inv.listing j);
  locking = λ j. ground (arith, inv.locking j);
}
Inv-Step inv (Step.wait_for_exit free empty) = record {
  listing = inv.listing;
  locking = inv.locking;
}
