-- ===== src/Polling/Backoff.antt =====
-- The delay between two polls of one scan.
use native.Mathlib.Nat.{pow-suc, pow-zero}
use native.Mathlib.Decide.{dec_le}
use Prim.Native.Nat.{◌^◌}
use cxone_flow_buildwork.Prelude.{ℕ, zero, suc, ◌*◌, ◌≤◌, min, ◌≡◌, ◌∙◌, ap, arith}
use cxone_flow_buildwork.Polling.{PollConfig, next_delay}

-- The delay of the n-th poll, the first one `start`.
pub delay_after : PollConfig → ℕ → ℕ → ℕ
delay_after c start zero = start
delay_after c start (suc n) = next_delay c (delay_after c start n)

le-mul : (a s : ℕ) → 1 ≤ s → a ≤ a * s
le-mul a s h = grind arith

mul_mono : (a b s : ℕ) → a ≤ b → a * s ≤ b * s
mul_mono a b s h = grind arith

capped : (a m s : ℕ) → 1 ≤ s → min (min a m * s) m ≡ min (a * s) m
capped a m s h = elim (dec_le a m) [
  | yes p ↦ let e : min a m ≡ a = omega arith in rw e
  | no p ↦
      let e : min a m ≡ m = omega arith in
      rw e (omega (arith, le-mul m s h, mul_mono m a s (omega arith)))
]

-- With a multiplier of at least 1 and a first delay that does not exceed the longest interval, the
-- delay of the n-th poll is the first delay times the n-th power of the multiplier, up to the
-- longest interval.
pub delay_after_lem :
    (c : PollConfig) (start n : ℕ)
    → 1 ≤ c.backoff
    → start ≤ c.max_interval
    → delay_after c start n ≡ min (start * c.backoff ^ n) c.max_interval
unfolding delay_after next_delay
delay_after_lem c start zero h k = rw pow-zero (omega arith)
delay_after_lem c start (suc n) h k =
    rw (delay_after_lem c start n h k, pow-suc)
      (capped (start * c.backoff ^ n) c.max_interval c.backoff h
        ∙ ap (λ (x : ℕ). min x c.max_interval) (grind (arith)))
