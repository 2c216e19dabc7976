-- ===== src/Blocks/Counters/Alarm.antt =====
-- How long the timer is active.
use ortd.Prelude.{ℕ, zero, suc, ◌-◌, ◌%◌, ◌^◌, ◌≤◌, ◌<◌, ◌≡◌, true, slt32, arith, word, dec_lt}
use ortd.Blocks.Counters.{Timer, timer_outputs, timer_wait}

-- The timer has counted `k` steps down from `n`, or it has stopped.
record Counts (n k : ℕ) (t : Timer) : Type 0 where
  running : k < n → (t.timer_active ≡ 1) × (t.counter ≡ n - k)
  stopped : n ≤ k → t.timer_active ≡ 0

wait-Counts :
    (count n k : ℕ) (t : Timer)
    → t.timer_active ≡ 1
    → t.counter ≡ n
    → 0 < n
    → n < 2 ^ 31
    → Counts n k (timer_wait count k t)
unfolding timer_wait timer_outputs
wait-Counts count n zero t a c h k = record {
  running = λ l. (a, omega arith);
  stopped = λ l. absurd (omega arith);
}
wait-Counts count n (suc k) t a c h l =
    let before = wait-Counts count n k t a c h l in
    elim (dec_lt k n) [
      | yes p ↦ record {
        running = λ q. ground (arith, (before.running p).0, (before.running p).1);
        stopped = λ q. ground (arith, (before.running p).0, (before.running p).1);
      }
      | no p ↦ record {
        running = λ q. absurd (omega arith);
        stopped = λ q. ground (arith, before.stopped (omega arith));
      }
    ]

started :
    (count trigger : ℕ) (t : Timer)
    → t.timer_active ≡ 0
    → slt32 0 trigger ≡ true
    → ((timer_outputs count trigger t).timer_active ≡ 1)
      × ((timer_outputs count trigger t).counter ≡ count)
unfolding timer_outputs
started count trigger t a e = ground arith

-- A timer that is not active and is triggered with a positive count is active, with the steps that
-- are left as its counter, in that step and the following ones, `count` steps in all, and not active
-- afterwards, until it is triggered again.
pub timer_lem :
    (count trigger k : ℕ) (t : Timer)
    → t.timer_active ≡ 0
    → slt32 0 trigger ≡ true
    → 0 < count
    → count < 2 ^ 31
    → let t' = timer_wait count k (timer_outputs count trigger t) in
      (k < count → (t'.timer_active ≡ 1) × (t'.counter ≡ count - k))
      × (count ≤ k → t'.timer_active ≡ 0)
timer_lem count trigger k t a e h l =
    let (active, counter) = started count trigger t a e in
    let c = wait-Counts count count k (timer_outputs count trigger t) active counter h l in
    (c.running, c.stopped)

wait_below :
    (k : ℕ) (t : Timer)
    → t.timer_active ≡ 1
    → t.counter ≡ 0
    → k < 2 ^ 31
    → ((timer_wait 0 k t).timer_active ≡ 1) × ((timer_wait 0 k t).counter ≡ (word - k) % word)
unfolding timer_wait timer_outputs
wait_below zero t a c h = (a, omega arith)
wait_below (suc k) t a c h =
    let before = wait_below k t a c (omega arith) in ground (arith, before.0, before.1)

-- With the count 0 it is active for more than 2 ^ 31 steps: the counter goes below 0.
pub timer_zero :
    (trigger k : ℕ) (t : Timer)
    → t.timer_active ≡ 0
    → slt32 0 trigger ≡ true
    → k < 2 ^ 31
    → (timer_wait 0 k (timer_outputs 0 trigger t)).timer_active ≡ 1
timer_zero trigger k t a e h =
    let (active, counter) = started 0 trigger t a e in
    (wait_below k (timer_outputs 0 trigger t) active counter h).0
