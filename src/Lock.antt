-- ===== src/Lock.antt =====
-- internal/lock/lock.go: `WithFileTimeout` on a lock file that was opened. Durations are numbers of
-- nanoseconds, where 0 also stands for a negative one.
pub mod Ended
use myminivault.Prelude.{
  ℕ, zero, suc, ◌+◌, Bool, true, false, ◌||◌, ◌==◌, Option, none, some, if◌then◌else◌, ltb,
}

-- What a non-blocking `syscall.Flock` returns.
pub data Flock : Type 0 where
  acquired busy refused : Flock

-- `ran` where the function was called under the lock.
pub data Outcome : Type 0 where
  ran lock_failed timed_out : Outcome

-- `if retryDelay <= 0 { retryDelay = 50 * time.Millisecond }`
unfoldable pub delay_or_default : ℕ → ℕ
delay_or_default retry_delay = if retry_delay == 0 then 50000000 else retry_delay

-- `attempt i` is what the i-th attempt meets, and `now i` the clock after it. `none` means that the fuel
-- ran out.
module _ (attempt : ℕ → Flock) (now : ℕ → ℕ) (timeout delay deadline : ℕ) where
  unfoldable pub wait : ℕ → ℕ → Option Outcome
  wait zero i = none
  wait (suc fuel) i =
      let rest = wait fuel (i + 1) in
      elim (attempt i) [
        | acquired ↦ some ran
        | refused ↦ some lock_failed
        | busy ↦ if timeout == 0 || ltb deadline (now i + delay) then some timed_out else rest
      ]

-- `start` is the time at which the deadline is set.
unfoldable pub with_file_timeout : (ℕ → Flock) → (ℕ → ℕ) → ℕ → ℕ → ℕ → ℕ → Option Outcome
with_file_timeout attempt now start timeout retry_delay fuel =
    wait attempt now timeout (delay_or_default retry_delay) (start + timeout) fuel 0
