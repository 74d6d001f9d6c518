-- ===== src/Condition.antt =====
-- base/Condition.h: a condition variable, and the time until which waitForSeconds waits. What the
-- pthread calls return is an argument, and the clocks and pthread_cond_timedwait are parameters.
pub mod Deadline
mod Tests
use wserver.Prelude.{ℕ, ◌+◌, ◌*◌, ◌/◌, ◌%◌, Bool, Exec, done, stop, fatal, ◌==◌, if◌then◌else◌}

unfoldable pub new : ℕ → Exec (Unit {0})
new ret = if ret == 0 then done tt else stop fatal

unfoldable pub destroy : ℕ → Exec (Unit {0})
destroy ret = if ret == 0 then done tt else stop fatal

-- A time since the epoch of a clock.
pub record Timespec : Type 0 where
  pub tv_sec : ℕ
  pub tv_nsec : ℕ

abbrev pub k_nano_seconds_per_second : ℕ
k_nano_seconds_per_second = 1000000000

-- `abstime`, from the time that clock_gettime gives; its two fields are changed one after the other.
unfoldable pub abstime : Timespec → ℕ → Timespec
abstime now seconds =
    let nano_seconds = seconds * k_nano_seconds_per_second in
    let later = record now {
      tv_sec = now.tv_sec + (now.tv_nsec + nano_seconds) / k_nano_seconds_per_second;
    } in
    record later { tv_nsec = (later.tv_nsec + nano_seconds) % k_nano_seconds_per_second }

abbrev pub etimedout : ℕ
etimedout = 110

pub data ClockId : Type 0 where
  clock_realtime clock_monotonic : ClockId

-- waitForSeconds; `clock_gettime` is what the clocks show at the call.
unfoldable pub wait_for_seconds : (ClockId → Timespec) → (Timespec → ℕ) → ℕ → Bool
wait_for_seconds clock_gettime timedwait seconds =
    etimedout == timedwait (abstime (clock_gettime clock_monotonic) seconds)
