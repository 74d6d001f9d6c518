-- ===== src/Condition/Tests.antt =====
-- A wait of three seconds, where the machine has run for a thousand.
use wserver.Prelude.{ℕ, leb, if◌then◌else◌}
use wserver.Condition.{ClockId, clock_realtime, clock_monotonic, Timespec, etimedout}
use wserver.Condition.Deadline.{nanoseconds}

abbrev clocks : ClockId → Timespec
clocks clock_monotonic = record { tv_sec = 1000; tv_nsec = 999999999 }
clocks clock_realtime = record { tv_sec = 1700000000; tv_nsec = 5 }

-- A call that waits until the time has passed on CLOCK_REALTIME, and reports the timeout.
abbrev timedwait : Timespec → ℕ
timedwait t = if leb (nanoseconds t) (nanoseconds (clocks clock_realtime)) then etimedout else 0
