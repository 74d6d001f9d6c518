-- ===== src/Condition/Deadline.antt =====
-- The deadline of waitForSeconds: the time that it stands for.
use wserver.Prelude.{ℕ, ◌+◌, ◌*◌, ◌^◌, ◌≡◌, ◌<◌, arith}
use wserver.Condition.{Timespec, abstime}

-- The nanoseconds that a time stands for.
abbrev pub nanoseconds : Timespec → ℕ
nanoseconds t = t.tv_sec * 1000000000 + t.tv_nsec

pub record Later (now : Timespec) (seconds : ℕ) (t : Timespec) : Type 0 where
  pub normal : t.tv_nsec < 1000000000
  pub instant : nanoseconds t ≡ nanoseconds now + seconds * 1000000000
  pub product : seconds * 1000000000 < 2 ^ 63
  pub sum : now.tv_nsec + seconds * 1000000000 < 2 ^ 63

-- `abstime`, from a time with less than a second of nanoseconds and
-- for a number of seconds that an int holds: it has less than a second of nanoseconds, as
-- pthread_cond_timedwait wants it, it lies exactly so many seconds later, and no product or sum on
-- the way leaves an int64_t.
pub abstime-Later :
    (now : Timespec) (seconds : ℕ)
    → now.tv_nsec < 1000000000
    → seconds < 2 ^ 31
    → Later now seconds (abstime now seconds)
unfolding abstime
abstime-Later now seconds h s = record {
  normal = omega arith;
  instant = omega arith;
  product = omega arith;
  sum = omega arith;
}
