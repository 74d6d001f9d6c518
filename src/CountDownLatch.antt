-- ===== src/CountDownLatch.antt =====
-- base/CountDownLatch.h and base/CountDownLatch.cpp: a latch that one thread waits for.
-- A count of 0 stands for 0 and below, where neither wait nor countDown does anything; `asleep` says
-- that the thread waits on the condition.
pub mod Monitor
pub mod Safety
pub mod Progress
mod Tests
use wserver.Prelude.{ℕ, ◌-◌, Bool, true, false, ◌==◌, ltb, if◌then◌else◌}

pub record CountDownLatch : Type 0 where
  pub count : ℕ
  pub asleep : Bool

unfoldable pub new : ℕ → CountDownLatch
new count = record { count = count; asleep = false }

-- One round of the loop of wait, which holds the mutex: whether it ends the loop.
unfoldable pub wait : CountDownLatch → Bool × CountDownLatch
wait l = if ltb 0 l.count then (false, record l { asleep = true }) else (true, l)

unfoldable pub count_down : CountDownLatch → CountDownLatch
count_down l =
    if l.count == 0
    then l
    else record { count = l.count - 1; asleep = if l.count == 1 then false else l.asleep }
