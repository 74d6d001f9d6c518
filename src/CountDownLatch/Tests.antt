-- ===== src/CountDownLatch/Tests.antt =====
-- A latch of 1, for which one thread waits while another counts down.
use wserver.Prelude.{refl}
use wserver.Mutex.{guard, lock, end_guard, unlock}
use wserver.CountDownLatch.{wait, count_down}
use wserver.CountDownLatch.Monitor.{
  Monitor, call_wait, lock_wait, test, call_down, lock_down, down, Reach, begin, later,
}
use wserver.CountDownLatch.Safety.{Safe, Reach-Safe}
use wserver.CountDownLatch.Progress.{CanReturn, Reach-CanReturn}

abbrev run : (s : Monitor) × Reach 1 s
unfolding guard lock end_guard unlock wait count_down
run = (
  _,
  later 1
      (later 1
        (later 1
          (later 0 (later 0 (later 0 begin (call_wait refl)) (lock_wait refl refl)) (test refl))
          (call_down refl))
        (lock_down refl refl))
      (down refl),
)

Reach-Safe_example : Safe run.0
Reach-Safe_example = Reach-Safe 1 run.0 run.1

Reach-CanReturn_example : CanReturn 0 run.0
unfolding run count_down
Reach-CanReturn_example = Reach-CanReturn 1 0 run.0 run.1 refl refl
