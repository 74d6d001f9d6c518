-- ===== src/EventLoopThread/Tests.antt =====
-- A thread that has started another one and sleeps.
use wserver.Prelude.{refl, true, false, none, arith}
use wserver.CountDownLatch
use wserver.CountDownLatch.{wait}
use wserver.EventLoopThread.{
  Threads, in_latch, entered, new, start, wait_latch, start_loop, Reach, begin, later, main_steps,
}
use wserver.EventLoopThread.Handover.{Handover, Reach-Handover}

abbrev sleeps : Threads
sleeps = record {
  main = in_latch;
  child = entered;
  started = true;
  tid = 0;
  latch = record { count = 1; asleep = true };
  loop = none;
  asleep = false;
}

sleeps-Reach : Reach 7 9 sleeps
unfolding new CountDownLatch.new start_loop start wait_latch wait
sleeps-Reach = later (later begin (main_steps refl refl)) (main_steps refl refl)

Reach-Handover_example : Handover 7 9 sleeps
Reach-Handover_example = Reach-Handover 7 9 sleeps (omega arith) sleeps-Reach
