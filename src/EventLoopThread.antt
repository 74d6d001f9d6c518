-- ===== src/EventLoopThread.antt =====
-- EventLoopThread.h, EventLoopThread.cpp, Thread.h and Thread.cpp: a thread that makes an event loop
-- and hands it to the thread that has started it. What a thread does while it holds a mutex is one
-- step. The loop runs until quit is called, which the thread that waits for the loop cannot do yet.
pub mod Handover
pub mod Shapes
mod Tests
use wserver.Prelude.{
  ℕ, ◌≡◌, Bool, true, false, not, Option, none, some, Exec, done, stop, fatal, ◌==◌, if◌then◌else◌,
}
use wserver.CountDownLatch
use wserver.CountDownLatch.{CountDownLatch, wait, count_down}

-- Where startLoop is: before it, in the wait for the latch, at the test of m_tid, in the wait for the
-- loop, before `return m_loop`, and behind it.
pub data MainPc : Type 0 where
  ready in_latch checking in_cond leaving : MainPc
  returned : Option ℕ → MainPc

-- Where the new thread is: not made yet, in runInThread before its id is set, before countDown, in
-- threadFunc before the loop is handed over, and in the loop.
pub data ChildPc : Type 0 where
  not_made entered counting building looping : ChildPc

-- The fields of Thread and of EventLoopThread; `asleep` says that startLoop waits on m_cond.
pub record Threads : Type 0 where
  pub main : MainPc
  pub child : ChildPc
  pub started : Bool
  pub tid : ℕ
  pub latch : CountDownLatch
  pub loop : Option ℕ
  pub asleep : Bool

unfoldable pub new : Threads
new = record {
  main = ready;
  child = not_made;
  started = false;
  tid = 0;
  latch = CountDownLatch.new 1;
  loop = none;
  asleep = false;
}

-- The test of startLoop, and Thread::start up to its wait; pthread_create succeeds.
unfoldable pub start : Threads → Exec Threads
start s =
    if s.started
    then stop fatal
    else done (record s { main = in_latch; child = entered; started = true })

unfoldable pub wait_latch : Threads → Threads
wait_latch s =
    let w = wait s.latch in record s { main = if w.0 then checking else in_latch; latch = w.1 }

unfoldable pub check_tid : Threads → Exec Threads
check_tid s = if s.tid == 0 then stop fatal else done (record s { main = in_cond })

unfoldable pub wait_loop : Option ℕ → Threads → Threads
wait_loop none s = record s { asleep = true }
wait_loop (some l) s = record s { main = leaving }

-- A step of the thread that calls startLoop.
unfoldable pub start_loop : MainPc → Threads → Exec Threads
start_loop ready s = start s
start_loop in_latch s = done (wait_latch s)
start_loop checking s = check_tid s
start_loop in_cond s = done (wait_loop s.loop s)
start_loop leaving s = done (record s { main = returned s.loop })
start_loop (returned r) s = done s

-- A wait of startLoop that ends by itself.
abbrev pub wake_latch : Threads → Threads
wake_latch s = record s { latch = record s.latch { asleep = false } }

abbrev pub wake_cond : Threads → Threads
wake_cond s = record s { asleep = false }

abbrev pub can_run : MainPc → Threads → Bool
can_run in_latch s = not s.latch.asleep
can_run in_cond s = not s.asleep
can_run (returned r) s = false
can_run _ s = true

module _ (tid address : ℕ) where
  -- A step of the new thread: runInThread, which has `tid`, and then threadFunc, whose loop is at
  -- `address`.
  unfoldable pub run_in_thread : ChildPc → Threads → Threads
  run_in_thread not_made s = s
  run_in_thread entered s = record s { child = counting; tid = tid }
  run_in_thread counting s = record s { child = building; latch = count_down s.latch }
  run_in_thread building s = record s { child = looping; loop = some address; asleep = false }
  run_in_thread looping s = s

  abbrev pub child_runs : ChildPc → Bool
  child_runs not_made = false
  child_runs looping = false
  child_runs _ = true

  -- The steps of the two threads.
  pub data Next (s : Threads) : Threads → Type 0 where
    main_steps :
        {s' : Threads} → can_run s.main s ≡ true → start_loop s.main s ≡ done s' → Next s s'
    child_steps :
        {s' : Threads} → child_runs s.child ≡ true → run_in_thread s.child s ≡ s' → Next s s'

  -- The reachable states; either wait can also end by itself.
  pub data Reach : Threads → Type 0 where
    begin : Reach new
    later : {s s' : Threads} → Reach s → Next s s' → Reach s'
    latch_wakes : {s : Threads} → Reach s → Reach (wake_latch s)
    cond_wakes : {s : Threads} → Reach s → Reach (wake_cond s)
