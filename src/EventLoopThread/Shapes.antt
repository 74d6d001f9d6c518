-- ===== src/EventLoopThread/Shapes.antt =====
-- The states of a thread that starts another one and waits for its loop, and what a step makes of them.
use wserver.Prelude.{
  ℕ, ◌+◌, ◌*◌, ◌≡◌, ◌<◌, refl, Bool, true, false, Option, none, some, ◌==◌, if◌then◌else◌, Returns,
  arith,
}
use wserver.CountDownLatch.{wait, count_down}
use wserver.EventLoopThread.{
  MainPc, ready, in_latch, checking, in_cond, leaving, returned, ChildPc, not_made, entered,
  counting, building, looping, Threads, start, wait_latch, check_tid, wait_loop, start_loop,
  can_run, wake_latch, wake_cond, run_in_thread, child_runs,
}

abbrev pub main_left : MainPc → ℕ
main_left ready = 5
main_left in_latch = 4
main_left checking = 3
main_left in_cond = 2
main_left leaving = 1
main_left (returned r) = 0

abbrev pub child_left : ChildPc → ℕ
child_left not_made = 4
child_left entered = 3
child_left counting = 2
child_left building = 1
child_left looping = 0

-- A bound on the steps that are left, where no wait ends by itself.
abbrev pub left : Threads → ℕ
left s = 2 * (main_left s.main + child_left s.child) + (if can_run s.main s then 1 else 0)

-- The shapes of the reachable states. Before the start; before countDown, with startLoop awake or not;
-- before the loop is handed over; and behind that.
pub data Shape : Type 0 where
  fresh : Shape
  no_tid with_tid : Bool → Shape
  counted checked : Shape
  waits : Bool → Shape
  looped_latch looped_checked looped_waits leaves returns : Shape

module _ (tid address : ℕ) where
  abbrev pub latched : MainPc → ChildPc → ℕ → Bool → Threads
  latched m c t a = record {
    main = m;
    child = c;
    started = true;
    tid = t;
    latch = record { count = 1; asleep = a };
    loop = none;
    asleep = false;
  }

  abbrev pub open_latch : MainPc → ChildPc → Option ℕ → Bool → Threads
  open_latch m c l a = record {
    main = m;
    child = c;
    started = true;
    tid = tid;
    latch = record { count = 0; asleep = false };
    loop = l;
    asleep = a;
  }

  abbrev pub shape : Shape → Threads
  shape fresh = record {
    main = ready;
    child = not_made;
    started = false;
    tid = 0;
    latch = record { count = 1; asleep = false };
    loop = none;
    asleep = false;
  }
  shape (no_tid a) = latched in_latch entered 0 a
  shape (with_tid a) = latched in_latch counting tid a
  shape counted = open_latch in_latch building none false
  shape checked = open_latch checking building none false
  shape (waits a) = open_latch in_cond building none a
  shape looped_latch = open_latch in_latch looping (some address) false
  shape looped_checked = open_latch checking looping (some address) false
  shape looped_waits = open_latch in_cond looping (some address) false
  shape leaves = open_latch leaving looping (some address) false
  shape returns = open_latch (returned (some address)) looping (some address) false

  -- What a step from the state `s` leaves.
  abbrev pub Moved : Threads → Threads → Type 0
  Moved s s' = (c : Shape) × (s' ≡ shape c) × (left s' < left s)

  pub main_moves :
      (c : Shape)
      → 0 < tid
      → can_run (shape c).main (shape c) ≡ true
      → Returns (Moved (shape c)) (start_loop (shape c).main (shape c))
  unfolding start_loop start wait_latch check_tid wait_loop wait
  main_moves fresh h r = (_, refl, (no_tid false, refl, omega arith))
  main_moves (no_tid false) h r = (_, refl, (no_tid true, refl, omega arith))
  main_moves (no_tid true) h r = absurd (cc r)
  main_moves (with_tid false) h r = (_, refl, (with_tid true, refl, omega arith))
  main_moves (with_tid true) h r = absurd (cc r)
  main_moves counted h r = (_, refl, (checked, refl, omega arith))
  main_moves checked h r =
      let known : (tid == 0) ≡ false = ground arith in
      rw known (_, refl, (waits false, refl, omega arith))
  main_moves (waits false) h r = (_, refl, (waits true, refl, omega arith))
  main_moves (waits true) h r = absurd (cc r)
  main_moves looped_latch h r = (_, refl, (looped_checked, refl, omega arith))
  main_moves looped_checked h r =
      let known : (tid == 0) ≡ false = ground arith in
      rw known (_, refl, (looped_waits, refl, omega arith))
  main_moves looped_waits h r = (_, refl, (leaves, refl, omega arith))
  main_moves leaves h r = (_, refl, (returns, refl, omega arith))
  main_moves returns h r = absurd (cc r)

  pub child_moves :
      (c : Shape)
      → child_runs tid address (shape c).child ≡ true
      → Moved (shape c) (run_in_thread tid address (shape c).child (shape c))
  unfolding run_in_thread count_down
  child_moves fresh r = absurd (cc r)
  child_moves (no_tid false) r = (with_tid false, refl, omega arith)
  child_moves (no_tid true) r = (with_tid true, refl, omega arith)
  child_moves (with_tid false) r = (counted, refl, omega arith)
  child_moves (with_tid true) r = (counted, refl, omega arith)
  child_moves counted r = (looped_latch, refl, omega arith)
  child_moves checked r = (looped_checked, refl, omega arith)
  child_moves (waits false) r = (looped_waits, refl, omega arith)
  child_moves (waits true) r = (looped_waits, refl, omega arith)
  child_moves looped_latch r = absurd (cc r)
  child_moves looped_checked r = absurd (cc r)
  child_moves looped_waits r = absurd (cc r)
  child_moves leaves r = absurd (cc r)
  child_moves returns r = absurd (cc r)

  pub latch_woken : (c : Shape) → (d : Shape) × (wake_latch (shape c) ≡ shape d)
  latch_woken (no_tid a) = (no_tid false, refl)
  latch_woken (with_tid a) = (with_tid false, refl)
  latch_woken fresh = (fresh, refl)
  latch_woken counted = (counted, refl)
  latch_woken checked = (checked, refl)
  latch_woken (waits a) = (waits a, refl)
  latch_woken looped_latch = (looped_latch, refl)
  latch_woken looped_checked = (looped_checked, refl)
  latch_woken looped_waits = (looped_waits, refl)
  latch_woken leaves = (leaves, refl)
  latch_woken returns = (returns, refl)

  pub cond_woken : (c : Shape) → (d : Shape) × (wake_cond (shape c) ≡ shape d)
  cond_woken (waits a) = (waits false, refl)
  cond_woken (no_tid a) = (no_tid a, refl)
  cond_woken (with_tid a) = (with_tid a, refl)
  cond_woken fresh = (fresh, refl)
  cond_woken counted = (counted, refl)
  cond_woken checked = (checked, refl)
  cond_woken looped_latch = (looped_latch, refl)
  cond_woken looped_checked = (looped_checked, refl)
  cond_woken looped_waits = (looped_waits, refl)
  cond_woken leaves = (leaves, refl)
  cond_woken returns = (returns, refl)
