-- ===== src/CountDownLatch/Monitor.antt =====
-- wait and countDown of CountDownLatch, called by any number of threads: the steps between which the
-- threads may change, with the mutex and the condition as POSIX describes them. A thread that waits
-- on the condition may wake up at any time; a broadcast wakes all of them.
use wserver.Prelude.{ℕ, ◌≡◌, Bool, true, false, none, ◌==◌, if◌then◌else◌}
use wserver.Mutex.{MutexLock, guard, end_guard}
use wserver.CountDownLatch.{CountDownLatch, wait, count_down}

-- Where a thread stands. At `at_wait`, `at_down`, `leaving` and `counted` it holds the mutex.
pub data Pc : Type 0 where
  outside to_wait at_wait asleep awake leaving through to_down at_down counted back : Pc

pub record Monitor : Type 0 where
  pub mutex : MutexLock
  pub count : ℕ
  pub pc : ℕ → Pc

abbrev pub new : ℕ → Monitor
new count = record { mutex = record { holder = none }; count = count; pc = λ i. outside }

abbrev pub update : (ℕ → Pc) → ℕ → Pc → ℕ → Pc
update f i p j = if i == j then p else f j

-- Condition::wait leaves the mutex and waits, in one step; the thread that is woken takes it again.
abbrev pub broadcast : Pc → Pc
broadcast asleep = awake
broadcast p = p

-- The latch as the thread `i` sees it, which holds the mutex; whether another one waits does not
-- show, and is taken to be so.
abbrev pub latch : Monitor → CountDownLatch
latch s = record { count = s.count; asleep = true }

-- The thread stands at the loop of wait.
abbrev pub tested : ℕ → Bool → Monitor → Monitor
tested i true s = record s { pc = update s.pc i leaving }
tested i false s = record s { mutex = end_guard 0 s.mutex; pc = update s.pc i asleep }

-- countDown, between the two ends of its guard.
abbrev pub counts : ℕ → Monitor → Monitor
counts i s =
    let l = count_down (latch s) in
    let others = if l.asleep then s.pc else λ j. broadcast (s.pc j) in
    record s { count = l.count; pc = update others i counted }

-- What takes the mutex, and what leaves it.
abbrev pub takes : ℕ → Pc → Monitor → Monitor
takes i p s = record s { mutex = guard 0 i s.mutex; pc = update s.pc i p }

abbrev pub leaves : ℕ → Pc → Monitor → Monitor
leaves i p s = record s { mutex = end_guard 0 s.mutex; pc = update s.pc i p }

-- One step of the thread `i`, which calls wait and countDown as long as it likes. A thread in
-- `asleep` has no step: a broadcast is what moves it.
pub data Step (i : ℕ) (s : Monitor) : Monitor → Type 0 where
  call_wait : s.pc i ≡ outside → Step i s (record s { pc = update s.pc i to_wait })
  lock_wait : s.pc i ≡ to_wait → s.mutex.holder ≡ none → Step i s (takes i at_wait s)
  test : s.pc i ≡ at_wait → Step i s (tested i (wait (latch s)).0 s)
  relock : s.pc i ≡ awake → s.mutex.holder ≡ none → Step i s (takes i at_wait s)
  end_wait : s.pc i ≡ leaving → Step i s (leaves i through s)
  call_down : s.pc i ≡ outside → Step i s (record s { pc = update s.pc i to_down })
  lock_down : s.pc i ≡ to_down → s.mutex.holder ≡ none → Step i s (takes i at_down s)
  down : s.pc i ≡ at_down → Step i s (counts i s)
  end_down : s.pc i ≡ counted → Step i s (leaves i back s)

-- Steps with no wait that ends without a broadcast.
pub data Steps (s : Monitor) : Monitor → Type 0 where
  stay : Steps s s
  more : {t u : Monitor} (i : ℕ) → Steps s t → Step i t u → Steps s u

-- What runs from a latch of `n`; here a wait can also end without a broadcast.
pub data Reach (n : ℕ) : Monitor → Type 0 where
  begin : Reach n (new n)
  later : {s t : Monitor} (i : ℕ) → Reach n s → Step i s t → Reach n t
  wake :
      {s : Monitor} (i : ℕ)
      → Reach n s
      → s.pc i ≡ asleep
      → Reach n (record s { pc = update s.pc i awake })
