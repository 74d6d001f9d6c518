-- ===== src/TimerHeap.antt =====
-- Timer.h, TimerHeap.h and TimerHeap.cpp: the timers of a loop, a binary min-heap in a vector of
-- unique_ptr<Timer>, and the one timerfd that wakes the loop up.
-- A callback is a number; the callbacks of the server add no timer while they run. `time(NULL)` is
-- the argument `now`, in seconds. The int indices stay below twice the size and two more.
mod Tests
pub mod Descriptor
pub mod Order
pub mod Up
pub mod Down
pub mod Expire
pub mod Timeouts
use wserver.Prelude.{
  ℕ, zero, suc, ◌+◌, ◌-◌, ◌*◌, ◌/◌, ◌^◌, ◌≤◌, ◌<◌, Bool, true, false, ◌&&◌, not, Option, none, some,
  List, [], ◌∷◌, ◌++◌, length, get_elem?, set, take, Exec, done, stop, out_of_bounds, null_deref,
  out_of_fuel, ◌>>=◌, ◌>>◌, require, or_stop, ltb, leb, ◌==◌, if◌then◌else◌,
}
use wserver.Prelude.Arrays.{exchange}

pub record Timer : Type 0 where
  pub expire_time : ℕ
  pub cb : ℕ

-- A unique_ptr<Timer>: null after reset(nullptr).
abbrev pub Slot : Type 0
Slot = Option Timer

-- `armed` is the time at which the timerfd becomes readable, if it is set.
pub record TimerHeap : Type 0 where
  pub min_heap : List Slot
  pub armed : Option ℕ

abbrev pub default_time_delay : ℕ
default_time_delay = 300

-- `m_min_heap[i]`, and the Timer behind it.
unfoldable pub deref : List Slot → ℕ → Exec Timer
deref h i = do slot ← or_stop (get_elem? h i) out_of_bounds; or_stop slot null_deref

-- Timer::less on two slots.
unfoldable pub less : List Slot → ℕ → ℕ → Exec Bool
less h i j = do s ← deref h i; t ← deref h j; done (ltb s.expire_time t.expire_time)

-- unique_ptr::swap of two slots.
unfoldable pub swap : List Slot → ℕ → ℕ → Exec (List Slot)
swap h i j = do
  require (ltb i (length h) && ltb j (length h)) out_of_bounds
  done (exchange none h i j)

-- One child of percolateDown: the smaller of it and the smallest so far, where there is such a child.
unfoldable pub choose : List Slot → ℕ → ℕ → Exec ℕ
choose h child next =
    if ltb child (length h)
    then (do b ← less h child next; done (if b then child else next))
    else done next

unfoldable pub percolate_down : ℕ → List Slot → ℕ → Exec (List Slot)
percolate_down zero h index = stop out_of_fuel
percolate_down (suc k) h index =
    let sink = λ (next : ℕ). swap h index next >>= λ h'. percolate_down k h' next in
    let round : Exec (List Slot) = do
      next ← choose h (2 * index + 1) index
      next' ← choose h (2 * index + 2) next
      if next' == index then done h else sink next'
    in if leb (length h) index then done h else round

unfoldable pub percolate_up : ℕ → List Slot → ℕ → Exec (List Slot)
percolate_up zero h index = stop out_of_fuel
percolate_up (suc k) h index =
    let parent = (index - 1) / 2 in
    let rise = swap h index parent >>= λ h'. percolate_up k h' parent in
    let round : Exec (List Slot) = do b ← less h index parent; if b then rise else done h
    in if index == 0 then done h else round

-- setTimer: timerfd_settime with a relative time; a time of zero disarms the descriptor.
unfoldable pub set_timer : ℕ → ℕ → Option ℕ
set_timer now delay = if delay == 0 then none else some (now + delay)

unfoldable pub add_timer_in_loop : TimerHeap → ℕ → ℕ → ℕ → Exec TimerHeap
add_timer_in_loop t now cb delay = do
  let grown = t.min_heap ++ some (record { expire_time = now + delay; cb = cb }) ∷ []
  h ← percolate_up (length grown) grown (length grown - 1)
  done (record { min_heap = h; armed = set_timer now delay })

unfoldable pub pop : List Slot → Exec (List Slot)
pop h = do
  require (ltb 0 (length h)) out_of_bounds
  let cleared = set h 0 none
  let last = length h - 1
  swapped ← swap cleared 0 last
  percolate_down (length h) (take last swapped) 0

-- The `while` of handleTimeoutEvents, with the timers whose callbacks ran.
unfoldable pub timeout_loop : ℕ → ℕ → List Slot → List Timer → Exec (List Slot × List Timer)
timeout_loop zero now h fired = stop out_of_fuel
timeout_loop (suc k) now h fired =
    let rest = λ (t : Timer). pop h >>= λ h'. timeout_loop k now h' (fired ++ t ∷ []) in
    let round : Exec (List Slot × List Timer) = do
      t ← deref h 0
      if ltb now t.expire_time then done (h, fired) else rest t
    in if length h == 0 then done (h, fired) else round

unfoldable pub handle_timeout_events : TimerHeap → ℕ → Exec (TimerHeap × List Timer)
handle_timeout_events t now = do
  r ← timeout_loop (length t.min_heap + 1) now t.min_heap []
  done (record t { min_heap = r.0 }, r.1)

-- handleRead: the reads empty the timerfd, which is not set again, and handleTimeoutEvents is queued.
unfoldable pub handle_read : TimerHeap → ℕ → TimerHeap
handle_read t now = record t {
  armed = elim t.armed [ none ↦ none | some at ↦ if leb at now then none else some at ];
}
