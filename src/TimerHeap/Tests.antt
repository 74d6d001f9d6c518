-- ===== src/TimerHeap/Tests.antt =====
-- Runs of the timer heap, and the theorems at concrete inputs.
use wserver.Prelude.{ℕ, ◌≡◌, refl, some, List, [], ◌∷◌, done, Returns, arith}
use wserver.TimerHeap.{
  Timer, Slot, TimerHeap, deref, less, swap, choose, percolate_down, set_timer, add_timer_in_loop,
  pop, timeout_loop, handle_timeout_events,
}
use wserver.TimerHeap.Order.{IsHeap}
use wserver.TimerHeap.Up.{IsValid, Added, add_timer_in_loop_correct}
use wserver.TimerHeap.Timeouts.{HandledTimeouts, handle_timeout_events_correct}

abbrev timer : ℕ → ℕ → Timer
timer at cb = record { expire_time = at; cb = cb }

abbrev three : List Slot
three = some (timer 10 1) ∷ some (timer 40 2) ∷ some (timer 20 3) ∷ []

abbrev waiting : TimerHeap
waiting = record { min_heap = three; armed = some 20 }

waiting-IsValid : IsValid waiting
waiting-IsValid = record { heap = λ c a b. ordered c a b; nonnull = (tt, (tt, (tt, tt))) }
  where
    ordered : IsHeap three
    ordered = grind arith

expired_in_order :
    handle_timeout_events waiting 30
    ≡ done (record waiting { min_heap = some (timer 40 2) ∷ [] }, timer 10 1 ∷ timer 20 3 ∷ [])
unfolding handle_timeout_events timeout_loop pop swap percolate_down choose less deref
expired_in_order = refl

add_timer_in_loop_correct_example :
    Returns (Added waiting (timer 8 4) (set_timer 5 3)) (add_timer_in_loop waiting 5 4 3)
add_timer_in_loop_correct_example = add_timer_in_loop_correct waiting 5 4 3 waiting-IsValid

handle_timeout_events_correct_example :
    Returns (HandledTimeouts 30 waiting) (handle_timeout_events waiting 30)
handle_timeout_events_correct_example = handle_timeout_events_correct waiting 30 waiting-IsValid
