-- ===== src/EventLoop/Tests.antt =====
-- A functor that another thread queues while the loop waits.
use wserver.Prelude.{
  none, some, Returns, false, true, List, suc, ◌≡◌, refl, [], ◌∷◌, ◌++◌, stop, fatal,
}
use wserver.Epoll.{Epoll}
use wserver.Epoll.Table.{table_kernel}
use wserver.EventLoop.Registry.{construct, Registered, construct-Registered}
use wserver.EventLoop.Looping.{Pass, quits, queues, drains, loop, until_quit, Ends, loop-Ends}
use wserver.EventLoop.{EventLoop, new, quit_loop, push, begin_events, activate, check_removal}
use wserver.EventLoop.Wakeup.{
  System, start, other_push, handling, poll_returns, dispatch, Reachable, begin, next,
}
use wserver.EventLoop.Order.{Awake, left, Reachable-Awake, Reachable-order}
use wserver.EventLoop.Removal.{check_removal-Reachable}

abbrev pushed : System
pushed = record start {
  loop = push 7 start.loop;
  owed = suc start.owed;
  queued = start.queued ++ 7 ∷ [];
}

pushed-Reachable : Reachable pushed
pushed-Reachable = next begin (other_push start 7)

Reachable-Awake_example : Awake pushed.loop pushed.owed
unfolding start
Reachable-Awake_example = Reachable-Awake pushed pushed-Reachable refl

Reachable-order_example :
    pushed.ran ++ (left pushed.phase ++ pushed.loop.pending_functors) ≡ pushed.queued
Reachable-order_example = Reachable-order pushed pushed-Reachable

-- poll has returned the channels 7 and 9, and 7 is being handled.
abbrev polled : System
polled = record start { loop = begin_events (7 ∷ 9 ∷ []) start.loop; phase = handling }

abbrev dispatched : System
dispatched = record polled { loop = activate 7 polled.loop }

dispatched-Reachable : Reachable dispatched
unfolding start begin_events
dispatched-Reachable =
    next (next begin (poll_returns start (7 ∷ 9 ∷ []) refl)) (dispatch polled 7 refl refl)

check_removal-Reachable_example : check_removal 7 dispatched.loop ≡ stop fatal
unfolding start begin_events
check_removal-Reachable_example = check_removal-Reachable dispatched 7 dispatched-Reachable refl

-- quit() comes before loop(), and again in the second pass, from another thread.
abbrev early : EventLoop
early = quit_loop false new

abbrev its_passes : List Pass
its_passes =
    record { polling = []; active = (7, queues true 3 ∷ []) ∷ []; functors = queues true 4 ∷ [] }
    ∷ record { polling = quits false ∷ []; active = (1, drains ∷ []) ∷ []; functors = [] }
    ∷ record { polling = []; active = []; functors = [] }
    ∷ []

loop-Ends_example :
    Ends (until_quit its_passes) (record early { quit = false }) (loop its_passes early)
loop-Ends_example = loop-Ends its_passes early

abbrev empty_epoll : Epoll table_kernel
empty_epoll = record { channels = λ j. none; capacity = 16; kernel = λ j. none }

construct-Registered_example :
    Returns
      (Registered table_kernel 5 0xE0 (λ j. none) empty_epoll)
      (construct table_kernel 5 0xE0 0xC0 (some 9) (λ j. none) empty_epoll)
construct-Registered_example =
    construct-Registered table_kernel 5 0xE0 0xC0 9 (λ j. none) empty_epoll refl refl refl
