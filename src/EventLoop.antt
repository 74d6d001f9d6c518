-- ===== src/EventLoop.antt =====
-- EventLoop.h and EventLoop.cpp: the flags, the pending functors and the eventfd of a loop.
-- A Functor is a number, and so is a Channel*, its address; `in_loop` says whether the calling thread
-- is the loop's own, which isInLoopThread tests.
pub mod Wakeup
pub mod Order
pub mod Removal
pub mod Registry
pub mod Looping
mod Tests
use wserver.Prelude.{
  ℕ, suc, ◌+◌, ◌≡◌, Bool, true, false, not, ◌&&◌, ◌||◌, Option, none, some, List, [], ◌∷◌, ◌++◌,
  Exec, done, stop, fatal, require, ◌>>=◌, ◌==◌, if◌then◌else◌,
}

pub record EventLoop : Type 0 where
  pub quit : Bool
  pub calling_pending_functors : Bool
  pub event_handling : Bool
  pub active_channels : List ℕ
  pub current_active_channel : Option ℕ
  pub pending_functors : List ℕ
  pub eventfd : ℕ

unfoldable pub new : EventLoop
new = record {
  quit = false;
  calling_pending_functors = false;
  event_handling = false;
  active_channels = [];
  current_active_channel = none;
  pending_functors = [];
  eventfd = 0;
}

-- write(2) of 1 to the eventfd, which adds it to the counter.
unfoldable pub wakeup : EventLoop → EventLoop
wakeup l = record l { eventfd = l.eventfd + 1 }

-- handleRead: the reads until EAGAIN leave the counter at 0.
unfoldable pub handle_read : EventLoop → EventLoop
handle_read l = record l { eventfd = 0 }

-- The part of queueInLoop under the mutex.
unfoldable pub push : ℕ → EventLoop → EventLoop
push f l = record l { pending_functors = l.pending_functors ++ f ∷ [] }

-- The test of queueInLoop behind it, and the wakeup.
unfoldable pub wakeup_if_needed : Bool → EventLoop → EventLoop
wakeup_if_needed in_loop l = if not in_loop || l.calling_pending_functors then wakeup l else l

unfoldable pub queue_in_loop : Bool → ℕ → EventLoop → EventLoop
queue_in_loop in_loop f l = wakeup_if_needed in_loop (push f l)

-- runInLoop: the functors that run at once.
unfoldable pub run_in_loop : Bool → ℕ → EventLoop → EventLoop × List ℕ
run_in_loop true f l = (l, f ∷ [])
run_in_loop false f l = (queue_in_loop false f l, [])

unfoldable pub quit_loop : Bool → EventLoop → EventLoop
quit_loop in_loop l = let l' = record l { quit = true } in if in_loop then l' else wakeup l'

-- poll has returned these channels.
unfoldable pub begin_events : List ℕ → EventLoop → EventLoop
begin_events active l = record l { active_channels = active; event_handling = true }

-- The loop's next channel, whose handleEvent is called.
unfoldable pub activate : ℕ → EventLoop → EventLoop
activate c l = record l { current_active_channel = some c }

unfoldable pub end_events : EventLoop → EventLoop
end_events l = record l { current_active_channel = none; event_handling = false }

-- doPendingFunctors: before the functors run, what is to run being returned, and after.
unfoldable pub swap_pending : EventLoop → EventLoop × List ℕ
swap_pending l =
    (record l { calling_pending_functors = true; pending_functors = [] }, l.pending_functors)

unfoldable pub finish_pending : EventLoop → EventLoop
finish_pending l = record l { calling_pending_functors = false }

abbrev pub is_current : Option ℕ → ℕ → Bool
is_current none c = false
is_current (some b) c = b == c

abbrev pub is_member : ℕ → List ℕ → Bool
is_member c [] = false
is_member c (b ∷ bs) = b == c || is_member c bs

-- The test of removeChannel before Epoll::removeChannel.
unfoldable pub check_removal : ℕ → EventLoop → Exec EventLoop
check_removal c l =
    if l.event_handling
      && (not (is_current l.current_active_channel c) || is_member c l.active_channels)
    then stop fatal
    else done l
