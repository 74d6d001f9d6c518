-- ===== src/EventLoop/Wakeup.antt =====
-- The loop and other threads that queue functors, step by step: no wakeup is lost, no functor either.
use wserver.Prelude.{ℕ, suc, ◌≡◌, true, false, List, [], ◌∷◌, ◌++◌}
use wserver.EventLoop.{
  EventLoop, new, wakeup_if_needed, push, queue_in_loop, handle_read, begin_events, end_events,
  swap_pending, finish_pending, quit_loop, activate, is_member,
}

-- Where the loop's thread is: in epoll_wait, among the handlers, in doPendingFunctors with these
-- functors still to run, or behind the loop.
pub data Phase : Type 0 where
  polling handling stopped : Phase
  running : List ℕ → Phase

-- `owed` counts the other threads that have pushed a functor and are about to call wakeup. `queued`
-- and `ran` are the functors that were queued, and those that ran, in order.
pub record System : Type 0 where
  pub loop : EventLoop
  pub phase : Phase
  pub owed : ℕ
  pub queued : List ℕ
  pub ran : List ℕ

unfoldable pub start : System
unfolding new
start = record { loop = new; phase = polling; owed = 0; queued = []; ran = [] }

pub data Step : System → System → Type 0 where
  -- Another thread in queueInLoop: under the mutex, and behind it.
  other_push :
      (s : System) (f : ℕ)
      → Step s (record s { loop = push f s.loop; owed = suc s.owed; queued = s.queued ++ f ∷ [] })
  other_wakeup :
      (s : System) (n : ℕ)
      → s.owed ≡ suc n
      → Step s (record s { loop = wakeup_if_needed false s.loop; owed = n })
  other_quits : (s : System) → Step s (record s { loop = quit_loop false s.loop })
  -- The loop's own thread.
  poll_returns :
      (s : System) (active : List ℕ)
      → s.phase ≡ polling
      → Step s (record s { loop = begin_events active s.loop; phase = handling })
  drain : (s : System) → s.phase ≡ handling → Step s (record s { loop = handle_read s.loop })
  dispatch :
      (s : System) (c : ℕ)
      → s.phase ≡ handling
      → is_member c s.loop.active_channels ≡ true
      → Step s (record s { loop = activate c s.loop })
  handler_queues :
      (s : System) (f : ℕ)
      → s.phase ≡ handling
      → Step s (record s { loop = queue_in_loop true f s.loop; queued = s.queued ++ f ∷ [] })
  functor_queues :
      (s : System) (f : ℕ) (fs : List ℕ)
      → s.phase ≡ running fs
      → Step s (record s { loop = queue_in_loop true f s.loop; queued = s.queued ++ f ∷ [] })
  swap :
      (s : System)
      → s.phase ≡ handling
      → Step s (record s {
        loop = (swap_pending (end_events s.loop)).0;
        phase = running (swap_pending (end_events s.loop)).1;
      })
  call :
      (s : System) (f : ℕ) (fs : List ℕ)
      → s.phase ≡ running (f ∷ fs)
      → Step s (record s { phase = running fs; ran = s.ran ++ f ∷ [] })
  again :
      (s : System)
      → s.phase ≡ running []
      → s.loop.quit ≡ false
      → Step s (record s { loop = finish_pending s.loop; phase = polling })
  leave :
      (s : System)
      → s.phase ≡ running []
      → s.loop.quit ≡ true
      → Step s (record s { loop = finish_pending s.loop; phase = stopped })

pub data Reachable : System → Type 0 where
  begin : Reachable start
  next : {s t : System} → Reachable s → Step s t → Reachable t
