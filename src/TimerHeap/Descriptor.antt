-- ===== src/TimerHeap/Descriptor.antt =====
-- TimerHeap.cpp: the timer's descriptor and its channel, from the constructor to the destructor.
use wserver.Prelude.{
  ℕ, ◌≡◌, refl, Bool, true, false, ◌+◌, Option, none, some, List, [], ◌∷◌, Exec, done, stop, fatal,
  ◌>>=◌, ◌==◌, if◌then◌else◌, Returns,
}
use wserver.Channel
use wserver.Channel.{Channel, k_read_event, enable_reading}
use wserver.Epoll.{Kernel, Epoll, update_channel}
use wserver.Epoll.Registration.{retire}
use wserver.Epoll.Restored.{Alike, retire-update_channel}

-- The channel at `address`, on the descriptor `timerfd`; `closed` after close(2).
pub record TimerFd : Type 0 where
  pub address : ℕ
  pub timerfd : ℕ
  pub channel : Channel
  pub closed : Bool

-- readTimerFd: how many of the reads before the first -1 did not give eight bytes. The results of a
-- list are followed by -1.
unfoldable pub read_timer_fd : List (Option ℕ) → ℕ
read_timer_fd [] = 0
read_timer_fd (none ∷ rs) = 0
read_timer_fd (some n ∷ rs) = let rest = read_timer_fd rs in if n == 8 then rest else 1 + rest

module _ (k : Kernel) where
  -- The constructor; `none` is a failure of timerfd_create(2).
  unfoldable pub create : ℕ → Option ℕ → Epoll k → Exec (TimerFd × Epoll k)
  unfolding enable_reading
  create address none e = stop fatal
  create address (some fd) e = do
    r ←
        update_channel k address (enable_reading (record (Channel.new fd) { read_handler = true }))
          e
    done (record { address = address; timerfd = fd; channel = r.0; closed = false }, r.1)

  -- The destructor: disableAll, remove, and close(2).
  unfoldable pub destroy : TimerFd → Epoll k → Exec (TimerFd × Epoll k)
  destroy t e = do
    r ← retire k t.address t.channel e
    done (record t { channel = r.0; closed = true }, r.1)

  -- A timer heap that is made, with a descriptor that is in neither table, and destroyed: both return,
  -- the descriptor is closed, and the epoll is as it was before.
  pub destroy-create :
      (address fd : ℕ) (e : Epoll k)
      → k.registered e.kernel fd ≡ none
      → e.channels fd ≡ none
      → Returns
          (λ r. (r.0.closed ≡ true) × Alike k e r.1)
          (create address (some fd) e >>= λ r. destroy r.0 r.1)
  unfolding create destroy Channel.new
  destroy-create address fd e n m =
      let (r, updated, (q, retired, alike)) =
        retire-update_channel k address k_read_event
          (record (Channel.new fd) { read_handler = true }) e n m in
      rw (updated, retired) (_, refl, (refl, alike))
